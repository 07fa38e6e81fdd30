-- ===== src/Xmss.antt =====
-- What the program takes from the signature libraries (leansig, lean_multisig), a parameter, and what
-- crates/common/types/src/signature.rs and crates/common/crypto/src/lib.rs make of it. A wrapper of a
-- library type is that type; the one-time setup of prover and verifier is left out.
use ethlambda.Base.{
  ℕ, Bool, not, Option, List, length, leb, ◌==◌, nat_eq, Outcome, ok, ensure, ok_or, ◌>>=◌, ◌>>◌,
}
use ethlambda.Types.{H256}

pub record Xmss : Type 1 where
  pub PublicKey : Type 0
  pub Signature : Type 0
  pub SecretKey : Type 0
  pub Aggregate : Type 0
  pub public_key_from_bytes : List ℕ → Option PublicKey
  pub signature_from_bytes : List ℕ → Option Signature
  pub signature_to_bytes : Signature → List ℕ
  pub verify : PublicKey → ℕ → H256 → Signature → Bool
  pub sign : SecretKey → ℕ → H256 → Option Signature
  pub aggregate : List PublicKey → List Signature → H256 → ℕ → Option Aggregate
  pub aggregate_to_bytes : Aggregate → List ℕ
  pub aggregate_from_bytes : List ℕ → Option Aggregate
  pub verify_aggregate : List PublicKey → H256 → Aggregate → ℕ → Bool

pub data AggregationError : Type 0 where
  empty_input : AggregationError
  count_mismatch : (public_keys signatures : ℕ) → AggregationError
  aggregation_failed : AggregationError
  proof_too_big : ℕ → AggregationError

pub data VerificationError : Type 0 where
  deserialization_failed : VerificationError
  proof_error : VerificationError

-- the limit of `ByteListMiB`
abbrev pub byte_list_limit : ℕ
byte_list_limit = 1048576

module _ (X : Xmss) where
  open X use {PublicKey, Signature}

  unfoldable pub aggregate_signatures :
      List PublicKey → List Signature → H256 → ℕ → Outcome AggregationError (List ℕ)
  aggregate_signatures public_keys signatures message slot = do
    ensure (length public_keys == length signatures)
        (count_mismatch (length public_keys) (length signatures))
    ensure (not (length public_keys == 0)) empty_input
    aggregate ← ok_or (X.aggregate public_keys signatures message slot) aggregation_failed
    let serialized = X.aggregate_to_bytes aggregate
    ensure (leb (length serialized) byte_list_limit) (proof_too_big (length serialized))
    ok serialized

  unfoldable pub verify_aggregated_signature :
      List ℕ → List PublicKey → H256 → ℕ → Outcome VerificationError (Unit {0})
  verify_aggregated_signature proof_data public_keys message slot = do
    aggregate ← ok_or (X.aggregate_from_bytes proof_data) deserialization_failed
    ensure (X.verify_aggregate public_keys message aggregate slot) proof_error
