-- ===== src/KeyManager.antt =====
-- crates/blockchain/src/key_manager.rs: signing with the keys of the node's validators.
use ethlambda.Base.{
  ℕ, ◌%◌, ◌^◌, List, length, ◌==◌, nat_eq, Map, keys, lookup, Outcome, ok, ensure, ok_or, ◌>>=◌,
  ◌>>◌,
}
use ethlambda.Ssz.{Ssz}
use ethlambda.Types.{H256, AttestationData, Roots}
use ethlambda.Xmss.{Xmss}

pub data KeyManagerError : Type 0 where
  validator_key_not_found : ℕ → KeyManagerError
  signing_error : KeyManagerError
  signature_conversion_error : KeyManagerError

-- `SignatureSize`
abbrev pub signature_size : ℕ
signature_size = 3112

module _ (S : Ssz) (R : Roots S) (X : Xmss) where
  pub record KeyManager : Type 0 where
    pub secret_keys : Map ℕ X.SecretKey

  unfoldable pub validator_ids : KeyManager → List ℕ
  validator_ids manager = keys manager.secret_keys

  unfoldable pub sign_message : KeyManager → ℕ → ℕ → H256 → Outcome KeyManagerError (List ℕ)
  sign_message manager validator_id slot message = do
    secret_key ←
        ok_or (lookup validator_id manager.secret_keys) (validator_key_not_found validator_id)
    signature ← ok_or (X.sign secret_key slot message) signing_error
    let sig_bytes = X.signature_to_bytes signature
    ensure (length sig_bytes == signature_size) signature_conversion_error
    ok sig_bytes

  unfoldable pub sign_attestation :
      KeyManager → ℕ → AttestationData → Outcome KeyManagerError (List ℕ)
  unfolding sign_message
  sign_attestation manager validator_id d =
      sign_message manager validator_id (d.slot % 2 ^ 32) (R.attestation_data_hash d)
