-- ===== src/Chain/Verify.antt =====
-- `verify_signatures` of crates/blockchain/src/store.rs. Bit lists are compared by their bits.
pub mod Proven
pub mod Verified
use ethlambda.Base.{
  ℕ, ◌^◌, Bool, true, false, ◌&&◌, not, Option, none, some, List, [], ◌∷◌, length, get_elem?, any,
  ltb, leb, ◌==◌, nat_eq, if◌then◌else◌, Outcome, ok, err, panic, ensure, ok_or, expect, ◌>>=◌,
  ◌>>◌,
}
use ethlambda.Ssz.{Ssz}
use ethlambda.Types.{
  H256, AttestationData, Validator, validator_indices, AggregatedAttestation,
  AggregatedSignatureProof, BlockWithAttestation, SignedBlockWithAttestation, State, Roots,
}
use ethlambda.Xmss.{Xmss, verify_aggregated_signature}
use ethlambda.Chain.Error.{
  StoreError, map_err, invalid_validator_index, pubkey_decoding_failed,
  proposer_signature_decoding_failed, proposer_signature_verification_failed,
  attestation_signature_mismatch, participants_mismatch, aggregate_verification_failed,
  proposer_attestation_mismatch,
}

abbrev pub bits_beq : List Bool → List Bool → Bool
bits_beq [] [] = true
bits_beq [] (y ∷ ys) = false
bits_beq (x ∷ xs) [] = false
bits_beq (x ∷ xs) (y ∷ ys) = (if x then y else not y) && bits_beq xs ys

-- `u32::try_from(slot).expect("slot exceeds u32")`
abbrev pub slot_u32 : ℕ → Option ℕ
slot_u32 slot = if ltb slot (2 ^ 32) then some slot else none

module _ (S : Ssz) (R : Roots S) (X : Xmss) where
  open R use {attestation_data_hash}
  open X use {PublicKey}

  -- The public keys of validators by index; the first that does not decode is reported. An index
  -- out of range panics.
  unfoldable pub public_keys_of : List Validator → List ℕ → Outcome StoreError (List PublicKey)
  public_keys_of validators [] = ok []
  public_keys_of validators (vid ∷ ids) = do
    validator ← expect (get_elem? validators vid)
    key ← ok_or (X.public_key_from_bytes validator.pubkey) (pubkey_decoding_failed vid)
    keys ← public_keys_of validators ids
    ok (key ∷ keys)

  -- One turn of the loop over the attestations and their proofs.
  unfoldable pub verify_attestation :
      List Validator
      → AggregatedAttestation S
      → AggregatedSignatureProof S
      → Outcome StoreError (Unit {0})
  unfolding public_keys_of
  verify_attestation validators attestation proof = do
    ensure (bits_beq (S.iter attestation.aggregation_bits) (S.iter proof.participants))
        participants_mismatch
    let validator_ids = validator_indices S attestation.aggregation_bits
    ensure (not (any (λ vid. leb (length validators) vid) validator_ids)) invalid_validator_index
    slot ← expect (slot_u32 attestation.attestation_data.slot)
    public_keys ← public_keys_of validators validator_ids
    map_err aggregate_verification_failed (
        verify_aggregated_signature X proof.proof_data public_keys
          (attestation_data_hash attestation.attestation_data) slot)

  unfoldable pub verify_attestations :
      List Validator
      → List (AggregatedAttestation S)
      → List (AggregatedSignatureProof S)
      → Outcome StoreError (Unit {0})
  verify_attestations validators (a ∷ attestations) (p ∷ proofs) = do
    verify_attestation validators a p
    verify_attestations validators attestations proofs
  verify_attestations validators [] proofs = ok tt
  verify_attestations validators (a ∷ attestations) [] = ok tt

  -- The proposer's own attestation, after those of the block.
  unfoldable pub verify_proposer :
      List Validator → SignedBlockWithAttestation S → Outcome StoreError (Unit {0})
  verify_proposer validators signed_block = do
    let block = signed_block.message.block
    let attestation = signed_block.message.proposer_attestation
    ensure (attestation.validator_id == block.proposer_index)
        (proposer_attestation_mismatch attestation.validator_id block.proposer_index)
    signature ←
        ok_or (X.signature_from_bytes signed_block.signature.proposer_signature)
          proposer_signature_decoding_failed
    proposer ← ok_or (get_elem? validators block.proposer_index) invalid_validator_index
    key ← ok_or (X.public_key_from_bytes proposer.pubkey) (pubkey_decoding_failed proposer.index)
    slot ← expect (slot_u32 attestation.attestation_data.slot)
    ensure (X.verify key slot (attestation_data_hash attestation.attestation_data) signature)
        proposer_signature_verification_failed

  unfoldable pub verify_signatures :
      State S → SignedBlockWithAttestation S → Outcome StoreError (Unit {0})
  verify_signatures state signed_block = do
    let attestations = signed_block.message.block.body.attestations
    let signatures = signed_block.signature.attestation_signatures
    ensure (length attestations == length signatures)
        (attestation_signature_mismatch (length signatures) (length attestations))
    verify_attestations state.validators attestations signatures
    verify_proposer state.validators signed_block
