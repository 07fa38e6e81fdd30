-- ===== src/Chain/Gossip/Accepted.antt =====
-- The gossiped votes that the store accepts.
use ethlambda.Base.{
  ◌^◌, ◌≡◌, ◌↔◌, refl, true, some, length, any, leb, ltb, nat_eq, arith, ok, Bool-cases,
  Option-cases, Outcome-cases, inl, inr,
}
use ethlambda.Ssz.{Ssz}
use ethlambda.Types.{
  SignedAggregatedAttestation, AggregatedAttestation, validator_indices, State, Roots,
}
use ethlambda.Xmss.{Xmss, verify_aggregated_signature}
use ethlambda.Storage.Store.{Store, get_state}
use ethlambda.Chain.Validation.{validate_attestation_data}
use ethlambda.Chain.Verify.{public_keys_of, verify_attestation}
use ethlambda.Chain.Verify.Proven.{
  bits_beq_refl, IsProven, KeysOf-in_range, KeysOf-public_keys_of, verify_attestation_iff,
}
use ethlambda.Chain.Gossip.{check_aggregated}

module _ (S : Ssz) (R : Roots S) (X : Xmss) where
  -- The attestation of a block that the proof's participants make.
  abbrev pub as_attestation : SignedAggregatedAttestation S → AggregatedAttestation S
  as_attestation a = record {
    aggregation_bits = a.proof.participants;
    attestation_data = a.attestation_data;
  }

  -- A gossiped aggregated vote is accepted exactly when its data is valid for the store, the store
  -- has the state of its target, and an attestation of a block by the proof's participants for the
  -- same data would be proven by the same proof on that state.
  pub check_aggregated_iff :
      (store : Store S) (a : SignedAggregatedAttestation S)
      → (check_aggregated S R X store a ≡ ok tt)
        ↔ (validate_attestation_data S store a.attestation_data ≡ ok tt)
          × ((target : State S) × (get_state S store a.attestation_data.target.root ≡ some target)
              × IsProven S R X target.validators (as_attestation a) a.proof)
  unfolding check_aggregated verify_attestation verify_aggregated_signature
  check_aggregated_iff store a =
      let d = a.attestation_data in
      let ids = validator_indices S a.proof.participants in
      let slots = Bool-cases (ltb d.slot (2 ^ 32)) in
      let checked = Outcome-cases (validate_attestation_data S store d) in
      (
        (λ h. elim (Option-cases (get_state S store d.target.root)) [
          | inl missing ↦ absurd (ground (arith, checked, missing, h))
          | inr (target, found) ↦
              let range = Bool-cases (any (λ vid. leb (length target.validators) vid) ids) in
              let keys = Outcome-cases (public_keys_of S R X target.validators ids) in
              let valid : validate_attestation_data S store d ≡ ok tt =
                ground (arith, checked, found, h) in
              (
                valid,
                (
                  target,
                  found,
                  (verify_attestation_iff S R X target.validators (as_attestation a) a.proof).0 (
                      ground (
                        arith,
                        range,
                        keys,
                        slots,
                        valid,
                        found,
                        bits_beq_refl (S.iter a.proof.participants),
                        h,
                      )),
                ),
              )
        ]),
        (λ (valid, (target, found, p)).
            let range = KeysOf-in_range S R X target.validators ids p.keys p.keys_of in
            let keys = KeysOf-public_keys_of S R X target.validators ids p.keys p.keys_of in
            let fits : ltb d.slot (2 ^ 32) ≡ true = ground (arith, p.in_u32) in
            rw (valid, found, range, keys, fits, p.decoded, p.accepted) refl),
      )
