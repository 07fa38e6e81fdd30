-- ===== src/Chain/Verify/Verified.antt =====
-- What a block has whose signatures are accepted.
use ethlambda.Base.{
  ◌++◌, length-append, nat_beq_iff, ◌≤◌, ◌<◌, ◌^◌, ◌≡◌, ◌↔◌, refl, true, false, some, List, [], ◌∷◌,
  length, get_elem?, any, leb, ltb, arith, ok, panic, ◌==◌, nat_eq, Bool-cases, Option-cases, inl,
  inr, >>=-eq-ok,
}
use ethlambda.Ssz.{Ssz}
use ethlambda.Types.{
  Validator, validator_indices, AggregatedAttestation, AggregatedSignatureProof,
  SignedBlockWithAttestation, State, Roots,
}
use ethlambda.Xmss.{Xmss}
use ethlambda.Chain.Verify.{
  bits_beq, verify_attestation, verify_attestations, verify_proposer, verify_signatures,
}
use ethlambda.Chain.Verify.Proven.{bits_beq_refl, IsProven, verify_attestation_iff}

module _ (S : Ssz) (R : Roots S) (X : Xmss) where
  open R use {attestation_data_hash}
  open X use {PublicKey}

  -- Each attestation of the block has its proof, and no proof is left over.
  pub data AllProven (validators : List Validator)
      : List (AggregatedAttestation S) → List (AggregatedSignatureProof S) → Type 0 where
    all_done : AllProven validators [] []
    all_next :
        {a : AggregatedAttestation S} {p : AggregatedSignatureProof S}
        {attestations : List (AggregatedAttestation S)} {proofs : List (AggregatedSignatureProof S)}
        → IsProven S R X validators a p
        → AllProven validators attestations proofs
        → AllProven validators (a ∷ attestations) (p ∷ proofs)

  -- The block's proposer, a validator, has signed its own attestation.
  pub record IsProposed (validators : List Validator) (signed_block : SignedBlockWithAttestation S)
      : Type 0 where
    pub own :
        signed_block.message.proposer_attestation.validator_id
        ≡ signed_block.message.block.proposer_index
    pub signature : X.Signature
    pub signed : X.signature_from_bytes signed_block.signature.proposer_signature ≡ some signature
    pub proposer : Validator
    pub found : get_elem? validators signed_block.message.block.proposer_index ≡ some proposer
    pub key : PublicKey
    pub decoded : X.public_key_from_bytes proposer.pubkey ≡ some key
    pub in_u32 : signed_block.message.proposer_attestation.attestation_data.slot < 2 ^ 32
    pub accepted :
        X.verify key signed_block.message.proposer_attestation.attestation_data.slot
          (attestation_data_hash signed_block.message.proposer_attestation.attestation_data)
          signature
        ≡ true

  verify_attestations_iff :
      (validators : List Validator) (attestations : List (AggregatedAttestation S))
      (proofs : List (AggregatedSignatureProof S))
      → length attestations ≡ length proofs
      → (verify_attestations S R X validators attestations proofs ≡ ok tt)
        ↔ AllProven validators attestations proofs
  unfolding verify_attestations
  verify_attestations_iff validators [] [] same = ((λ h. all_done), (λ h. refl))
  verify_attestations_iff validators [] (p ∷ proofs) same = absurd (omega arith)
  verify_attestations_iff validators (a ∷ attestations) [] same = absurd (omega arith)
  verify_attestations_iff validators (a ∷ attestations) (p ∷ proofs) same =
      let first = verify_attestation_iff S R X validators a p in
      let more = verify_attestations_iff validators attestations proofs (omega arith) in
      (
        (λ h.
            let (t, ran, rest) =
              >>=-eq-ok (verify_attestation S R X validators a p)
                (λ t. verify_attestations S R X validators attestations proofs) h in
            all_next (first.0 ran) (more.0 rest)),
        (λ h. elim h [ all_next proven rest ↦ rw (first.1 proven) (more.1 rest) ]),
      )

  AllProven-length :
      (validators : List Validator) (attestations : List (AggregatedAttestation S))
      (proofs : List (AggregatedSignatureProof S))
      → AllProven validators attestations proofs
      → length attestations ≡ length proofs
  AllProven-length validators [] [] all_done = refl
  AllProven-length validators [] (p ∷ proofs) h = elim h [ ]
  AllProven-length validators (a ∷ attestations) [] h = elim h [ ]
  AllProven-length validators (a ∷ attestations) (p ∷ proofs) (all_next proven rest) =
      omega (arith, AllProven-length validators attestations proofs rest)

  verify_proposer-IsProposed :
      (validators : List Validator) (b : SignedBlockWithAttestation S)
      → verify_proposer S R X validators b ≡ ok tt
      → IsProposed validators b
  unfolding verify_proposer
  verify_proposer-IsProposed validators b h =
      let attestation = b.message.proposer_attestation in
      let bytes = b.signature.proposer_signature in
      let index = b.message.block.proposer_index in
      let own = Bool-cases (attestation.validator_id == index) in
      let slots = Bool-cases (ltb attestation.attestation_data.slot (2 ^ 32)) in
      elim (Option-cases (X.signature_from_bytes bytes)) [
        | inl not_signed ↦ absurd (ground (arith, own, not_signed, h))
        | inr (signature, signed) ↦ elim (Option-cases (get_elem? validators index)) [
          | inl not_found ↦ absurd (ground (arith, own, signed, not_found, h))
          | inr (proposer, found) ↦ elim (Option-cases (X.public_key_from_bytes proposer.pubkey)) [
            | inl bad ↦ absurd (ground (arith, own, signed, found, bad, h))
            | inr (key, decoded) ↦ record {
              own = ground (arith, own, signed, found, decoded, slots, h);
              signature = signature;
              signed = signed;
              proposer = proposer;
              found = found;
              key = key;
              decoded = decoded;
              in_u32 = ground (arith, own, signed, found, decoded, slots, h);
              accepted = ground (arith, own, signed, found, decoded, slots, h);
            }
          ]
        ]
      ]

  IsProposed-verify_proposer :
      (validators : List Validator) (b : SignedBlockWithAttestation S)
      → IsProposed validators b
      → verify_proposer S R X validators b ≡ ok tt
  unfolding verify_proposer
  IsProposed-verify_proposer validators b h =
      let attestation = b.message.proposer_attestation in
      let own : (attestation.validator_id == b.message.block.proposer_index) ≡ true =
        ground (arith, h.own) in
      let fits : ltb attestation.attestation_data.slot (2 ^ 32) ≡ true = ground (arith, h.in_u32) in
      rw (own, h.signed, h.found, h.decoded, fits, h.accepted) refl

  -- The signatures of a block are accepted exactly when every attestation of its body has its own
  -- proof (none is left over): for the same participants, all of them validators whose public keys
  -- decode, accepted by the aggregate verification under these keys, in their order, for the hash
  -- of the attestation's data and its slot below 2 ^ 32; and when the proposer's own attestation is
  -- by the block's proposer, a validator, whose key accepts its signature in the same way.
  pub verify_signatures_iff :
      (state : State S) (b : SignedBlockWithAttestation S)
      → (verify_signatures S R X state b ≡ ok tt)
        ↔ AllProven state.validators b.message.block.body.attestations
            b.signature.attestation_signatures
          × IsProposed state.validators b
  unfolding verify_signatures
  verify_signatures_iff state b =
      let attestations = b.message.block.body.attestations in
      let proofs = b.signature.attestation_signatures in
      let validators = state.validators in
      (
        (λ h. elim (Bool-cases (length attestations == length proofs)) [
          | inl same ↦
              let size : length attestations ≡ length proofs = ground (arith, same) in
              let (t, all_ran, proposer_ran) =
                >>=-eq-ok (verify_attestations S R X validators attestations proofs)
                  (λ t. verify_proposer S R X validators b) (ground (arith, same, h)) in
              (
                (verify_attestations_iff validators attestations proofs size).0 all_ran,
                verify_proposer-IsProposed validators b proposer_ran,
              )
          | inr differ ↦ absurd (ground (arith, differ, h))
        ]),
        (λ (proven, proposed).
            let size = AllProven-length validators attestations proofs proven in
            let same : (length attestations == length proofs) ≡ true = ground (arith, size) in
            let ran = (verify_attestations_iff validators attestations proofs size).1 proven in
            rw (same, ran) (IsProposed-verify_proposer validators b proposed)),
      )

  -- A vote for a slot that does not fit ends the loop in a panic, once it is reached.
  verify_attestations-panic :
      (validators : List Validator) (before after : List (AggregatedAttestation S))
      (proofs proofs' : List (AggregatedSignatureProof S)) (a : AggregatedAttestation S)
      (p : AggregatedSignatureProof S)
      → AllProven validators before proofs
      → S.iter a.aggregation_bits ≡ S.iter p.participants
      → any (λ vid. leb (length validators) vid) (validator_indices S a.aggregation_bits) ≡ false
      → 2 ^ 32 ≤ a.attestation_data.slot
      → verify_attestations S R X validators (before ++ (a ∷ after)) (proofs ++ (p ∷ proofs'))
        ≡ panic
  unfolding verify_attestations verify_attestation
  verify_attestations-panic validators [] after [] proofs' a p done same range above =
      let bits : bits_beq (S.iter a.aggregation_bits) (S.iter p.participants) ≡ true =
        rw same (bits_beq_refl (S.iter p.participants)) in
      let exceeds : ltb a.attestation_data.slot (2 ^ 32) ≡ false = ground (arith, above) in
      rw (bits, range, exceeds) refl
  verify_attestations-panic validators [] after (q ∷ proofs) proofs' a p done same range above =
      elim done [ ]
  verify_attestations-panic validators (b ∷ before) after [] proofs' a p done same range above =
      elim done [ ]
  verify_attestations-panic validators (b ∷ before) after (q ∷ proofs) proofs' a p
        (all_next proven rest) same range above =
      rw ((verify_attestation_iff S R X validators b q).1 proven)
        (verify_attestations-panic validators before after proofs proofs' a p rest same range above)

  -- In a block with as many proofs as attestations, where those before it are proven, an
  -- attestation for a slot of 2 ^ 32 or more makes the verification panic if its proof is for the
  -- same participants and they are validators, whatever the bytes of that proof and whatever follows.
  -- If it is the first, that is whatever all the signatures of the block are.
  pub verify_signatures-panic :
      (state : State S) (b : SignedBlockWithAttestation S)
      (before after : List (AggregatedAttestation S))
      (proofs proofs' : List (AggregatedSignatureProof S)) (a : AggregatedAttestation S)
      (p : AggregatedSignatureProof S)
      → b.message.block.body.attestations ≡ before ++ (a ∷ after)
      → b.signature.attestation_signatures ≡ proofs ++ (p ∷ proofs')
      → length after ≡ length proofs'
      → AllProven state.validators before proofs
      → S.iter a.aggregation_bits ≡ S.iter p.participants
      → any (λ vid. leb (length state.validators) vid) (validator_indices S a.aggregation_bits)
        ≡ false
      → 2 ^ 32 ≤ a.attestation_data.slot
      → verify_signatures S R X state b ≡ panic
  unfolding verify_signatures
  verify_signatures-panic state b before after proofs proofs' a p body signatures size done same
        range above =
      let first = AllProven-length state.validators before proofs done in
      let all = length-append before (a ∷ after) in
      let all' = length-append proofs (p ∷ proofs') in
      let size' : length (before ++ (a ∷ after)) ≡ length (proofs ++ (p ∷ proofs')) =
        omega (arith, first, all, all', size) in
      let step : (length (before ++ (a ∷ after)) == length (proofs ++ (p ∷ proofs'))) ≡ true =
        (nat_beq_iff _ _).1 size' in
      let stops =
        verify_attestations-panic state.validators before after proofs proofs' a p done same range
          above in
      rw (body, signatures, step, stops) refl
