-- ===== src/Chain/Verify/Proven.antt =====
-- One attestation of a block whose proof is accepted.
use ethlambda.Base.{
  ℕ, ◌<◌, ◌^◌, ◌≡◌, ◌↔◌, refl, Bool, true, false, some, List, [], ◌∷◌, length, get_elem?, any, leb,
  ltb, get_elem?-lt, Outcome-cases, arith, ok, nat_eq, Bool-cases, Option-cases, inl, inr,
  >>=-eq-ok, expect-eq-ok, ok_or-eq-ok, expect, ok_or, ◌>>=◌,
}
use ethlambda.Ssz.{Ssz}
use ethlambda.Types.{
  Validator, validator_indices, AggregatedAttestation, AggregatedSignatureProof, Roots,
}
use ethlambda.Xmss.{Xmss, verify_aggregated_signature}
use ethlambda.Chain.Error.{pubkey_decoding_failed}
use ethlambda.Chain.Verify.{bits_beq, public_keys_of, verify_attestation}

bits_beq_eq : (xs ys : List Bool) → bits_beq xs ys ≡ true → xs ≡ ys
bits_beq_eq [] [] h = refl
bits_beq_eq [] (y ∷ ys) h = cc
bits_beq_eq (x ∷ xs) [] h = cc
bits_beq_eq (true ∷ xs) (true ∷ ys) h = cc (bits_beq_eq xs ys h)
bits_beq_eq (false ∷ xs) (false ∷ ys) h = cc (bits_beq_eq xs ys h)
bits_beq_eq (true ∷ xs) (false ∷ ys) h = cc
bits_beq_eq (false ∷ xs) (true ∷ ys) h = cc

pub bits_beq_refl : (xs : List Bool) → bits_beq xs xs ≡ true
bits_beq_refl [] = refl
bits_beq_refl (true ∷ xs) = bits_beq_refl xs
bits_beq_refl (false ∷ xs) = bits_beq_refl xs

module _ (S : Ssz) (R : Roots S) (X : Xmss) where
  open R use {attestation_data_hash}
  open X use {PublicKey}

  -- The keys of the validators, in the order of their indices.
  pub data KeysOf (validators : List Validator) : List ℕ → List PublicKey → Type 0 where
    done : KeysOf validators [] []
    next :
        {vid : ℕ} {ids : List ℕ} {keys : List PublicKey} (validator : Validator) (key : PublicKey)
        → get_elem? validators vid ≡ some validator
        → X.public_key_from_bytes validator.pubkey ≡ some key
        → KeysOf validators ids keys
        → KeysOf validators (vid ∷ ids) (key ∷ keys)

  -- The proof is of the attestation's participants, all validators, and of its data.
  pub record IsProven (validators : List Validator) (a : AggregatedAttestation S)
      (p : AggregatedSignatureProof S) : Type 0 where
    pub same : S.iter a.aggregation_bits ≡ S.iter p.participants
    pub keys : List PublicKey
    pub keys_of : KeysOf validators (validator_indices S a.aggregation_bits) keys
    pub in_u32 : a.attestation_data.slot < 2 ^ 32
    pub proof : X.Aggregate
    pub decoded : X.aggregate_from_bytes p.proof_data ≡ some proof
    pub accepted :
        X.verify_aggregate keys
          (attestation_data_hash a.attestation_data)
          proof
          a.attestation_data.slot
        ≡ true

  pub public_keys_of-KeysOf :
      (validators : List Validator) (ids : List ℕ) (keys : List PublicKey)
      → public_keys_of S R X validators ids ≡ ok keys
      → KeysOf validators ids keys
  unfolding public_keys_of
  public_keys_of-KeysOf validators [] keys h = let e : keys ≡ [] = cc in rw e done
  public_keys_of-KeysOf validators (vid ∷ ids) keys h =
      let (validator, found, h1) =
        >>=-eq-ok (expect (get_elem? validators vid))
          (λ validator.
            ok_or (X.public_key_from_bytes validator.pubkey) (pubkey_decoding_failed vid) >>= λ key.
            public_keys_of S R X validators ids >>= λ keys. ok (key ∷ keys))
          h in
      let (key, decoded, h2) =
        >>=-eq-ok (ok_or (X.public_key_from_bytes validator.pubkey) (pubkey_decoding_failed vid))
          (λ key. public_keys_of S R X validators ids >>= λ keys. ok (key ∷ keys)) h1 in
      let (rest, ran, h3) =
        >>=-eq-ok (public_keys_of S R X validators ids) (λ keys. ok (key ∷ keys)) h2 in
      let e : key ∷ rest ≡ keys = cc in
      rw (← e) (
        next validator key (expect-eq-ok _ found) (ok_or-eq-ok _ _ decoded)
          (public_keys_of-KeysOf validators ids rest ran))

  pub KeysOf-public_keys_of :
      (validators : List Validator) (ids : List ℕ) (keys : List PublicKey)
      → KeysOf validators ids keys
      → public_keys_of S R X validators ids ≡ ok keys
  unfolding public_keys_of
  KeysOf-public_keys_of validators [] [] done = refl
  KeysOf-public_keys_of validators [] (_ ∷ keys) h = elim h [ ]
  KeysOf-public_keys_of validators (vid ∷ ids) [] h = elim h [ ]
  KeysOf-public_keys_of validators (vid ∷ ids) (_ ∷ keys) (next validator key found decoded more) =
      rw (found, decoded, KeysOf-public_keys_of validators ids keys more) refl

  pub KeysOf-in_range :
      (validators : List Validator) (ids : List ℕ) (keys : List PublicKey)
      → KeysOf validators ids keys
      → any (λ vid. leb (length validators) vid) ids ≡ false
  KeysOf-in_range validators [] [] done = refl
  KeysOf-in_range validators [] (_ ∷ keys) h = elim h [ ]
  KeysOf-in_range validators (vid ∷ ids) [] h = elim h [ ]
  KeysOf-in_range validators (vid ∷ ids) (_ ∷ keys) (next validator key found decoded more) =
      ground (
        arith,
        get_elem?-lt validators vid validator found,
        KeysOf-in_range validators ids keys more,
      )

  verify_attestation-IsProven :
      (validators : List Validator) (a : AggregatedAttestation S) (p : AggregatedSignatureProof S)
      → verify_attestation S R X validators a p ≡ ok tt
      → IsProven validators a p
  unfolding verify_attestation verify_aggregated_signature
  verify_attestation-IsProven validators a p h =
      let ids = validator_indices S a.aggregation_bits in
      let same = Bool-cases (bits_beq (S.iter a.aggregation_bits) (S.iter p.participants)) in
      let range = Bool-cases (any (λ vid. leb (length validators) vid) ids) in
      let slots = Bool-cases (ltb a.attestation_data.slot (2 ^ 32)) in
      elim (Outcome-cases (public_keys_of S R X validators ids)) [
        | inl (keys, ran) ↦ elim (Option-cases (X.aggregate_from_bytes p.proof_data)) [
          | inl none_of ↦ absurd (ground (arith, same, range, slots, ran, none_of, h))
          | inr (proof, got) ↦ record {
            same =
                bits_beq_eq (S.iter a.aggregation_bits) (S.iter p.participants)
                  (ground (arith, same, range, slots, ran, got, h));
            keys = keys;
            keys_of = public_keys_of-KeysOf validators ids keys ran;
            in_u32 = ground (arith, same, range, slots, ran, got, h);
            proof = proof;
            decoded = got;
            accepted = ground (arith, same, range, slots, ran, got, h);
          }
        ]
        | inr other ↦ absurd (ground (arith, same, range, slots, other, h))
      ]

  pub verify_attestation_iff :
      (validators : List Validator) (a : AggregatedAttestation S) (p : AggregatedSignatureProof S)
      → (verify_attestation S R X validators a p ≡ ok tt) ↔ IsProven validators a p
  unfolding verify_attestation verify_aggregated_signature
  verify_attestation_iff validators a p = (
    verify_attestation-IsProven validators a p,
    (λ h.
        let participants = S.iter p.participants in
        let eq : bits_beq (S.iter a.aggregation_bits) participants ≡ true =
          rw h.same (bits_beq_refl participants) in
        let ids = validator_indices S a.aggregation_bits in
        let range = KeysOf-in_range validators ids h.keys h.keys_of in
        let ran = KeysOf-public_keys_of validators ids h.keys h.keys_of in
        let fits : ltb a.attestation_data.slot (2 ^ 32) ≡ true = ground (arith, h.in_u32) in
        rw (eq, range, fits, ran, h.decoded, h.accepted) refl),
  )
