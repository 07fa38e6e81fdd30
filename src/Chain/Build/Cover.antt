-- ===== src/Chain/Build/Cover.antt =====
-- The selection of proofs ends: each proof that is selected covers a remaining validator.
use ethlambda.Base.{
  ℕ, zero, suc, ◌<◌, ◌≤◌, ◌≡◌, refl, Bool, true, false, not, some, List, [], ◌∷◌, length, any,
  filter, ◌==◌, nat_eq, pair_eq, arith, Bool-cases, inl, inr, lookup, unwrap_or, nat_beq_iff,
}
use ethlambda.Ssz.{Ssz}
use ethlambda.Types.{AttestationData, AggregatedAttestation, Roots, validator_indices}
use ethlambda.Chain.Build.{is_empty, Proof, Proofs, best_proof, covered_by, cover, cover_all}

length-filter : (p : ℕ → Bool) (l : List ℕ) → length (filter p l) ≤ length l
length-filter p [] = omega arith
length-filter p (x ∷ l) = ground (arith, length-filter p l)

-- A filter that some element fails is shorter.
length-filter_lt :
    (p q : ℕ → Bool) (l : List ℕ)
    → ((x : ℕ) → q x ≡ true → p x ≡ false)
    → any q l ≡ true
    → length (filter p l) < length l
length-filter_lt p q [] out h = absurd cc
length-filter_lt p q (x ∷ l) out h =
    ground (arith, length-filter p l, length-filter_lt p q l out, out x, h)

filter-cons : (q : ℕ → Bool) (l rest : List ℕ) (c : ℕ) → filter q l ≡ c ∷ rest → q c ≡ true
filter-cons q [] rest c h = absurd cc
filter-cons q (x ∷ l) rest c h = elim (Bool-cases (q x)) [
  | inl keep ↦ let same : x ≡ c = ground (arith, keep, h) in rw same at keep
  | inr drop_it ↦ filter-cons q l rest c (ground (arith, drop_it, h))
]

any-member :
    (l rest : List ℕ) (c : ℕ)
    → any (λ r. r == c) l ≡ true
    → any (λ vid. any (λ d. d == vid) (c ∷ rest)) l ≡ true
any-member [] rest c h = absurd cc
any-member (x ∷ l) rest c h =
    ground (arith, any-member l rest c, nat_beq_iff x c, nat_beq_iff c x, h)

module _ (S : Ssz) (R : Roots S) where
  uncovered-lt :
      (all : List ℕ) (p : Proof S R) (covered : List ℕ)
      → covered_by S R all p ≡ covered
      → is_empty covered ≡ false
      → length (filter (λ vid. not (any (λ c. c == vid) covered)) all) < length all
  unfolding covered_by
  uncovered-lt all p [] e h = absurd cc
  uncovered-lt all p (c ∷ rest) e h =
      let inside =
        filter-cons (λ vid. any (λ r. r == vid) all) (validator_indices S p.participants) rest c
          e in
      length-filter_lt (λ vid. not (any (λ d. d == vid) (c ∷ rest)))
        (λ vid. any (λ d. d == vid) (c ∷ rest)) all (λ x q. ground (arith, q))
        (any-member all rest c inside)

  cover-ends :
      (fuel : ℕ) (d : AttestationData) (payloads : Proofs S R) (remaining : List ℕ)
      → length remaining ≤ fuel
      → (r : List (AggregatedAttestation S × Proof S R)) × (cover S R fuel d payloads remaining
          ≡ some r)
  unfolding cover
  cover-ends fuel d payloads [] h = ([], refl)
  cover-ends zero d payloads (target_id ∷ remaining) h = absurd (omega arith)
  cover-ends (suc fuel) d payloads (target_id ∷ remaining) h =
      with_candidates (unwrap_or (lookup (target_id, R.attestation_data_hash d) payloads) []) refl
        (λ l fits. cover-ends fuel d payloads l fits)
    where
      with_candidates :
          (candidates : List (Proof S R))
          → unwrap_or (lookup (target_id, R.attestation_data_hash d) payloads) [] ≡ candidates
          → ((l : List ℕ)
              → length l ≤ fuel
              → (r : List (AggregatedAttestation S × Proof S R)) × (cover S R fuel d payloads l
                  ≡ some r))
          → (r : List (AggregatedAttestation S × Proof S R)) × (cover S R
                (suc fuel)
                d
                payloads
                (target_id ∷ remaining)
              ≡ some r)
      with_candidates [] e again = rw (e, cover) (_, refl)
      with_candidates (first ∷ candidates) e again =
          let all = target_id ∷ remaining in
          let proof = best_proof S R all first candidates in
          let covered = covered_by S R all proof in
          elim (Bool-cases (is_empty covered)) [
            | inl nothing ↦ rw (e, nothing, cover) (_, refl)
            | inr some_covered ↦
                let less = uncovered-lt all proof covered refl some_covered in
                let (rest, ran) =
                  again (filter (λ vid. not (any (λ c. c == vid) covered)) all)
                    (omega (arith, less, h)) in
                rw (e, some_covered, ran, cover) (_, refl)
          ]

  pub cover_all-ends :
      (payloads : Proofs S R) (aggregated : List (AggregatedAttestation S))
      → (r : List (AggregatedAttestation S × Proof S R)) × (cover_all S R payloads aggregated
          ≡ some r)
  unfolding cover_all
  cover_all-ends payloads [] = ([], refl)
  cover_all-ends payloads (a ∷ aggregated) =
      let ids = validator_indices S a.aggregation_bits in
      let (here, ran) = cover-ends (length ids) a.attestation_data payloads ids (omega arith) in
      let (rest, more) = cover_all-ends payloads aggregated in rw (ran, more, cover_all) (_, refl)
