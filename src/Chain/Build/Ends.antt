-- ===== src/Chain/Build/Ends.antt =====
-- The loops of the block builder end: each pass of the fixed point includes a new vote, and each
-- proof that is selected covers a remaining validator.
use ethlambda.Base.{
  ap, ◌∙◌, ℕ, zero, suc, ◌+◌, ◌<◌, ◌≤◌, ◌≡◌, refl, Bool, true, false, not, ◌&&◌, ◌||◌, some, List,
  [], ◌∷◌, ◌++◌, length, any, ◌==◌, nat_eq, pair_eq, if◌then◌else◌, arith, Outcome, ok, err, panic,
  Bool-cases, Outcome-cases, inl, inr,
}
use ethlambda.Ssz.{Ssz}
use ethlambda.Types.{H256, Checkpoint, Attestation, AggregatedAttestation, State, Roots}
use ethlambda.Storage.Payloads.{SignatureKey}
use ethlambda.Chain.Error.{StoreError}
use ethlambda.Chain.Aggregation.{aggregate_attestations_by_data}
use ethlambda.Chain.Build.Cover.{cover_all-ends}
use ethlambda.Chain.Build.{
  is_empty, Proof, Proofs, Built, key_of, has_key, is_wanted, new_attestations, candidate_state,
  collect_attestations, select_aggregated_proofs, build_block,
}

or-right : (a b : Bool) → b ≡ true → (a || b) ≡ true
or-right a b h = ground (arith, h)

module _ (S : Ssz) (R : Roots S) where
  has_key-append :
      (k j : SignatureKey) (keys : List SignatureKey)
      → has_key S R k (keys ++ (j ∷ [])) ≡ (has_key S R k keys || j == k)
  has_key-append k j [] = ground arith
  has_key-append k j (i ∷ keys) = ground (arith, has_key-append k j keys)

  -- the votes that are not yet included
  abbrev left_out : List Attestation → List SignatureKey → ℕ
  left_out [] keys = 0
  left_out (a ∷ l) keys =
      let rest = left_out l keys in if has_key S R (key_of S R a) keys then rest else rest + 1

  abbrev More : List SignatureKey → List SignatureKey → Type 0
  More keys keys' = (k : SignatureKey) → has_key S R k keys ≡ true → has_key S R k keys' ≡ true

  new_attestations-More :
      (known : List H256) (payloads : Proofs S R) (justified : Checkpoint) (l : List Attestation)
      (keys : List SignatureKey)
      → More keys (new_attestations S R known payloads justified l keys).1
  unfolding new_attestations
  new_attestations-More known payloads justified [] keys k h = h
  new_attestations-More known payloads justified (a ∷ l) keys k h =
      elim (Bool-cases (is_wanted S R known payloads justified keys a)) [
        | inl wanted ↦
            rw (wanted, new_attestations)
              (new_attestations-More known payloads justified l (keys ++ (key_of S R a ∷ [])) k
                (ground (arith, has_key-append k (key_of S R a) keys, h)))
        | inr unwanted ↦
            rw (unwanted, new_attestations)
              (new_attestations-More known payloads justified l keys k h)
      ]

  is_wanted-fresh :
      (known : List H256) (payloads : Proofs S R) (justified : Checkpoint)
      (keys : List SignatureKey) (a : Attestation)
      → is_wanted S R known payloads justified keys a ≡ true
      → has_key S R (key_of S R a) keys ≡ false
  unfolding is_wanted
  is_wanted-fresh known payloads justified keys a h = ground (arith, h)

  -- The vote is included by the second keys only.
  abbrev gained : List SignatureKey → List SignatureKey → Attestation → Bool
  gained keys keys' a = not (has_key S R (key_of S R a) keys) && has_key S R (key_of S R a) keys'

  new_attestations-gained :
      (known : List H256) (payloads : Proofs S R) (justified : Checkpoint) (l : List Attestation)
      (keys : List SignatureKey)
      → is_empty (new_attestations S R known payloads justified l keys).0 ≡ false
      → any (gained keys (new_attestations S R known payloads justified l keys).1) l ≡ true
  unfolding new_attestations
  new_attestations-gained known payloads justified [] keys h = absurd cc
  new_attestations-gained known payloads justified (a ∷ l) keys h =
      let k = key_of S R a in
      elim (Bool-cases (is_wanted S R known payloads justified keys a)) [
        | inl wanted ↦
            let more =
              new_attestations-More known payloads justified l (keys ++ (k ∷ [])) k
                (ground (arith, has_key-append k k keys, pair_eq.beq_iff k k)) in
            let fresh = is_wanted-fresh known payloads justified keys a wanted in
            rw (wanted, new_attestations) (ground (arith, more, fresh))
        | inr unwanted ↦
            let rest =
              new_attestations-gained known payloads justified l keys
                (rw (unwanted, new_attestations) at h) in
            let same : (new_attestations S R known payloads justified (a ∷ l) keys).1
                ≡ (new_attestations S R known payloads justified l keys).1 =
              rw (unwanted, new_attestations) refl in
            or-right _ _ (ap (λ ks. any (gained keys ks) l) same ∙ rest)
      ]

  left_out-le :
      (l : List Attestation) (keys keys' : List SignatureKey)
      → More keys keys'
      → left_out l keys' ≤ left_out l keys
  left_out-le [] keys keys' more = omega arith
  left_out-le (a ∷ l) keys keys' more =
      ground (arith, left_out-le l keys keys' more, more (key_of S R a))

  left_out-lt :
      (l : List Attestation) (keys keys' : List SignatureKey)
      → More keys keys'
      → any (gained keys keys') l ≡ true
      → left_out l keys' < left_out l keys
  left_out-lt [] keys keys' more h = absurd cc
  left_out-lt (a ∷ l) keys keys' more h =
      ground (
        arith,
        left_out-le l keys keys' more,
        left_out-lt l keys keys' more,
        more (key_of S R a),
        h,
      )

  collect_attestations-ends :
      (fuel : ℕ) (head_state : State S) (slot proposer_index : ℕ) (parent_root : H256)
      (available : List Attestation) (known : List H256) (payloads : Proofs S R)
      (included : List Attestation) (keys : List SignatureKey)
      → left_out available keys < fuel
      → (o : Outcome StoreError (List Attestation)) × (collect_attestations S R fuel head_state slot
            proposer_index parent_root available known payloads included keys
          ≡ some o)
  unfolding collect_attestations
  collect_attestations-ends zero head_state slot proposer_index parent_root available known payloads
        included keys h =
      absurd (omega arith)
  collect_attestations-ends (suc fuel) head_state slot proposer_index parent_root available known
        payloads included keys h =
      elim (Outcome-cases
        (candidate_state S R head_state slot proposer_index parent_root included)) [
          | inr (inl (e, failed)) ↦ rw (failed, collect_attestations) (_, refl)
          | inr (inr failed) ↦ rw (failed, collect_attestations) (_, refl)
          | inl (post, ran) ↦
              let found =
                new_attestations S R known payloads post.latest_justified available keys in
              elim (Bool-cases (is_empty available || (is_empty known || is_empty found.0))) [
                | inl done ↦ rw (ran, done, collect_attestations) (_, refl)
                | inr going ↦
                    let less =
                      left_out-lt available keys found.1
                        (new_attestations-More known payloads post.latest_justified available keys)
                        (new_attestations-gained known payloads post.latest_justified available keys
                          (ground (arith, going))) in
                    rw (ran, going, collect_attestations)
                      (collect_attestations-ends fuel head_state slot proposer_index parent_root
                        available known payloads (included ++ found.0) found.1
                        (omega (arith, less, h)))
              ]
        ]

  left_out-length : (l : List Attestation) → left_out l [] ≤ length l
  left_out-length [] = omega arith
  left_out-length (a ∷ l) = omega (arith, left_out-length l)

  select_aggregated_proofs-ends :
      (attestations : List Attestation) (payloads : Proofs S R)
      → (o : Outcome StoreError (List (AggregatedAttestation S × Proof S R)))
        × (select_aggregated_proofs S R attestations payloads ≡ some o)
  unfolding select_aggregated_proofs
  select_aggregated_proofs-ends attestations payloads =
      elim (Outcome-cases (aggregate_attestations_by_data S R {E = StoreError} attestations)) [
        | inl (aggregated, ran) ↦
            let (results, covered) = cover_all-ends S R payloads aggregated in
            rw (ran, covered, select_aggregated_proofs) (_, refl)
        | inr (inl (e, failed)) ↦ rw (failed, select_aggregated_proofs) (_, refl)
        | inr (inr failed) ↦ rw (failed, select_aggregated_proofs) (_, refl)
      ]

  -- With more fuel than there are votes on offer, the builder ends: it returns a block or an error, or
  -- the source panics, whatever the state, the votes and the proofs are.
  pub build_block-ends :
      (fuel : ℕ) (head_state : State S) (slot proposer_index : ℕ) (parent_root : H256)
      (available : List Attestation) (known : List H256) (payloads : Proofs S R)
      → length available < fuel
      → (o : Outcome StoreError (Built S R)) × (build_block S R fuel head_state slot proposer_index
            parent_root available known payloads
          ≡ some o)
  unfolding build_block
  build_block-ends fuel head_state slot proposer_index parent_root available known payloads h =
      let (o, ran) =
        collect_attestations-ends fuel head_state slot proposer_index parent_root available known
          payloads [] [] (omega (arith, left_out-length available, h)) in
      finished o ran
    where
      chosen :
          (included : List Attestation)
          → collect_attestations S R fuel head_state slot proposer_index parent_root available known
              payloads [] []
            ≡ some (ok included)
          → ((o : Outcome StoreError (List (AggregatedAttestation S × Proof S R)))
              × (select_aggregated_proofs S R included payloads ≡ some o))
          → (r : Outcome StoreError (Built S R)) × (build_block S R fuel head_state slot
                proposer_index parent_root available known payloads
              ≡ some r)
      chosen included ran (ok selected, picked) = rw (ran, picked, build_block) (_, refl)
      chosen included ran (err e, picked) = rw (ran, picked, build_block) (_, refl)
      chosen included ran (panic, picked) = rw (ran, picked, build_block) (_, refl)

      finished :
          (o : Outcome StoreError (List Attestation))
          → collect_attestations S R fuel head_state slot proposer_index parent_root available known
              payloads [] []
            ≡ some o
          → (r : Outcome StoreError (Built S R)) × (build_block S R fuel head_state slot
                proposer_index parent_root available known payloads
              ≡ some r)
      finished (err e) ran = rw (ran, build_block) (_, refl)
      finished panic ran = rw (ran, build_block) (_, refl)
      finished (ok included) ran =
          chosen included ran (select_aggregated_proofs-ends included payloads)
