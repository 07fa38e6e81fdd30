-- ===== src/Chain/Committee/Total.antt =====
-- The aggregation of a store's gossip signatures does not fail.
use ethlambda.Base.{
  ℕ, ◌%◌, ◌^◌, ◌<◌, ◌≤◌, ◌≡◌, refl, ◌⊎◌, some, List, [], ◌∷◌, length, get_elem?, get_elem?-lt,
  nat_eq, map, arith, Map, ok, err, Option-cases, Outcome-cases, Bool-cases, inl, inr, leb, ◌==◌,
}
use ethlambda.Ssz.{Ssz, SszLaws}
use ethlambda.Types.{
  H256, Validator, SignedAggregatedAttestation, AttestationData, validator_registry_limit, State,
  Roots,
}
use ethlambda.Xmss.{Xmss, AggregationError, aggregate_signatures}
use ethlambda.Storage.Payloads.{SignatureKey}
use ethlambda.Storage.Store.{
  Store, StoredSignature, head_state, get_attestation_data_by_root,
  insert_new_aggregated_payloads_batch, delete_gossip_signatures,
}
use ethlambda.Chain.Aggregation.{aggregation_bits_lem, max_id}
use ethlambda.Chain.Frame.{SameChain, SameChain-refl}
use ethlambda.Chain.Target.{OutOfFuel}
use ethlambda.Chain.Committee.{
  SignatureGroups, signers, aggregate_members, aggregate_group, aggregate_groups, group_signatures,
  aggregate_committee_signatures, Aggregates,
}

module _ (S : Ssz) (R : Roots S) (X : Xmss) (L : SszLaws S) where
  open X use {PublicKey, Signature}

  max_id-signers :
      (validators : List Validator) (group : List (ℕ × Signature))
      → length validators ≤ validator_registry_limit
      → max_id (map (λ e. e.2) (signers S R X validators group)) < validator_registry_limit
  unfolding signers
  max_id-signers validators [] h = omega arith
  max_id-signers validators ((vid, sig) ∷ group) h =
      let rest = max_id-signers validators group h in
      elim (Option-cases (get_elem? validators vid)) [
        | inl none_there ↦ rw (none_there, signers) rest
        | inr (validator, found) ↦
            let within = get_elem?-lt validators vid validator found in
            elim (Option-cases (X.public_key_from_bytes validator.pubkey)) [
              | inl bad ↦ rw (found, bad, signers) rest
              | inr (key, decoded) ↦ rw (found, decoded, signers) (ground (arith, rest, within, h))
            ]
      ]

  aggregate_signatures-no_panic :
      (keys : List PublicKey) (sigs : List Signature) (message : H256) (slot : ℕ)
      → ((bytes : List ℕ) × (aggregate_signatures X keys sigs message slot ≡ ok bytes))
        ⊎ ((e : AggregationError) × (aggregate_signatures X keys sigs message slot ≡ err e))
  unfolding aggregate_signatures
  aggregate_signatures-no_panic keys sigs message slot =
      elim (Outcome-cases (aggregate_signatures X keys sigs message slot)) [
        | inl good ↦ inl good
        | inr (inl bad) ↦ inr bad
        | inr (inr never) ↦
            let sizes = Bool-cases (length keys == length sigs) in
            let some_keys = Bool-cases (length keys == 0) in
            elim (Option-cases (X.aggregate keys sigs message slot)) [
              | inl failed ↦ absurd (ground (arith, sizes, some_keys, failed, never))
              | inr (aggregate, made) ↦
                  let fits = Bool-cases (leb (length (X.aggregate_to_bytes aggregate)) 1048576) in
                  absurd (ground (arith, sizes, some_keys, made, fits, never))
            ]
      ]

  aggregate_members_ok :
      (d : AttestationData) (data_root : H256) (members : List (Signature × PublicKey × ℕ))
      → max_id (map (λ e. e.2) members) < validator_registry_limit
      → (r : Aggregates S R X) × (aggregate_members S R X d data_root members ≡ ok r)
  unfolding aggregate_members
  aggregate_members_ok d data_root [] h = (([], [], []), refl)
  aggregate_members_ok d data_root (m ∷ members) h =
      let all = m ∷ members in
      let ids = map (λ e. e.2) all in
      let (bits, built, _, _) = aggregation_bits_lem S L {E = OutOfFuel} ids h in
      elim (aggregate_signatures-no_panic (map (λ e. e.1) all) (map (λ e. e.0) all) data_root
        (d.slot % 2 ^ 32)) [
          | inl (bytes, made) ↦ rw (made, built, aggregate_members) (_, refl)
          | inr (e, failed) ↦ rw (failed, aggregate_members) (_, refl)
        ]

  aggregate_group_ok :
      (store : Store S) (validators : List Validator) (data_root : H256)
      (group : List (ℕ × Signature))
      → length validators ≤ validator_registry_limit
      → (r : Aggregates S R X) × (aggregate_group S R X store validators data_root group ≡ ok r)
  unfolding aggregate_group
  aggregate_group_ok store validators data_root group h =
      elim (Option-cases (get_attestation_data_by_root S store data_root)) [
        | inl unknown ↦ (([], [], []), rw (unknown, aggregate_group) refl)
        | inr (d, known) ↦
            let (r, ran) =
              aggregate_members_ok d data_root (signers S R X validators group)
                (max_id-signers validators group h) in
            (r, rw (known, aggregate_group) ran)
      ]

  aggregate_groups_ok :
      (store : Store S) (validators : List Validator) (groups : SignatureGroups S R X)
      → length validators ≤ validator_registry_limit
      → (r : Aggregates S R X) × (aggregate_groups S R X store validators groups ≡ ok r)
  unfolding aggregate_groups
  aggregate_groups_ok store validators [] h = (([], [], []), refl)
  aggregate_groups_ok store validators ((data_root, group) ∷ groups) h =
      let (here, ran) = aggregate_group_ok store validators data_root group h in
      let (rest, more) = aggregate_groups_ok store validators groups h in
      rw (ran, more, aggregate_groups) (_, refl)

  -- With a head state whose validators are within the registry's limit, the aggregation of the
  -- gossip signatures succeeds; it changes only those signatures and the new payloads.
  pub aggregate_committee_signatures_ok :
      (store : Store S) (state : State S)
      → head_state S store ≡ some state
      → length state.validators ≤ validator_registry_limit
      → (store' : Store S) × (aggregates : List (SignedAggregatedAttestation S))
        × (aggregate_committee_signatures S R X store ≡ ok (store', aggregates))
        × SameChain S store store'
        × (store'.metadata ≡ store.metadata)
  unfolding aggregate_committee_signatures insert_new_aggregated_payloads_batch
      delete_gossip_signatures
  aggregate_committee_signatures_ok store state at_head h =
      gathered store.tables.gossip_signatures refl
    where
      gathered :
          (sigs : Map SignatureKey StoredSignature)
          → store.tables.gossip_signatures ≡ sigs
          → (store' : Store S) × (aggregates : List (SignedAggregatedAttestation S))
            × (aggregate_committee_signatures S R X store ≡ ok (store', aggregates))
            × SameChain S store store'
            × (store'.metadata ≡ store.metadata)
      gathered [] e = (store, [], ground (arith, e), SameChain-refl S store, refl)
      gathered (first ∷ more) e =
          let ((aggregates, payloads, keys), ran) =
            aggregate_groups_ok store state.validators (group_signatures S R X (first ∷ more) [])
              h in
          (
            delete_gossip_signatures S (insert_new_aggregated_payloads_batch S store payloads) keys,
            aggregates,
            ground (arith, e, at_head, ran),
            SameChain-refl S store,
            refl,
          )
