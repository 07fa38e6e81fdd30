-- ===== src/Storage/Latest.antt =====
-- `extract_latest_attestations` of crates/storage/src/store.rs gives each validator's newest vote.
use ethlambda.Base.{
  ℕ, ◌≤◌, ◌≡◌, refl, Option, none, some, List, [], ◌∷◌, ltb, ◌==◌, nat_eq, if◌then◌else◌, ◌⊎◌, inl,
  inr, arith, Map, lookup, lookup-insert, Bool-cases, Option-cases, nat_beq_iff, sym, ◌∙◌,
}
use ethlambda.Ssz.{Ssz}
use ethlambda.Types.{H256, AttestationData}
use ethlambda.Storage.Payloads.{SignatureKey}
use ethlambda.Storage.Store.{
  Store, get_attestation_data_by_root, update_latest, extract_votes, extract_latest_attestations,
}

module _ (S : Ssz) (store : Store S) where
  -- `d` is a vote of validator `v` under one of the keys.
  pub data VotedFor (v : ℕ) (d : AttestationData) : List SignatureKey → Type 0 where
    here :
        {data_root : H256} {keys : List SignatureKey}
        → get_attestation_data_by_root S store data_root ≡ some d
        → VotedFor v d ((v, data_root) ∷ keys)
    there :
        {key : SignatureKey} {keys : List SignatureKey}
        → VotedFor v d keys
        → VotedFor v d (key ∷ keys)

  -- The newer of two votes, the first at equal slots.
  unfoldable pub later : Option AttestationData → AttestationData → AttestationData
  later none d = d
  later (some e) d = if ltb e.slot d.slot then d else e

  -- The fold for one validator alone.
  unfoldable pub latest_from :
      ℕ → List SignatureKey → Option AttestationData → Option AttestationData
  latest_from v [] o = o
  latest_from v ((w, data_root) ∷ keys) o =
      latest_from v keys (elim (get_attestation_data_by_root S store data_root) [
        | none ↦ o
        | some d ↦ if w == v then some (later o d) else o
      ])

  lookup-update_latest :
      (result : Map ℕ AttestationData) (w v : ℕ) (d : AttestationData)
      → lookup v (update_latest S result w d)
        ≡ (if w == v then some (later (lookup v result) d) else lookup v result)
  unfolding update_latest later
  lookup-update_latest result w v d = elim (Option-cases (lookup w result)) [
    | inl fresh ↦
        rw (fresh, update_latest)
          (ground (arith, lookup-insert w v d result, nat_eq.beq_iff w v, fresh))
    | inr (e, found) ↦
        rw (found, update_latest)
          (ground (arith, lookup-insert w v d result, nat_eq.beq_iff w v, found))
  ]

  -- Extraction works on each validator apart: what it gives for one is the fold of that
  -- validator's votes alone.
  lookup-extract_votes :
      (keys : List SignatureKey) (result : Map ℕ AttestationData) (v : ℕ)
      → lookup v (extract_votes S store keys result) ≡ latest_from v keys (lookup v result)
  unfolding extract_votes latest_from
  lookup-extract_votes [] result v = refl
  lookup-extract_votes ((w, data_root) ∷ keys) result v =
      elim (Option-cases (get_attestation_data_by_root S store data_root)) [
        | inl absent ↦ rw absent (lookup-extract_votes keys result v)
        | inr (d, found) ↦
            rw
              (
                found,
                lookup-extract_votes keys (update_latest S result w d) v,
                lookup-update_latest result w v d,
              )
              refl
      ]

  -- The fold only moves on to later slots.
  abbrev Reaches : ℕ → Option AttestationData → Type 0
  Reaches slot o = (d : AttestationData) × (o ≡ some d) × (slot ≤ d.slot)

  later-slots :
      (o : Option AttestationData) (d : AttestationData)
      → (d.slot ≤ (later o d).slot)
        × ((e : AttestationData) → o ≡ some e → e.slot ≤ (later o d).slot)
        × ((later o d ≡ d) ⊎ (o ≡ some (later o d)))
  unfolding later
  later-slots none d = (omega arith, (λ e h. absurd cc), inl refl)
  later-slots (some e) d = elim (Bool-cases (ltb e.slot d.slot)) [
    | inl newer ↦ rw newer (omega arith, (λ e' h. ground (arith, h)), inl refl)
    | inr older ↦ rw older (ground arith, (λ e' h. ground (arith, h)), inr refl)
  ]

  latest_from-Reaches :
      (v slot : ℕ) (keys : List SignatureKey) (o : Option AttestationData)
      → Reaches slot o
      → Reaches slot (latest_from v keys o)
  unfolding latest_from
  latest_from-Reaches v slot [] o h = h
  latest_from-Reaches v slot ((w, data_root) ∷ keys) o h =
      elim (Option-cases (get_attestation_data_by_root S store data_root)) [
        | inl absent ↦ rw absent (latest_from-Reaches v slot keys o h)
        | inr (d, found) ↦ rw found (elim (Bool-cases (w == v)) [
          | inl own ↦
              let (e, is_e, reached) = h in
              let grown = (later-slots o d).1 e is_e in
              rw own (
                latest_from-Reaches v slot keys (some (later o d)) (
                  later o d,
                  refl,
                  (let r : slot ≤ (later o d).slot = omega (arith, reached, grown) in r),
                ))
          | inr other ↦ rw other (latest_from-Reaches v slot keys o h)
        ])
      ]

  latest_from-newest :
      (v : ℕ) (keys : List SignatureKey) (o : Option AttestationData) (e : AttestationData)
      → VotedFor v e keys
      → Reaches e.slot (latest_from v keys o)
  unfolding latest_from
  latest_from-newest v [] o e x = elim x [ ]
  latest_from-newest v ((_, data_root) ∷ keys) o e (here found) =
      rw (found, (nat_beq_iff v v).1 refl)
        (latest_from-Reaches v e.slot keys (some (later o e))
          (later o e, refl, (later-slots o e).0))
  latest_from-newest v ((w, data_root) ∷ keys) o e (there voted) =
      latest_from-newest v keys _ e voted

  step-origin :
      (w v : ℕ) (o read : Option AttestationData) (d : AttestationData)
      → elim read [ none ↦ o | some e ↦ if w == v then some (later o e) else o ] ≡ some d
      → ((w ≡ v) × (read ≡ some d)) ⊎ (o ≡ some d)
  step-origin w v o none d h = inr h
  step-origin w v o (some e) d h = ground (arith, h, (later-slots o e).2, nat_beq_iff w v)

  latest_from-origin :
      (v : ℕ) (keys : List SignatureKey) (o : Option AttestationData) (d : AttestationData)
      → latest_from v keys o ≡ some d
      → VotedFor v d keys ⊎ (o ≡ some d)
  unfolding latest_from
  latest_from-origin v [] o d h = inr h
  latest_from-origin v ((w, data_root) ∷ keys) o d h = elim (latest_from-origin v keys _ d h) [
    | inl voted ↦ inl (there voted)
    | inr stepped ↦
        elim (step-origin w v o (get_attestation_data_by_root S store data_root) d stepped) [
          | inl (same, found) ↦ inl (rw same (here found))
          | inr old ↦ inr old
        ]
  ]

  -- Extraction gives a validator a vote exactly when one of the keys leads to stored data of that
  -- validator: then it gives such a vote, and none of the validator's others has a later slot.
  pub extract_latest_attestations_lem :
      (keys : List SignatureKey) (v : ℕ)
      → ((d : AttestationData)
          → lookup v (extract_latest_attestations S store keys) ≡ some d
          → VotedFor v d keys)
        × ((e : AttestationData)
            → VotedFor v e keys
            → (d : AttestationData) × (lookup v (extract_latest_attestations S store keys) ≡ some d)
              × (e.slot ≤ d.slot))
  unfolding extract_latest_attestations lookup
  extract_latest_attestations_lem keys v =
      let folded = lookup-extract_votes keys [] v in
      (
        (λ d h. elim (latest_from-origin v keys none d (sym folded ∙ h)) [
          | inl voted ↦ voted
          | inr none_is_some ↦ absurd cc
        ]),
        (λ e voted.
            let (d, found, newest) = latest_from-newest v keys none e voted in
            (d, folded ∙ found, newest)),
      )
