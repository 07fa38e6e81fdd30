-- ===== src/Chain/Head/SafeTarget.antt =====
-- What `update_head` and `update_safe_target` of crates/blockchain/src/store.rs put into the store.
use ethlambda.Storage.Payloads.{SignatureKey, dedup_keys}
use ethlambda.Base.{
  any-append, ℕ, true, ◌||◌, any, List, [], ◌∷◌, ◌++◌, ◌∙◌, ◌==◌, pair_eq, Bool-cases, ◌*◌, ◌≤◌,
  ◌≡◌, ◌≢◌, ◌⊎◌, inl, inr, refl, some, length, lookup, nat_eq, arith,
}
use ethlambda.Ssz.{Ssz}
use ethlambda.Types.{H256, zero_hash, State}
use ethlambda.ForkChoice.{Weights, weight, compute_block_weights}
use ethlambda.ForkChoice.Descent.{IsForest, Below}
use ethlambda.ForkChoice.Children.{IsUnique, Heads}
use ethlambda.ForkChoice.Head.{compute_lmd_ghost_head_lem}
use ethlambda.Storage.Store.{
  Store, get_live_chain, head_state, set_safe_target, extract_latest_attestations,
  extract_latest_known_attestations,
}
use ethlambda.Storage.Prune.{head_only, update_checkpoints}
use ethlambda.Chain.Head.{min_target_score, all_payload_keys, update_safe_target, update_head}

any-dedup_keys :
    {A : Type 0} (key : SignatureKey) (entries : List (SignatureKey × A)) (seen : List SignatureKey)
    → any (λ k. k == key) (dedup_keys entries seen)
      ≡ (any (λ k. k == key) seen || any (λ e. e.0 == key) entries)
unfolding dedup_keys
any-dedup_keys key [] seen = ground arith
any-dedup_keys key ((k, payload) ∷ entries) seen = elim (Bool-cases (any (λ j. j == k) seen)) [
  | inl old ↦ elim (Bool-cases (k == key)) [
    | inl same ↦
        let e : k ≡ key = (pair_eq.beq_iff k key).0 same in
        let found : any (λ j. j == key) seen ≡ true = rw e at old in
        rw old (ground (arith, any-dedup_keys key entries seen, found))
    | inr other ↦ rw old (ground (arith, any-dedup_keys key entries seen, other))
  ]
  | inr new ↦ rw new (
      ground (
        arith,
        any-dedup_keys key entries (seen ++ (k ∷ [])),
        any-append (λ j. j == key) seen (k ∷ []),
      ))
]

module _ (S : Ssz) where
  -- The index of the store is a forest in which the justified block stands, and the fuel is enough.
  pub record IsReady (fuel : ℕ) (store : Store S) : Type 0 where
    pub forest : IsForest (get_live_chain S store)
    pub below : Below fuel (get_live_chain S store)
    pub unique : IsUnique (get_live_chain S store)
    pub slot : ℕ
    pub parent : H256
    pub nonzero : store.metadata.latest_justified.root ≢ zero_hash
    pub known :
        lookup store.metadata.latest_justified.root (get_live_chain S store) ≡ some (slot, parent)

  score_enough : (n w : ℕ) → min_target_score S n ≤ w → 2 * n ≤ 3 * w
  unfolding min_target_score
  score_enough n w h = omega (arith, h)

  any-all_payload_keys :
      (store : Store S) (key : SignatureKey)
      → any (λ k. k == key) (all_payload_keys S store) ≡ (
          any (λ e. e.0 == key) store.known_payloads.entries
          || any (λ e. e.0 == key) store.new_payloads.entries)
  unfolding all_payload_keys
  any-all_payload_keys store key =
      any-dedup_keys key (store.known_payloads.entries ++ store.new_payloads.entries) []
      ∙ any-append (λ e. e.0 == key) store.known_payloads.entries store.new_payloads.entries

  -- On a ready store with the head state, the safe target moves, and nothing else: to the end of the
  -- walk from the justified block along best children, each with two thirds of the validators by
  -- weight. The weights are those of the newest vote of each validator under the keys of the known
  -- and of the new payloads, and no others. Unless the target is the justified block itself, it has
  -- two thirds.
  pub update_safe_target_lem :
      (fuel : ℕ) (store : Store S) (state : State S)
      → (ready : IsReady fuel store) → head_state S store ≡ some state
      → (target : H256) × (w : Weights) × (update_safe_target S fuel store
          ≡ some (set_safe_target S store target))
        × (compute_block_weights fuel ready.slot
              (get_live_chain S store)
              (extract_latest_attestations S store (all_payload_keys S store))
            ≡ some w)
        × ((key : SignatureKey)
            → any (λ k. k == key) (all_payload_keys S store) ≡ (
                any (λ e. e.0 == key) store.known_payloads.entries
                || any (λ e. e.0 == key) store.new_payloads.entries))
        × Heads w
            (min_target_score S (length state.validators))
            (get_live_chain S store)
            store.metadata.latest_justified.root
            target
        × ((store.metadata.latest_justified.root ≡ target)
            ⊎ (2 * length state.validators ≤ 3 * weight w target))
  unfolding update_safe_target
  update_safe_target_lem fuel store state ready at_head =
      let n = length state.validators in
      let (target, w, ran, weighed, path, scored) =
        compute_lmd_ghost_head_lem fuel ready.slot (min_target_score S n)
          store.metadata.latest_justified.root ready.parent (get_live_chain S store)
          (extract_latest_attestations S store (all_payload_keys S store)) ready.forest ready.below
          ready.unique ready.nonzero ready.known in
      (
        target,
        w,
        rw (at_head, ran) refl,
        weighed,
        any-all_payload_keys store,
        path,
        elim scored [
          | inl same ↦ inl same
          | inr enough ↦ inr (score_enough n (weight w target) enough)
        ],
      )

  head_only_lem :
      (store : Store S) (head : H256)
      → update_checkpoints S store (head_only head)
        ≡ record store { metadata = record (store.metadata) { head = head } }
  unfolding update_checkpoints
  head_only_lem store head = refl

  -- On a ready store the head moves, and nothing else: to the end of the walk from the justified
  -- block along best children, by the newest known vote of each validator.
  pub update_head_lem :
      (fuel : ℕ) (store : Store S)
      → (ready : IsReady fuel store)
      → (head : H256) × (w : Weights) × (update_head S fuel store
          ≡ some (record store { metadata = record (store.metadata) { head = head } }))
        × (compute_block_weights fuel ready.slot
              (get_live_chain S store)
              (extract_latest_known_attestations S store)
            ≡ some w)
        × Heads w 0 (get_live_chain S store) store.metadata.latest_justified.root head
  unfolding update_head
  update_head_lem fuel store ready =
      let (head, w, ran, weighed, path, _) =
        compute_lmd_ghost_head_lem fuel ready.slot 0 store.metadata.latest_justified.root
          ready.parent (get_live_chain S store) (extract_latest_known_attestations S store)
          ready.forest ready.below ready.unique ready.nonzero ready.known in
      (head, w, rw (ran, head_only_lem store head) refl, weighed, path)
