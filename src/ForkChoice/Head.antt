-- ===== src/ForkChoice/Head.antt =====
-- The head: each step goes to the best eligible child, and the last block has none.
use ethlambda.Base.{
  ℕ, zero, suc, ◌+◌, ◌<◌, ◌≤◌, ◌≡◌, ◌≢◌, ◌⊎◌, refl, ap, sym, ◌∙◌, true, false, ◌&&◌, some, List, [],
  ◌∷◌, ◌==◌, nat_eq, arith, nat_beq_iff, unwrap_or, Map, lookup, Bool-cases, Option-cases, inl, inr,
  List-cases,
}
use ethlambda.Types.{H256, zero_hash, AttestationData}
use ethlambda.ForkChoice.{
  Blocks, Weights, Children, weight, build_children, max_by_weight, descend, resolve_start,
  compute_block_weights, compute_lmd_ghost_head,
}
use ethlambda.ForkChoice.Children.{
  In, takes_part, children_of, IsUnique, IsBest, Heads, stop, down, build_children_lem,
  max_by_weight-IsBest,
}
use ethlambda.ForkChoice.Weights.{compute_block_weights_lem}
use ethlambda.ForkChoice.Descent.{IsForest, Below}

module _ (weights : Weights) (min_score : ℕ) where
  children_first :
      (root parent head : H256) (slot : ℕ) (bs : Blocks)
      → (takes_part weights min_score root parent && parent == head) ≡ true
      → children_of weights min_score ((root, (slot, parent)) ∷ bs) head
        ≡ root ∷ children_of weights min_score bs head
  unfolding children_of
  children_first root parent head slot bs h = rw h

  children_skip :
      (root parent head : H256) (slot : ℕ) (bs : Blocks)
      → (takes_part weights min_score root parent && parent == head) ≡ false
      → children_of weights min_score ((root, (slot, parent)) ∷ bs) head
        ≡ children_of weights min_score bs head
  unfolding children_of
  children_skip root parent head slot bs h = rw h

  -- A child of the list is an eligible block of the map, whose parent is the head.
  In-children_of :
      (bs : Blocks) (head c : H256)
      → In c (children_of weights min_score bs head)
      → (slot : ℕ) × In (c, (slot, head)) bs × (takes_part weights min_score c head ≡ true)
  In-children_of [] head c h = unfold children_of in absurd h
  In-children_of ((root, (slot, parent)) ∷ bs) head c h =
      elim (Bool-cases (takes_part weights min_score root parent && parent == head)) [
        | inr out ↦
            let (s, there, e) =
              In-children_of bs head c (rw (children_skip root parent head slot bs out) at h) in
            (s, inr there, e)
        | inl in_ ↦
            let same : parent ≡ head = (nat_beq_iff parent head).0 (ground arith) in
            first (ground arith) same (rw (children_first root parent head slot bs in_) at h)
              (In-children_of bs head c)
      ]
    where
      first :
          takes_part weights min_score root parent ≡ true
          → parent ≡ head
          → In c (root ∷ children_of weights min_score bs head)
          → (In c (children_of weights min_score bs head)
              → (s : ℕ) × In (c, (s, head)) bs × (takes_part weights min_score c head ≡ true))
          → (s : ℕ) × In (c, (s, head)) ((root, (slot, parent)) ∷ bs)
            × (takes_part weights min_score c head ≡ true)
      first eligible same (inl here) later =
          (slot, inl (λ i. (here i, (slot, sym same i))), rw (here, ← same) eligible)
      first eligible same (inr there) later = let (s, m, e) = later there in (s, inr m, e)

module _ (weights : Weights) (min_score : ℕ) (blocks : Blocks) where
  abbrev children_map : Children
  children_map = build_children weights min_score blocks []

  no_children :
      (head : H256) (fuel : ℕ)
      → unwrap_or (lookup head children_map) [] ≡ []
      → descend (suc fuel) weights children_map head ≡ some head
  unfolding descend
  no_children head fuel h = elim (Option-cases (lookup head children_map)) [
    | inl none_ ↦ rw (none_, descend)
    | inr (l, found) ↦
        let e : l ≡ [] = ap (λ o. unwrap_or o []) (sym found) ∙ h in rw (found, descend) (rw e)
  ]

  some_children :
      (head c : H256) (cs : List H256) (fuel : ℕ)
      → unwrap_or (lookup head children_map) [] ≡ c ∷ cs
      → descend (suc fuel) weights children_map head
        ≡ descend fuel weights children_map (max_by_weight weights c cs)
  unfolding descend
  some_children head c cs fuel h = elim (Option-cases (lookup head children_map)) [
    | inl none_ ↦ cc (none_, h)
    | inr (l, found) ↦
        let e : l ≡ c ∷ cs = ap (λ o. unwrap_or o []) (sym found) ∙ h in rw (found, descend) (rw e)
  ]

  children_map_lem :
      (head : H256)
      → unwrap_or (lookup head children_map) [] ≡ children_of weights min_score blocks head
  unfolding lookup
  children_map_lem head = build_children_lem weights min_score blocks [] head

  -- In a forest whose slots are below `bound`, the walk from a known block ends with enough fuel.
  pub descend_lem :
      (fuel bound slot : ℕ) (head p : H256)
      → IsForest blocks
      → Below bound blocks
      → IsUnique blocks
      → lookup head blocks ≡ some (slot, p)
      → bound ≤ slot + fuel
      → (h : H256) × (descend fuel weights children_map head ≡ some h)
        × Heads weights min_score blocks head h
  descend_lem zero bound slot head p f b u known enough =
      absurd (omega (arith, b.below head p slot known))
  descend_lem (suc fuel) bound slot head p f b u known enough =
      elim (List-cases (children_of weights min_score blocks head)) [
        | inl none_ ↦ (head, no_children head fuel (children_map_lem head ∙ none_), stop head none_)
        | inr (c, cs, some_) ↦
            let child = max_by_weight weights c cs in
            let best : IsBest weights child (children_of weights min_score blocks head) =
              rw some_ (max_by_weight-IsBest weights c cs) in
            let (s, entry, _) = In-children_of weights min_score blocks head child best.member in
            let child_known = u.at child (s, head) entry in
            let younger : slot < s = f.older child head p s slot child_known known in
            let (h, ran, path) =
              descend_lem fuel bound s child head f b u child_known (omega arith) in
            (
              h,
              some_children head c cs fuel (children_map_lem head ∙ some_) ∙ ran,
              down child best path,
            )
      ]

  eligible_score :
      (root parent : H256)
      → takes_part weights min_score root parent ≡ true
      → min_score ≤ weight weights root
  unfolding takes_part
  eligible_score root parent h = ground arith

  pub Heads-score :
      {start head : H256}
      → Heads weights min_score blocks start head
      → (start ≡ head) ⊎ (min_score ≤ weight weights head)
  Heads-score (stop head h) = inl refl
  Heads-score {start} {head} (down child best path) =
      let (s, entry, eligible) = In-children_of weights min_score blocks start child best.member in
      elim (Heads-score path) [
        | inl e ↦ inr (rw (← e) (eligible_score child start eligible))
        | inr h ↦ inr h
      ]

nonempty :
    (b : H256 × (ℕ × H256)) (bs : Blocks) (start : H256)
    → start ≢ zero_hash
    → resolve_start start (b ∷ bs) ≡ start
unfolding resolve_start
nonempty (root, (slot, parent)) bs start h = ground arith

assembled :
    (fuel slot min_score : ℕ) (start p head : H256) (b : H256 × (ℕ × H256)) (bs : Blocks)
    (attestations : Map ℕ AttestationData) (w : Weights)
    → start ≢ zero_hash
    → lookup start (b ∷ bs) ≡ some (slot, p)
    → compute_block_weights fuel slot (b ∷ bs) attestations ≡ some w
    → descend fuel w (build_children w min_score (b ∷ bs) []) start ≡ some head
    → compute_lmd_ghost_head fuel start (b ∷ bs) attestations min_score ≡ some (head, w)
unfolding compute_lmd_ghost_head
assembled fuel slot min_score start p head b bs attestations w h known weighed ran =
    ground (arith, nonempty b bs start h, known, weighed, ran)

-- In a forest of blocks with one entry for each root, with fuel above every slot, the head is
-- computed from a known start that is not zero: every step from the start goes to the child of the
-- highest weight (of equal weights, of the highest root) among those with the needed score, and the
-- head has no such child. The head is the start or has the needed score.
pub compute_lmd_ghost_head_lem :
    (fuel slot min_score : ℕ) (start p : H256) (blocks : Blocks)
    (attestations : Map ℕ AttestationData)
    → IsForest blocks
    → Below fuel blocks
    → IsUnique blocks
    → start ≢ zero_hash
    → lookup start blocks ≡ some (slot, p)
    → (head : H256) × (w : Weights) × (compute_lmd_ghost_head fuel start blocks attestations
          min_score
        ≡ some (head, w))
      × (compute_block_weights fuel slot blocks attestations ≡ some w)
      × Heads w min_score blocks start head
      × ((start ≡ head) ⊎ (min_score ≤ weight w head))
unfolding lookup
compute_lmd_ghost_head_lem fuel slot min_score start p [] attestations f b u h known = cc
compute_lmd_ghost_head_lem fuel slot min_score start p (e ∷ es) attestations f b u h known =
    let blocks = e ∷ es in
    let below = b.below start p slot known in
    let (w, weighed, _, _) =
      compute_block_weights_lem slot blocks fuel attestations f b (omega arith) in
    let (head, ran, path) =
      descend_lem w min_score blocks fuel fuel slot start p f b u known (omega arith) in
    (
      head,
      w,
      assembled fuel slot min_score start p head e es attestations w h known weighed ran,
      weighed,
      path,
      Heads-score w min_score blocks path,
    )
