-- ===== src/ForkChoice/Tests.antt =====
-- Three blocks, two of them children of the first, and votes for one of the two.
use ethlambda.Base.{
  ℕ, ◌≤◌, ◌≡◌, ◌↔◌, ◌⊎◌, refl, true, some, [], ◌∷◌, map, count, lookup, nat_eq, arith, Map,
}
use ethlambda.Types.{H256, Checkpoint, AttestationData}
use ethlambda.ForkChoice.{Blocks, Weights, weight, compute_block_weights, compute_lmd_ghost_head}
use ethlambda.ForkChoice.Descent.{IsForest, Below, Descends, descends}
use ethlambda.ForkChoice.Weights.{compute_block_weights_lem}
use ethlambda.ForkChoice.Children.{IsUnique, Heads}
use ethlambda.ForkChoice.Head.{compute_lmd_ghost_head_lem}

abbrev forked : Blocks
forked = (11, (1, 0)) ∷ (12, (2, 11)) ∷ (13, (3, 11)) ∷ []

abbrev vote_for : H256 → ℕ → AttestationData
vote_for root slot =
    let c : Checkpoint = record { root = root; slot = slot } in
    record { slot = slot; head = c; target = c; source = c }

abbrev votes : Map ℕ AttestationData
votes = (0, vote_for 12 2) ∷ (1, vote_for 12 2) ∷ (2, vote_for 13 3) ∷ []

forked-IsForest : IsForest forked
unfolding lookup
forked-IsForest = record { older = λ root parent pp slot pslot h k. ground (arith, h, k) }

forked-Below : Below 5 forked
unfolding lookup
forked-Below = record { below = λ root p slot h. ground (arith, h) }

compute_block_weights_lem_example :
    (w : Weights) × (compute_block_weights 5 1 forked votes ≡ some w)
    × ((r : H256)
        → weight w r ≡ count (λ a. descends 5 1 forked r a.head.root) (map (λ e. e.1) votes))
    × ((r root : H256) → (descends 5 1 forked r root ≡ true) ↔ Descends 1 forked r root)
compute_block_weights_lem_example =
    compute_block_weights_lem 1 forked 5 votes forked-IsForest forked-Below (omega arith)

forked-IsUnique : IsUnique forked
unfolding lookup
forked-IsUnique = record { at = λ root v member. ground (arith, member) }

forked_at_start : lookup 11 forked ≡ some (1, 0)
unfolding lookup
forked_at_start = refl

compute_lmd_ghost_head_lem_example :
    (head : H256) × (w : Weights) × (compute_lmd_ghost_head 5 11 forked votes 0 ≡ some (head, w))
    × (compute_block_weights 5 1 forked votes ≡ some w)
    × Heads w 0 forked 11 head
    × ((11 ≡ head) ⊎ (0 ≤ weight w head))
compute_lmd_ghost_head_lem_example =
    compute_lmd_ghost_head_lem 5 1 0 11 0 forked votes forked-IsForest forked-Below forked-IsUnique
      (λ h. omega arith) forked_at_start
