-- ===== src/ForkChoice.antt =====
-- crates/blockchain/fork_choice/src/lib.rs: block weights and the LMD GHOST head. The loops of the
-- source follow parents or children in a map; they take fuel here, and `none` means that it ran out.
pub mod Descent
pub mod Weights
pub mod Children
pub mod Head
mod Tests
use ethlambda.Base.{
  ℕ, zero, suc, ◌+◌, Bool, true, false, ◌&&◌, ◌||◌, Option, none, some, List, [], ◌∷◌, ◌++◌, ltb,
  ◌==◌, nat_eq, if◌then◌else◌, unwrap_or, Map, lookup, insert, map,
}
use ethlambda.Types.{H256, zero_hash, AttestationData}

-- root ↦ (slot, parent root)
abbrev pub Blocks : Type 0
Blocks = Map H256 (ℕ × H256)

abbrev pub Weights : Type 0
Weights = Map H256 ℕ

-- `weights.get(root).copied().unwrap_or(0)`
abbrev pub weight : Weights → H256 → ℕ
weight weights root = unwrap_or (lookup root weights) 0

-- The walk back from one attested head: every block above `start_slot` gains one.
unfoldable pub walk_back : ℕ → ℕ → Blocks → H256 → Weights → Option Weights
walk_back zero start_slot blocks root weights = none
walk_back (suc fuel) start_slot blocks root weights = elim (lookup root blocks) [
  | none ↦ some weights
  | some (slot, parent_root) ↦
      let rest =
        walk_back fuel start_slot blocks parent_root
          (insert root (weight weights root + 1) weights) in
      if ltb start_slot slot then rest else some weights
]

-- over the values of the attestation map
unfoldable pub add_weights : ℕ → ℕ → Blocks → List AttestationData → Weights → Option Weights
add_weights fuel start_slot blocks [] weights = some weights
add_weights fuel start_slot blocks (a ∷ attestations) weights =
    elim (walk_back fuel start_slot blocks a.head.root weights) [
      | none ↦ none
      | some w ↦ add_weights fuel start_slot blocks attestations w
    ]

unfoldable pub compute_block_weights : ℕ → ℕ → Blocks → Map ℕ AttestationData → Option Weights
unfolding add_weights walk_back
compute_block_weights fuel start_slot blocks attestations =
    add_weights fuel start_slot blocks (map (λ e. e.1) attestations) []

-- Does the block take part, given the score that it needs?
unfoldable pub is_eligible : Weights → ℕ → H256 → H256 → Bool
is_eligible weights min_score root parent_root =
    if parent_root == zero_hash || (ltb 0 min_score && ltb (weight weights root) min_score)
    then false
    else true

abbrev pub Children : Type 0
Children = Map H256 (List H256)

unfoldable pub build_children : Weights → ℕ → Blocks → Children → Children
build_children weights min_score [] children = children
build_children weights min_score ((root, (slot, parent_root)) ∷ blocks) children =
    build_children weights min_score blocks (
      if is_eligible weights min_score root parent_root
      then insert parent_root (unwrap_or (lookup parent_root children) [] ++ (root ∷ [])) children
      else children)

-- Is the key (weight, root) of `a` at most that of `b`, in the order on tuples?
unfoldable pub key_le : Weights → H256 → H256 → Bool
key_le weights a b =
    ltb (weight weights a) (weight weights b)
    || (weight weights a == weight weights b && (ltb a b || a == b))

-- `max_by_key` over a nonempty list; of equal keys the last
unfoldable pub max_by_weight : Weights → H256 → List H256 → H256
unfolding key_le
max_by_weight weights best [] = best
max_by_weight weights best (c ∷ children) =
    max_by_weight weights (if key_le weights best c then c else best) children

-- From a head to its best child, until there is none.
unfoldable pub descend : ℕ → Weights → Children → H256 → Option H256
unfolding max_by_weight
descend zero weights children head = none
descend (suc fuel) weights children head = elim (lookup head children) [
  | none ↦ some head
  | some l ↦ elim l [
    | [] ↦ some head
    | c ∷ cs ↦ descend fuel weights children (max_by_weight weights c cs)
  ]
]

-- `min_by_key` on the slot; of equal slots the first
unfoldable pub min_by_slot : H256 → ℕ → Blocks → H256
min_by_slot best best_slot [] = best
min_by_slot best best_slot ((root, (slot, _)) ∷ blocks) =
    min_by_slot (if ltb slot best_slot then root else best)
      (if ltb slot best_slot then slot else best_slot) blocks

-- A zero start root stands for the block of the lowest slot.
unfoldable pub resolve_start : H256 → Blocks → H256
unfolding min_by_slot
resolve_start start_root [] = start_root
resolve_start start_root ((root, (slot, parent)) ∷ blocks) =
    if start_root == zero_hash then min_by_slot root slot blocks else start_root

unfoldable pub compute_lmd_ghost_head :
    ℕ → H256 → Blocks → Map ℕ AttestationData → ℕ → Option (H256 × Weights)
compute_lmd_ghost_head fuel start_root [] attestations min_score = some (start_root, [])
compute_lmd_ghost_head fuel start_root (b ∷ bs) attestations min_score =
    let blocks = b ∷ bs in
    let start = resolve_start start_root blocks in
    elim (lookup start blocks) [
      | none ↦ some (start, [])
      | some (start_slot, _) ↦ elim (compute_block_weights fuel start_slot blocks attestations) [
        | none ↦ none
        | some weights ↦
            elim (descend fuel weights (build_children weights min_score blocks []) start) [
              | none ↦ none
              | some head ↦ some (head, weights)
            ]
      ]
    ]
