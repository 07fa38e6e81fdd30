-- ===== src/ForkChoice/Children.antt =====
-- The children of a block, as the source's map holds them, and the best of them.
use ethlambda.Base.{
  ℕ, ◌<◌, ◌≤◌, not, leb, Bool, ◌≡◌, ◌⊎◌, refl, ap, sym, ◌∙◌, true, false, ◌&&◌, some, List, [], ◌∷◌,
  ◌++◌, ◌==◌, nat_eq, arith, nat_beq_iff, if◌then◌else◌, unwrap_or, lookup, insert, lookup-insert,
  Bool-cases, inl, inr,
}
use mathlib.Core.List.{append_assoc, append-nil}
use ethlambda.Types.{H256, zero_hash}
use ethlambda.ForkChoice.{
  Blocks, Weights, Children, is_eligible, build_children, key_le, max_by_weight, weight,
}

-- `a` is one of the list.
abbrev pub In : {A : Type 0} → A → List A → Type 0
In a [] = ⊥
In a (x ∷ xs) = (a ≡ x) ⊎ In a xs

-- A block takes part below a parent that is not zero, with the score that it needs.
unfoldable pub takes_part : Weights → ℕ → H256 → H256 → Bool
takes_part weights min_score root parent =
    not (parent == zero_hash) && leb min_score (weight weights root)

pub is_eligible_lem :
    (weights : Weights) (min_score : ℕ) (root parent : H256)
    → is_eligible weights min_score root parent ≡ takes_part weights min_score root parent
unfolding is_eligible takes_part
is_eligible_lem weights min_score root parent = ground arith

-- The children of a block that take part, in the order of the map.
unfoldable pub children_of : Weights → ℕ → Blocks → H256 → List H256
children_of weights min_score [] head = []
children_of weights min_score ((root, (slot, parent)) ∷ blocks) head =
    let rest = children_of weights min_score blocks head in
    if takes_part weights min_score root parent && parent == head then root ∷ rest else rest

-- The blocks of a hash map: a root stands once.
pub record IsUnique (blocks : Blocks) : Type 0 where
  pub at : (root : H256) (v : ℕ × H256) → In (root, v) blocks → lookup root blocks ≡ some v

module _ (weights : Weights) (min_score : ℕ) where
  pushed :
      (root parent head : H256) (blocks : Blocks) (children : Children)
      → unwrap_or
            (lookup head
              (insert parent (unwrap_or (lookup parent children) [] ++ (root ∷ [])) children))
            []
          ++ children_of weights min_score blocks head
        ≡ unwrap_or (lookup head children) []
          ++ (if parent == head
              then root ∷ children_of weights min_score blocks head
              else children_of weights min_score blocks head)
  pushed root parent head blocks children =
      let rest = children_of weights min_score blocks head in
      elim (Bool-cases (parent == head)) [
        | inl same ↦
            rw (lookup-insert, same)
              (append_assoc (unwrap_or (lookup parent children) []) (root ∷ []) rest
                ∙ ap (λ k. unwrap_or (lookup k children) [] ++ (root ∷ rest))
                    ((nat_beq_iff parent head).0 same))
        | inr other ↦ rw (lookup-insert, other)
      ]

  pub build_children_lem :
      (blocks : Blocks) (children : Children) (head : H256)
      → unwrap_or (lookup head (build_children weights min_score blocks children)) []
        ≡ unwrap_or (lookup head children) [] ++ children_of weights min_score blocks head
  unfolding build_children children_of
  build_children_lem [] children head = sym (append-nil _)
  build_children_lem ((root, (slot, parent)) ∷ blocks) children head =
      let fits = is_eligible_lem weights min_score root parent in
      elim (Bool-cases (takes_part weights min_score root parent)) [
        | inr out ↦ rw (fits, out) (build_children_lem blocks children head)
        | inl in_ ↦
            rw (fits, in_)
              (build_children_lem blocks _ head ∙ pushed root parent head blocks children)
      ]

  key_le_refl : (a : H256) → key_le weights a a ≡ true
  unfolding key_le
  key_le_refl a = ground arith

  key_le_total : (a b : H256) → key_le weights a b ≡ false → key_le weights b a ≡ true
  unfolding key_le
  key_le_total a b h = ground arith

  key_le_trans :
      (a b c : H256)
      → key_le weights a b ≡ true
      → key_le weights b c ≡ true
      → key_le weights a c ≡ true
  unfolding key_le
  key_le_trans a b c h k = ground arith

  -- `m` is of the list, and no key of the list is above its key.
  pub record IsTop (m : H256) (l : List H256) : Type 0 where
    pub member : In m l
    pub above : (c : H256) → In c l → key_le weights c m ≡ true

  IsTop-cons :
      (best c n m : H256) (l : List H256)
      → (n ≡ best) ⊎ (n ≡ c)
      → key_le weights best n ≡ true
      → key_le weights c n ≡ true
      → IsTop m (n ∷ l)
      → IsTop m (best ∷ c ∷ l)
  IsTop-cons best c n m l pick up₁ up₂ b = record { member = find b.member; above = λ x. over x }
    where
      find : In m (n ∷ l) → In m (best ∷ c ∷ l)
      find (inl here) = elim pick [ inl p ↦ inl (here ∙ p) | inr p ↦ inr (inl (here ∙ p)) ]
      find (inr there) = inr (inr there)

      top : key_le weights n m ≡ true
      top = b.above n (inl refl)

      over : (x : H256) → In x (best ∷ c ∷ l) → key_le weights x m ≡ true
      over x (inl e) = rw e (key_le_trans best n m up₁ top)
      over x (inr (inl e)) = rw e (key_le_trans c n m up₂ top)
      over x (inr (inr there)) = b.above x (inr there)

  pub max_by_weight_lem :
      (best : H256) (l : List H256) → IsTop (max_by_weight weights best l) (best ∷ l)
  unfolding max_by_weight
  max_by_weight_lem best [] = record {
    member = inl refl;
    above = λ c. elim [ inl e ↦ rw e (key_le_refl best) | inr h ↦ absurd h ];
  }
  max_by_weight_lem best (c ∷ l) = elim (Bool-cases (key_le weights best c)) [
    | inl up ↦ rw up (IsTop-cons best c c _ l (inr refl) up (key_le_refl c) (max_by_weight_lem c l))
    | inr down ↦ rw down (
        IsTop-cons best c best _ l (inl refl) (key_le_refl best) (key_le_total best c down)
          (max_by_weight_lem best l))
  ]

module _ (weights : Weights) where
  -- By weight, then by root.
  abbrev pub Outranks : H256 → H256 → Type 0
  Outranks m c =
      (weight weights c < weight weights m) ⊎ ((weight weights c ≡ weight weights m) × (c ≤ m))

  key_le-Outranks : (c m : H256) → key_le weights c m ≡ true → Outranks m c
  unfolding key_le
  key_le-Outranks c m h = ground (arith, h)

  -- `m` is of the list, and outranks each of it.
  pub record IsBest (m : H256) (l : List H256) : Type 0 where
    pub member : In m l
    pub above : (c : H256) → In c l → Outranks m c

  pub max_by_weight-IsBest :
      (best : H256) (l : List H256) → IsBest (max_by_weight weights best l) (best ∷ l)
  max_by_weight-IsBest best l =
      let top = max_by_weight_lem weights 0 best l in
      record {
        member = top.member;
        above = λ c h. key_le-Outranks c (max_by_weight weights best l) (top.above c h);
      }

-- From `start` to a head: every step is to the best eligible child, and the last block has none.
pub data Heads (weights : Weights) (min_score : ℕ) (blocks : Blocks) : H256 → H256 → Type 0 where
  stop :
      (head : H256)
      → children_of weights min_score blocks head ≡ []
      → Heads weights min_score blocks head head
  down :
      {start head : H256} (child : H256)
      → IsBest weights child (children_of weights min_score blocks start)
      → Heads weights min_score blocks child head
      → Heads weights min_score blocks start head
