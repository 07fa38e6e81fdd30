-- ===== src/Stf/Attestations/Votes.antt =====
-- Marking votes: no index out of bounds, and which validators have voted afterwards.
use ethlambda.Base.{
  ℕ, zero, suc, ◌+◌, ◌-◌, ◌<◌, ◌≤◌, ◌≡◌, refl, ap, ◌∙◌, Bool, true, false, ◌&&◌, ◌||◌, arith, ltb,
  leb, ◌==◌, nat_eq, Bool-cases, inl, inr, List, [], ◌∷◌, length, get_elem?, set, unwrap_or, ok,
  length-set, get_elem?-set_self, get_elem?-set_ne, lt→ltb,
}
use ethlambda.Types.{indices_from}
use ethlambda.Stf.Attestations.{mark_votes}

-- The bit at a position, unset where the list has ended.
abbrev pub bit : List Bool → ℕ → Bool
bit bits i = unwrap_or (get_elem? bits i) false

pub bit-set :
    (votes : List Bool) (i j : ℕ)
    → i < length votes
    → bit (set votes i true) j ≡ (i == j || bit votes j)
bit-set votes i j h =
    ground (arith, get_elem?-set_self votes i true h, get_elem?-set_ne votes i j true)

mark_first {ℓ} :
    {E : Type ℓ} (id : ℕ) (ids : List ℕ) (votes : List Bool)
    → id < length votes
    → mark_votes {E = E} (id ∷ ids) votes ≡ mark_votes ids (set votes id true)
unfolding mark_votes
mark_first id ids votes h = rw (lt→ltb id (length votes) h)

-- Position `i + k` is voted for if bit `k` is set.
marked : List Bool → ℕ → List Bool → ℕ → Bool
marked bits i votes j = bit votes j || (leb i j && bit bits (j - i))

pub marked_step :
    (b : Bool) (bits : List Bool) (i j : ℕ) (old new : Bool)
    → new ≡ ((b && i == j) || old)
    → (new || (leb (i + 1) j && bit bits (j - (i + 1))))
      ≡ (old || (leb i j && bit (b ∷ bits) (j - i)))
marked_step b bits i j old new e = elim (Bool-cases (ltb i j)) [
  | inl above ↦
      let q : j - i ≡ suc (j - (i + 1)) = ground arith in
      ground (arith, ap (λ k. bit (b ∷ bits) k) q)
  | inr other ↦ elim (Bool-cases (i == j)) [
    | inl same ↦ let q : j - i ≡ zero = ground arith in ground (arith, ap (λ k. bit (b ∷ bits) k) q)
    | inr below ↦ ground arith
  ]
]

pub mark_votes_lem {ℓ} :
    {E : Type ℓ} (i : ℕ) (bits votes : List Bool)
    → i + length bits ≤ length votes
    → (v : List Bool) × (mark_votes {E = E} (indices_from i bits) votes ≡ ok v)
      × (length v ≡ length votes)
      × ((j : ℕ) → bit v j ≡ (bit votes j || (leb i j && bit bits (j - i))))
unfolding mark_votes
mark_votes_lem i [] votes h = (votes, refl, refl, λ j. ground arith)
mark_votes_lem {E} i (true ∷ bits) votes h =
    let (v, ran, size, reads) =
      mark_votes_lem {E = E} (i + 1) bits (set votes i true)
        (omega (arith, length-set votes i true)) in
    (
      v,
      mark_first i (indices_from (i + 1) bits) votes (omega arith) ∙ ran,
      size ∙ length-set votes i true,
      λ j.
          reads j
          ∙ marked_step true bits i j (bit votes j) (bit (set votes i true) j)
              (bit-set votes i j (omega arith)),
    )
mark_votes_lem {E} i (false ∷ bits) votes h =
    let (v, ran, size, reads) = mark_votes_lem {E = E} (i + 1) bits votes (omega arith) in
    (v, ran, size, λ j. reads j ∙ marked_step false bits i j (bit votes j) (bit votes j) refl)
