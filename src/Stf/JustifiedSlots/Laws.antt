-- ===== src/Stf/JustifiedSlots/Laws.antt =====
-- What the operations on justified slots do to the slots that are justified.
use ethlambda.Base.{
  ℕ, ◌+◌, ◌-◌, ◌≤◌, ◌<◌, ◌≡◌, inl, inr, refl, ap, ◌∙◌, true, false, length, get_elem?, set, arith,
  ltb, leb, if◌then◌else◌, unwrap_or, ok, expect, ◌>>=◌, Bool-cases, ◌||◌, ◌==◌, nat_eq,
  get_elem?-set_self, get_elem?-set_ne, length-set, length-replicate,
}
use ethlambda.Ssz.{Ssz, SszLaws}
use ethlambda.Ssz.Laws.{put_ok, with_capacity_ok, get-union_zeros, length-union}
use ethlambda.Types.{historical_roots_limit}
use ethlambda.Stf.JustifiedSlots.{relative_index, is_slot_justified, set_justified, extend_to_slot}

module _ (S : Ssz) (L : SszLaws S) where
  open S use {BitList, iter, len, put}

  -- A slot is justified if it is not after the finalized slot, or its bit is set.
  pub is_slot_justified_lem :
      (b : BitList) (f t : ℕ)
      → is_slot_justified S b f t ≡ (leb t f || unwrap_or (get_elem? (iter b) (t - f - 1)) false)
  unfolding is_slot_justified relative_index
  is_slot_justified_lem b f t = ground (arith, L.get-iter b (t - f - 1))

  set_justified_after {ℓ} :
      {E : Type ℓ} (b : BitList) (f t : ℕ)
      → f < t
      → set_justified S {E = E} b f t ≡ expect (put b (t - f - 1) true)
  unfolding set_justified relative_index
  set_justified_after b f t h = ground arith

  set_justified_until {ℓ} :
      {E : Type ℓ} (b : BitList) (f t : ℕ) → t ≤ f → set_justified S {E = E} b f t ≡ ok b
  unfolding set_justified relative_index
  set_justified_until b f t h = ground arith

  set_bit_reads :
      (b b' : BitList) (f t u : ℕ)
      → f < t
      → t ≤ length (iter b) + f
      → iter b' ≡ set (iter b) (t - f - 1) true
      → is_slot_justified S b' f u ≡ (u == t || is_slot_justified S b f u)
  set_bit_reads b b' f t u after fits e = ground (
    arith,
    is_slot_justified_lem b f u,
    is_slot_justified_lem b' f u,
    get_elem?-set_self (iter b) (t - f - 1) true,
    get_elem?-set_ne (iter b) (t - f - 1) (u - f - 1) true,
  )

  -- Within the capacity a slot is set without a panic, and no other slot changes.
  pub set_justified_lem {ℓ} :
      {E : Type ℓ} (b : BitList) (f t : ℕ)
      → t ≤ length (iter b) + f
      → (b' : BitList) × (set_justified S {E = E} b f t ≡ ok b')
        × (length (iter b') ≡ length (iter b))
        × ((u : ℕ) → is_slot_justified S b' f u ≡ (u == t || is_slot_justified S b f u))
  set_justified_lem b f t h = elim (Bool-cases (ltb f t)) [
    | inl after ↦
        let (b', found, bits) = put_ok S L b (t - f - 1) true (ground arith) in
        (
          b',
          set_justified_after b f t (ground arith) ∙ ap expect found,
          ap length bits ∙ length-set (iter b) (t - f - 1) true,
          λ u. set_bit_reads b b' f t u (ground arith) h bits,
        )
    | inr until ↦ (
      b,
      set_justified_until b f t (ground arith),
      refl,
      λ u. ground (arith, is_slot_justified_lem b f u),
    )
  ]

  extend_cases {ℓ} :
      {E : Type ℓ} (b : BitList) (f t : ℕ)
      → length (iter b) + f < t
      → extend_to_slot S {E = E} b f t ≡ (
          expect (S.with_capacity historical_roots_limit (t - f)) >>= λ extended.
          ok (S.union b extended))
  unfolding extend_to_slot relative_index
  extend_cases b f t h =
      let e : t - f - 1 + 1 ≡ t - f = omega arith in
      ground (arith, L.len-iter b, ap (S.with_capacity historical_roots_limit) e)

  extend_kept {ℓ} :
      {E : Type ℓ} (b : BitList) (f t : ℕ)
      → t ≤ length (iter b) + f
      → extend_to_slot S {E = E} b f t ≡ ok b
  unfolding extend_to_slot relative_index
  extend_kept b f t h = ground (arith, L.len-iter b)

  -- Extending covers the slots up to `t` without a panic below the limit, and changes no slot.
  pub extend_to_slot_lem {ℓ} :
      {E : Type ℓ} (b : BitList) (f t : ℕ)
      → t ≤ historical_roots_limit + f
      → (b' : BitList) × (extend_to_slot S {E = E} b f t ≡ ok b')
        × (length (iter b') ≡ (if leb (t - f) (length (iter b)) then length (iter b) else t - f))
        × ((u : ℕ) → is_slot_justified S b' f u ≡ is_slot_justified S b f u)
  extend_to_slot_lem b f t h = elim (Bool-cases (leb t (length (iter b) + f))) [
    | inl fits ↦ (b, extend_kept b f t (ground arith), ground arith, λ u. refl)
    | inr grows ↦
        let (z, found, bits) = with_capacity_ok S L historical_roots_limit (t - f) (omega arith) in
        let zeros = ap length bits ∙ length-replicate (t - f) false in
        (
          S.union b z,
          extend_cases b f t (ground arith) ∙ ap (λ o. expect o >>= λ x. ok (S.union b x)) found,
          ground (arith, zeros, length-union S L b z (ground (arith, zeros))),
          λ u. cc (
            is_slot_justified_lem b f u,
            is_slot_justified_lem (S.union b z) f u,
            get-union_zeros S L b z (t - f) (u - f - 1) bits,
          ),
        )
  ]
