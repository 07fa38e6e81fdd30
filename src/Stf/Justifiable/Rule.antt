-- ===== src/Stf/Justifiable/Rule.antt =====
-- `slot_is_justifiable_after` against the 3SF-mini rule that its comment states.
use ethlambda.Base.{
  ℕ, zero, suc, ◌+◌, ◌-◌, ◌*◌, ◌/◌, ◌^◌, ◌≤◌, ◌<◌, ◌≡◌, ◌↔◌, ◌⊎◌, inl, inr, refl, ap, Bool, ◌||◌,
  true, false, arith, ltb, leb, Bool-cases, leb→le, le→leb, ◌∙◌,
}
use ethlambda.Stf.Justifiable.{isqrt, is_square, times_four_plus_one, slot_is_justifiable_after}

pub isqrt_bounds : (n : ℕ) → (isqrt n * isqrt n ≤ n) × (n < (isqrt n + 1) * (isqrt n + 1))
unfolding isqrt
isqrt_bounds zero = omega arith
isqrt_bounds (suc n) = ground (arith, isqrt_bounds n)

square-lt : (a b : ℕ) → a < b → a * a < b * b
square-lt a b h = grind arith

square-le : (a b : ℕ) → a ≤ b → a * a ≤ b * b
square-le a b h = grind arith

-- A root between the bounds is the number itself.
isqrt-square : (n : ℕ) → isqrt (n * n) ≡ n
isqrt-square n = elim (Bool-cases (ltb (isqrt (n * n)) n)) [
  | inl below ↦ absurd (
      let h : isqrt (n * n) + 1 ≤ n = ground arith in
      omega (arith, isqrt_bounds (n * n), square-le _ _ h))
  | inr above ↦ elim (Bool-cases (ltb n (isqrt (n * n)))) [
    | inl over ↦ absurd (
        let h : n < isqrt (n * n) = ground arith in
        omega (arith, isqrt_bounds (n * n), square-lt _ _ h))
    | inr not_over ↦ ground arith
  ]
]

-- `d` is a perfect square.
abbrev pub Square : ℕ → Type 0
Square d = (n : ℕ) × (n * n ≡ d)

-- `d` is of the form n (n + 1).
abbrev pub Pronic : ℕ → Type 0
Pronic d = (n : ℕ) × (n * (n + 1) ≡ d)

is_square-Square : (d : ℕ) → is_square d ≡ true → Square d
unfolding is_square
is_square-Square d h = (isqrt d, ground arith)

Square-is_square : (d n : ℕ) → n * n ≡ d → is_square d ≡ true
unfolding is_square
Square-is_square d n h = rw (← h) (ground (arith, isqrt-square n))

parity : (r : ℕ) → (r ≡ 2 * (r / 2)) ⊎ (r ≡ 2 * (r / 2) + 1)
parity r = omega arith

odd_root : (d r m : ℕ) → r * r ≡ 4 * d + 1 → (r ≡ 2 * m) ⊎ (r ≡ 2 * m + 1) → m * (m + 1) ≡ d
odd_root d r m h (inl even) = absurd (omega (arith, ap (λ (t : ℕ). t * t) even))
odd_root d r m h (inr odd) = omega (arith, ap (λ (t : ℕ). t * t) odd)

pronic_square : (d n : ℕ) → n * (n + 1) ≡ d → (2 * n + 1) * (2 * n + 1) ≡ 4 * d + 1
pronic_square d n h = omega arith

-- Rule 3's test on 4 * delta + 1 finds the pronic numbers.
is_square-Pronic : (d : ℕ) → is_square (4 * d + 1) ≡ true → Pronic d
is_square-Pronic d h =
    let (r, e) = is_square-Square (4 * d + 1) h in (r / 2, odd_root d r (r / 2) e (parity r))

Pronic-is_square : (d n : ℕ) → n * (n + 1) ≡ d → is_square (4 * d + 1) ≡ true
Pronic-is_square d n h = Square-is_square (4 * d + 1) (2 * n + 1) (pronic_square d n h)

leb→lt+1 : (m n : ℕ) → leb m n ≡ false → n + 1 ≤ m
leb→lt+1 m n h = ground arith

-- no number lies strictly between neighbouring squares
pronic_not_square : (n m : ℕ) → 0 < n → m * m ≡ n * (n + 1) → ⊥
pronic_not_square n m h e = elim (Bool-cases (leb m n)) [
  | inl small ↦ omega (arith, square-le m n (leb→le m n small))
  | inr large ↦ omega (arith, square-le (n + 1) m (leb→lt+1 m n large))
]

-- The 3SF-mini rule at distance `d` from the finalized slot.
abbrev pub MayJustify : ℕ → Type 0
MayJustify d = (d ≤ 5) ⊎ (Square d ⊎ Pronic d)

-- the three tests, at a distance that does not overflow
tests_at :
    (slot f : ℕ)
    → f ≤ slot
    → 4 * (slot - f) + 1 < 2 ^ 64
    → slot_is_justifiable_after slot f
      ≡ (leb (slot - f) 5 || is_square (slot - f) || is_square (4 * (slot - f) + 1))
unfolding slot_is_justifiable_after times_four_plus_one
tests_at slot f le small = ground arith

or_cases : (a b c : Bool) → (a || b || c) ≡ true → (a ≡ true) ⊎ ((b ≡ true) ⊎ (c ≡ true))
or_cases true b c h = inl refl
or_cases false true c h = inr (inl refl)
or_cases false false c h = inr (inr h)

or_intro : (a b c : Bool) → (a ≡ true) ⊎ ((b ≡ true) ⊎ (c ≡ true)) → (a || b || c) ≡ true
or_intro a b c h = ground arith

MayJustify-of_tests :
    (d : ℕ)
    → (leb d 5 ≡ true) ⊎ ((is_square d ≡ true) ⊎ (is_square (4 * d + 1) ≡ true))
    → MayJustify d
MayJustify-of_tests d (inl near) = inl (leb→le d 5 near)
MayJustify-of_tests d (inr (inl sq)) = inr (inl (is_square-Square d sq))
MayJustify-of_tests d (inr (inr pr)) = inr (inr (is_square-Pronic d pr))

tests_of-MayJustify :
    (d : ℕ)
    → MayJustify d
    → (leb d 5 ≡ true) ⊎ ((is_square d ≡ true) ⊎ (is_square (4 * d + 1) ≡ true))
tests_of-MayJustify d (inl near) = inl (le→leb d 5 near)
tests_of-MayJustify d (inr (inl (n, e))) = inr (inl (Square-is_square d n e))
tests_of-MayJustify d (inr (inr (n, e))) = inr (inr (Pronic-is_square d n e))

past_slot : (slot f : ℕ) → slot_is_justifiable_after slot f ≡ true → f ≤ slot
unfolding slot_is_justifiable_after
past_slot slot f h = ground arith

-- At a distance of less than 2^62 from the finalized slot, a slot is justifiable exactly when it is
-- not before the finalized slot and its distance is at most 5, a perfect square or of the form
-- n (n + 1).
pub justifiable_iff_rule :
    (slot f : ℕ)
    → 4 * (slot - f) + 1 < 2 ^ 64
    → (slot_is_justifiable_after slot f ≡ true) ↔ ((f ≤ slot) × MayJustify (slot - f))
justifiable_iff_rule slot f small = (
  λ h.
      let le = past_slot slot f h in
      (le, MayJustify-of_tests (slot - f) (or_cases _ _ _ (rw (tests_at slot f le small) at h))),
  λ r. rw (tests_at slot f r.0 small) (or_intro _ _ _ (tests_of-MayJustify (slot - f) r.1)),
)

-- the third rule is off where 4 * delta + 1 leaves the u64
tests_overflow :
    (slot f : ℕ)
    → f ≤ slot
    → 2 ^ 64 ≤ 4 * (slot - f) + 1
    → slot_is_justifiable_after slot f ≡ true
    → is_square (slot - f) ≡ true
unfolding slot_is_justifiable_after times_four_plus_one
tests_overflow slot f le large h = ground arith

root_pos : (n : ℕ) → 2 ^ 62 ≤ n * (n + 1) → 0 < n
root_pos zero h = absurd (omega arith)
root_pos (suc n) h = omega arith

-- At a distance n (n + 1) of 2^62 or more a slot is not justifiable, though the rule names it.
pub far_pronic_rejected :
    (slot f n : ℕ)
    → f + n * (n + 1) ≡ slot
    → 2 ^ 62 ≤ n * (n + 1)
    → (MayJustify (slot - f)) × (slot_is_justifiable_after slot f ≡ false)
far_pronic_rejected slot f n e large = (
  inr (inr (n, omega arith)),
  elim (Bool-cases (slot_is_justifiable_after slot f)) [
    | inl yes_ ↦ absurd (
        let (m, sq) = is_square-Square _ (tests_overflow slot f (omega arith) (omega arith) yes_) in
        pronic_not_square n m (root_pos n large) (sq ∙ omega arith))
    | inr no_ ↦ no_
  ],
)
