-- ===== src/Stf/Justifiable.antt =====
-- `slot_is_justifiable_after` of crates/blockchain/state_transition/src/lib.rs. The proofs against
-- the 3SF-mini rule are in the module below.
pub mod Rule
use ethlambda.Base.{
  ℕ, zero, suc, ◌+◌, ◌*◌, ◌%◌, ◌^◌, Bool, true, false, ◌&&◌, ◌||◌, Option, none, some, ltb, leb,
  nat_beq, if◌then◌else◌,
}
use ethlambda.Stf.JustifiedSlots.{checked_sub}

-- `u64::isqrt`: the greatest number whose square is at most the argument.
unfoldable pub isqrt : ℕ → ℕ
isqrt zero = 0
isqrt (suc n) = let r = isqrt n in if leb ((r + 1) * (r + 1)) (suc n) then r + 1 else r

-- `n` is the square of its integer root.
unfoldable pub is_square : ℕ → Bool
is_square n = nat_beq (isqrt n * isqrt n) n

-- `delta.checked_mul(4).and_then(|v| v.checked_add(1))` on u64
unfoldable pub times_four_plus_one : ℕ → Option ℕ
times_four_plus_one delta = if ltb (4 * delta + 1) (2 ^ 64) then some (4 * delta + 1) else none

unfoldable pub slot_is_justifiable_after : ℕ → ℕ → Bool
slot_is_justifiable_after slot finalized_slot = elim (checked_sub slot finalized_slot) [
  | none ↦ false
  | some delta ↦ leb delta 5 || is_square delta || elim (times_four_plus_one delta) [
    | none ↦ false
    | some val ↦ is_square val && nat_beq (val % 2) 1
  ]
]
