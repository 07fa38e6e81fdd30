-- ===== src/Stf/JustifiedSlots.antt =====
-- crates/blockchain/state_transition/src/justified_slots_ops.rs: the bit list of justified slots,
-- relative to the finalized slot (index 0 is the slot after it).
pub mod Laws
pub mod Shift
use ethlambda.Base.{
  ℕ, zero, suc, ◌+◌, ◌-◌, ◌≡◌, Bool, true, false, Option, none, some, ltb, leb, ◌==◌, nat_eq,
  if◌then◌else◌, unwrap_or, Outcome, ok, expect, ◌>>=◌,
}
use ethlambda.Ssz.{Ssz}
use ethlambda.Types.{historical_roots_limit}

-- `checked_sub`
abbrev pub checked_sub : ℕ → ℕ → Option ℕ
checked_sub a b = if ltb a b then none else some (a - b)

unfoldable pub relative_index : ℕ → ℕ → Option ℕ
relative_index target_slot finalized_slot = elim (checked_sub target_slot finalized_slot) [
  | none ↦ none
  | some d ↦ checked_sub d 1
]

module _ (S : Ssz) where
  open S use {BitList, get, put, len, with_capacity, union}

  unfoldable pub is_slot_justified : BitList → ℕ → ℕ → Bool
  is_slot_justified slots finalized_slot target_slot =
      elim (relative_index target_slot finalized_slot) [
        | none ↦ true
        | some idx ↦ unwrap_or (get slots idx) false
      ]

  -- panics out of bounds
  unfoldable pub set_justified {ℓ} : {E : Type ℓ} → BitList → ℕ → ℕ → Outcome E BitList
  set_justified slots finalized_slot target_slot =
      elim (relative_index target_slot finalized_slot) [
        | none ↦ ok slots
        | some idx ↦ expect (put slots idx true)
      ]

  unfoldable pub extend_to_slot {ℓ} : {E : Type ℓ} → BitList → ℕ → ℕ → Outcome E BitList
  extend_to_slot slots finalized_slot target_slot =
      elim (relative_index target_slot finalized_slot) [
        | none ↦ ok slots
        | some required_idx ↦ if leb (required_idx + 1) (len slots) then ok slots else (do
          extended ← expect (with_capacity historical_roots_limit (required_idx + 1))
          ok (union slots extended))
      ]

  -- the loop of `shift_window`, from index `i` with `rounds` left
  unfoldable pub shift_bits {ℓ} : {E : Type ℓ} → ℕ → ℕ → ℕ → BitList → BitList → Outcome E BitList
  shift_bits zero i delta slots new_bits = ok new_bits
  shift_bits (suc rounds) i delta slots new_bits =
      expect
        (if unwrap_or (get slots (i + delta)) false then put new_bits i true else some new_bits)
      >>= shift_bits rounds (i + 1) delta slots

  unfoldable pub shift_window {ℓ} : {E : Type ℓ} → BitList → ℕ → Outcome E BitList
  shift_window slots delta =
      if delta == 0
      then ok slots
      else if leb (len slots) delta
      then expect (with_capacity historical_roots_limit 0)
      else (do
        new_bits ← expect (with_capacity historical_roots_limit (len slots - delta))
        shift_bits (len slots - delta) 0 delta slots new_bits)
