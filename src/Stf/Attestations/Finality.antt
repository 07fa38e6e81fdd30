-- ===== src/Stf/Attestations/Finality.antt =====
-- Finalization: the finalized slot never moves back, so its difference never wraps around, and no
-- justifiable slot is skipped between the finalized source and the justified target.
use ethlambda.Base.{
  ℕ, zero, suc, ◌+◌, ◌-◌, ◌<◌, ◌≤◌, ◌≡◌, ◌≢◌, ap, Bool, true, false, arith, leb, ◌==◌, nat_eq,
  Bool-cases, inl, inr, some, any, get_elem?,
}
use ethlambda.Ssz.{Ssz}
use ethlambda.Types.{zero_hash, Checkpoint, State}
use ethlambda.Stf.Justifiable.{slot_is_justifiable_after}
use ethlambda.Stf.JustifiedSlots.{is_slot_justified}
use ethlambda.Stf.Attestations.{range_from, justifiable_between, is_valid_vote, checkpoint_exists}

any-range_from :
    (p : ℕ → Bool) (lo n x : ℕ) → lo ≤ x → x < lo + n → p x ≡ true → any p (range_from lo n) ≡ true
unfolding range_from
any-range_from p lo zero x h k e = absurd (omega arith)
any-range_from p lo (suc n) x h k e = elim (Bool-cases (lo == x)) [
  | inl same ↦ let q : lo ≡ x = ground arith in ground (arith, ap p q)
  | inr other ↦ ground (arith, any-range_from p (lo + 1) n x (ground arith) (omega arith) e)
]

-- No slot strictly between the two is justifiable where the test says so.
pub justifiable_between-none :
    (f s t x : ℕ)
    → justifiable_between f s t ≡ false
    → s < x
    → x < t
    → slot_is_justifiable_after x f ≡ false
unfolding justifiable_between
justifiable_between-none f s t x h after before =
    elim (Bool-cases (slot_is_justifiable_after x f)) [
      | inl yes_ ↦ cc (
        h,
        any-range_from (λ slot. slot_is_justifiable_after slot f) (s + 1) (t - (s + 1)) x
            (omega arith) (omega arith) yes_,
      )
      | inr no_ ↦ no_
    ]

justifiable_self : (f : ℕ) → slot_is_justifiable_after f f ≡ true
unfolding slot_is_justifiable_after
justifiable_self f = ground arith

-- A source before the finalized slot does not finalize, for a target after it.
pub source_not_behind : (f s t : ℕ) → f < t → justifiable_between f s t ≡ false → f ≤ s
source_not_behind f s t h e = elim (Bool-cases (leb f s)) [
  | inl ahead ↦ ground arith
  | inr behind ↦ cc (justifiable_self f, justifiable_between-none f s t f e (ground arith) h)
]

module _ (S : Ssz) where
  open S use {iter}

  -- What a vote must be to count.
  pub record IsVote (state : State S) (source target : Checkpoint) : Type 0 where
    pub source_justified :
        is_slot_justified S state.justified_slots state.latest_finalized.slot source.slot ≡ true
    pub target_open :
        is_slot_justified S state.justified_slots state.latest_finalized.slot target.slot ≡ false
    pub source_nonzero : source.root ≢ zero_hash
    pub target_nonzero : target.root ≢ zero_hash
    pub source_known : get_elem? state.historical_block_hashes source.slot ≡ some source.root
    pub target_known : get_elem? state.historical_block_hashes target.slot ≡ some target.root
    pub forward : source.slot < target.slot
    pub on_schedule : slot_is_justifiable_after target.slot state.latest_finalized.slot ≡ true

  exists_known :
      (state : State S) (c : Checkpoint)
      → checkpoint_exists S state c ≡ true
      → get_elem? state.historical_block_hashes c.slot ≡ some c.root
  unfolding checkpoint_exists
  exists_known state c h = ground arith

  known_exists :
      (state : State S) (c : Checkpoint)
      → get_elem? state.historical_block_hashes c.slot ≡ some c.root
      → checkpoint_exists S state c ≡ true
  unfolding checkpoint_exists
  known_exists state c h = ground arith

  pub is_valid_vote-IsVote :
      (state : State S) (source target : Checkpoint)
      → is_valid_vote S state source target ≡ true
      → IsVote state source target
  unfolding is_valid_vote
  is_valid_vote-IsVote state source target h = record {
    source_justified = ground arith;
    target_open = ground arith;
    source_nonzero = ground arith;
    target_nonzero = ground arith;
    source_known = exists_known state source (ground arith);
    target_known = exists_known state target (ground arith);
    forward = ground arith;
    on_schedule = ground arith;
  }

  pub IsVote-is_valid_vote :
      (state : State S) (source target : Checkpoint)
      → IsVote state source target
      → is_valid_vote S state source target ≡ true
  unfolding is_valid_vote
  IsVote-is_valid_vote state source target v =
      ground
        (arith, known_exists state source v.source_known, known_exists state target v.target_known)
