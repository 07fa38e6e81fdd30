-- ===== src/Stf/Invariant.antt =====
-- What holds of every state on a chain from genesis: the history, the window of justified slots
-- and the vote table have the lengths that the header's slot fixes.
use ethlambda.Base.{ℕ, ◌-◌, ◌≤◌, ◌≡◌, length, List, Bool, some, lookup, nat_eq}
use ethlambda.Ssz.{Ssz}
use ethlambda.Types.{H256, State, historical_roots_limit}
use ethlambda.Stf.Attestations.{Votes}

module _ (S : Ssz) where
  open S use {iter}

  pub record IsConsistent (s : State S) : Type 0 where
    pub history : length s.historical_block_hashes ≡ s.latest_block_header.slot
    pub window :
        length (iter s.justified_slots) ≡ s.latest_block_header.slot - 1 - s.latest_finalized.slot
    pub finalized_past : s.latest_finalized.slot ≤ s.latest_block_header.slot - 1
    pub in_limit : s.latest_block_header.slot ≤ historical_roots_limit

-- Every row of a vote table has `n` votes.
pub record Rows (n : ℕ) (votes : Votes) : Type 0 where
  pub row : (root : H256) (v : List Bool) → lookup root votes ≡ some v → length v ≡ n
