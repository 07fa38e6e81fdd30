-- ===== src/Stf/Attestations/Tables.antt =====
-- The vote table: the length of its rows and the number of its keys.
use ethlambda.Base.{
  ℕ, suc, ◌≤◌, ◌≡◌, Bool, false, arith, nat_eq, inl, inr, List, [], ◌∷◌, length, replicate, keys,
  Option-cases, unwrap_or, lookup, insert, remove, retain, lookup-insert, lookup-remove,
  lookup-retain, length-replicate,
}
use ethlambda.Types.{H256}
use ethlambda.Stf.Invariant.{Rows}
use ethlambda.Stf.Attestations.{Votes}

pub insert-Rows :
    (n : ℕ) (root : H256) (v : List Bool) (votes : Votes)
    → length v ≡ n
    → Rows n votes
    → Rows n (insert root v votes)
insert-Rows n root v votes size r = record {
  row = λ k w h. ground (arith, lookup-insert root k v votes, r.row k w);
}

pub remove-Rows : (n : ℕ) (root : H256) (votes : Votes) → Rows n votes → Rows n (remove root votes)
remove-Rows n root votes r = record {
  row = λ k w h. ground (arith, lookup-remove root k votes, r.row k w);
}

pub retain-Rows : (n : ℕ) (p : H256 → Bool) (votes : Votes) → Rows n votes → Rows n (retain p votes)
retain-Rows n p votes r = record {
  row = λ k w h. ground (arith, lookup-retain p k votes, r.row k w);
}

-- the row of a root, or a fresh one
pub row_size :
    (n : ℕ) (root : H256) (votes : Votes)
    → Rows n votes
    → length (unwrap_or (lookup root votes) (replicate n false)) ≡ n
row_size n root votes r = elim (Option-cases (lookup root votes)) [
  | inl fresh ↦ rw fresh (length-replicate n false)
  | inr (v, found) ↦ rw found (r.row root v found)
]

pub keys-insert :
    (k : H256) (v : List Bool) (votes : Votes)
    → length (keys (insert k v votes)) ≤ suc (length (keys votes))
unfolding insert
keys-insert k v [] = omega arith
keys-insert k v ((j, w) ∷ votes) = ground (arith, keys-insert k v votes)

pub keys-remove : (k : H256) (votes : Votes) → length (keys (remove k votes)) ≤ length (keys votes)
unfolding remove
keys-remove k [] = omega arith
keys-remove k ((j, w) ∷ votes) = ground (arith, keys-remove k votes)

pub keys-retain :
    (p : H256 → Bool) (votes : Votes) → length (keys (retain p votes)) ≤ length (keys votes)
unfolding retain
keys-retain p [] = omega arith
keys-retain p ((j, w) ∷ votes) = ground (arith, keys-retain p votes)
