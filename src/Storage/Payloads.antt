-- ===== src/Storage/Payloads.antt =====
-- `PayloadBuffer` of crates/storage/src/store.rs: a queue of bounded length, over any payload.
pub mod Fifo
use ethlambda.Base.{
  ℕ, List, [], ◌∷◌, ◌++◌, length, drop, leb, if◌then◌else◌, ◌==◌, pair_eq, any, Map, lookup, insert,
  unwrap_or,
}
use ethlambda.Types.{H256}

-- (validator index, root of the attestation data)
abbrev pub SignatureKey : Type 0
SignatureKey = ℕ × H256

pub record PayloadBuffer (A : Type 0) : Type 0 where
  pub entries : List (SignatureKey × A)
  pub capacity : ℕ

module _ {A : Type 0} where
  abbrev pub new : ℕ → PayloadBuffer A
  new capacity = record { entries = []; capacity = capacity }

  -- At capacity the oldest entry goes.
  unfoldable pub push : PayloadBuffer A → SignatureKey → A → PayloadBuffer A
  push b key payload = record b {
    entries =
        (if leb b.capacity (length b.entries) then drop 1 b.entries else b.entries)
        ++ ((key, payload) ∷ []);
  }

  unfoldable pub push_batch : PayloadBuffer A → List (SignatureKey × A) → PayloadBuffer A
  unfolding push
  push_batch b [] = b
  push_batch b ((key, payload) ∷ entries) = push_batch (push b key payload) entries

  -- the buffer that is left, and the entries taken
  unfoldable pub drain : PayloadBuffer A → PayloadBuffer A × List (SignatureKey × A)
  drain b = (record b { entries = [] }, b.entries)

  unfoldable pub group_entries :
      List (SignatureKey × A) → Map SignatureKey (List A) → Map SignatureKey (List A)
  group_entries [] m = m
  group_entries ((key, payload) ∷ entries) m =
      group_entries entries (insert key (unwrap_or (lookup key m) [] ++ (payload ∷ [])) m)

  unfoldable pub grouped : PayloadBuffer A → Map SignatureKey (List A)
  unfolding group_entries
  grouped b = group_entries b.entries []

  unfoldable pub dedup_keys : List (SignatureKey × A) → List SignatureKey → List SignatureKey
  dedup_keys [] seen = seen
  dedup_keys ((key, payload) ∷ entries) seen =
      dedup_keys entries (if any (λ k. k == key) seen then seen else seen ++ (key ∷ []))

  unfoldable pub unique_keys : PayloadBuffer A → List SignatureKey
  unfolding dedup_keys
  unique_keys b = dedup_keys b.entries []

  unfoldable pub len : PayloadBuffer A → ℕ
  len b = length b.entries
