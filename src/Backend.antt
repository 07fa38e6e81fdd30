-- ===== src/Backend.antt =====
-- crates/storage/src/backend/in_memory.rs, and the tables of crates/storage/src/api/tables.rs: the
-- bytes of the tables, and batches of writes that take effect when they are committed. The lock is
-- left out: a commit and a read each see the data of one moment. The changes of a batch are taken
-- from the last one on; in the source their order, that of a HashMap, is unspecified.
pub mod Batch
pub mod Commit
mod Tests
use ethlambda.Base.{
  get_elem?, ℕ, ◌≡◌, refl, ◌↔◌, Bool, true, false, ◌&&◌, Option, none, some, List, [], ◌∷◌, arith,
  Eq, nat_eq, ◌==◌, nat_beq_iff, Outcome, ok, err, panic, expect, ◌>>=◌, Map, lookup, insert,
  remove, if◌then◌else◌,
}

pub data Table : Type 0 where
  block_headers : Table
  block_bodies : Table
  block_signatures : Table
  states : Table
  gossip_signatures : Table
  attestation_data_by_root : Table
  metadata : Table
  live_chain : Table

abbrev pub all_tables : List Table
all_tables =
    block_headers ∷ block_bodies ∷ block_signatures ∷ states ∷ gossip_signatures
    ∷ attestation_data_by_root ∷ metadata ∷ live_chain ∷ []

abbrev pub table_number : Table → ℕ
table_number block_headers = 0
table_number block_bodies = 1
table_number block_signatures = 2
table_number states = 3
table_number gossip_signatures = 4
table_number attestation_data_by_root = 5
table_number metadata = 6
table_number live_chain = 7

get_elem?-table : (t : Table) → get_elem? all_tables (table_number t) ≡ some t
get_elem?-table block_headers = refl
get_elem?-table block_bodies = refl
get_elem?-table block_signatures = refl
get_elem?-table states = refl
get_elem?-table gossip_signatures = refl
get_elem?-table attestation_data_by_root = refl
get_elem?-table metadata = refl
get_elem?-table live_chain = refl

abbrev pub table_beq : Table → Table → Bool
table_beq t u = table_number t == table_number u

pub table_beq_iff : (t u : Table) → (table_beq t u ≡ true) ↔ (t ≡ u)
table_beq_iff t u =
    grind
      (arith, nat_beq_iff (table_number t) (table_number u), get_elem?-table t, get_elem?-table u)

instance abbrev pub table_eq : Eq Table
table_eq = record { beq = table_beq; beq_iff = table_beq_iff }

abbrev pub Bytes : Type 0
Bytes = List ℕ

abbrev pub bytes_beq : Bytes → Bytes → Bool
bytes_beq [] [] = true
bytes_beq [] (y ∷ ys) = false
bytes_beq (x ∷ xs) [] = false
bytes_beq (x ∷ xs) (y ∷ ys) = let rest = bytes_beq xs ys in (x == y) && rest

pub bytes_beq_iff : (xs ys : Bytes) → (bytes_beq xs ys ≡ true) ↔ (xs ≡ ys)
bytes_beq_iff [] [] = ground arith
bytes_beq_iff [] (y ∷ ys) = ground arith
bytes_beq_iff (x ∷ xs) [] = ground arith
bytes_beq_iff (x ∷ xs) (y ∷ ys) = ground (arith, nat_beq_iff x y, bytes_beq_iff xs ys)

instance abbrev pub bytes_eq : Eq Bytes
bytes_eq = record { beq = bytes_beq; beq_iff = bytes_beq_iff }

abbrev pub StorageData : Type 0
StorageData = Map Table (Map Bytes Bytes)

pub data PendingOp : Type 0 where
  put : Bytes → PendingOp
  delete : PendingOp

abbrev pub PendingOps : Type 0
PendingOps = Map Table (Map Bytes PendingOp)

unfoldable pub create_tables : List Table → StorageData
create_tables [] = []
create_tables (t ∷ ts) = (t, []) ∷ create_tables ts

unfoldable pub new_backend : StorageData
new_backend = create_tables all_tables

-- The outer result panics where the table is missing.
unfoldable pub get : StorageData → Table → Bytes → Outcome ⊥ (Option Bytes)
get stored table key = do entries ← expect (lookup table stored); ok (lookup key entries)

-- `entry(table).or_default()`
abbrev pub or_default : Option (Map Bytes PendingOp) → Map Bytes PendingOp
or_default none = []
or_default (some ops) = ops

unfoldable pub put_all : List (Bytes × Bytes) → Map Bytes PendingOp → Map Bytes PendingOp
put_all [] ops = ops
put_all ((key, value) ∷ batch) ops = put_all batch (insert key (put value) ops)

unfoldable pub delete_all : List Bytes → Map Bytes PendingOp → Map Bytes PendingOp
delete_all [] ops = ops
delete_all (key ∷ keys) ops = delete_all keys (insert key delete ops)

unfoldable pub put_batch : PendingOps → Table → List (Bytes × Bytes) → PendingOps
put_batch ops table batch = insert table (put_all batch (or_default (lookup table ops))) ops

unfoldable pub delete_batch : PendingOps → Table → List Bytes → PendingOps
delete_batch ops table keys = insert table (delete_all keys (or_default (lookup table ops))) ops

abbrev pub apply_op : Bytes → PendingOp → Map Bytes Bytes → Map Bytes Bytes
apply_op key (put value) entries = insert key value entries
apply_op key delete entries = remove key entries

unfoldable pub apply_ops : Map Bytes PendingOp → Map Bytes Bytes → Map Bytes Bytes
apply_ops [] entries = entries
apply_ops ((key, op) ∷ ops) entries = apply_op key op (apply_ops ops entries)

unfoldable pub commit : PendingOps → StorageData → Outcome ⊥ StorageData
commit [] stored = ok stored
commit ((table, table_ops) ∷ ops) stored = do
  stored' ← commit ops stored
  entries ← expect (lookup table stored')
  ok (insert table (apply_ops table_ops entries) stored')
