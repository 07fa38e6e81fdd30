-- ===== src/Backend/Batch.antt =====
-- A committed batch against its calls one after another.
use ethlambda.Base.{
  ◌≡◌, refl, true, false, Option, none, some, List, [], ◌∷◌, arith, ◌==◌, Map, lookup, insert,
  if◌then◌else◌, lookup-insert, lookup-remove, Bool-cases, inl, inr, sym, ◌∙◌,
}
use ethlambda.Backend.{
  Table, table_eq, table_beq_iff, Bytes, bytes_eq, PendingOp, put, delete, PendingOps, or_default,
  put_all, delete_all, put_batch, delete_batch, apply_ops,
}

-- One call on a write batch.
pub data Change : Type 0 where
  puts : Table → List (Bytes × Bytes) → Change
  deletes : Table → List Bytes → Change

abbrev pub stage_one : PendingOps → Change → PendingOps
stage_one ops (puts table batch) = put_batch ops table batch
stage_one ops (deletes table keys) = delete_batch ops table keys

unfoldable pub stage : PendingOps → List Change → PendingOps
stage ops [] = ops
stage ops (change ∷ changes) = stage (stage_one ops change) changes

-- What a table reads like after each call, when it takes effect at once.
abbrev pub Contents : Type 0
Contents = Table → Bytes → Option Bytes

abbrev pub write : Table → Bytes → Option Bytes → Contents → Contents
write table key value contents t k =
    if table == t then (if key == k then value else contents t k) else contents t k

unfoldable pub write_all : Table → List (Bytes × Bytes) → Contents → Contents
write_all table [] contents = contents
write_all table ((key, value) ∷ batch) contents =
    write_all table batch (write table key (some value) contents)

unfoldable pub erase_all : Table → List Bytes → Contents → Contents
erase_all table [] contents = contents
erase_all table (key ∷ keys) contents = erase_all table keys (write table key none contents)

abbrev pub run_one : Contents → Change → Contents
run_one contents (puts table batch) = write_all table batch contents
run_one contents (deletes table keys) = erase_all table keys contents

unfoldable pub run_changes : Contents → List Change → Contents
run_changes contents [] = contents
run_changes contents (change ∷ changes) = run_changes (run_one contents change) changes

-- What one entry reads like under the changes of its table.
abbrev pub effect : Option PendingOp → Option Bytes → Option Bytes
effect none old = old
effect (some (put value)) old = some value
effect (some delete) old = none

pub lookup-apply_ops :
    (ops : Map Bytes PendingOp) (entries : Map Bytes Bytes) (k : Bytes)
    → lookup k (apply_ops ops entries) ≡ effect (lookup k ops) (lookup k entries)
unfolding apply_ops lookup
lookup-apply_ops [] entries k = refl
lookup-apply_ops ((key, put value) ∷ ops) entries k =
    let inserted = lookup-insert key k value (apply_ops ops entries) in
    ground (arith, inserted, lookup-apply_ops ops entries k)
lookup-apply_ops ((key, delete) ∷ ops) entries k =
    let removed = lookup-remove key k (apply_ops ops entries) in
    ground (arith, removed, lookup-apply_ops ops entries k)

-- Contents under staged changes.
abbrev pub staged : PendingOps → Contents → Contents
staged ops contents t k = effect (lookup k (or_default (lookup t ops))) (contents t k)

write_all-other :
    (table t : Table) (batch : List (Bytes × Bytes)) (k : Bytes) (c : Contents)
    → (table == t) ≡ false
    → write_all table batch c t k ≡ c t k
unfolding write_all
write_all-other table t [] k c h = refl
write_all-other table t ((key, value) ∷ batch) k c h =
    let step : write table key (some value) c t k ≡ c t k = rw h refl in
    write_all-other table t batch k (write table key (some value) c) h ∙ step

erase_all-other :
    (table t : Table) (keys : List Bytes) (k : Bytes) (c : Contents)
    → (table == t) ≡ false
    → erase_all table keys c t k ≡ c t k
unfolding erase_all
erase_all-other table t [] k c h = refl
erase_all-other table t (key ∷ keys) k c h =
    let step : write table key none c t k ≡ c t k = rw h refl in
    erase_all-other table t keys k (write table key none c) h ∙ step

write_all-same :
    (table t : Table) (batch : List (Bytes × Bytes)) (ops : Map Bytes PendingOp) (k : Bytes)
    (c : Contents) (old : Option Bytes)
    → (table == t) ≡ true
    → effect (lookup k ops) old ≡ c t k
    → effect (lookup k (put_all batch ops)) old ≡ write_all table batch c t k
unfolding write_all put_all
write_all-same table t [] ops k c old h now = now
write_all-same table t ((key, value) ∷ batch) ops k c old h now =
    let step : effect (lookup k (insert key (put value) ops)) old
        ≡ write table key (some value) c t k =
      rw (h, lookup-insert key k (put value) ops)
        (elim (key == k)
          as (λ b.
            effect (if b then some (put value) else lookup k ops) old
            ≡ (if b then some value else c t k)) [ true ↦ refl | false ↦ now ]) in
    write_all-same table t batch (insert key (put value) ops) k (write table key (some value) c) old
      h step

erase_all-same :
    (table t : Table) (keys : List Bytes) (ops : Map Bytes PendingOp) (k : Bytes) (c : Contents)
    (old : Option Bytes)
    → (table == t) ≡ true
    → effect (lookup k ops) old ≡ c t k
    → effect (lookup k (delete_all keys ops)) old ≡ erase_all table keys c t k
unfolding erase_all delete_all
erase_all-same table t [] ops k c old h now = now
erase_all-same table t (key ∷ keys) ops k c old h now =
    let step : effect (lookup k (insert key delete ops)) old ≡ write table key none c t k =
      rw (h, lookup-insert key k delete ops)
        (elim (key == k)
          as (λ b.
            effect (if b then some delete else lookup k ops) old ≡ (if b then none else c t k)) [
              | true ↦ refl
              | false ↦ now
            ]) in
    erase_all-same table t keys (insert key delete ops) k (write table key none c) old h step

pub staged-one :
    (change : Change) (ops : PendingOps) (contents : Contents) (t : Table) (k : Bytes)
    → staged (stage_one ops change) contents t k ≡ run_one (staged ops contents) change t k
unfolding put_batch delete_batch
staged-one (puts table batch) ops contents t k =
    rw (lookup-insert table t (put_all batch (or_default (lookup table ops))) ops)
      (elim (Bool-cases (table == t)) [
        | inl h ↦
            let same : table ≡ t = (table_beq_iff table t).0 h in
            rw h (
              write_all-same table t batch (or_default (lookup table ops)) k (staged ops contents)
                (contents t k) h (rw same refl))
        | inr h ↦ rw h (sym (write_all-other table t batch k (staged ops contents) h))
      ])
staged-one (deletes table keys) ops contents t k =
    rw (lookup-insert table t (delete_all keys (or_default (lookup table ops))) ops)
      (elim (Bool-cases (table == t)) [
        | inl h ↦
            let same : table ≡ t = (table_beq_iff table t).0 h in
            rw h (
              erase_all-same table t keys (or_default (lookup table ops)) k (staged ops contents)
                (contents t k) h (rw same refl))
        | inr h ↦ rw h (sym (erase_all-other table t keys k (staged ops contents) h))
      ])
