-- ===== src/Backend/Commit.antt =====
-- What a commit leaves in the tables.
use mathlib.Core.Path.{fun_ext}
use ethlambda.Base.{
  ◌≡◌, refl, sym, ◌∙◌, ap, true, false, none, some, List, [], ◌∷◌, arith, ◌==◌, ok, Map, lookup,
  insert, if◌then◌else◌, lookup-insert, Bool-cases, inl, inr,
}
use ethlambda.Backend.{
  Table, table_eq, table_beq_iff, Bytes, bytes_eq, StorageData, PendingOp, PendingOps, get,
  apply_ops, commit, put_batch, delete_batch,
}
use ethlambda.Backend.Batch.{
  Change, puts, deletes, stage_one, stage, Contents, run_changes, effect, staged, staged-one,
  lookup-apply_ops,
}

-- No table stands twice.
Distinct : PendingOps → Type 0
Distinct [] = Unit
Distinct ((table, table_ops) ∷ ops) = (lookup table ops ≡ none) × Distinct ops

insert-Distinct :
    (table : Table) (table_ops : Map Bytes PendingOp) (ops : PendingOps)
    → Distinct ops
    → Distinct (insert table table_ops ops)
unfolding Distinct insert lookup
insert-Distinct table table_ops [] d = (refl, tt)
insert-Distinct table table_ops ((u, w) ∷ ops) d =
    let apart = lookup-insert table u table_ops ops in
    elim (Bool-cases (u == table)) [
      | inl h ↦ let same : u ≡ table = (table_beq_iff u table).0 h in rw h (rw (← same) d.0, d.1)
      | inr h ↦
          let other : (table == u) ≡ false =
            grind (arith, table_beq_iff u table, table_beq_iff table u, h) in
          rw h (rw (apart, other) d.0, insert-Distinct table table_ops ops d.1)
    ]

stage-Distinct :
    (changes : List Change) (ops : PendingOps) → Distinct ops → Distinct (stage ops changes)
unfolding stage put_batch delete_batch
stage-Distinct [] ops d = d
stage-Distinct (puts table batch ∷ changes) ops d =
    stage-Distinct changes _ (insert-Distinct table _ ops d)
stage-Distinct (deletes table keys ∷ changes) ops d =
    stage-Distinct changes _ (insert-Distinct table _ ops d)

-- The data has every table.
pub record HasTables (stored : StorageData) : Type 0 where
  pub at : (t : Table) → (entries : Map Bytes Bytes) × (lookup t stored ≡ some entries)

abbrev pub contents_of : StorageData → Contents
contents_of stored table key = elim (lookup table stored) [
  | none ↦ none
  | some entries ↦ lookup key entries
]

insert-HasTables :
    (table : Table) (entries : Map Bytes Bytes) (stored : StorageData)
    → HasTables stored
    → HasTables (insert table entries stored)
insert-HasTables table entries stored tables = record {
  at = λ t.
      rw (lookup-insert table t entries stored)
        (elim (table == t)
          as (λ b.
            (e : Map Bytes Bytes) × ((if b then some entries else lookup t stored) ≡ some e)) [
              | true ↦ (entries, refl)
              | false ↦ tables.at t
            ]);
}

contents_of-at :
    (stored : StorageData) (table : Table) (entries : Map Bytes Bytes) (k : Bytes)
    → lookup table stored ≡ some entries
    → contents_of stored table k ≡ lookup k entries
contents_of-at stored table entries k h = rw (contents_of, h) refl

contents_of-insert :
    (table t : Table) (table_ops : Map Bytes PendingOp) (ops : PendingOps) (old rest : StorageData)
    (entries : Map Bytes Bytes) (k : Bytes)
    → lookup table ops ≡ none
    → lookup table rest ≡ some entries
    → contents_of rest t k ≡ staged ops (contents_of old) t k
    → contents_of (insert table (apply_ops table_ops entries) rest) t k
      ≡ staged ((table, table_ops) ∷ ops) (contents_of old) t k
unfolding lookup
contents_of-insert table t table_ops ops old rest entries k free at before =
    elim (Bool-cases (table == t)) [
      | inl h ↦
          let same : table ≡ t = (table_beq_iff table t).0 h in
          let free' : lookup t ops ≡ none = rw (← same) free in
          let here = contents_of-at rest t entries k (rw (← same) at) in
          let old_value : lookup k entries ≡ contents_of old t k =
            sym here ∙ before ∙ rw free' refl in
          rw (contents_of, lookup-insert table t (apply_ops table_ops entries) rest, h)
            (lookup-apply_ops table_ops entries k ∙ ap (effect (lookup k table_ops)) old_value)
      | inr h ↦ rw (contents_of, lookup-insert table t (apply_ops table_ops entries) rest, h) before
    ]

commit_lem :
    (ops : PendingOps) (stored : StorageData)
    → Distinct ops
    → HasTables stored
    → (stored' : StorageData) × (commit ops stored ≡ ok stored')
      × HasTables stored'
      × ((t : Table) (k : Bytes) → contents_of stored' t k ≡ staged ops (contents_of stored) t k)
unfolding commit Distinct lookup
commit_lem [] stored d tables = (stored, refl, tables, λ t k. refl)
commit_lem ((table, table_ops) ∷ ops) stored d tables =
    let rest = commit_lem ops stored d.1 tables in
    let entries = rest.2.at table in
    (
      insert table (apply_ops table_ops entries.0) rest.0,
      rw (rest.1, entries.1) refl,
      insert-HasTables table _ rest.0 rest.2,
      λ t k.
          contents_of-insert table t table_ops ops stored rest.0 entries.0 k d.0 entries.1
            (rest.3 t k),
    )

staged-stage :
    (changes : List Change) (ops : PendingOps) (contents : Contents)
    → staged (stage ops changes) contents ≡ run_changes (staged ops contents) changes
unfolding stage run_changes lookup
staged-stage [] ops contents = refl
staged-stage (change ∷ changes) ops contents =
    staged-stage changes (stage_one ops change) contents
    ∙ ap (λ c. run_changes c changes)
        (fun_ext (λ t. fun_ext (λ k. staged-one change ops contents t k)))

get-contents_of :
    (stored : StorageData) (table : Table) (key : Bytes)
    → HasTables stored
    → get stored table key ≡ ok (contents_of stored table key)
unfolding get
get-contents_of stored table key tables =
    rw ((tables.at table).1) (ap ok (sym (contents_of-at stored table _ key (tables.at table).1)))

-- Where every table exists, a batch of any calls is committed without a panic, every table still
-- exists, and every key of every table reads as if the calls had taken effect at once and one after
-- another: the last call for a key decides, and a key without one keeps its value.
pub commit-stage :
    (changes : List Change) (stored : StorageData)
    → HasTables stored
    → (stored' : StorageData) × (commit (stage [] changes) stored ≡ ok stored')
      × HasTables stored'
      × ((t : Table) (k : Bytes)
          → get stored' t k ≡ ok (run_changes (contents_of stored) changes t k))
unfolding Distinct lookup
commit-stage changes stored tables =
    let done = commit_lem (stage [] changes) stored (stage-Distinct changes [] tt) tables in
    let same = staged-stage changes [] (contents_of stored) in
    (
      done.0,
      done.1,
      done.2,
      λ t k. get-contents_of done.0 t k done.2 ∙ ap ok (done.3 t k ∙ ap (λ c. c t k) same),
    )
