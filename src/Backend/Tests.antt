-- ===== src/Backend/Tests.antt =====
-- A batch at a concrete backend.
use ethlambda.Base.{ℕ, ◌≡◌, refl, some, List, [], ◌∷◌, ok, ◌>>=◌, lookup, insert, remove}
use ethlambda.Backend.{
  Table, table_eq, bytes_eq, block_headers, block_bodies, block_signatures, states,
  gossip_signatures, attestation_data_by_root, metadata, live_chain, StorageData, new_backend,
  create_tables, get, commit, put_batch, delete_batch, put_all, delete_all, apply_ops,
}
use ethlambda.Backend.Batch.{Change, puts, deletes, stage, run_changes}
use ethlambda.Backend.Commit.{HasTables, contents_of, commit-stage}

lookup-new_backend : (t : Table) → lookup t new_backend ≡ some []
unfolding new_backend create_tables lookup
lookup-new_backend block_headers = refl
lookup-new_backend block_bodies = refl
lookup-new_backend block_signatures = refl
lookup-new_backend states = refl
lookup-new_backend gossip_signatures = refl
lookup-new_backend attestation_data_by_root = refl
lookup-new_backend metadata = refl
lookup-new_backend live_chain = refl

new_backend-HasTables : HasTables new_backend
new_backend-HasTables = record { at = λ t. ([], lookup-new_backend t) }

abbrev calls : List Change
calls =
    puts states ((1 ∷ [], 10 ∷ []) ∷ (2 ∷ [], 20 ∷ []) ∷ [])
    ∷ deletes states ((1 ∷ []) ∷ [])
    ∷ puts metadata ((1 ∷ [], 30 ∷ []) ∷ [])
    ∷ puts states ((2 ∷ [], 21 ∷ []) ∷ [])
    ∷ []

last_put_wins :
    (commit (stage [] calls) new_backend >>= λ d. get d states (2 ∷ [])) ≡ ok (some (21 ∷ []))
unfolding commit stage put_batch delete_batch put_all delete_all apply_ops new_backend create_tables
    get lookup insert remove
last_put_wins = refl

commit-stage_example :
    (stored' : StorageData) × (commit (stage [] calls) new_backend ≡ ok stored')
    × HasTables stored'
    × ((t : Table) (k : List ℕ)
        → get stored' t k ≡ ok (run_changes (contents_of new_backend) calls t k))
commit-stage_example = commit-stage calls new_backend new_backend-HasTables
