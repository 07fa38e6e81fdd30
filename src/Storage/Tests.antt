-- ===== src/Storage/Tests.antt =====
-- A store with a chain of three blocks, its votes and its pruning.
use ethlambda.Base.{
  ℕ, ◌+◌, ◌<◌, ◌≤◌, ◌≡◌, inl, refl, some, [], ◌∷◌, length, ◌==◌, nat_eq, pair_eq, if◌then◌else◌,
  arith, lookup,
}
use ethlambda.Ssz.{list_ssz}
use ethlambda.Types.{
  H256, Checkpoint, AttestationData, BlockHeader, BlockBody, SignedBlockWithAttestation, State,
  Roots,
}
use ethlambda.Storage.Payloads.{PayloadBuffer, push_batch}
use ethlambda.Storage.Payloads.Fifo.{newest, push_batch_lem}
use ethlambda.Storage.Store.{
  Tables, Store, get_state, head_state, head_slot, extract_latest_attestations,
}
use ethlambda.Storage.Blocks.{insert_pending_block, insert_signed_block, get_signed_block}
use ethlambda.Storage.RoundTrip.{get_signed_block-insert}
use ethlambda.Storage.Prune.{update_checkpoints, prune_old_data}
use ethlambda.Storage.Retention.{
  IsUnique, Pruned, Untouched, update_checkpoints_lem, prune_old_data_keeps,
}
use ethlambda.Storage.Latest.{VotedFor, extract_latest_attestations_lem}
use ethlambda.Storage.Init.{with_state_root, from_anchor_state, from_anchor_state_lem}

abbrev pub roots : Roots list_ssz
roots = record {
  state_hash = λ s. 100 + s.slot;
  header_hash = λ h. 200 + h.slot;
  block_hash = λ b. 200 + b.slot;
  body_hash = λ b. 300 + length b.attestations;
  attestation_data_hash = λ d. 400 + d.slot;
}

abbrev pub header_at : ℕ → H256 → BlockHeader
header_at slot parent = record {
  slot = slot;
  proposer_index = 0;
  parent_root = parent;
  state_root = 0;
  body_root = 301;
}

abbrev pub at : H256 → ℕ → Checkpoint
at root slot = record { root = root; slot = slot }

abbrev pub vote : AttestationData
vote = record { slot = 3; head = at 203 3; target = at 202 2; source = at 201 1 }

abbrev pub old_vote : AttestationData
old_vote = record { slot = 1; head = at 201 1; target = at 201 1; source = at 201 1 }

abbrev pub tables : Tables list_ssz
tables = record {
  block_headers = (201, header_at 1 200) ∷ (202, header_at 2 201) ∷ (203, header_at 3 202) ∷ [];
  block_bodies = [];
  block_signatures = [];
  states = [];
  gossip_signatures = ((0, 401), record { slot = 1; signature_bytes = [] }) ∷ [];
  attestation_data_by_root = (401, old_vote) ∷ (403, vote) ∷ [];
  live_chain = ((1, 201), 200) ∷ ((2, 202), 201) ∷ ((3, 203), 202) ∷ [];
}

abbrev pub store : Store list_ssz
store = record {
  metadata = record {
    time = 15;
    config = record { genesis_time = 5 };
    head = 203;
    safe_target = 201;
    latest_justified = at 201 1;
    latest_finalized = at 201 1;
  };
  tables = tables;
  new_payloads = record { entries = []; capacity = 2 };
  known_payloads = record { entries = []; capacity = 2 };
  gossip_signatures_count = 1;
}

abbrev body : BlockBody list_ssz
body = record { attestations = record { aggregation_bits = []; attestation_data = vote } ∷ [] }

abbrev signed : SignedBlockWithAttestation list_ssz
signed = record {
  message = record {
    block = record {
      slot = 4;
      proposer_index = 1;
      parent_root = 203;
      state_root = 104;
      body = body;
    };
    proposer_attestation = record { validator_id = 1; attestation_data = vote };
  };
  signature = record { attestation_signatures = []; proposer_signature = 9 ∷ [] };
}

abbrev new_root : H256
new_root = 204

abbrev the_key : ℕ × H256
the_key = (4, new_root)

get_signed_block-insert_example :
    (get_signed_block list_ssz roots (insert_pending_block list_ssz roots store new_root signed) 204
      ≡ (if new_root == 204 then some signed else get_signed_block list_ssz roots store 204))
    × (get_signed_block list_ssz roots
          (insert_signed_block list_ssz roots store new_root signed)
          204
        ≡ (if new_root == 204 then some signed else get_signed_block list_ssz roots store 204))
    × ((insert_pending_block list_ssz roots store new_root signed).tables.live_chain
        ≡ store.tables.live_chain)
    × ((key : ℕ × H256)
        → lookup key (insert_signed_block list_ssz roots store new_root signed).tables.live_chain
          ≡ (if the_key == key then some 203 else lookup key store.tables.live_chain))
get_signed_block-insert_example =
    get_signed_block-insert list_ssz roots store new_root 204 signed (λ h. absurd (omega arith))

signatures-IsUnique : IsUnique store.tables.gossip_signatures
unfolding lookup
signatures-IsUnique = (refl, tt)

data-IsUnique : IsUnique store.tables.attestation_data_by_root
unfolding lookup
data-IsUnique = (refl, (refl, tt))

update_checkpoints_lem_example :
    let after =
      update_checkpoints list_ssz store
        (record { head = 203; justified = some (at 203 3); finalized = some (at 202 2) }) in
    (after.metadata ≡ record (store.metadata) {
      head = 203;
      latest_justified = at 203 3;
      latest_finalized = at 202 2;
    })
    × (1 < 2 → Pruned list_ssz store after (at 202 2))
    × (2 ≤ 1 → after.tables ≡ store.tables)
    × Untouched list_ssz store after
update_checkpoints_lem_example =
    update_checkpoints_lem list_ssz store 203 (some (at 203 3)) (some (at 202 2))
      signatures-IsUnique data-IsUnique

prune_old_data_keeps_example :
    (get_state list_ssz (prune_old_data list_ssz store) 201 ≡ get_state list_ssz store 201)
    × (get_signed_block list_ssz roots (prune_old_data list_ssz store) 201
        ≡ get_signed_block list_ssz roots store 201)
    × ((prune_old_data list_ssz store).tables.live_chain ≡ store.tables.live_chain)
prune_old_data_keeps_example = prune_old_data_keeps list_ssz roots store 201 (inl refl)

extract_latest_attestations_lem_example :
    ((d : AttestationData)
      → lookup 0 (extract_latest_attestations list_ssz store ((0, 403) ∷ (0, 401) ∷ [])) ≡ some d
      → VotedFor list_ssz store 0 d ((0, 403) ∷ (0, 401) ∷ []))
    × ((e : AttestationData)
        → VotedFor list_ssz store 0 e ((0, 403) ∷ (0, 401) ∷ [])
        → (d : AttestationData) × (lookup 0
              (extract_latest_attestations list_ssz store ((0, 403) ∷ (0, 401) ∷ []))
            ≡ some d)
          × (e.slot ≤ d.slot))
extract_latest_attestations_lem_example =
    extract_latest_attestations_lem list_ssz store ((0, 403) ∷ (0, 401) ∷ []) 0

abbrev queue : PayloadBuffer ℕ
queue = record { entries = ((0, 401), 7) ∷ ((1, 401), 8) ∷ []; capacity = 2 }

push_batch_lem_example :
    ((push_batch queue (((0, 403), 9) ∷ [])).entries
      ≡ newest 2 (((0, 401), 7) ∷ ((1, 401), 8) ∷ ((0, 403), 9) ∷ []))
    × ((push_batch queue (((0, 403), 9) ∷ [])).capacity ≡ 2)
    × (length (push_batch queue (((0, 403), 9) ∷ [])).entries ≤ 2)
push_batch_lem_example = push_batch_lem queue (((0, 403), 9) ∷ []) (omega arith) (omega arith)

abbrev anchor : State list_ssz
anchor = record {
  config = record { genesis_time = 5 };
  slot = 1;
  latest_block_header = header_at 1 200;
  latest_justified = at 200 0;
  latest_finalized = at 200 0;
  historical_block_hashes = 200 ∷ [];
  justified_slots = [];
  validators = [];
  justifications_roots = [];
  justifications_validators = [];
}

from_anchor_state_lem_example :
    let completed = with_state_root list_ssz roots anchor 101 in
    (s : Store list_ssz) × (from_anchor_state list_ssz roots tables anchor ≡ some s)
    × (s.metadata.time ≡ 0)
    × (s.metadata.head ≡ 201)
    × (s.metadata.safe_target ≡ s.metadata.head)
    × (s.metadata.latest_justified ≡ s.metadata.latest_finalized)
    × (s.metadata.latest_finalized.root ≡ s.metadata.head)
    × (head_state list_ssz s ≡ some completed)
    × (head_slot list_ssz s ≡ some s.metadata.latest_finalized.slot)
from_anchor_state_lem_example = from_anchor_state_lem list_ssz roots tables anchor (inl refl)
