-- ===== src/Storage/Store.antt =====
-- `Store` of crates/storage/src/store.rs over typed tables: each table of the backend as an
-- association list from decoded keys to decoded values, in the order in which the backend iterates.
-- A batch is one update. `Option`'s `none` stands for the panic of `expect` in the derived accessors.
use ethlambda.Base.{
  ℕ, ◌+◌, ◌-◌, Bool, true, false, Option, none, some, List, [], ◌∷◌, map, length, ltb, nat_eq,
  pair_eq, if◌then◌else◌, Map, Eq, lookup, insert, remove,
}
use ethlambda.Ssz.{Ssz}
use ethlambda.Types.{
  H256, Checkpoint, AttestationData, BlockHeader, ChainConfig, BlockBody, AggregatedSignatureProof,
  BlockSignaturesWithAttestation, State,
}
use ethlambda.Storage.Payloads.{
  SignatureKey, PayloadBuffer, push, push_batch, drain, grouped, unique_keys,
}

pub record StoredSignature : Type 0 where
  pub slot : ℕ
  pub signature_bytes : List ℕ

-- `Table::Metadata`, whose keys `init_store` writes all at once
pub record Metadata : Type 0 where
  pub time : ℕ
  pub config : ChainConfig
  pub head : H256
  pub safe_target : H256
  pub latest_justified : Checkpoint
  pub latest_finalized : Checkpoint

module _ (S : Ssz) where
  pub record StoredAggregatedPayload : Type 0 where
    pub slot : ℕ
    pub proof : AggregatedSignatureProof S

  -- the other tables of the backend
  pub record Tables : Type 0 where
    pub block_headers : Map H256 BlockHeader
    pub block_bodies : Map H256 (BlockBody S)
    pub block_signatures : Map H256 (BlockSignaturesWithAttestation S)
    pub states : Map H256 (State S)
    pub gossip_signatures : Map SignatureKey StoredSignature
    pub attestation_data_by_root : Map H256 AttestationData
    pub live_chain : Map (ℕ × H256) H256

  pub record Store : Type 0 where
    pub metadata : Metadata
    pub tables : Tables
    pub new_payloads : PayloadBuffer StoredAggregatedPayload
    pub known_payloads : PayloadBuffer StoredAggregatedPayload
    pub gossip_signatures_count : ℕ

-- `StorageWriteBatch::delete_batch` on one table
unfoldable pub delete_batch {ℓ κ} :
    {K : Type ℓ} {V : Type κ} ⦃e : Eq K⦄ → List K → Map K V → Map K V
delete_batch [] m = m
delete_batch (k ∷ keys) m = delete_batch keys (remove k m)

-- `Option::and_then`, the `?` of a function that returns an `Option`
abbrev pub and_then {ℓ κ} : {A : Type ℓ} {B : Type κ} → Option A → (A → Option B) → Option B
and_then none f = none
and_then (some a) f = f a

module _ (S : Ssz) where
  unfoldable pub set_time : Store S → ℕ → Store S
  set_time store time = record store { metadata = record (store.metadata) { time = time } }

  unfoldable pub set_safe_target : Store S → H256 → Store S
  set_safe_target store root = record store {
    metadata = record (store.metadata) { safe_target = root };
  }

  -- root to (slot, parent root)
  unfoldable pub live_entries : Map (ℕ × H256) H256 → Map H256 (ℕ × H256)
  live_entries [] = []
  live_entries (((slot, root), parent_root) ∷ m) = (root, (slot, parent_root)) ∷ live_entries m

  unfoldable pub collect : Map H256 (ℕ × H256) → Map H256 (ℕ × H256) → Map H256 (ℕ × H256)
  collect [] m = m
  collect ((root, entry) ∷ l) m = collect l (insert root entry m)

  unfoldable pub get_live_chain : Store S → Map H256 (ℕ × H256)
  unfolding collect live_entries
  get_live_chain store = collect (live_entries store.tables.live_chain) []

  unfoldable pub get_block_header : Store S → H256 → Option BlockHeader
  get_block_header store root = lookup root store.tables.block_headers

  unfoldable pub get_state : Store S → H256 → Option (State S)
  get_state store root = lookup root store.tables.states

  unfoldable pub has_state : Store S → H256 → Bool
  unfolding get_state
  has_state store root = elim (get_state store root) [ none ↦ false | some state ↦ true ]

  unfoldable pub insert_state : Store S → H256 → State S → Store S
  insert_state store root state = record store {
    tables = record (store.tables) { states = insert root state store.tables.states };
  }

  unfoldable pub insert_attestation_data_by_root : Store S → H256 → AttestationData → Store S
  insert_attestation_data_by_root store root d = record store {
    tables = record (store.tables) {
      attestation_data_by_root = insert root d store.tables.attestation_data_by_root;
    };
  }

  unfoldable pub insert_attestation_data_by_root_batch :
      Store S → List (H256 × AttestationData) → Store S
  unfolding insert_attestation_data_by_root
  insert_attestation_data_by_root_batch store [] = store
  insert_attestation_data_by_root_batch store ((root, d) ∷ entries) =
      insert_attestation_data_by_root_batch (insert_attestation_data_by_root store root d) entries

  unfoldable pub get_attestation_data_by_root : Store S → H256 → Option AttestationData
  get_attestation_data_by_root store root = lookup root store.tables.attestation_data_by_root

  -- The newer of the vote that is there and `d`; the first of two from one slot stays.
  unfoldable pub update_latest : Map ℕ AttestationData → ℕ → AttestationData → Map ℕ AttestationData
  update_latest result validator_id d = elim (lookup validator_id result) [
    | none ↦ insert validator_id d result
    | some existing ↦ if ltb existing.slot d.slot then insert validator_id d result else result
  ]

  -- The source reads each root once and keeps what it read; the store does not change meanwhile.
  unfoldable pub extract_votes :
      Store S → List SignatureKey → Map ℕ AttestationData → Map ℕ AttestationData
  unfolding get_attestation_data_by_root
  extract_votes store [] result = result
  extract_votes store ((validator_id, data_root) ∷ keys) result =
      extract_votes store keys (elim (get_attestation_data_by_root store data_root) [
        | none ↦ result
        | some d ↦ update_latest result validator_id d
      ])

  unfoldable pub extract_latest_attestations : Store S → List SignatureKey → Map ℕ AttestationData
  extract_latest_attestations store keys = extract_votes store keys []

  unfoldable pub extract_latest_known_attestations : Store S → Map ℕ AttestationData
  unfolding extract_latest_attestations
  extract_latest_known_attestations store =
      extract_latest_attestations store (unique_keys store.known_payloads)

  unfoldable pub insert_known_aggregated_payloads_batch :
      Store S → List (SignatureKey × StoredAggregatedPayload S) → Store S
  insert_known_aggregated_payloads_batch store entries = record store {
    known_payloads = push_batch store.known_payloads entries;
  }

  unfoldable pub insert_new_aggregated_payloads_batch :
      Store S → List (SignatureKey × StoredAggregatedPayload S) → Store S
  insert_new_aggregated_payloads_batch store entries = record store {
    new_payloads = push_batch store.new_payloads entries;
  }

  unfoldable pub insert_known_aggregated_payload :
      Store S → SignatureKey → StoredAggregatedPayload S → Store S
  insert_known_aggregated_payload store key payload = record store {
    known_payloads = push store.known_payloads key payload;
  }

  unfoldable pub insert_new_aggregated_payload :
      Store S → SignatureKey → StoredAggregatedPayload S → Store S
  insert_new_aggregated_payload store key payload = record store {
    new_payloads = push store.new_payloads key payload;
  }

  unfoldable pub iter_known_aggregated_payloads :
      Store S → Map SignatureKey (List (StoredAggregatedPayload S))
  iter_known_aggregated_payloads store = grouped store.known_payloads

  unfoldable pub iter_new_aggregated_payloads :
      Store S → Map SignatureKey (List (StoredAggregatedPayload S))
  iter_new_aggregated_payloads store = grouped store.new_payloads

  -- each root once, as in a set
  unfoldable pub get_block_roots : Store S → List H256
  get_block_roots store = map (λ e. e.0) (get_live_chain store)

  unfoldable pub promote_new_aggregated_payloads : Store S → Store S
  promote_new_aggregated_payloads store =
      let (emptied, drained) = drain store.new_payloads in
      record store {
        new_payloads = emptied;
        known_payloads = push_batch store.known_payloads drained;
      }

  unfoldable pub delete_gossip_signatures : Store S → List SignatureKey → Store S
  unfolding delete_batch
  delete_gossip_signatures store keys = record store {
    tables = record (store.tables) {
      gossip_signatures = delete_batch keys store.tables.gossip_signatures;
    };
    gossip_signatures_count = store.gossip_signatures_count - length keys;
  }

  unfoldable pub insert_gossip_signature : Store S → H256 → ℕ → ℕ → List ℕ → Store S
  insert_gossip_signature store data_root slot validator_id signature_bytes =
      let key : SignatureKey = (validator_id, data_root) in
      let stored : StoredSignature = record { slot = slot; signature_bytes = signature_bytes } in
      record store {
        tables = record (store.tables) {
          gossip_signatures = insert key stored store.tables.gossip_signatures;
        };
        gossip_signatures_count = elim (lookup key store.tables.gossip_signatures) [
          | none ↦ store.gossip_signatures_count + 1
          | some found ↦ store.gossip_signatures_count
        ];
      }

  unfoldable pub head_slot : Store S → Option ℕ
  unfolding get_block_header
  head_slot store =
      and_then (get_block_header store store.metadata.head) (λ header. some header.slot)

  unfoldable pub safe_target_slot : Store S → Option ℕ
  unfolding get_block_header
  safe_target_slot store =
      and_then (get_block_header store store.metadata.safe_target) (λ header. some header.slot)

  unfoldable pub head_state : Store S → Option (State S)
  unfolding get_state
  head_state store = get_state store store.metadata.head
