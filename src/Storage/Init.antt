-- ===== src/Storage/Init.antt =====
-- `get_forkchoice_store`, `from_anchor_state` and `init_store` of crates/storage/src/store.rs: a store
-- on a backend that may hold tables of an earlier run. A panic is the failure of an assertion.
use ethlambda.Base.{
  ℕ, ◌≡◌, ◌⊎◌, refl, Bool, true, ◌&&◌, ◌||◌, Option, none, some, length, ◌==◌, nat_eq, pair_eq,
  if◌then◌else◌, arith, insert, lookup-insert,
}
use ethlambda.Ssz.{Ssz}
use ethlambda.Types.{H256, zero_hash, Checkpoint, BlockHeader, Block, BlockBody, State, Roots}
use ethlambda.Storage.Payloads.{new}
use ethlambda.Storage.Store.{
  Metadata, Tables, Store, head_state, head_slot, get_state, get_block_header,
}
use ethlambda.Storage.Blocks.{header}

abbrev pub aggregated_payload_cap : ℕ
aggregated_payload_cap = 4096

abbrev pub new_payload_cap : ℕ
new_payload_cap = 512

abbrev pub header_beq : BlockHeader → BlockHeader → Bool
header_beq a b =
    a.slot == b.slot
    && (a.proposer_index == b.proposer_index
        && (a.parent_root == b.parent_root
            && (a.state_root == b.state_root && a.body_root == b.body_root)))

module _ (S : Ssz) (R : Roots S) where
  open R use {state_hash, header_hash}

  -- The state with another state root in its latest header.
  abbrev pub with_state_root : State S → H256 → State S
  with_state_root state root = record state {
    latest_block_header = record (state.latest_block_header) { state_root = root };
  }

  unfoldable pub anchor_metadata : State S → H256 → Metadata
  anchor_metadata anchor block_root =
      let checkpoint : Checkpoint = record {
        root = block_root;
        slot = anchor.latest_block_header.slot;
      } in
      record {
        time = 0;
        config = anchor.config;
        head = block_root;
        safe_target = block_root;
        latest_justified = checkpoint;
        latest_finalized = checkpoint;
      }

  unfoldable pub anchor_tables : Tables S → State S → H256 → Option (BlockBody S) → Tables S
  anchor_tables backend anchor block_root body = record backend {
    block_headers = insert block_root anchor.latest_block_header backend.block_headers;
    block_bodies = elim body [
      | none ↦ backend.block_bodies
      | some b ↦ insert block_root b backend.block_bodies
    ];
    states = insert block_root anchor backend.states;
    live_chain =
        insert (anchor.latest_block_header.slot, block_root) anchor.latest_block_header.parent_root
          backend.live_chain;
  }

  unfoldable pub anchored_store : Tables S → State S → H256 → Option (BlockBody S) → Store S
  unfolding anchor_metadata anchor_tables
  anchored_store backend anchor block_root body = record {
    metadata = anchor_metadata anchor block_root;
    tables = anchor_tables backend anchor block_root body;
    new_payloads = new new_payload_cap;
    known_payloads = new aggregated_payload_cap;
    gossip_signatures_count = length backend.gossip_signatures;
  }

  unfoldable pub init_store : Tables S → State S → Option (BlockBody S) → Option (Store S)
  unfolding anchored_store
  init_store backend anchor_state anchor_body =
      let original_state_root = anchor_state.latest_block_header.state_root in
      let anchor_state_root = state_hash (with_state_root anchor_state zero_hash) in
      let anchor = with_state_root anchor_state anchor_state_root in
      let block_root = header_hash anchor.latest_block_header in
      if original_state_root == zero_hash || original_state_root == anchor_state_root
      then some (anchored_store backend anchor block_root anchor_body)
      else none

  unfoldable pub from_anchor_state : Tables S → State S → Option (Store S)
  unfolding init_store
  from_anchor_state backend anchor_state = init_store backend anchor_state none

  unfoldable pub get_forkchoice_store : Tables S → State S → Block S → Option (Store S)
  unfolding init_store
  get_forkchoice_store backend anchor_state anchor_block =
      let state_header = record (anchor_state.latest_block_header) { state_root = zero_hash } in
      let block_header = record (header S R anchor_block) { state_root = zero_hash } in
      if header_beq state_header block_header
      then init_store backend anchor_state (some anchor_block.body)
      else none

  -- The anchor is accepted: its header has no state root yet, or that of the state whose header
  -- has none.
  abbrev pub IsAnchor : State S → Type 0
  IsAnchor state =
      (state.latest_block_header.state_root ≡ zero_hash)
      ⊎ (state.latest_block_header.state_root ≡ state_hash (with_state_root state zero_hash))

  -- From an accepted anchor state, on any backend, a store starts without a panic. It starts at
  -- interval 0 with the anchor block, under the root of its header completed with the state root, as
  -- head and safe target, finalized and justified; the head state is the anchor state so completed,
  -- and its slot that of the head block.
  pub from_anchor_state_lem :
      (backend : Tables S) (state : State S)
      → IsAnchor state
      → let anchor = with_state_root state (state_hash (with_state_root state zero_hash)) in
        (store : Store S) × (from_anchor_state backend state ≡ some store)
        × (store.metadata.time ≡ 0)
        × (store.metadata.head ≡ header_hash anchor.latest_block_header)
        × (store.metadata.safe_target ≡ store.metadata.head)
        × (store.metadata.latest_justified ≡ store.metadata.latest_finalized)
        × (store.metadata.latest_finalized.root ≡ store.metadata.head)
        × (head_state S store ≡ some anchor)
        × (head_slot S store ≡ some store.metadata.latest_finalized.slot)
  unfolding from_anchor_state head_state head_slot get_state get_block_header
  from_anchor_state_lem backend state h =
      let anchor = with_state_root state (state_hash (with_state_root state zero_hash)) in
      let root = header_hash anchor.latest_block_header in
      let accepted : (state.latest_block_header.state_root == zero_hash
            || state.latest_block_header.state_root == state_hash (with_state_root state zero_hash))
          ≡ true =
        ground (arith, h) in
      let stored = lookup-insert root root anchor backend.states in
      let listed = lookup-insert root root anchor.latest_block_header backend.block_headers in
      let same : (root == root) ≡ true = (nat_eq.beq_iff root root).1 refl in
      (
        anchored_store backend anchor root none,
        rw accepted refl,
        refl,
        refl,
        refl,
        refl,
        refl,
        rw (stored, same) refl,
        rw (listed, same) refl,
      )
