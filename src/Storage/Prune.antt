-- ===== src/Storage/Prune.antt =====
-- The pruning of crates/storage/src/store.rs, and `update_checkpoints`, which triggers it.
use ethlambda.Base.{
  ℕ, ◌-◌, not, Option, none, some, List, [], ◌∷◌, map, length, drop, ltb, leb, any, filter, ◌==◌,
  nat_eq, pair_eq, if◌then◌else◌, Map, unwrap_or,
}
use ethlambda.Ssz.{Ssz}
use ethlambda.Types.{H256, Checkpoint, BlockHeader}
use ethlambda.Storage.Store.{Metadata, Store, delete_batch}

pub record ForkCheckpoints : Type 0 where
  pub head : H256
  pub justified : Option Checkpoint
  pub finalized : Option Checkpoint

-- `ForkCheckpoints::head_only`
abbrev pub head_only : H256 → ForkCheckpoints
head_only head = record { head = head; justified = none; finalized = none }

abbrev pub blocks_to_keep : ℕ
blocks_to_keep = 21600

abbrev pub states_to_keep : ℕ
states_to_keep = 3000

-- `take_while` in the order of iteration, which is that of the keys only if the backend sorts
unfoldable pub keys_before : ℕ → Map (ℕ × H256) H256 → List (ℕ × H256)
keys_before finalized_slot [] = []
keys_before finalized_slot (((slot, root), parent_root) ∷ m) =
    let rest = keys_before finalized_slot m in
    if ltb slot finalized_slot then (slot, root) ∷ rest else []

-- The keys `prune_by_slot` collects.
unfoldable pub keys_up_to {ℓ κ} : {K : Type ℓ} {V : Type κ} → ℕ → (V → ℕ) → Map K V → List K
keys_up_to finalized_slot get_slot [] = []
keys_up_to finalized_slot get_slot ((k, v) ∷ m) =
    let rest = keys_up_to finalized_slot get_slot m in
    if leb (get_slot v) finalized_slot then k ∷ rest else rest

-- Descending by slot. The source's sort is unstable; this one is stable, one of its outcomes.
unfoldable pub insert_newest : H256 × ℕ → List (H256 × ℕ) → List (H256 × ℕ)
insert_newest e [] = e ∷ []
insert_newest e (d ∷ l) =
    let rest = insert_newest e l in if ltb e.1 d.1 then d ∷ rest else e ∷ d ∷ l

unfoldable pub sort_newest : List (H256 × ℕ) → List (H256 × ℕ)
sort_newest [] = []
sort_newest (e ∷ l) = insert_newest e (sort_newest l)

unfoldable pub header_slots : Map H256 BlockHeader → List (H256 × ℕ)
header_slots = map (λ e. (e.0, e.1.slot))

-- The roots past the retention window of `keep` headers, less the protected ones.
unfoldable pub expired : ℕ → List H256 → Map H256 BlockHeader → List H256
unfolding header_slots
expired keep protected headers =
    if leb (length (header_slots headers)) keep
    then []
    else filter (λ r. not (any (λ p. p == r) protected))
        (map (λ e. e.0) (drop keep (sort_newest (header_slots headers))))

unfoldable pub set_checkpoints : Metadata → ForkCheckpoints → Metadata
set_checkpoints metadata checkpoints = record metadata {
  head = checkpoints.head;
  latest_justified = unwrap_or checkpoints.justified metadata.latest_justified;
  latest_finalized = unwrap_or checkpoints.finalized metadata.latest_finalized;
}

module _ (S : Ssz) where
  -- each operation that prunes with the number of entries it pruned
  unfoldable pub prune_live_chain : Store S → ℕ → Store S × ℕ
  unfolding keys_before
  prune_live_chain store finalized_slot =
      let pruned = keys_before finalized_slot store.tables.live_chain in
      (
        record store {
          tables = record (store.tables) {
            live_chain = delete_batch pruned store.tables.live_chain;
          };
        },
        length pruned,
      )

  unfoldable pub prune_gossip_signatures : Store S → ℕ → Store S × ℕ
  prune_gossip_signatures store finalized_slot =
      let pruned = keys_up_to finalized_slot (λ s. s.slot) store.tables.gossip_signatures in
      (
        record store {
          tables = record (store.tables) {
            gossip_signatures = delete_batch pruned store.tables.gossip_signatures;
          };
          gossip_signatures_count = store.gossip_signatures_count - length pruned;
        },
        length pruned,
      )

  unfoldable pub prune_attestation_data_by_root : Store S → ℕ → Store S × ℕ
  prune_attestation_data_by_root store finalized_slot =
      let pruned = keys_up_to finalized_slot (λ d. d.slot) store.tables.attestation_data_by_root in
      (
        record store {
          tables = record (store.tables) {
            attestation_data_by_root = delete_batch pruned store.tables.attestation_data_by_root;
          };
        },
        length pruned,
      )

  unfoldable pub prune_old_states : ℕ → Store S → List H256 → Store S × ℕ
  prune_old_states keep store protected =
      let pruned = expired keep protected store.tables.block_headers in
      (
        record store {
          tables = record (store.tables) { states = delete_batch pruned store.tables.states };
        },
        length pruned,
      )

  unfoldable pub prune_old_blocks : ℕ → Store S → List H256 → Store S × ℕ
  prune_old_blocks keep store protected =
      let pruned = expired keep protected store.tables.block_headers in
      (
        record store {
          tables = record (store.tables) {
            block_headers = delete_batch pruned store.tables.block_headers;
            block_bodies = delete_batch pruned store.tables.block_bodies;
            block_signatures = delete_batch pruned store.tables.block_signatures;
          };
        },
        length pruned,
      )

  unfoldable pub prune_old_data : Store S → Store S
  unfolding prune_old_states prune_old_blocks
  prune_old_data store =
      let protected =
        store.metadata.latest_finalized.root ∷ store.metadata.latest_justified.root ∷ [] in
      let states_pruned = (prune_old_states states_to_keep store protected).0 in
      (prune_old_blocks blocks_to_keep states_pruned protected).0

  -- what follows an advance of finalization at once
  unfoldable pub prune_finalized : Store S → ℕ → Store S
  unfolding prune_live_chain prune_gossip_signatures prune_attestation_data_by_root
  prune_finalized store slot =
      let chain_pruned = (prune_live_chain store slot).0 in
      let signatures_pruned = (prune_gossip_signatures chain_pruned slot).0 in
      (prune_attestation_data_by_root signatures_pruned slot).0

  unfoldable pub prune_on_advance : ℕ → Option Checkpoint → Store S → Store S
  unfolding prune_finalized
  prune_on_advance old_finalized_slot none store = store
  prune_on_advance old_finalized_slot (some finalized) store =
      if ltb old_finalized_slot finalized.slot then prune_finalized store finalized.slot else store

  unfoldable pub update_checkpoints : Store S → ForkCheckpoints → Store S
  unfolding set_checkpoints prune_on_advance
  update_checkpoints store checkpoints =
      prune_on_advance store.metadata.latest_finalized.slot checkpoints.finalized
        (record store { metadata = set_checkpoints store.metadata checkpoints })
