-- ===== src/Lib.antt =====
-- The consensus core of ethlambda, a Lean Ethereum client: the state transition, the fork choice,
-- the store that both work on, and the operations of the chain on that store.
--
-- How the parts interact. The network (crates/net/p2p) fetches blocks and hands them to the server of
-- the chain (crates/blockchain/src/lib.rs), which lets a block without its parent wait, and calls the
-- chain store (crates/blockchain/src/store.rs) at each block and tick. For a block, that one runs
-- the state transition on the state of the block's parent and writes block and state into the store
-- (crates/storage). Votes arrive as attestations, are validated against the store and wait in its
-- payload buffers; the fork choice weighs the newest vote of each validator and gives the head. The
-- state transition justifies and finalizes checkpoints from the votes inside blocks, and the store
-- prunes what finalization has passed.
--
-- Which file models what:
--   Base.antt: shared tests, lists under native indices, maps, outcomes.
--   Ssz.antt: the bit lists of the SSZ library, a parameter `Ssz` with the laws `SszLaws`.
--   Types.antt: crates/common/types/src, the containers, with their tree hashes as a parameter
--     `Roots`.
--   Stf.antt: crates/blockchain/state_transition/src. Stf/JustifiedSlots is
--     justified_slots_ops.rs; Stf/Justifiable is slot_is_justifiable_after; Stf/Attestations is
--     process_attestations with is_valid_vote, try_finalize and serialize_justifications; Stf/Blocks
--     is process_slots, process_block_header, process_block and state_transition; Stf/Genesis is
--     State::from_genesis of crates/common/types/src/state.rs.
--   ForkChoice.antt: crates/blockchain/fork_choice/src/lib.rs.
--   Storage.antt: crates/storage/src. Storage/Payloads is PayloadBuffer; Storage/Store, /Blocks,
--     /Prune and /Init are the operations of Store.
--   Chain.antt: crates/blockchain/src/store.rs. Chain/Validation is validate_attestation_data;
--     Chain/Verify is verify_signatures; Chain/Gossip is on_gossip_attestation and
--     on_gossip_aggregated_attestation; Chain/Import is on_block_core with on_block and
--     on_block_without_verification; Chain/Target is get_attestation_target and
--     produce_attestation_data; Chain/Head is update_head, update_safe_target and reorg_depth;
--     Chain/Aggregation builds the bits of aggregated votes; Chain/Committee is
--     aggregate_committee_signatures; Chain/Tick is on_tick and get_proposal_head; Chain/Build is
--     build_block with select_aggregated_proofs; Chain/Produce is produce_block_with_signatures.
--   Xmss.antt: the signature libraries, a parameter `Xmss`, and what
--     crates/common/types/src/signature.rs and crates/common/crypto/src/lib.rs make of them.
--   KeyManager.antt: crates/blockchain/src/key_manager.rs.
--   Server.antt: BlockChainServer of crates/blockchain/src/lib.rs, with the duties of a tick in
--     Server/Duties. A call of the actor is a function from the server to the server and what it
--     tells the network.
--   Backend.antt: the in-memory backend of crates/storage/src/backend/in_memory.rs, with batches of
--     writes. The store of Storage.antt has typed tables of its own.
--   CheckpointSync.antt: bin/ethlambda/src/checkpoint_sync.rs.
--   P2p.antt: the peers and block fetches of crates/net/p2p/src/lib.rs and
--     crates/net/p2p/src/req_resp/handlers.rs, as a step function on the actor's events; what the swarm
--     answers is part of the event. P2p/Encoding is req_resp/encoding.rs beside it, a stream being the
--     list of its bytes; the snappy library is a parameter `Snappy`. P2p/Serve is the answers
--     of req_resp/handlers.rs to requests.
--   The Tests modules evaluate and apply the theorems at concrete states.
--
-- How the model stands to the code. An H256 is the number its bytes write, high byte first. A
-- VariableList is a list, its limit tested where the code converts into one. A HashMap is an
-- association list; its order stands for the unspecified order of the source. The tables of the
-- storage backend are maps of decoded values, in the order in which the backend iterates. A
-- Result is an outcome with a third case for a panic. A transition that fails leaves a state that
-- its callers drop, so a failure returns no state. The subtraction of u64 values in shift_window's
-- argument and the arithmetic of slot_is_justifiable_after keep their wrap and their checks; sums
-- of slots and lengths, which the limits on the history hold below 2^64, do not.
--
-- Fuel. The walks of the fork choice and of the attestation target follow parents, whose slots fall:
-- fuel above every slot is enough, and the theorems say so. The walk of reorg_depth has the source's
-- own bound of 128. The fixed point of build_block includes a new vote in each pass, so fuel above
-- the number of votes on offer is enough; the selection of proofs covers a validator with each proof,
-- and its fuel is the number of validators. A tick makes a turn for each interval up to its time.
--
-- Not modelled: metrics and logs, the signature libraries themselves, the transport of the network,
-- RPC, the mailboxes of the actors, the start-up, and the byte encodings of the storage backends.
pub mod Base
pub mod Ssz
pub mod Types
pub mod Xmss
pub mod Stf
pub mod ForkChoice
pub mod Storage
pub mod Chain
pub mod CheckpointSync
pub mod KeyManager
pub mod Server
pub mod P2p
pub mod Backend
