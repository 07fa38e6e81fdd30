-- ===== src/Server/Tests.antt =====
-- A block that arrives before its parent, and a node's own signature.
use ethlambda.Base.{
  ℕ, List, true, arith, if◌then◌else◌, ◌==◌, nat_eq, ◌≡◌, refl, false, [], ◌∷◌, lookup, insert, ok,
}
use ethlambda.Ssz.{list_ssz}
use ethlambda.Stf.Tests.{roots, second_block}
use ethlambda.Storage.Store.{has_state, get_state, get_block_header}
use ethlambda.Storage.Blocks.{insert_pending_block, write_signed_block, header, empty_body_root}
use ethlambda.Storage.Prune.{prune_old_data}
use ethlambda.Chain.Import.Tests.{toy, base, orphan, signed, imported}
use ethlambda.Chain.Import
use ethlambda.Chain.Import.{on_block_core}
use ethlambda.KeyManager.{validator_ids}
use ethlambda.Types.{SignedBlockWithAttestation}
use ethlambda.Server.{
  BlockChainServer, Told, process_block, collect_pending_children, fetch_block, resolve_missing,
  register_pending, walk_pending, pend_block, process_or_pend_block,
}
use ethlambda.Server.Checkpoints.{Onward, arrived, turned, Cascade-Onward}
use ethlambda.Server.Pending.{IsRooted, waits, Pursued, process_or_pend_block-pending}

abbrev server : BlockChainServer list_ssz roots toy
server = record {
  store = base;
  key_manager = record { secret_keys = [] };
  pending_blocks = [];
  pending_block_parents = [];
  is_aggregator = false;
}

abbrev waiting : BlockChainServer list_ssz roots toy
waiting = record server {
  store = insert_pending_block list_ssz roots base 202 orphan;
  pending_blocks = (999, 202 ∷ []) ∷ [];
  pending_block_parents = (202, 999) ∷ [];
}

waiting_parent : has_state list_ssz waiting.store 202 ≡ false
unfolding has_state get_state insert_pending_block write_signed_block lookup
waiting_parent = refl

orphan_waits :
    process_or_pend_block list_ssz roots toy 3 server orphan []
    ≡ ok (waiting, [], fetch_block 999 ∷ [])
unfolding process_or_pend_block pend_block resolve_missing walk_pending register_pending has_state
    get_state get_block_header insert_pending_block write_signed_block header empty_body_root lookup
    insert
orphan_waits = refl

-- A child of the block that waits.
abbrev child : SignedBlockWithAttestation list_ssz
child = record signed {
  message = record (signed.message) { block = record second_block { slot = 3; parent_root = 202 } };
}

abbrev rank : ℕ → ℕ
rank r =
    if r == 203
    then 4
    else if r == 202
    then 3
    else if r == 201
    then 2
    else if r == 200
    then 1
    else 0

waiting-IsRooted : IsRooted list_ssz roots toy waiting.store waiting.pending_block_parents rank
unfolding lookup insert get_block_header has_state get_state insert_pending_block write_signed_block
    header empty_body_root
waiting-IsRooted = record {
  ancestors = λ r a found. ground (arith, found);
  headers = λ r h found. ground (arith, found);
  whole = λ r h found ready. absurd (ground (arith, found, ready));
}

process_or_pend_block-pending_example :
    (server' : BlockChainServer list_ssz roots toy) × (queue' : List
      (SignedBlockWithAttestation list_ssz))
    × (told : List (Told list_ssz roots toy)) × (process_or_pend_block list_ssz roots toy 4 waiting
          child []
        ≡ ok (server', queue', told))
    × (server'.store ≡ insert_pending_block list_ssz roots waiting.store 203 child)
    × (waits list_ssz roots toy server' 202 203 ≡ true)
    × ((p r : ℕ)
        → waits list_ssz roots toy waiting p r ≡ true
        → waits list_ssz roots toy server' p r ≡ true)
    × Pursued list_ssz roots toy server'.store [] queue' told
process_or_pend_block-pending_example =
    process_or_pend_block-pending list_ssz roots toy 4 waiting child [] rank waiting-IsRooted
      (λ h. absurd (omega arith)) waiting_parent (omega arith) (omega arith)

-- a node with a validator, to which the parent's child comes
abbrev keyed : BlockChainServer list_ssz roots toy
keyed = record server { key_manager = record { secret_keys = (1, []) ∷ [] } }

abbrev grown : BlockChainServer list_ssz roots toy
grown = record keyed { store = (on_block_core list_ssz roots toy 5 base signed true (1 ∷ [])).0 }

importing_turn : process_or_pend_block list_ssz roots toy 5 keyed signed [] ≡ ok (grown, [], [])
unfolding process_or_pend_block process_block Import.on_block has_state get_state lookup
    collect_pending_children validator_ids
importing_turn = rw (process_or_pend_block, process_block, imported) refl

Cascade-Onward_example :
    Onward list_ssz roots toy keyed grown
    × Onward list_ssz roots toy keyed (record grown { store = prune_old_data list_ssz grown.store })
Cascade-Onward_example =
    Cascade-Onward list_ssz roots toy keyed signed 1 grown [] (turned 5 arrived importing_turn)
