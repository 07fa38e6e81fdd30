-- ===== src/CheckpointSync/Tests.antt =====
-- The checks of a checkpoint sync on the state after the first block.
use ethlambda.Base.{◌≡◌, ◌↔◌, ok}
use ethlambda.Ssz.{list_ssz}
use ethlambda.Stf.Tests.{roots, registry, first}
use ethlambda.CheckpointSync.{verify_checkpoint_state}
use ethlambda.CheckpointSync.Trusted.{IsTrusted, verify_checkpoint_state_iff}

verify_checkpoint_state_iff_example :
    (verify_checkpoint_state list_ssz roots first 5 registry ≡ ok tt)
    ↔ IsTrusted list_ssz roots first 5 registry
verify_checkpoint_state_iff_example = verify_checkpoint_state_iff list_ssz roots first 5 registry
