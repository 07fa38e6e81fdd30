-- ===== src/P2p/Tests.antt =====
-- A fetch that fails twice, by an empty response and by the connection, and then succeeds.
use ethlambda.Base.{some, List, [], ◌∷◌}
use ethlambda.Ssz.{list_ssz}
use ethlambda.Stf.Tests.{roots}
use ethlambda.Chain.Import.Tests.{signed}
use ethlambda.P2p.{
  Answer, Event, fetch_block, retry_block_fetch, blocks_by_root_response, outbound_failure,
  established, spawned, run,
}
use ethlambda.P2p.Bounded.{StepBounded}
use ethlambda.P2p.Runs.{run-spawned_bounded}

abbrev answer : Answer
answer = record { choose = λ pool. some 7; request_id = some 1 }

abbrev events : List (Event list_ssz roots)
events =
    established 7 1
    ∷ fetch_block 202 answer
    ∷ blocks_by_root_response [] 7 1
    ∷ retry_block_fetch 202 answer
    ∷ outbound_failure 7 1
    ∷ retry_block_fetch 202 answer
    ∷ blocks_by_root_response (signed ∷ []) 7 1
    ∷ []

run-spawned_bounded_example :
    StepBounded list_ssz roots (run list_ssz roots (spawned (7 ∷ [])) events)
run-spawned_bounded_example = run-spawned_bounded list_ssz roots (7 ∷ []) events
