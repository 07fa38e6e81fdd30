-- ===== src/Chain/Tick.antt =====
-- `on_tick` and `get_proposal_head` of crates/blockchain/src/store.rs, with the times of
-- crates/blockchain/src/lib.rs. A panic also stands for the end of the fork choice's fuel. The steps
-- of the loop are the intervals left to the time of the tick.
pub mod Ready
pub mod Runs
use ethlambda.Base.{
  ℕ, zero, suc, ◌+◌, ◌-◌, ◌*◌, ◌/◌, ◌%◌, ◌^◌, Bool, true, false, ◌&&◌, Option, none, some, List, [],
  ◌∷◌, ◌++◌, ltb, ◌==◌, nat_eq, if◌then◌else◌, Outcome, ok, err, panic, expect, ◌>>=◌,
}
use ethlambda.Ssz.{Ssz}
use ethlambda.Types.{H256, SignedAggregatedAttestation, Roots}
use ethlambda.Xmss.{Xmss}
use ethlambda.Storage.Store.{Store, set_time}
use ethlambda.Chain.Validation.{intervals_per_slot}
use ethlambda.Chain.Target.{OutOfFuel}
use ethlambda.Chain.Head.{update_safe_target, accept_new_attestations}
use ethlambda.Chain.Committee.{aggregate_committee_signatures}

abbrev pub milliseconds_per_interval : ℕ
milliseconds_per_interval = 800

abbrev pub milliseconds_per_slot : ℕ
milliseconds_per_slot = milliseconds_per_interval * intervals_per_slot

-- Intervals since genesis; the product wraps around as in a release build.
unfoldable pub interval_at : ℕ → ℕ → ℕ
interval_at genesis_time timestamp_ms =
    (timestamp_ms - (genesis_time * 1000) % 2 ^ 64) / milliseconds_per_interval

module _ (S : Ssz) (R : Roots S) (X : Xmss) where
  abbrev pub Ticked : Type 0
  Ticked = Store S × List (SignedAggregatedAttestation S)

  -- What the interval does once the store's time is set to it.
  unfoldable pub run_interval : ℕ → ℕ → Bool → Bool → Store S → Outcome OutOfFuel Ticked
  run_interval fuel interval should_signal_proposal is_aggregator store =
      if interval == 0
      then (if should_signal_proposal
          then (expect (accept_new_attestations S fuel store) >>= λ s. ok (s, []))
          else ok (store, []))
      else if interval == 1
      then ok (store, [])
      else if interval == 2
      then (if is_aggregator then aggregate_committee_signatures S R X store else ok (store, []))
      else if interval == 3
      then (expect (update_safe_target S fuel store) >>= λ s. ok (s, []))
      else (expect (accept_new_attestations S fuel store) >>= λ s. ok (s, []))

  -- `steps` turns of the loop, to `time`.
  unfoldable pub run_intervals : ℕ → ℕ → ℕ → Bool → Bool → Store S → Outcome OutOfFuel Ticked
  unfolding run_interval
  run_intervals fuel zero time has_proposal is_aggregator store = ok (store, [])
  run_intervals fuel (suc steps) time has_proposal is_aggregator store =
      let now = store.metadata.time + 1 in
      run_interval fuel (now % intervals_per_slot) (has_proposal && (now == time)) is_aggregator
        (set_time S store now)
      >>= λ here. run_intervals fuel steps time has_proposal is_aggregator here.0 >>= λ rest.
          ok (rest.0, here.1 ++ rest.1)

  unfoldable pub fast_forward : ℕ → Store S → Store S
  fast_forward time store =
      if ltb intervals_per_slot (time - store.metadata.time)
      then set_time S store (time - intervals_per_slot)
      else store

  unfoldable pub on_tick : ℕ → Store S → ℕ → Bool → Bool → Outcome OutOfFuel Ticked
  unfolding run_intervals fast_forward interval_at
  on_tick fuel store timestamp_ms has_proposal is_aggregator =
      let time = interval_at store.metadata.config.genesis_time timestamp_ms in
      let forwarded = fast_forward time store in
      run_intervals fuel (time - forwarded.metadata.time) time has_proposal is_aggregator forwarded

  unfoldable pub get_proposal_head : ℕ → Store S → ℕ → Outcome OutOfFuel (Store S × H256)
  unfolding on_tick
  get_proposal_head fuel store slot =
      let slot_time_ms =
        ((store.metadata.config.genesis_time * 1000) % 2 ^ 64
          + (slot * milliseconds_per_slot) % 2 ^ 64)
        % 2 ^ 64 in
      on_tick fuel store slot_time_ms true false >>= λ ticked.
      expect (accept_new_attestations S fuel ticked.0) >>= λ accepted.
      ok (accepted, accepted.metadata.head)
