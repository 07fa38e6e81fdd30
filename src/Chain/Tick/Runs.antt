-- ===== src/Chain/Tick/Runs.antt =====
-- A tick brings the store to its time.
use ethlambda.Base.{
  [], expect, ◌>>=◌, ℕ, zero, suc, ◌+◌, ◌-◌, ◌%◌, ◌≡◌, refl, ap, Bool, true, false, ◌&&◌, List,
  ◌++◌, ◌==◌, nat_eq, arith, ltb, if◌then◌else◌, Outcome, ok, Bool-cases, inl, inr,
}
use ethlambda.Ssz.{Ssz, SszLaws}
use ethlambda.Types.{SignedAggregatedAttestation, Roots}
use ethlambda.Xmss.{Xmss}
use ethlambda.Storage.Store.{Metadata, Store, set_time, head_state}
use ethlambda.Chain.Validation.{intervals_per_slot}
use ethlambda.Chain.Frame.{SameChain, SameChain-refl, SameChain-trans}
use ethlambda.Chain.Head.{update_safe_target, accept_new_attestations}
use ethlambda.Chain.Committee.{aggregate_committee_signatures}
use ethlambda.Chain.Committee.Total.{aggregate_committee_signatures_ok}
use ethlambda.Chain.Target.{OutOfFuel}
use ethlambda.Chain.Tick.{Ticked, run_interval, run_intervals, fast_forward, interval_at, on_tick}
use ethlambda.Chain.Tick.Ready.{
  CanTick, CanTick-same, accept_new_attestations_ok, update_safe_target_ok,
}

module _ (S : Ssz) (R : Roots S) (X : Xmss) (L : SszLaws S) where
  -- The run ends, at `time`, with the same chain, and another tick can follow.
  abbrev pub Ends : ℕ → Store S → ℕ → Outcome OutOfFuel (Ticked S R X) → Type 0
  Ends fuel store time o =
      (store' : Store S) × (aggregates : List (SignedAggregatedAttestation S)) × (o
        ≡ ok (store', aggregates))
      × SameChain S store store'
      × (store'.metadata.time ≡ time)
      × CanTick S fuel store'

  committee-Ends :
      (fuel : ℕ) (store : Store S)
      → CanTick S fuel store
      → Ends fuel store store.metadata.time (aggregate_committee_signatures S R X store)
  unfolding head_state
  committee-Ends fuel store c =
      let (state, found, limit) = c.head in
      let (store', aggregates, ran, same, meta) =
        aggregate_committee_signatures_ok S R X L store state found limit in
      (
        store',
        aggregates,
        ran,
        same,
        ap (λ (m : Metadata). m.time) meta,
        CanTick-same S fuel store store' same (rw meta c.head) c,
      )

  idle-Ends :
      (fuel : ℕ) (store : Store S)
      → CanTick S fuel store
      → Ends fuel store store.metadata.time (ok (store, []))
  idle-Ends fuel store c = (store, [], refl, SameChain-refl S store, refl, c)

  accept-Ends :
      (fuel : ℕ) (store : Store S)
      → CanTick S fuel store
      → Ends fuel store store.metadata.time
          (expect (accept_new_attestations S fuel store) >>= λ s. ok (s, []))
  accept-Ends fuel store c =
      let (store', ran, same, time, c') = accept_new_attestations_ok S fuel store c in
      (store', [], rw ran refl, same, time, c')

  safe_target-Ends :
      (fuel : ℕ) (store : Store S)
      → CanTick S fuel store
      → Ends fuel store store.metadata.time
          (expect (update_safe_target S fuel store) >>= λ s. ok (s, []))
  safe_target-Ends fuel store c =
      let (store', ran, same, time, c') = update_safe_target_ok S fuel store c in
      (store', [], rw ran refl, same, time, c')

  if-Ends :
      (fuel : ℕ) (store : Store S) (time : ℕ) (test : Bool) (y n : Outcome OutOfFuel (Ticked S R X))
      → Ends fuel store time y
      → Ends fuel store time n
      → Ends fuel store time (if test then y else n)
  if-Ends fuel store time true y n a b = a
  if-Ends fuel store time false y n a b = b

  run_interval_ok :
      (fuel interval : ℕ) (signal is_aggregator : Bool) (store : Store S)
      → CanTick S fuel store
      → Ends fuel store store.metadata.time
          (run_interval S R X fuel interval signal is_aggregator store)
  unfolding run_interval
  run_interval_ok fuel interval signal is_aggregator store c =
      let now = store.metadata.time in
      let idle = idle-Ends fuel store c in
      let accepts = accept-Ends fuel store c in
      if-Ends fuel store now (interval == 0) _ _ (if-Ends fuel store now signal _ _ accepts idle) (
        if-Ends fuel store now (interval == 1) _ _ idle (
          if-Ends fuel store now (interval == 2) _ _
            (if-Ends fuel store now is_aggregator _ _ (committee-Ends fuel store c) idle)
            (if-Ends fuel store now (interval == 3) _ _ (safe_target-Ends fuel store c) accepts)))

  set_time-CanTick :
      (fuel : ℕ) (store : Store S) (time : ℕ)
      → CanTick S fuel store
      → CanTick S fuel (set_time S store time)
  unfolding set_time
  set_time-CanTick fuel store time c =
      CanTick-same S fuel store (set_time S store time) (SameChain-refl S store) c.head c

  run_intervals_ok :
      (fuel steps time : ℕ) (has_proposal is_aggregator : Bool) (store : Store S)
      → CanTick S fuel store
      → Ends fuel store
          (store.metadata.time + steps)
          (run_intervals S R X fuel steps time has_proposal is_aggregator store)
  unfolding run_intervals set_time
  run_intervals_ok fuel zero time has_proposal is_aggregator store c =
      (store, [], refl, SameChain-refl S store, omega arith, c)
  run_intervals_ok fuel (suc steps) time has_proposal is_aggregator store c =
      let now = store.metadata.time + 1 in
      let signal = has_proposal && (now == time) in
      let begun = set_time S store now in
      let (here, found, ran, same, at, c') =
        run_interval_ok fuel (now % intervals_per_slot) signal is_aggregator begun
          (set_time-CanTick fuel store now c) in
      let (last, more, rest, same', at', c'') =
        run_intervals_ok fuel steps time has_proposal is_aggregator here c' in
      (
        last,
        found ++ more,
        rw (ran, rest, run_intervals) refl,
        SameChain-trans S store here last same same',
        omega (arith, at, at'),
        c'',
      )

  -- On a store whose index is a forest with the justified block, with states for the head and for
  -- every block of the index whose validators are within the registry's limit, and with the fuel
  -- of the fork choice above the slots: a tick ends without a panic, whatever its timestamp and its
  -- duties. The store's time is then that of the tick in intervals since genesis, unless it was later
  -- already; blocks, states, checkpoints and index are as before, and another tick can follow.
  pub on_tick_ok :
      (fuel : ℕ) (store : Store S) (timestamp_ms : ℕ) (has_proposal is_aggregator : Bool)
      → CanTick S fuel store
      → let time = interval_at store.metadata.config.genesis_time timestamp_ms in
        Ends fuel store
          (if ltb store.metadata.time time then time else store.metadata.time)
          (on_tick S R X fuel store timestamp_ms has_proposal is_aggregator)
  unfolding on_tick fast_forward set_time
  on_tick_ok fuel store timestamp_ms has_proposal is_aggregator c =
      let time = interval_at store.metadata.config.genesis_time timestamp_ms in
      elim (Bool-cases (ltb intervals_per_slot (time - store.metadata.time))) [
        | inl behind ↦
            let start = set_time S store (time - intervals_per_slot) in
            let (last, found, ran, same, at, c') =
              run_intervals_ok fuel (time - (time - intervals_per_slot)) time has_proposal
                is_aggregator start (set_time-CanTick fuel store (time - intervals_per_slot) c) in
            (
              last,
              found,
              rw (behind, on_tick, fast_forward) ran,
              same,
              ground (arith, at, behind),
              c',
            )
        | inr near ↦
            let (last, found, ran, same, at, c') =
              run_intervals_ok fuel (time - store.metadata.time) time has_proposal is_aggregator
                store c in
            (last, found, rw (near, on_tick, fast_forward) ran, same, ground (arith, at), c')
      ]
