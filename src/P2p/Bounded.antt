-- ===== src/P2p/Bounded.antt =====
-- The attempts of a fetch and the delays of its retries are bounded.
use ethlambda.Base.{
  ℕ, zero, suc, ◌<◌, ◌-◌, ◌*◌, ◌^◌, ◌≤◌, ◌≡◌, refl, not, some, List, [], ◌∷◌, filter, leb, ◌==◌,
  nat_eq, arith, Map, lookup, insert, remove, lookup-insert, lookup-remove, Bool-cases,
  Option-cases, inl, inr,
}
use ethlambda.Ssz.{Ssz}
use ethlambda.Types.{H256, SignedBlockWithAttestation, Roots}
use ethlambda.P2p.{
  PendingRequest, Server, Answer, max_fetch_retries, contains, Effect, Stepped, send_blocks_by_root,
  send_status, new_block, retry_after, redial_after, dial, peer_pool, track, fetch_block_from_peer,
  handle_fetch_block, handle_retry_block_fetch, backoff, handle_fetch_failure, accept_blocks,
}

pub record AttemptsBounded (pending : Map H256 PendingRequest) : Type 0 where
  pub at :
      (root : H256) (p : PendingRequest)
      → lookup root pending ≡ some p
      → (1 ≤ p.attempts) × (p.attempts ≤ max_fetch_retries)

AttemptsBounded-insert :
    (pending : Map H256 PendingRequest) (root : H256) (p : PendingRequest)
    → 1 ≤ p.attempts
    → p.attempts ≤ max_fetch_retries
    → AttemptsBounded pending
    → AttemptsBounded (insert root p pending)
AttemptsBounded-insert pending root p low high b = record {
  at = λ r q h.
      let read = lookup-insert root r p pending in
      elim (Bool-cases (root == r)) [
        | inl same ↦ let e : p ≡ q = ground (arith, same, read, h) in rw (← e) (low, high)
        | inr other ↦ b.at r q (ground (arith, other, read, h))
      ];
}

AttemptsBounded-remove :
    (pending : Map H256 PendingRequest) (root : H256)
    → AttemptsBounded pending
    → AttemptsBounded (remove root pending)
AttemptsBounded-remove pending root b = record {
  at = λ r q h.
      let read = lookup-remove root r pending in
      b.at r q (ground (arith, Bool-cases (root == r), read, h));
}

pow_le : (n k : ℕ) → n ≤ k → 2 ^ n ≤ 2 ^ k
pow_le zero zero h = omega arith
pow_le zero (suc k) h = omega (arith, pow_le zero k (omega arith))
pow_le (suc n) zero h = absurd (omega arith)
pow_le (suc n) (suc k) h = omega (arith, pow_le n k (omega arith))

backoff_bounded : (attempts : ℕ) → attempts < max_fetch_retries → 5 * 2 ^ (attempts - 1) ≤ 1280
backoff_bounded attempts h = omega (arith, pow_le (attempts - 1) 8 (omega arith))

module _ (S : Ssz) (R : Roots S) where
  -- The delay of a fetch is one of the first nine of the doubling sequence, that of a redial is
  -- fixed, and other effects have none.
  abbrev pub DelayBounded : Effect S R → Type 0
  DelayBounded (retry_after backoff_ms root) = backoff_ms ≤ 1280
  DelayBounded (send_blocks_by_root peer root) = Unit
  DelayBounded (send_status peer) = Unit
  DelayBounded (new_block block) = Unit
  DelayBounded (redial_after delay_secs peer) = delay_secs ≡ 12
  DelayBounded (dial peer) = Unit

  abbrev pub AllDelaysBounded : List (Effect S R) → Type 0
  AllDelaysBounded [] = Unit
  AllDelaysBounded (e ∷ effects) = DelayBounded e × AllDelaysBounded effects

  abbrev pub StepBounded : Stepped S R → Type 0
  StepBounded (server, effects) = AttemptsBounded server.pending_requests × AllDelaysBounded effects

  pool-AttemptsBounded :
      (server : Server) (root : H256)
      → AttemptsBounded server.pending_requests
      → AttemptsBounded (peer_pool S R server root).0.pending_requests
  unfolding peer_pool
  pool-AttemptsBounded server root b = elim (Option-cases (lookup root server.pending_requests)) [
    | inl new ↦ rw (new, peer_pool) b
    | inr (pending, found) ↦
        pooled pending found
          (filter (λ p. not (contains pending.failed_peers p)) server.connected_peers) refl
  ]
    where
      pooled :
          (pending : PendingRequest)
          → lookup root server.pending_requests ≡ some pending
          → (pool : List ℕ)
          → filter (λ p. not (contains pending.failed_peers p)) server.connected_peers ≡ pool
          → AttemptsBounded (peer_pool S R server root).0.pending_requests
      pooled pending found (p ∷ pool) e = rw (found, e, peer_pool) b
      pooled pending found [] e =
          let (low, high) = b.at root pending found in
          rw (found, e, peer_pool)
            (AttemptsBounded-insert server.pending_requests root _ low high b)

  track-AttemptsBounded :
      (server : Server) (root : H256) (request_id : ℕ)
      → AttemptsBounded server.pending_requests
      → AttemptsBounded (track S R server root request_id).pending_requests
  unfolding track
  track-AttemptsBounded server root request_id b =
      elim (Option-cases (lookup root server.pending_requests)) [
        | inl new ↦
            rw (new, track)
              (AttemptsBounded-insert server.pending_requests root _ (omega arith) (omega arith) b)
        | inr (pending, found) ↦ rw (found, track) b
      ]

  fetch_block_from_peer-StepBounded :
      (server : Server) (root : H256) (answer : Answer)
      → AttemptsBounded server.pending_requests
      → let fetched = fetch_block_from_peer S R server root answer in
        StepBounded (fetched.0, fetched.1)
  unfolding fetch_block_from_peer
  fetch_block_from_peer-StepBounded server root answer b = connected server.connected_peers refl
    where
      connected :
          (peers : List ℕ)
          → server.connected_peers ≡ peers
          → let fetched = fetch_block_from_peer S R server root answer in
            StepBounded (fetched.0, fetched.1)
      connected [] e = simp (e, fetch_block_from_peer) (b, tt)
      connected (first ∷ peers) e =
          let pooled = peer_pool S R server root in
          let b' = pool-AttemptsBounded server root b in
          elim (Option-cases (answer.choose pooled.1)) [
            | inl nobody ↦ simp (e, nobody, fetch_block_from_peer) (b', tt)
            | inr (peer, chosen) ↦ elim (Option-cases answer.request_id) [
              | inl unsent ↦ simp (e, chosen, unsent, fetch_block_from_peer) (b', (tt, tt))
              | inr (request_id, sent) ↦
                  simp (e, chosen, sent, fetch_block_from_peer)
                    (track-AttemptsBounded pooled.0 root request_id b', (tt, tt))
            ]
          ]

  pub handle_fetch_block-StepBounded :
      (server : Server) (root : H256) (answer : Answer)
      → AttemptsBounded server.pending_requests
      → StepBounded (handle_fetch_block S R server root answer)
  unfolding handle_fetch_block
  handle_fetch_block-StepBounded server root answer b =
      elim (Option-cases (lookup root server.pending_requests)) [
        | inl new ↦
            simp (new, handle_fetch_block) (fetch_block_from_peer-StepBounded server root answer b)
        | inr (pending, found) ↦ simp (found, handle_fetch_block) (b, tt)
      ]

  pub handle_retry_block_fetch-StepBounded :
      (server : Server) (root : H256) (answer : Answer)
      → AttemptsBounded server.pending_requests
      → StepBounded (handle_retry_block_fetch S R server root answer)
  unfolding handle_retry_block_fetch
  handle_retry_block_fetch-StepBounded server root answer b =
      let fetched = fetch_block_from_peer S R server root answer in
      let (b', delays) = fetch_block_from_peer-StepBounded server root answer b in
      elim (Option-cases (lookup root server.pending_requests)) [
        | inl over ↦ simp (over, handle_retry_block_fetch) (b, tt)
        | inr (pending, found) ↦ elim (Bool-cases fetched.2) [
          | inl sent ↦ simp (found, sent, handle_retry_block_fetch) (b', delays)
          | inr unsent ↦
              simp (found, unsent, handle_retry_block_fetch)
                (AttemptsBounded-remove fetched.0.pending_requests root b', delays)
        ]
      ]

  pub handle_fetch_failure-StepBounded :
      (server : Server) (root : H256) (peer : ℕ)
      → AttemptsBounded server.pending_requests
      → StepBounded (handle_fetch_failure S R server root peer)
  unfolding handle_fetch_failure backoff
  handle_fetch_failure-StepBounded server root peer b =
      elim (Option-cases (lookup root server.pending_requests)) [
        | inl over ↦ simp (over, handle_fetch_failure) (b, tt)
        | inr (pending, found) ↦
            let (low, high) = b.at root pending found in
            elim (Bool-cases (leb max_fetch_retries pending.attempts)) [
              | inl last ↦
                  simp (found, last, handle_fetch_failure)
                    (AttemptsBounded-remove server.pending_requests root b, tt)
              | inr more ↦
                  simp (found, more, handle_fetch_failure)
                    (
                      AttemptsBounded-insert server.pending_requests root _ (omega arith)
                          (ground (arith, more)) b,
                      (backoff_bounded pending.attempts (ground (arith, more)), tt),
                    )
            ]
      ]

  pub accept_blocks-StepBounded :
      (server : Server) (root : H256) (blocks : List (SignedBlockWithAttestation S))
      → AttemptsBounded server.pending_requests
      → StepBounded (accept_blocks S R server root blocks)
  unfolding accept_blocks
  accept_blocks-StepBounded server root [] b = (b, tt)
  accept_blocks-StepBounded server root (block ∷ blocks) b =
      elim (Bool-cases (R.block_hash block.message.block == root)) [
        | inl same ↦
            let rest =
              accept_blocks-StepBounded
                (record server {
                  pending_requests =
                      remove (R.block_hash block.message.block) server.pending_requests;
                })
                root blocks
                (AttemptsBounded-remove server.pending_requests (R.block_hash block.message.block)
                  b) in
            simp (same, accept_blocks) (rest.0, (tt, rest.1))
        | inr other ↦ simp (other, accept_blocks) (accept_blocks-StepBounded server root blocks b)
      ]
