-- ===== src/P2p/Runs.antt =====
-- The bounds hold along every sequence of events.
use ethlambda.Base.{
  ℕ, ◌≡◌, refl, Bool, true, false, not, ◌&&◌, Option, none, some, List, [], ◌∷◌, ◌++◌, ◌==◌, nat_eq,
  if◌then◌else◌, lookup, insert, remove, Bool-cases, Option-cases, inl, inr,
}
use ethlambda.Ssz.{Ssz}
use ethlambda.Types.{H256, SignedBlockWithAttestation, Roots}
use ethlambda.P2p.{
  Server, contains, Effect, redial_after, handle_blocks_by_root_response, handle_outbound_failure,
  Event, step, connection_established, connection_closed, outgoing_connection_error,
  handle_retry_peer_redial, fetch_block, retry_block_fetch, blocks_by_root_response, error_response,
  outbound_failure, established, closed, outgoing_error, retry_peer_redial,
}
use ethlambda.P2p.{spawned, run}
use ethlambda.P2p.Bounded.{
  AttemptsBounded, AllDelaysBounded, StepBounded, handle_fetch_block-StepBounded,
  handle_retry_block_fetch-StepBounded, handle_fetch_failure-StepBounded, accept_blocks-StepBounded,
}

module _ (S : Ssz) (R : Roots S) where
  handle_blocks_by_root_response-StepBounded :
      (server : Server) (blocks : List (SignedBlockWithAttestation S)) (peer request_id : ℕ)
      → AttemptsBounded server.pending_requests
      → StepBounded S R (handle_blocks_by_root_response S R server blocks peer request_id)
  unfolding handle_blocks_by_root_response
  handle_blocks_by_root_response-StepBounded server blocks peer request_id b =
      elim (Option-cases (lookup request_id server.request_id_map)) [
        | inl unknown ↦ simp (unknown, handle_blocks_by_root_response) (b, tt)
        | inr (root, asked) ↦ answered root asked blocks
      ]
    where
      answered :
          (root : H256)
          → lookup request_id server.request_id_map ≡ some root
          → (l : List (SignedBlockWithAttestation S))
          → StepBounded S R (handle_blocks_by_root_response S R server l peer request_id)
      answered root asked [] =
          simp (asked, handle_blocks_by_root_response)
            (handle_fetch_failure-StepBounded S R
              (record server {
                request_id_map = insert request_id root (remove request_id server.request_id_map);
              })
              root peer b)
      answered root asked (block ∷ more) =
          simp (asked, handle_blocks_by_root_response)
            (accept_blocks-StepBounded S R
              (record server { request_id_map = remove request_id server.request_id_map }) root
              (block ∷ more) b)

  handle_outbound_failure-StepBounded :
      (server : Server) (peer request_id : ℕ)
      → AttemptsBounded server.pending_requests
      → StepBounded S R (handle_outbound_failure S R server peer request_id)
  unfolding handle_outbound_failure
  handle_outbound_failure-StepBounded server peer request_id b =
      elim (Option-cases (lookup request_id server.request_id_map)) [
        | inl unknown ↦ simp (unknown, handle_outbound_failure) (b, tt)
        | inr (root, asked) ↦
            simp (asked, handle_outbound_failure)
              (handle_fetch_failure-StepBounded S R
                (record server { request_id_map = remove request_id server.request_id_map }) root
                peer b)
      ]

  redials-bounded :
      (test : Bool) (peer : ℕ)
      → AllDelaysBounded S R (if test then redial_after 12 peer ∷ [] else [])
  redials-bounded true peer = (refl, tt)
  redials-bounded false peer = tt

  connection_established-StepBounded :
      (server : Server) (peer n : ℕ)
      → AttemptsBounded server.pending_requests
      → StepBounded S R (connection_established S R server peer n)
  unfolding connection_established
  connection_established-StepBounded server peer n b = elim (Bool-cases (n == 1)) [
    | inl first ↦ simp (first, connection_established) (b, (tt, tt))
    | inr other ↦ simp (other, connection_established) (b, tt)
  ]

  connection_closed-StepBounded :
      (server : Server) (peer n : ℕ)
      → AttemptsBounded server.pending_requests
      → StepBounded S R (connection_closed S R server peer n)
  unfolding connection_closed
  connection_closed-StepBounded server peer n b = elim (Bool-cases (n == 0)) [
    | inl last ↦
        simp (last, connection_closed) (b, redials-bounded (contains server.bootnodes peer) peer)
    | inr other ↦ simp (other, connection_closed) (b, tt)
  ]

  outgoing_connection_error-StepBounded :
      (server : Server) (peer : Option ℕ)
      → AttemptsBounded server.pending_requests
      → StepBounded S R (outgoing_connection_error S R server peer)
  unfolding outgoing_connection_error
  outgoing_connection_error-StepBounded server none b = (b, tt)
  outgoing_connection_error-StepBounded server (some peer) b = (
    b,
    redials-bounded (contains server.bootnodes peer && not (contains server.connected_peers peer))
        peer,
  )

  handle_retry_peer_redial-StepBounded :
      (server : Server) (peer : ℕ)
      → AttemptsBounded server.pending_requests
      → StepBounded S R (handle_retry_peer_redial S R server peer)
  unfolding handle_retry_peer_redial
  handle_retry_peer_redial-StepBounded server peer b =
      elim (Bool-cases (contains server.connected_peers peer)) [
        | inl back ↦ simp (back, handle_retry_peer_redial) (b, tt)
        | inr gone ↦ elim (Bool-cases (contains server.bootnodes peer)) [
          | inl known ↦ simp (gone, known, handle_retry_peer_redial) (b, (tt, tt))
          | inr other ↦ simp (gone, other, handle_retry_peer_redial) (b, tt)
        ]
      ]

  step-StepBounded :
      (server : Server) (event : Event S R)
      → AttemptsBounded server.pending_requests
      → StepBounded S R (step S R server event)
  unfolding step
  step-StepBounded server (fetch_block root answer) b =
      handle_fetch_block-StepBounded S R server root answer b
  step-StepBounded server (retry_block_fetch root answer) b =
      handle_retry_block_fetch-StepBounded S R server root answer b
  step-StepBounded server (blocks_by_root_response blocks peer request_id) b =
      handle_blocks_by_root_response-StepBounded server blocks peer request_id b
  step-StepBounded server (error_response peer request_id) b = (b, tt)
  step-StepBounded server (outbound_failure peer request_id) b =
      handle_outbound_failure-StepBounded server peer request_id b
  step-StepBounded server (established peer n) b =
      connection_established-StepBounded server peer n b
  step-StepBounded server (closed peer n) b = connection_closed-StepBounded server peer n b
  step-StepBounded server (outgoing_error peer) b =
      outgoing_connection_error-StepBounded server peer b
  step-StepBounded server (retry_peer_redial peer) b =
      handle_retry_peer_redial-StepBounded server peer b

  AllDelaysBounded-append :
      (l m : List (Effect S R))
      → AllDelaysBounded S R l
      → AllDelaysBounded S R m
      → AllDelaysBounded S R (l ++ m)
  AllDelaysBounded-append [] m h k = k
  AllDelaysBounded-append (e ∷ l) m h k = (h.0, AllDelaysBounded-append l m h.1 k)

  run-StepBounded :
      (server : Server) (events : List (Event S R))
      → AttemptsBounded server.pending_requests
      → StepBounded S R (run S R server events)
  unfolding run
  run-StepBounded server [] b = (b, tt)
  run-StepBounded server (event ∷ events) b =
      let (b', delays) = step-StepBounded server event b in
      let (last, more) = run-StepBounded (step S R server event).0 events b' in
      (
        last,
        AllDelaysBounded-append (step S R server event).1
            (run S R (step S R server event).0 events).1 delays more,
      )

  -- Whatever a new server is told, its pending fetches have made between 1 and 10 attempts, every
  -- retry of a block fetch that it has scheduled was at most 1280 milliseconds away, and every redial
  -- of a peer 12 seconds.
  pub run-spawned_bounded :
      (bootnodes : List ℕ) (events : List (Event S R))
      → StepBounded S R (run S R (spawned bootnodes) events)
  unfolding lookup
  run-spawned_bounded bootnodes events =
      run-StepBounded (spawned bootnodes) events (record { at = λ root p h. absurd cc })
