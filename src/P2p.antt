-- ===== src/P2p.antt =====
-- The peers and the block fetches of P2PServer: crates/net/p2p/src/lib.rs and
-- crates/net/p2p/src/req_resp/handlers.rs. The swarm is outside: what it is told is an effect, and what
-- it answers, a request id or the random choice of a peer, is part of the event.
pub mod Bounded
pub mod Runs
pub mod Encoding
mod Serve
mod Tests
use ethlambda.Base.{
  ℕ, ◌+◌, ◌-◌, ◌*◌, ◌^◌, Bool, true, false, not, ◌&&◌, Option, none, some, List, [], ◌∷◌, ◌++◌, any,
  filter, leb, ◌==◌, nat_eq, if◌then◌else◌, Map, lookup, insert, remove,
}
use ethlambda.Ssz.{Ssz}
use ethlambda.Types.{H256, SignedBlockWithAttestation, Roots}

abbrev pub max_fetch_retries : ℕ
max_fetch_retries = 10

abbrev pub initial_backoff_ms : ℕ
initial_backoff_ms = 5

abbrev pub backoff_multiplier : ℕ
backoff_multiplier = 2

abbrev pub peer_redial_interval_secs : ℕ
peer_redial_interval_secs = 12

pub record PendingRequest : Type 0 where
  pub attempts : ℕ
  pub failed_peers : List ℕ

-- The fields of `P2PServer` that these operations use; peers and request ids are numbers.
pub record Server : Type 0 where
  pub connected_peers : List ℕ
  pub pending_requests : Map H256 PendingRequest
  pub request_id_map : Map ℕ H256
  pub bootnodes : List ℕ

-- `HashSet::contains` and `HashSet::insert`
abbrev pub contains : List ℕ → ℕ → Bool
contains set x = any (λ y. y == x) set

abbrev pub add : ℕ → List ℕ → List ℕ
add x set = if contains set x then set else set ++ (x ∷ [])

-- What the swarm answers to a request: the peer that is chosen, and the id of the request.
pub record Answer : Type 0 where
  pub choose : List ℕ → Option ℕ
  pub request_id : Option ℕ

-- The server that `P2P::spawn` starts.
abbrev pub spawned : List ℕ → Server
spawned bootnodes = record {
  connected_peers = [];
  pending_requests = [];
  request_id_map = [];
  bootnodes = bootnodes;
}

module _ (S : Ssz) (R : Roots S) where
  pub data Effect : Type 0 where
    send_blocks_by_root : (peer : ℕ) (root : H256) → Effect
    send_status : (peer : ℕ) → Effect
    new_block : SignedBlockWithAttestation S → Effect
    retry_after : (backoff_ms : ℕ) (root : H256) → Effect
    redial_after : (delay_secs peer : ℕ) → Effect
    dial : (peer : ℕ) → Effect

  abbrev pub Stepped : Type 0
  Stepped = Server × List Effect

  -- The peers to ask; those that failed are left out, and forgotten when none remains.
  unfoldable pub peer_pool : Server → H256 → Server × List ℕ
  peer_pool server root = elim (lookup root server.pending_requests) [
    | none ↦ (server, server.connected_peers)
    | some pending ↦
        elim (filter (λ p. not (contains pending.failed_peers p)) server.connected_peers) [
          | [] ↦ (
            record server {
              pending_requests =
                  insert root (record pending { failed_peers = [] }) server.pending_requests;
            },
            server.connected_peers,
          )
          | p ∷ pool ↦ (server, p ∷ pool)
        ]
  ]

  -- The request is tracked, with one attempt if it is new.
  unfoldable pub track : Server → H256 → ℕ → Server
  track server root request_id = record server {
    pending_requests = elim (lookup root server.pending_requests) [
      | none ↦ insert root (record { attempts = 1; failed_peers = [] }) server.pending_requests
      | some pending ↦ server.pending_requests
    ];
    request_id_map = insert request_id root server.request_id_map;
  }

  -- with whether a request was sent
  unfoldable pub fetch_block_from_peer : Server → H256 → Answer → Server × List Effect × Bool
  unfolding peer_pool track
  fetch_block_from_peer server root answer = elim server.connected_peers [
    | [] ↦ (server, [], false)
    | first ∷ peers ↦
        let pooled = peer_pool server root in
        elim (answer.choose pooled.1) [
          | none ↦ (pooled.0, [], false)
          | some peer ↦ elim answer.request_id [
            | none ↦ (pooled.0, send_blocks_by_root peer root ∷ [], false)
            | some request_id ↦
                (track pooled.0 root request_id, send_blocks_by_root peer root ∷ [], true)
          ]
        ]
  ]

  unfoldable pub handle_fetch_block : Server → H256 → Answer → Stepped
  unfolding fetch_block_from_peer
  handle_fetch_block server root answer = elim (lookup root server.pending_requests) [
    | some pending ↦ (server, [])
    | none ↦ let fetched = fetch_block_from_peer server root answer in (fetched.0, fetched.1)
  ]

  unfoldable pub handle_retry_block_fetch : Server → H256 → Answer → Stepped
  unfolding fetch_block_from_peer
  handle_retry_block_fetch server root answer = elim (lookup root server.pending_requests) [
    | none ↦ (server, [])
    | some pending ↦
        let fetched = fetch_block_from_peer server root answer in
        if fetched.2 then (fetched.0, fetched.1) else (
          record (fetched.0) { pending_requests = remove root fetched.0.pending_requests },
          fetched.1,
        )
  ]

  unfoldable pub backoff : ℕ → ℕ
  backoff attempts = initial_backoff_ms * backoff_multiplier ^ (attempts - 1)

  unfoldable pub handle_fetch_failure : Server → H256 → ℕ → Stepped
  unfolding backoff
  handle_fetch_failure server root peer = elim (lookup root server.pending_requests) [
    | none ↦ (server, [])
    | some pending ↦
        if leb max_fetch_retries pending.attempts
        then (record server { pending_requests = remove root server.pending_requests }, [])
        else (
          record server {
            pending_requests =
                insert root
                  (record {
                    attempts = pending.attempts + 1;
                    failed_peers = add peer pending.failed_peers;
                  })
                  server.pending_requests;
          },
          retry_after (backoff pending.attempts) root ∷ [],
        )
  ]

  -- The blocks of the response with the root that was asked for; the fetch is over with the first.
  unfoldable pub accept_blocks : Server → H256 → List (SignedBlockWithAttestation S) → Stepped
  accept_blocks server requested_root [] = (server, [])
  accept_blocks server requested_root (block ∷ blocks) =
      let root = R.block_hash block.message.block in
      let matches = root == requested_root in
      let cleaned =
        if matches
        then record server { pending_requests = remove root server.pending_requests }
        else server in
      let rest = accept_blocks cleaned requested_root blocks in
      if matches then (rest.0, new_block block ∷ rest.1) else rest

  -- An empty response keeps the id of its request.
  unfoldable pub handle_blocks_by_root_response :
      Server → List (SignedBlockWithAttestation S) → ℕ → ℕ → Stepped
  unfolding handle_fetch_failure accept_blocks
  handle_blocks_by_root_response server blocks peer request_id =
      elim (lookup request_id server.request_id_map) [
        | none ↦ (server, [])
        | some requested_root ↦ elim blocks [
          | [] ↦
              handle_fetch_failure
                (record server {
                  request_id_map =
                      insert request_id requested_root (remove request_id server.request_id_map);
                })
                requested_root peer
          | block ∷ more ↦
              accept_blocks
                (record server { request_id_map = remove request_id server.request_id_map })
                requested_root (block ∷ more)
        ]
      ]

  unfoldable pub handle_outbound_failure : Server → ℕ → ℕ → Stepped
  unfolding handle_fetch_failure
  handle_outbound_failure server peer request_id = elim (lookup request_id server.request_id_map) [
    | none ↦ (server, [])
    | some root ↦
        handle_fetch_failure
          (record server { request_id_map = remove request_id server.request_id_map }) root peer
  ]

  -- `num_established` is the number of connections to the peer that are open after the event.
  unfoldable pub connection_established : Server → ℕ → ℕ → Stepped
  connection_established server peer num_established =
      if num_established == 1
      then (
        record server { connected_peers = add peer server.connected_peers },
        send_status peer ∷ [],
      )
      else (server, [])

  unfoldable pub connection_closed : Server → ℕ → ℕ → Stepped
  connection_closed server peer num_established =
      if num_established == 0
      then (
        record server { connected_peers = filter (λ p. not (p == peer)) server.connected_peers },
        (if contains server.bootnodes peer
            then redial_after peer_redial_interval_secs peer ∷ []
            else []),
      )
      else (server, [])

  unfoldable pub outgoing_connection_error : Server → Option ℕ → Stepped
  outgoing_connection_error server none = (server, [])
  outgoing_connection_error server (some peer) = (
    server,
    (if contains server.bootnodes peer && not (contains server.connected_peers peer)
        then redial_after peer_redial_interval_secs peer ∷ []
        else []),
  )

  unfoldable pub handle_retry_peer_redial : Server → ℕ → Stepped
  handle_retry_peer_redial server peer = (
    server,
    (if contains server.connected_peers peer
        then []
        else if contains server.bootnodes peer
        then dial peer ∷ []
        else []),
  )

  -- What the actor is told. A response that is an error is only logged.
  pub data Event : Type 0 where
    fetch_block : (root : H256) → Answer → Event
    retry_block_fetch : (root : H256) → Answer → Event
    blocks_by_root_response : List (SignedBlockWithAttestation S) → (peer request_id : ℕ) → Event
    error_response : (peer request_id : ℕ) → Event
    outbound_failure : (peer request_id : ℕ) → Event
    established : (peer num_established : ℕ) → Event
    closed : (peer num_established : ℕ) → Event
    outgoing_error : Option ℕ → Event
    retry_peer_redial : (peer : ℕ) → Event

  unfoldable pub step : Server → Event → Stepped
  unfolding handle_fetch_block handle_retry_block_fetch handle_blocks_by_root_response
      handle_outbound_failure connection_established connection_closed outgoing_connection_error
      handle_retry_peer_redial
  step server (fetch_block root answer) = handle_fetch_block server root answer
  step server (retry_block_fetch root answer) = handle_retry_block_fetch server root answer
  step server (blocks_by_root_response blocks peer request_id) =
      handle_blocks_by_root_response server blocks peer request_id
  step server (error_response peer request_id) = (server, [])
  step server (outbound_failure peer request_id) = handle_outbound_failure server peer request_id
  step server (established peer n) = connection_established server peer n
  step server (closed peer n) = connection_closed server peer n
  step server (outgoing_error peer) = outgoing_connection_error server peer
  step server (retry_peer_redial peer) = handle_retry_peer_redial server peer

  unfoldable pub run : Server → List Event → Stepped
  unfolding step
  run server [] = (server, [])
  run server (event ∷ events) =
      let stepped = step server event in
      let rest = run stepped.0 events in (rest.0, stepped.1 ++ rest.1)
