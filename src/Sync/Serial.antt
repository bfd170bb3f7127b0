-- ===== src/Sync/Serial.antt =====
-- node/sync/src/controllers/serial.rs. What the controller sends is kept in a list, without the
-- reasons that it gives; the debug assertion of `on_response` on the bounds is left out, and so are
-- the fields that only logs read. The current time, the announcements in the file location cache,
-- the choices of the random generator and the replies of the store are arguments.
pub mod Invariant
pub mod Events
pub mod Responses
pub mod Rounds
pub mod Settling
pub mod Transition
pub mod Reachable
pub mod Storing
use ionian_rust.Base.{
  ℕ, zero, suc, ◌+◌, ◌-◌, ◌*◌, ◌/◌, ◌%◌, Bool, true, false, not, ◌||◌, if◌then◌else◌, Option, none,
  some, List, [], ◌∷◌, ltb, leb, ◌==◌, length, min, Result, ok, err,
}
use ionian_rust.SharedTypes.{ChunkArray, chunk_size}
use ionian_rust.ChunkPool.Types.{TxId}
use ionian_rust.Sync.Peers.{
  PeerId, Multiaddr, PeerState, found, connecting, connected, disconnecting, disconnected,
  SyncPeers, add_new_peer, update_state, update_state_force, peer_state, random_peer, count, expire,
}

abbrev pub max_chunks_to_request : ℕ
max_chunks_to_request = 2 * 1024

abbrev pub max_request_failures : ℕ
max_request_failures = 3

abbrev pub peer_request_timeout : ℕ
peer_request_timeout = 5

abbrev pub download_timeout : ℕ
download_timeout = 5

abbrev pub wait_outgoing_connection_timeout : ℕ
wait_outgoing_connection_timeout = 10

-- An error of the store is a number.
pub data FailureReason : Type 0 where
  db_error : ℕ → FailureReason
  tx_reverted : TxId → FailureReason

pub data SyncState : Type 0 where
  idle found_peers connecting_peers awaiting_download completed : SyncState
  finding_peers awaiting_outgoing_connection : (since : ℕ) → SyncState
  downloading : (peer_id : PeerId) (from_chunk to_chunk since : ℕ) → SyncState
  failed : FailureReason → SyncState

-- What goes to the network service.
pub data Message : Type 0 where
  find_file : TxId → Message
  dial_peer : PeerId → Multiaddr → Message
  get_chunks : PeerId → TxId → ℕ → ℕ → Message
  report_peer ban : PeerId → Message

pub record SerialSyncController : Type 0 where
  pub tx_id : TxId
  pub num_chunks : ℕ
  pub next_chunk : ℕ
  pub failures : ℕ
  pub state : SyncState
  pub peers : SyncPeers
  pub sent : List Message

pub new_controller : TxId → ℕ → SerialSyncController
new_controller tx_id num_chunks = record {
  tx_id = tx_id;
  num_chunks = num_chunks;
  next_chunk = 0;
  failures = 0;
  state = idle;
  peers = [];
  sent = [];
}

abbrev pub send : Message → SerialSyncController → SerialSyncController
send m c = record c { sent = m ∷ c.sent }

abbrev pub to_state : SyncState → SerialSyncController → SerialSyncController
to_state s c = record c { state = s }

pub reset : ℕ → SerialSyncController → SerialSyncController
reset now c = record c { next_chunk = 0; failures = 0; state = idle; peers = expire now c.peers }

pub on_peer_found : ℕ → SerialSyncController → PeerId → Multiaddr → SerialSyncController × Bool
on_peer_found now c id addr =
    let (p, new) = add_new_peer now c.peers id addr in (record c { peers = p }, new)

-- The loop over the announcements: whether one of them is of a new peer.
pub find_all :
    ℕ → List (PeerId × Multiaddr) → SerialSyncController → Bool → SerialSyncController × Bool
find_all now [] c found_new = (c, found_new)
find_all now ((id, addr) ∷ known) c found_new =
    let (c', new) = on_peer_found now c id addr in find_all now known c' (new || found_new)

-- The search is published where the cache knew no new peer.
abbrev pub publish_search : SerialSyncController × Bool → SerialSyncController
publish_search (c, true) = c
publish_search (c, false) = send (find_file c.tx_id) c

-- The time since when peers are looked for stays, if they are.
abbrev pub start_finding : ℕ → SyncState → SyncState
start_finding now (finding_peers since) = finding_peers since
start_finding now _ = finding_peers now

pub try_find_peers : ℕ → List (PeerId × Multiaddr) → SerialSyncController → SerialSyncController
try_find_peers now known c =
    let c' = publish_search (find_all now known c false) in
    record c' { state = start_finding now c'.state }

pub try_connect : ℕ → ℕ → SerialSyncController → SerialSyncController
try_connect now pick c = elim (random_peer pick c.peers found) [
  | none ↦ to_state idle c
  | some (id, addr) ↦
      let c' = send (dial_peer id addr) c in
      record c' {
        peers = (update_state now c'.peers id found connecting).0;
        state = connecting_peers;
      }
]

pub try_request_next : ℕ → ℕ → SerialSyncController → SerialSyncController
try_request_next now pick c = elim (random_peer pick c.peers connected) [
  | none ↦ to_state idle c
  | some (id, _) ↦
      let from = c.next_chunk in
      let to = min (from + max_chunks_to_request) c.num_chunks in
      to_state (downloading id from to now) (send (get_chunks id c.tx_id from to) c)
]

pub ban_peer : ℕ → SerialSyncController → PeerId → SerialSyncController
ban_peer now c id =
    let c' = send (ban id) c in
    record c' { peers = (update_state now c'.peers id connected disconnecting).0 }

-- Whether the dialling failed for the limit on connections is the argument `limited`.
pub on_dail_failed : ℕ → SerialSyncController → PeerId → Bool → SerialSyncController
on_dail_failed now c id limited =
    let (p, changed) =
      update_state now c.peers id connecting (if limited then found else disconnected) in
    let c' = record c { peers = p } in
    elim changed [
      | some true ↦ to_state (if limited then awaiting_outgoing_connection now else idle) c'
      | some false ↦ c'
      | none ↦ c'
    ]

pub on_peer_connected : ℕ → SerialSyncController → PeerId → SerialSyncController
on_peer_connected now c id = record c {
  peers = (update_state now c.peers id connecting connected).0;
}

pub on_peer_disconnected : SerialSyncController → PeerId → SerialSyncController
on_peer_disconnected c id = record c { peers = (update_state_force c.peers id disconnected).0 }

pub handle_on_response_mismatch : SerialSyncController → PeerId → SerialSyncController × Bool
handle_on_response_mismatch c from_id = elim (c.state) [
  | downloading id _ _ _ ↦
      if from_id == id then (c, false) else (send (report_peer from_id) c, true)
  | _ ↦ (send (report_peer from_id) c, true)
]

-- The end of `on_response`, at the answer of `finalize_tx_with_hash`.
abbrev pub finalized : Result ℕ Bool → TxId → SyncState
finalized (ok true) tx_id = completed
finalized (ok false) tx_id = failed (tx_reverted tx_id)
finalized (err e) tx_id = failed (db_error e)

-- From the answer of `put_chunks_with_tx_hash` on.
pub chunks_stored : SerialSyncController → ℕ → Result ℕ Bool → Result ℕ Bool → SerialSyncController
chunks_stored c to_chunk (err e) finalize = to_state (failed (db_error e)) c
chunks_stored c to_chunk (ok false) finalize = to_state (failed (tx_reverted c.tx_id)) c
chunks_stored c to_chunk (ok true) finalize =
    if ltb to_chunk c.num_chunks
    then record c { next_chunk = to_chunk; state = idle }
    else record c { next_chunk = to_chunk; state = finalized finalize c.tx_id }

-- The replies of the store to the proof, the chunks and the finalization, in this order.
pub record Replies : Type 0 where
  pub proof : Result ℕ Bool
  pub put : Result ℕ Bool
  pub finalize : Result ℕ Bool

-- From the length of the data on, where a response was awaited.
pub accept_response :
    ℕ → SerialSyncController → PeerId → ℕ → ℕ → ChunkArray → Replies → SerialSyncController
accept_response now c from_id from_chunk to_chunk a r =
    let data_len = length a.bytes in
    if data_len == 0 || ltb 0 (data_len % chunk_size)
    then to_state idle (ban_peer now c from_id)
    else if not (a.start_index == from_chunk)
        || not (a.start_index + data_len / chunk_size == to_chunk)
    then to_state idle (ban_peer now c from_id)
    else elim (r.proof) [
      | err _ ↦ to_state idle (ban_peer now c from_id)
      | ok b ↦
          if b
          then chunks_stored (record c { failures = 0 }) to_chunk r.put r.finalize
          else to_state awaiting_download c
    ]

pub on_response : ℕ → SerialSyncController → PeerId → ChunkArray → Replies → SerialSyncController
on_response now c from_id a r =
    let (c', mismatch) = handle_on_response_mismatch c from_id in
    if mismatch then c' else elim (c'.state) [
      | downloading _ from_chunk to_chunk _ ↦ accept_response now c' from_id from_chunk to_chunk a r
      | _ ↦ c'
    ]

pub handle_response_failure : ℕ → SerialSyncController → PeerId → SerialSyncController
handle_response_failure now c id =
    let c' = record (send (report_peer id) c) { failures = c.failures + 1 } in
    if leb c'.failures max_request_failures
    then to_state awaiting_download c'
    else to_state idle (ban_peer now c' id)

pub on_request_failed : ℕ → SerialSyncController → PeerId → SerialSyncController
on_request_failed now c id =
    let (c', mismatch) = handle_on_response_mismatch c id in
    if mismatch then c' else handle_response_failure now c' id

-- One round of the loop of `transition`: on to the next round, or out of the function.
pub data Round : Type 0 where
  again done : SerialSyncController → Round

abbrev pub is_connected : Option PeerState → Bool
is_connected (some connected) = true
is_connected _ = false

-- The round in a state.
pub round_at : ℕ → List (PeerId × Multiaddr) → ℕ → SyncState → SerialSyncController → Round
round_at now known pick idle c =
    if ltb 0 (count c.peers (found ∷ connecting ∷ connected ∷ []))
    then again (to_state (finding_peers now) c)
    else again (try_find_peers now known c)
round_at now known pick (finding_peers since) c =
    if ltb 0 (count c.peers (found ∷ connecting ∷ connected ∷ []))
    then again (to_state found_peers c)
    else if leb peer_request_timeout (now - since)
    then done (try_find_peers now known c)
    else done c
round_at now known pick found_peers c =
    if ltb 0 (count c.peers (connecting ∷ connected ∷ []))
    then again (to_state connecting_peers c)
    else again (try_connect now pick c)
round_at now known pick connecting_peers c =
    if ltb 0 (count c.peers (connected ∷ []))
    then again (to_state awaiting_download c)
    else if count c.peers (connecting ∷ []) == 0
    then again (to_state idle c)
    else done c
round_at now known pick (awaiting_outgoing_connection since) c =
    if ltb (now - since) wait_outgoing_connection_timeout then done c else again (to_state idle c)
round_at now known pick awaiting_download c = again (try_request_next now pick c)
round_at now known pick (downloading id from_chunk to_chunk since) c =
    if not (is_connected (peer_state c.peers id))
    then again (to_state idle c)
    else if leb download_timeout (now - since)
    then again (handle_response_failure now c id)
    else done c
round_at now known pick completed c = done c
round_at now known pick (failed _) c = done c

pub round : ℕ → List (PeerId × Multiaddr) → ℕ → SerialSyncController → Round
round now known pick c = round_at now known pick c.state c

-- The loop, on fuel; the choice of a round is that of the fuel it has left.
pub run :
    ℕ → ℕ → List (PeerId × Multiaddr) → (ℕ → ℕ) → SerialSyncController → Option SerialSyncController
run zero now known picks c = none
run (suc fuel) now known picks c = elim (round now known (picks fuel) c) [
  | again c' ↦ run fuel now known picks c'
  | done c' ↦ some c'
]

-- Seven rounds are enough.
pub transition :
    ℕ → List (PeerId × Multiaddr) → (ℕ → ℕ) → SerialSyncController → Option SerialSyncController
transition now known picks c = run 7 now known picks (record c { peers = expire now c.peers })
