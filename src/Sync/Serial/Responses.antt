-- ===== src/Sync/Serial/Responses.antt =====
-- The responses to the requests of serial.rs, and their failures, keep the invariant.
use ionian_rust.Base.{
  ℕ, ◌+◌, ◌/◌, ◌%◌, ◌≡◌, ◌≤◌, ◌<◌, ◌⊎◌, inl, inr, refl, Bool, true, false, not, ◌||◌, if◌then◌else◌,
  ◌∷◌, ltb, leb, ◌==◌, length, Result, ok, err, arith, Bool-cases, subst,
}
use ionian_rust.SharedTypes.{ChunkArray, chunk_size}
use ionian_rust.Sync.Peers.{PeerId, count}
use ionian_rust.Sync.Serial.{
  report_peer, send, SyncState, idle, found_peers, connecting_peers, awaiting_download, completed,
  finding_peers, db_error, tx_reverted, awaiting_outgoing_connection, downloading, failed,
  SerialSyncController, to_state, ban_peer, handle_on_response_mismatch, finalized, chunks_stored,
  Replies, accept_response, on_response, handle_response_failure, on_request_failed,
}
use ionian_rust.Sync.Serial.{on_request_failed}
use ionian_rust.Sync.Serial.Invariant.{dialling, Progress, IsValid, state-IsValid, send-IsValid}
use ionian_rust.Sync.Serial.Events.{ban_peer-IsValid}

-- The request that is in flight, as the response handlers read it.
pub handle_on_response_mismatch-cases :
    (c : SerialSyncController) (from_id : PeerId)
    → (handle_on_response_mismatch c from_id ≡ (send (report_peer from_id) c, true))
      ⊎ ((handle_on_response_mismatch c from_id ≡ (c, false))
          × (from to t : ℕ) × (c.state ≡ downloading from_id from to t))
unfolding handle_on_response_mismatch
handle_on_response_mismatch-cases c from_id = go c.state refl
  where
    go :
        (s : SyncState)
        → c.state ≡ s
        → (handle_on_response_mismatch c from_id ≡ (send (report_peer from_id) c, true))
          ⊎ ((handle_on_response_mismatch c from_id ≡ (c, false))
              × (from to t : ℕ) × (c.state ≡ downloading from_id from to t))
    go (downloading id from to t) e = elim (Bool-cases (from_id == id)) [
      | inl same ↦ inr (ground arith, from, to, t, ground arith)
      | inr other ↦ inl (ground arith)
    ]
    go idle e = inl (ground arith)
    go found_peers e = inl (ground arith)
    go connecting_peers e = inl (ground arith)
    go awaiting_download e = inl (ground arith)
    go completed e = inl (ground arith)
    go (finding_peers t) e = inl (ground arith)
    go (awaiting_outgoing_connection t) e = inl (ground arith)
    go (failed r) e = inl (ground arith)

-- A banned peer is looked for again.
pub banned-IsValid :
    (now : ℕ) (c : SerialSyncController) (id : PeerId)
    → IsValid c
    → c.next_chunk < c.num_chunks
    → IsValid (to_state idle (ban_peer now c id))
unfolding ban_peer
banned-IsValid now c id v lt =
    state-IsValid (ban_peer now c id) idle (ban_peer-IsValid now c id v) lt

pub handle_response_failure-IsValid :
    (now : ℕ) (c : SerialSyncController) (id : PeerId)
    → IsValid c
    → c.next_chunk < c.num_chunks
    → count c.peers dialling ≡ 0
    → IsValid (handle_response_failure now c id)
unfolding handle_response_failure
handle_response_failure-IsValid now c id v lt z =
    let c' = record (send (report_peer id) c) { failures = c.failures + 1 } in
    let v' : IsValid c' = send-IsValid c (report_peer id ∷ c.sent) (c.failures + 1) v in
    elim (Bool-cases (leb (c.failures + 1) 3)) [
      | inl e ↦ rw (e, handle_response_failure) (state-IsValid c' awaiting_download v' (lt, z))
      | inr e ↦ rw (e, handle_response_failure) (banned-IsValid now c' id v' lt)
    ]

-- The state of a download whose store has answered, `to` being the end of the request.
chunks_stored-IsValid :
    (c : SerialSyncController) (to : ℕ) (put finalize : Result ℕ Bool)
    → IsValid c
    → c.next_chunk < to
    → to ≤ c.num_chunks
    → count c.peers dialling ≡ 0
    → IsValid (chunks_stored c to put finalize)
unfolding chunks_stored
chunks_stored-IsValid c to (err e) finalize v lt le z =
    state-IsValid c (failed (db_error e)) v (omega arith, omega arith, z)
chunks_stored-IsValid c to (ok false) finalize v lt le z =
    state-IsValid c (failed (tx_reverted c.tx_id)) v (omega arith, omega arith, z)
chunks_stored-IsValid c to (ok true) finalize v lt le z = elim (Bool-cases (ltb to c.num_chunks)) [
  | inl e ↦
      rw (e, chunks_stored)
        (record { distinct = v.distinct; one_active = v.one_active; progress = ground arith })
  | inr e ↦
      rw (e, chunks_stored)
        (record {
          distinct = v.distinct;
          one_active = v.one_active;
          progress = ended finalize (ground arith);
        })
]
  where
    ended :
        (r : Result ℕ Bool)
        → to ≡ c.num_chunks
        → Progress to c.num_chunks (count c.peers dialling) (finalized r c.tx_id)
    ended (ok true) e = (e, omega arith, z)
    ended (ok false) e = (omega arith, omega arith, z)
    ended (err x) e = (omega arith, omega arith, z)

accept_response-IsValid :
    (now : ℕ) (c : SerialSyncController) (from_id from to : ℕ) (a : ChunkArray) (r : Replies)
    → IsValid c
    → c.next_chunk < to
    → to ≤ c.num_chunks
    → count c.peers dialling ≡ 0
    → IsValid (accept_response now c from_id from to a r)
unfolding accept_response
accept_response-IsValid now c id from to a r v lt le z =
    let len = length a.bytes in
    let banned : IsValid (to_state idle (ban_peer now c id)) =
      banned-IsValid now c id v (omega arith) in
    elim (Bool-cases (len == 0 || ltb 0 (len % chunk_size))) [
      | inl e ↦ rw (e, accept_response) banned
      | inr e ↦
          elim (Bool-cases
            (not (a.start_index == from) || not (a.start_index + len / chunk_size == to))) [
              | inl g ↦ rw (e, g, accept_response) banned
              | inr g ↦ rw (e, g, accept_response) (by_reply r.proof banned)
            ]
    ]
  where
    by_reply :
        (q : Result ℕ Bool)
        → IsValid (to_state idle (ban_peer now c id))
        → IsValid (elim q [
          | err _ ↦ to_state idle (ban_peer now c id)
          | ok b ↦
              if b
              then chunks_stored (record c { failures = 0 }) to r.put r.finalize
              else to_state awaiting_download c
        ])
    by_reply (err e) b = b
    by_reply (ok true) b =
        chunks_stored-IsValid (record c { failures = 0 }) to r.put r.finalize
          (send-IsValid c c.sent 0 v) lt le z
    by_reply (ok false) b = state-IsValid c awaiting_download v (omega arith, z)

-- The progress of a download with a request in flight.
in_flight :
    (c : SerialSyncController) (id from to t : ℕ)
    → IsValid c
    → c.state ≡ downloading id from to t
    → (c.next_chunk < to) × (to ≤ c.num_chunks) × (count c.peers dialling ≡ 0)
in_flight c id from to t v e =
    let (_, lt, m, z) =
      subst (Progress c.next_chunk c.num_chunks (count c.peers dialling)) e v.progress in
    (lt, omega arith, z)

pub on_response-IsValid :
    (now : ℕ) (c : SerialSyncController) (from_id : PeerId) (a : ChunkArray) (r : Replies)
    → IsValid c
    → IsValid (on_response now c from_id a r)
unfolding on_response
on_response-IsValid now c id a r v = elim (handle_on_response_mismatch-cases c id) [
  | inl e ↦ rw (e, on_response) (send-IsValid c (report_peer id ∷ c.sent) c.failures v)
  | inr (e, from, to, t, s) ↦
      let (lt, le, z) = in_flight c id from to t v s in
      let run : on_response now c id a r ≡ accept_response now c id from to a r =
        ground (arith, e, s) in
      rw run (accept_response-IsValid now c id from to a r v lt le z)
]

pub on_request_failed-IsValid :
    (now : ℕ) (c : SerialSyncController) (id : PeerId)
    → IsValid c
    → IsValid (on_request_failed now c id)
unfolding on_request_failed
on_request_failed-IsValid now c id v = elim (handle_on_response_mismatch-cases c id) [
  | inl e ↦ rw (e, on_request_failed) (send-IsValid c (report_peer id ∷ c.sent) c.failures v)
  | inr (e, from, to, t, s) ↦
      let (lt, le, z) = in_flight c id from to t v s in
      rw (e, on_request_failed) (handle_response_failure-IsValid now c id v (omega arith) z)
]
