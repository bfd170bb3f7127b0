-- ===== src/Sync/Serial/Rounds.antt =====
-- The loop of `transition` in serial.rs: each round keeps the invariant.
use ionian_rust.Base.{
  ℕ, ◌-◌, ◌≡◌, ◌<◌, inl, inr, refl, ap, Bool, true, false, ◌||◌, List, [], ◌∷◌, ltb, leb, ◌==◌,
  arith, Bool-cases,
}
use ionian_rust.Sync.Peers.{PeerId, Multiaddr, found, connecting, connected, peer_state, count}
use ionian_rust.Sync.Peers.Counting.{update_state-Moves, count-active}
use ionian_rust.Sync.Peers.Choice.{random_peer-cases}
use ionian_rust.Sync.Serial.{
  find_file, SyncState, idle, found_peers, connecting_peers, awaiting_download, completed,
  finding_peers, awaiting_outgoing_connection, downloading, failed, SerialSyncController,
  on_peer_found, find_all, try_find_peers, try_connect, try_request_next,
}
use ionian_rust.Sync.Serial.{
  Round, again, done, round, publish_search, start_finding, round_at, is_connected,
  peer_request_timeout, wait_outgoing_connection_timeout, download_timeout,
}
use ionian_rust.Sync.Serial.Invariant.{
  active, dialling, Progress, IsValid, state-IsValid, send-IsValid,
}
use ionian_rust.Sync.Serial.Events.{on_peer_found-IsValid}
use ionian_rust.Sync.Serial.Responses.{handle_response_failure-IsValid}

-- The search of new peers touches the peers alone.
pub record Found (c c' : SerialSyncController) : Type 0 where
  pub valid : IsValid c'
  pub same_next : c'.next_chunk ≡ c.next_chunk
  pub same_num : c'.num_chunks ≡ c.num_chunks
  pub same_state : c'.state ≡ c.state

on_peer_found-Found :
    (now : ℕ) (c : SerialSyncController) (id : PeerId) (a : Multiaddr)
    → IsValid c
    → Found c (on_peer_found now c id a).0
unfolding on_peer_found
on_peer_found-Found now c id a v = record {
  valid = on_peer_found-IsValid now c id a v;
  same_next = refl;
  same_num = refl;
  same_state = refl;
}

find_all-Found :
    (now : ℕ) (known : List (PeerId × Multiaddr)) (c : SerialSyncController) (b : Bool)
    → IsValid c
    → Found c (find_all now known c b).0
unfolding find_all
find_all-Found now [] c b v = record {
  valid = v;
  same_next = refl;
  same_num = refl;
  same_state = refl;
}
find_all-Found now ((id, a) ∷ known) c b v =
    let f = on_peer_found-Found now c id a v in
    let g =
      find_all-Found now known (on_peer_found now c id a).0 ((on_peer_found now c id a).1 || b)
        f.valid in
    record {
      valid = g.valid;
      same_next = cc (f.same_next, g.same_next);
      same_num = cc (f.same_num, g.same_num);
      same_state = cc (f.same_state, g.same_state);
    }

publish_search-Found :
    (c : SerialSyncController) (q : SerialSyncController × Bool)
    → Found c q.0
    → Found c (publish_search q)
publish_search-Found c (c', true) f = f
publish_search-Found c (c', false) f = record {
  valid = send-IsValid c' (find_file c'.tx_id ∷ c'.sent) c'.failures f.valid;
  same_next = f.same_next;
  same_num = f.same_num;
  same_state = f.same_state;
}

start_finding-Progress :
    (now next num d : ℕ) (s : SyncState) → next < num → Progress next num d (start_finding now s)
start_finding-Progress now next num d idle h = h
start_finding-Progress now next num d (finding_peers t) h = h
start_finding-Progress now next num d found_peers h = h
start_finding-Progress now next num d connecting_peers h = h
start_finding-Progress now next num d (awaiting_outgoing_connection t) h = h
start_finding-Progress now next num d awaiting_download h = h
start_finding-Progress now next num d (downloading id from to t) h = h
start_finding-Progress now next num d completed h = h
start_finding-Progress now next num d (failed r) h = h

-- After the search for peers the controller is looking for them.
pub try_find_peers-finding :
    (now : ℕ) (known : List (PeerId × Multiaddr)) (c : SerialSyncController)
    → IsValid c
    → c.next_chunk < c.num_chunks
    → IsValid (try_find_peers now known c)
      × ((try_find_peers now known c).state ≡ start_finding now c.state)
unfolding try_find_peers
try_find_peers-finding now known c v lt =
    let c' = publish_search (find_all now known c false) in
    let f =
      publish_search-Found c (find_all now known c false) (find_all-Found now known c false v) in
    (
      state-IsValid c' (start_finding now c'.state) f.valid (
          start_finding-Progress now c'.next_chunk c'.num_chunks _ c'.state
            (omega (arith, f.same_next, f.same_num))),
      ap (start_finding now) f.same_state,
    )

pub try_connect-IsValid :
    (now pick : ℕ) (c : SerialSyncController)
    → IsValid c
    → c.next_chunk < c.num_chunks
    → count c.peers active ≡ 0
    → IsValid (try_connect now pick c)
unfolding try_connect
try_connect-IsValid now pick c v lt z = elim (random_peer-cases pick c.peers found v.distinct) [
  | inl (e, _) ↦ rw (e, try_connect) (state-IsValid c idle v lt)
  | inr (id, a, e, at) ↦ elim (update_state-Moves now c.peers id found connecting) [
    | inl (r, n, g, _) ↦
        rw (e, g, try_connect)
          (record { distinct = v.distinct; one_active = v.one_active; progress = lt })
    | inr (p', g, m, _) ↦
        rw (e, g, try_connect)
          (record {
            distinct = m.distinct v.distinct;
            one_active = omega (arith, m.balance active);
            progress = lt;
          })
  ]
]

pub try_request_next-IsValid :
    (now pick : ℕ) (c : SerialSyncController)
    → IsValid c
    → c.next_chunk < c.num_chunks
    → count c.peers dialling ≡ 0
    → IsValid (try_request_next now pick c)
unfolding try_request_next
try_request_next-IsValid now pick c v lt z =
    elim (random_peer-cases pick c.peers connected v.distinct) [
      | inl (e, _) ↦ rw (e, try_request_next) (state-IsValid c idle v lt)
      | inr (id, a, e, at) ↦
          rw (e, try_request_next)
            (record {
              distinct = v.distinct;
              one_active = v.one_active;
              progress = (refl, omega arith, refl, z);
            })
    ]

-- The controller that a round leaves.
abbrev pub after : Round → SerialSyncController
after (again c) = c
after (done c) = c

round_at-IsValid :
    (now : ℕ) (known : List (PeerId × Multiaddr)) (pick : ℕ) (c : SerialSyncController)
    (s : SyncState)
    → IsValid c
    → Progress c.next_chunk c.num_chunks (count c.peers dialling) s
    → IsValid (after (round_at now known pick s c))
unfolding round_at
round_at-IsValid now known pick c idle v lt =
    elim (Bool-cases (ltb 0 (count c.peers (found ∷ connecting ∷ connected ∷ [])))) [
      | inl h ↦ rw (h, round_at) (state-IsValid c (finding_peers now) v lt)
      | inr h ↦ rw (h, round_at) (try_find_peers-finding now known c v lt).0
    ]
round_at-IsValid now known pick c (finding_peers t) v lt =
    elim (Bool-cases (ltb 0 (count c.peers (found ∷ connecting ∷ connected ∷ [])))) [
      | inl h ↦ rw (h, round_at) (state-IsValid c found_peers v lt)
      | inr h ↦ elim (Bool-cases (leb peer_request_timeout (now - t))) [
        | inl g ↦ rw (h, g, round_at) (try_find_peers-finding now known c v lt).0
        | inr g ↦ rw (h, g, round_at) v
      ]
    ]
round_at-IsValid now known pick c found_peers v lt =
    elim (Bool-cases (ltb 0 (count c.peers active))) [
      | inl h ↦ rw (h, round_at) (state-IsValid c connecting_peers v lt)
      | inr h ↦ rw (h, round_at) (try_connect-IsValid now pick c v lt (ground arith))
    ]
round_at-IsValid now known pick c connecting_peers v lt =
    elim (Bool-cases (ltb 0 (count c.peers (connected ∷ [])))) [
      | inl h ↦
          let one : 0 < count c.peers (connected ∷ []) = ground arith in
          rw (h, round_at)
            (state-IsValid c awaiting_download v
              (lt, omega (arith, v.one_active, count-active c.peers)))
      | inr h ↦ elim (Bool-cases (count c.peers dialling == 0)) [
        | inl g ↦ rw (h, g, round_at) (state-IsValid c idle v lt)
        | inr g ↦ rw (h, g, round_at) v
      ]
    ]
round_at-IsValid now known pick c (awaiting_outgoing_connection t) v lt =
    elim (Bool-cases (ltb (now - t) wait_outgoing_connection_timeout)) [
      | inl h ↦ rw (h, round_at) v
      | inr h ↦ rw (h, round_at) (state-IsValid c idle v lt)
    ]
round_at-IsValid now known pick c awaiting_download v (lt, z) =
    try_request_next-IsValid now pick c v lt z
round_at-IsValid now known pick c (downloading id from to t) v (_, lt, m, z) =
    elim (Bool-cases (is_connected (peer_state c.peers id))) [
      | inr h ↦ rw (h, round_at) (state-IsValid c idle v (omega arith))
      | inl h ↦ elim (Bool-cases (leb download_timeout (now - t))) [
        | inl g ↦ rw (h, g, round_at) (handle_response_failure-IsValid now c id v (omega arith) z)
        | inr g ↦ rw (h, g, round_at) v
      ]
    ]
round_at-IsValid now known pick c completed v h = v
round_at-IsValid now known pick c (failed r) v h = v

pub round-IsValid :
    (now : ℕ) (known : List (PeerId × Multiaddr)) (pick : ℕ) (c : SerialSyncController)
    → IsValid c
    → IsValid (after (round now known pick c))
unfolding round
round-IsValid now known pick c v = round_at-IsValid now known pick c c.state v v.progress
