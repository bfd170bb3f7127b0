-- ===== src/Sync/Serial/Settling.antt =====
-- The loop of `transition` in serial.rs comes to rest within so many rounds, from each
-- of its states.
use ionian_rust.Base.{
  ℕ, suc, ◌+◌, ◌-◌, ◌≡◌, ◌≤◌, ◌<◌, ◌⊎◌, inl, inr, refl, sym, ap, ◌∙◌, false, some, List, [], ◌∷◌,
  ltb, leb, ◌==◌, min, arith, Bool-cases, subst,
}
use ionian_rust.Sync.Peers.{
  PeerId, Multiaddr, PeerState, found, connecting, connected, peer_state, count,
}
use ionian_rust.Sync.Peers.Counting.{update_state-Moves, count-active}
use ionian_rust.Sync.Peers.Choice.{random_peer-cases}
use ionian_rust.Sync.Serial.{
  max_chunks_to_request, send, dial_peer, get_chunks, SyncState, idle, found_peers,
  connecting_peers, awaiting_download, completed, finding_peers, awaiting_outgoing_connection,
  downloading, failed, SerialSyncController, to_state, try_find_peers, try_connect,
  try_request_next,
}
use ionian_rust.Sync.Serial.{
  again, done, round, start_finding, round_at, run, peer_request_timeout,
  wait_outgoing_connection_timeout, download_timeout,
}
use ionian_rust.Sync.Serial.Invariant.{active, dialling, Progress, IsValid}
use ionian_rust.Sync.Peers.Counting.{count-usable}
use ionian_rust.Sync.Serial.Rounds.{try_find_peers-finding, after, round-IsValid}

abbrev pub usable : List PeerState
usable = found ∷ connecting ∷ connected ∷ []

-- Where the loop may leave the controller, waiting for an event or for time to pass. A download is
-- from a connected peer and in time; a connection is being made; no peer is known that could be
-- asked, or a search has just been repeated; or the download is over.
abbrev pub RestsAt : ℕ → SerialSyncController → SyncState → Type 0
RestsAt now c (finding_peers t) = (count c.peers usable ≡ 0) ⊎ (peer_request_timeout ≤ now - t)
RestsAt now c connecting_peers =
    (count c.peers (connected ∷ []) ≡ 0) × (0 < count c.peers (connecting ∷ []))
RestsAt now c (awaiting_outgoing_connection t) = now - t < wait_outgoing_connection_timeout
RestsAt now c (downloading id from to t) =
    (peer_state c.peers id ≡ some connected) × (now - t < download_timeout)
RestsAt now c completed = Unit {0}
RestsAt now c (failed r) = Unit {0}
RestsAt now c _ = ⊥

module _ (now : ℕ) (known : List (PeerId × Multiaddr)) (picks : ℕ → ℕ) where
  -- With this fuel the loop ends, at rest.
  abbrev pub Settles : ℕ → SerialSyncController → Type 0
  Settles n c =
      (c' : SerialSyncController) × (run n now known picks c ≡ some c') × RestsAt now c' c'.state

  pub again-Settles :
      (n : ℕ) (c c' : SerialSyncController)
      → round now known (picks n) c ≡ again c'
      → Settles n c'
      → Settles (suc n) c
  unfolding run
  again-Settles n c c' e (d, r, s) = (d, rw (e, run) r, s)

  pub done-Settles :
      (n : ℕ) (c c' : SerialSyncController)
      → round now known (picks n) c ≡ done c'
      → RestsAt now c' c'.state
      → Settles (suc n) c
  unfolding run
  done-Settles n c c' e s = (c', rw (e, run) refl, s)

  -- The controller that another round starts from is valid.
  pub again-IsValid :
      (n : ℕ) (c c' : SerialSyncController)
      → round now known (picks n) c ≡ again c'
      → IsValid c
      → IsValid c'
  again-IsValid n c c' e v =
      subst (λ r. IsValid (after r)) e (round-IsValid now known (picks n) c v)

  requested-Settles :
      (n : ℕ) (c : SerialSyncController) (id from to : ℕ)
      → c.state ≡ downloading id from to now
      → peer_state c.peers id ≡ some connected
      → Settles (suc n) c
  unfolding round round_at
  requested-Settles n c id from to e h =
      done-Settles n c c (ground (arith, e, h)) (subst (RestsAt now c) (sym e) (h, omega arith))

  pub awaiting-Settles :
      (n : ℕ) (c : SerialSyncController)
      → IsValid c
      → c.state ≡ awaiting_download
      → 0 < count c.peers (connected ∷ [])
      → Settles (suc (suc n)) c
  unfolding round round_at try_request_next
  awaiting-Settles n c v e lt =
      elim (random_peer-cases (picks (suc n)) c.peers connected v.distinct) [
        | inl (_, z) ↦ absurd (omega arith)
        | inr (id, a, g, at) ↦
            let to = min (c.next_chunk + max_chunks_to_request) c.num_chunks in
            let c' =
              to_state (downloading id c.next_chunk to now)
                (send (get_chunks id c.tx_id c.next_chunk to) c) in
            again-Settles (suc n) c c' (ground (arith, e, g))
              (requested-Settles n c' id c.next_chunk to refl at)
      ]

  pub connecting-Settles :
      (n : ℕ) (c : SerialSyncController)
      → IsValid c
      → c.state ≡ connecting_peers
      → 0 < count c.peers active
      → Settles (suc (suc (suc n))) c
  unfolding round round_at
  connecting-Settles n c v e lt = elim (Bool-cases (ltb 0 (count c.peers (connected ∷ [])))) [
    | inl h ↦
        let r : round now known (picks (suc (suc n))) c ≡ again (to_state awaiting_download c) =
          ground (arith, e, h) in
        again-Settles (suc (suc n)) c _ r (
          awaiting-Settles n (to_state awaiting_download c) (again-IsValid (suc (suc n)) c _ r v)
            refl (ground arith))
    | inr h ↦
        let none_connected : count c.peers (connected ∷ []) ≡ 0 = ground arith in
        let some_dialled : 0 < count c.peers dialling = omega (arith, count-active c.peers) in
        let nonzero : (count c.peers dialling == 0) ≡ false = ground arith in
        done-Settles (suc (suc n)) c c (ground (arith, e, h, nonzero))
          (subst (RestsAt now c) (sym e) (none_connected, some_dialled))
  ]

  pub found-Settles :
      (n : ℕ) (c : SerialSyncController)
      → IsValid c
      → c.state ≡ found_peers
      → 0 < count c.peers usable
      → Settles (suc (suc (suc (suc n)))) c
  unfolding round round_at try_connect
  found-Settles n c v e lt = elim (Bool-cases (ltb 0 (count c.peers active))) [
    | inl h ↦
        let r : round now known (picks (suc (suc (suc n)))) c
            ≡ again (to_state connecting_peers c) =
          ground (arith, e, h) in
        again-Settles (suc (suc (suc n))) c _ r (
          connecting-Settles n (to_state connecting_peers c)
            (again-IsValid (suc (suc (suc n))) c _ r v) refl (ground arith))
    | inr h ↦ elim (random_peer-cases (picks (suc (suc (suc n)))) c.peers found v.distinct) [
      | inl (_, z) ↦ absurd (ground (arith, count-usable c.peers))
      | inr (id, a, g, at) ↦ elim (update_state-Moves now c.peers id found connecting) [
        | inl (_, _, _, not_found) ↦ absurd (not_found at)
        | inr (p', u, m, _) ↦
            let c' = record (send (dial_peer id a) c) { peers = p'; state = connecting_peers } in
            let r : round now known (picks (suc (suc (suc n)))) c ≡ again c' =
              ground (arith, e, h, g, u) in
            again-Settles (suc (suc (suc n))) c c' r (
              connecting-Settles n c' (again-IsValid (suc (suc (suc n))) c c' r v) refl
                (omega (arith, m.balance active)))
      ]
    ]
  ]

  pub finding-Settles :
      (n t : ℕ) (c : SerialSyncController)
      → IsValid c
      → c.state ≡ finding_peers t
      → Settles (suc (suc (suc (suc (suc n))))) c
  unfolding round round_at
  finding-Settles n t c v e = elim (Bool-cases (ltb 0 (count c.peers usable))) [
    | inl h ↦
        let r : round now known (picks (suc (suc (suc (suc n))))) c
            ≡ again (to_state found_peers c) =
          ground (arith, e, h) in
        again-Settles (suc (suc (suc (suc n)))) c _ r (
          found-Settles n (to_state found_peers c) (again-IsValid (suc (suc (suc (suc n)))) c _ r v)
            refl (ground arith))
    | inr h ↦ elim (Bool-cases (leb peer_request_timeout (now - t))) [
      | inl late ↦
          let (_, s) =
            try_find_peers-finding now known c v
              (subst (Progress c.next_chunk c.num_chunks (count c.peers dialling)) e v.progress) in
          let s' : (try_find_peers now known c).state ≡ finding_peers t =
            s ∙ ap (start_finding now) e in
          done-Settles (suc (suc (suc (suc n)))) c (try_find_peers now known c)
            (ground (arith, e, h, late))
            (subst (RestsAt now (try_find_peers now known c)) (sym s') (inr (ground arith)))
      | inr early ↦
          done-Settles (suc (suc (suc (suc n)))) c c (ground (arith, e, h, early))
            (subst (RestsAt now c) (sym e) (inl (ground arith)))
    ]
  ]

  pub idle-Settles :
      (n : ℕ) (c : SerialSyncController)
      → IsValid c
      → c.state ≡ idle
      → Settles (suc (suc (suc (suc (suc (suc n)))))) c
  unfolding round round_at
  idle-Settles n c v e = elim (Bool-cases (ltb 0 (count c.peers usable))) [
    | inl h ↦
        let r : round now known (picks (suc (suc (suc (suc (suc n)))))) c
            ≡ again (to_state (finding_peers now) c) =
          ground (arith, e, h) in
        again-Settles (suc (suc (suc (suc (suc n))))) c _ r (
          finding-Settles n now (to_state (finding_peers now) c)
            (again-IsValid (suc (suc (suc (suc (suc n))))) c _ r v) refl)
    | inr h ↦
        let c' = try_find_peers now known c in
        let (w, s) =
          try_find_peers-finding now known c v
            (subst (Progress c.next_chunk c.num_chunks (count c.peers dialling)) e v.progress) in
        again-Settles (suc (suc (suc (suc (suc n))))) c c' (ground (arith, e, h))
          (finding-Settles n now c' w (s ∙ ap (start_finding now) e))
  ]
