-- ===== src/Sync/Serial/Transition.antt =====
-- `transition` of serial.rs ends, and leaves a valid controller at rest.
use ionian_rust.Base.{
  ℕ, zero, suc, ◌+◌, ◌-◌, ◌≡◌, inl, inr, refl, sym, true, false, Option, none, some, List, [], ◌∷◌,
  ltb, leb, arith, Bool-cases, subst,
}
use ionian_rust.Sync.Peers.{
  PeerId, Multiaddr, PeerState, found, connecting, connected, disconnecting, disconnected,
  peer_state, count, expire,
}
use ionian_rust.Sync.Peers.Counting.{peer_state-counted, count-active}
use ionian_rust.Sync.Peers.Choice.{random_peer-cases}
use ionian_rust.Sync.Serial.{
  report_peer, send, SyncState, idle, found_peers, connecting_peers, awaiting_download, completed,
  finding_peers, awaiting_outgoing_connection, downloading, failed, SerialSyncController, to_state,
  try_connect, try_request_next, max_request_failures, handle_response_failure,
}
use ionian_rust.Sync.Serial.{
  Round, again, done, round, round_at, is_connected, run, transition,
  wait_outgoing_connection_timeout, download_timeout,
}
use ionian_rust.Sync.Serial.Invariant.{active, IsValid, peers-IsValid, expire-Shrinks}
use ionian_rust.Sync.Peers.Counting.{count-usable}
use ionian_rust.Sync.Serial.Rounds.{after, round-IsValid}
use ionian_rust.Sync.Serial.Settling.{
  usable, RestsAt, Settles, again-Settles, done-Settles, again-IsValid, awaiting-Settles,
  connecting-Settles, found-Settles, finding-Settles, idle-Settles,
}

run-IsValid :
    (n now : ℕ) (known : List (PeerId × Multiaddr)) (picks : ℕ → ℕ) (c : SerialSyncController)
    → IsValid c
    → (c' : SerialSyncController) → run n now known picks c ≡ some c'
    → IsValid c'
unfolding run
run-IsValid zero now known picks c v c' e = cc
run-IsValid (suc n) now known picks c v c' e =
    by_round (round now known (picks n) c) (round-IsValid now known (picks n) c v)
      (λ d w. run-IsValid n now known picks d w c') e
  where
    some_inj : {a b : SerialSyncController} → some a ≡ some b → a ≡ b
    some_inj e = cc

    by_round :
        (r : Round)
        → IsValid (after r)
        → ((d : SerialSyncController) → IsValid d → run n now known picks d ≡ some c' → IsValid c')
        → elim r [ again d ↦ run n now known picks d | done d ↦ some d ] ≡ some c'
        → IsValid c'
    by_round (again d) w rest e = rest d w e
    by_round (done d) w rest e = subst IsValid (some_inj e) w

connected_peer : (s : Option PeerState) → is_connected s ≡ true → s ≡ some connected
connected_peer none h = cc
connected_peer (some found) h = cc
connected_peer (some connecting) h = cc
connected_peer (some connected) h = refl
connected_peer (some disconnecting) h = cc
connected_peer (some disconnected) h = cc

module _ (now : ℕ) (known : List (PeerId × Multiaddr)) (picks : ℕ → ℕ) where
  -- The choice that the first of seven rounds makes.
  abbrev first : ℕ
  first = picks 6

  via_idle :
      (c c' : SerialSyncController)
      → IsValid c
      → round now known first c ≡ again c'
      → c'.state ≡ idle
      → Settles now known picks 7 c
  via_idle c c' v r e =
      again-Settles now known picks 6 c c' r
        (idle-Settles now known picks 0 c' (again-IsValid now known picks 6 c c' r v) e)

  failure-Settles :
      (c : SerialSyncController) (id from to t : ℕ)
      → IsValid c
      → round now known first c ≡ again (handle_response_failure now c id)
      → peer_state c.peers id ≡ some connected
      → Settles now known picks 7 c
  unfolding handle_response_failure
  failure-Settles c id from to t v r at =
      elim (Bool-cases (leb (c.failures + 1) max_request_failures)) [
        | inl h ↦
            let c' =
              to_state awaiting_download
                (record (send (report_peer id) c) { failures = c.failures + 1 }) in
            let r' : round now known first c ≡ again c' = ground (arith, r, h) in
            again-Settles now known picks 6 c c' r' (
              awaiting-Settles now known picks 4 c' (again-IsValid now known picks 6 c c' r' v) refl
                (peer_state-counted c.peers id connected (connected ∷ []) at))
        | inr h ↦ via_idle c _ v r (rw (h, handle_response_failure) refl)
      ]

  from_state :
      (c : SerialSyncController) (s : SyncState)
      → IsValid c
      → c.state ≡ s
      → Settles now known picks 7 c
  unfolding round round_at try_connect try_request_next
  from_state c idle v e = idle-Settles now known picks 1 c v e
  from_state c (finding_peers t) v e = finding-Settles now known picks 2 t c v e
  from_state c found_peers v e = elim (Bool-cases (ltb 0 (count c.peers usable))) [
    | inl h ↦ found-Settles now known picks 3 c v e (ground arith)
    | inr h ↦
        let nobody : (ltb 0 (count c.peers active)) ≡ false =
          ground (arith, h, count-usable c.peers) in
        elim (random_peer-cases first c.peers found v.distinct) [
          | inl (g, _) ↦ via_idle c (to_state idle c) v (ground (arith, e, nobody, g)) refl
          | inr (id, a, g, at) ↦
              absurd (ground (arith, h, peer_state-counted c.peers id found usable at))
        ]
  ]
  from_state c connecting_peers v e = elim (Bool-cases (ltb 0 (count c.peers active))) [
    | inl h ↦ connecting-Settles now known picks 4 c v e (ground arith)
    | inr h ↦ via_idle c (to_state idle c) v (ground (arith, e, count-active c.peers)) refl
  ]
  from_state c (awaiting_outgoing_connection t) v e =
      elim (Bool-cases (ltb (now - t) wait_outgoing_connection_timeout)) [
        | inl h ↦
            done-Settles now known picks 6 c c (ground (arith, e, h))
              (subst (RestsAt now c) (sym e) (ground arith))
        | inr h ↦ via_idle c (to_state idle c) v (ground (arith, e, h)) refl
      ]
  from_state c awaiting_download v e = elim (random_peer-cases first c.peers connected v.distinct) [
    | inl (g, _) ↦ via_idle c (to_state idle c) v (ground (arith, e, g)) refl
    | inr (id, a, g, at) ↦
        awaiting-Settles now known picks 5 c v e
          (peer_state-counted c.peers id connected (connected ∷ []) at)
  ]
  from_state c (downloading id from to t) v e =
      elim (Bool-cases (is_connected (peer_state c.peers id))) [
        | inr h ↦ via_idle c (to_state idle c) v (ground (arith, e, h)) refl
        | inl h ↦
            let at : peer_state c.peers id ≡ some connected =
              connected_peer (peer_state c.peers id) h in
            elim (Bool-cases (leb download_timeout (now - t))) [
              | inl late ↦ failure-Settles c id from to t v (ground (arith, e, h, late)) at
              | inr early ↦
                  done-Settles now known picks 6 c c (ground (arith, e, h, early))
                    (subst (RestsAt now c) (sym e) (at, ground arith))
            ]
      ]
  from_state c completed v e =
      done-Settles now known picks 6 c c (ground (arith, e)) (subst (RestsAt now c) (sym e) tt)
  from_state c (failed r) v e =
      done-Settles now known picks 6 c c (ground (arith, e)) (subst (RestsAt now c) (sym e) tt)

-- From a valid controller `transition` ends, within seven rounds, whatever the peers, the
-- announcements and the random choices. It leaves a valid controller at rest: downloading from a
-- connected peer within the time limit, with a connection being made, waiting for an outgoing
-- connection, without a usable peer or just after a repeated search, or with the download over.
pub transition-RestsAt :
    (now : ℕ) (known : List (PeerId × Multiaddr)) (picks : ℕ → ℕ) (c : SerialSyncController)
    → IsValid c
    → (c' : SerialSyncController) × (transition now known picks c ≡ some c')
      × IsValid c'
      × RestsAt now c' c'.state
unfolding transition
transition-RestsAt now known picks c v =
    let d = record c { peers = expire now c.peers } in
    let w : IsValid d =
      peers-IsValid c (expire now c.peers) v (expire-Shrinks now c.peers v.distinct) in
    let (c', r, s) = from_state now known picks d d.state w refl in
    (c', r, run-IsValid 7 now known picks d w c' r, s)
