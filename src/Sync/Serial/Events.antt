-- ===== src/Sync/Serial/Events.antt =====
-- Each event of the peers in serial.rs keeps the invariant, and so does `reset`.
use ionian_rust.Base.{
  ℕ, ◌≡◌, ◌≢◌, ◌<◌, inl, inr, refl, Bool, true, false, if◌then◌else◌, Option, none, some, ◌∷◌,
  arith,
}
use ionian_rust.ChunkPool.Types.{TxId}
use ionian_rust.Sync.Peers.{
  PeerId, Multiaddr, found, connecting, connected, disconnecting, disconnected, SyncPeers,
  add_new_peer, update_state, count,
}
use ionian_rust.Sync.Peers.Counting.{Moves, update_state-Moves, peer_state-counted}
use ionian_rust.Sync.Serial.{
  ban, send, idle, awaiting_outgoing_connection, SerialSyncController, new_controller, to_state,
  reset, on_peer_found, ban_peer, on_dail_failed, on_peer_connected, on_peer_disconnected,
}
use ionian_rust.Sync.Serial.Invariant.{
  active, dialling, IsValid, Progress-dialling, Progress-nonempty, peers-IsValid,
  update_state-Shrinks, expire-Shrinks, add_new_peer-Shrinks, update_state_force-Shrinks,
  send-IsValid,
}

pub new_controller-IsValid : (tx_id : TxId) (n : ℕ) → 0 < n → IsValid (new_controller tx_id n)
unfolding new_controller
new_controller-IsValid tx_id n h = record { distinct = tt; one_active = omega arith; progress = h }

pub reset-IsValid : (now : ℕ) (c : SerialSyncController) → IsValid c → IsValid (reset now c)
unfolding reset
reset-IsValid now c v =
    let s = expire-Shrinks now c.peers v.distinct in
    record {
      distinct = s.distinct v.distinct;
      one_active = omega (arith, v.one_active, s.fewer_active);
      progress =
          Progress-nonempty c.next_chunk c.num_chunks (count c.peers dialling) c.state v.progress;
    }

pub on_peer_found-IsValid :
    (now : ℕ) (c : SerialSyncController) (id : PeerId) (a : Multiaddr)
    → IsValid c
    → IsValid (on_peer_found now c id a).0
unfolding on_peer_found
on_peer_found-IsValid now c id a v =
    peers-IsValid c (add_new_peer now c.peers id a).0 v (add_new_peer-Shrinks now c.peers id a)

pub on_peer_connected-IsValid :
    (now : ℕ) (c : SerialSyncController) (id : PeerId)
    → IsValid c
    → IsValid (on_peer_connected now c id)
unfolding on_peer_connected
on_peer_connected-IsValid now c id v =
    peers-IsValid c _ v
      (update_state-Shrinks now c.peers id connecting connected (omega arith) (omega arith))

-- Whatever the state of the peer was, a disconnected one is not active.
pub on_peer_disconnected-IsValid :
    (c : SerialSyncController) (id : PeerId) → IsValid c → IsValid (on_peer_disconnected c id)
unfolding on_peer_disconnected
on_peer_disconnected-IsValid c id v = peers-IsValid c _ v (update_state_force-Shrinks c.peers id)

pub ban_peer-IsValid :
    (now : ℕ) (c : SerialSyncController) (id : PeerId) → IsValid c → IsValid (ban_peer now c id)
unfolding ban_peer
ban_peer-IsValid now c id v =
    peers-IsValid (send (ban id) c) _ (send-IsValid c (ban id ∷ c.sent) c.failures v)
      (update_state-Shrinks now c.peers id connected disconnecting (omega arith) (omega arith))

-- A failed dial sends the download back to waiting, or to the start, only where it is not over.
pub on_dail_failed-IsValid :
    (now : ℕ) (c : SerialSyncController) (id : PeerId) (limited : Bool)
    → IsValid c
    → IsValid (on_dail_failed now c id limited)
unfolding on_dail_failed
on_dail_failed-IsValid now c id limited v =
    elim (update_state-Moves now c.peers id connecting (if limited then found else disconnected)) [
      | inl (some true, n, e, _) ↦ absurd (n refl)
      | inl (some false, n, e, _) ↦ rw (unchanged (some false) n e) v
      | inl (none, n, e, _) ↦ rw (unchanged none n e) v
      | inr (p', e, m, at) ↦
          let unfinished : c.next_chunk < c.num_chunks =
            Progress-dialling c.next_chunk c.num_chunks (count c.peers dialling) c.state
              (peer_state-counted c.peers id connecting dialling at) v.progress in
          rw (changed p' e) (by_limit limited p' m unfinished)
    ]
  where
    unchanged :
        (r : Option Bool)
        → r ≢ some true
        → update_state now c.peers id connecting (if limited then found else disconnected)
          ≡ (c.peers, r)
        → on_dail_failed now c id limited ≡ c
    unchanged r n e = ground (arith, e, n)

    changed :
        (p' : SyncPeers)
        → update_state now c.peers id connecting (if limited then found else disconnected)
          ≡ (p', some true)
        → on_dail_failed now c id limited
          ≡ to_state
              (if limited then awaiting_outgoing_connection now else idle)
              (record c { peers = p' })
    changed p' e = ground (arith, e)

    by_limit :
        (b : Bool) (p' : SyncPeers)
        → Moves c.peers p' id connecting (if b then found else disconnected)
        → c.next_chunk < c.num_chunks
        → IsValid (
            to_state
              (if b then awaiting_outgoing_connection now else idle)
              (record c { peers = p' }))
    by_limit true p' m lt = record {
      distinct = m.distinct v.distinct;
      one_active = omega (arith, v.one_active, m.balance active);
      progress = lt;
    }
    by_limit false p' m lt = record {
      distinct = m.distinct v.distinct;
      one_active = omega (arith, v.one_active, m.balance active);
      progress = lt;
    }
