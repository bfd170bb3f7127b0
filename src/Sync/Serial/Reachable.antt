-- ===== src/Sync/Serial/Reachable.antt =====
-- Every state that events and transitions of serial.rs lead to.
use ionian_rust.Base.{ℕ, ◌≡◌, ◌<◌, sym, Bool, some, List, subst, ◌∙◌}
use ionian_rust.SharedTypes.{ChunkArray}
use ionian_rust.ChunkPool.Types.{TxId}
use ionian_rust.Sync.Peers.{PeerId, Multiaddr}
use ionian_rust.Sync.Serial.{
  SerialSyncController, new_controller, reset, on_peer_found, on_dail_failed, on_peer_connected,
  on_peer_disconnected, Replies, on_response, on_request_failed,
}
use ionian_rust.Sync.Serial.{on_request_failed, run, transition}
use ionian_rust.Sync.Serial.Invariant.{IsValid}
use ionian_rust.Sync.Serial.Events.{
  new_controller-IsValid, reset-IsValid, on_peer_found-IsValid, on_peer_connected-IsValid,
  on_peer_disconnected-IsValid, on_dail_failed-IsValid,
}
use ionian_rust.Sync.Serial.Responses.{on_response-IsValid, on_request_failed-IsValid}
use ionian_rust.Sync.Serial.Transition.{transition-RestsAt}

-- A download of `n` chunks, after calls of the public methods in any order.
pub data Reachable (tx_id : TxId) (n : ℕ) : SerialSyncController → Type 0 where
  created : Reachable tx_id n (new_controller tx_id n)
  was_reset :
      (now : ℕ) (c : SerialSyncController) → Reachable tx_id n c → Reachable tx_id n (reset now c)
  peer_found :
      (now : ℕ) (id : PeerId) (at : Multiaddr) (c : SerialSyncController)
      → Reachable tx_id n c
      → Reachable tx_id n (on_peer_found now c id at).0
  dial_failed :
      (now : ℕ) (id : PeerId) (limited : Bool) (c : SerialSyncController)
      → Reachable tx_id n c
      → Reachable tx_id n (on_dail_failed now c id limited)
  peer_connected :
      (now : ℕ) (id : PeerId) (c : SerialSyncController)
      → Reachable tx_id n c
      → Reachable tx_id n (on_peer_connected now c id)
  peer_disconnected :
      (id : PeerId) (c : SerialSyncController)
      → Reachable tx_id n c
      → Reachable tx_id n (on_peer_disconnected c id)
  responded :
      (now : ℕ) (id : PeerId) (a : ChunkArray) (r : Replies) (c : SerialSyncController)
      → Reachable tx_id n c
      → Reachable tx_id n (on_response now c id a r)
  request_failed :
      (now : ℕ) (id : PeerId) (c : SerialSyncController)
      → Reachable tx_id n c
      → Reachable tx_id n (on_request_failed now c id)
  transitioned :
      (now : ℕ) (known : List (PeerId × Multiaddr)) (picks : ℕ → ℕ) (c c' : SerialSyncController)
      → Reachable tx_id n c
      → transition now known picks c ≡ some c'
      → Reachable tx_id n c'

-- For a file of at least one chunk, whatever methods are called in whatever order, the controller is
-- valid: at most one peer is dialled or connected, a request in flight is for at least one chunk,
-- from the next one on and within the limit, and a download is completed only where the next chunk
-- is the end of the file.
pub Reachable-IsValid :
    (tx_id : TxId) (n : ℕ) (c : SerialSyncController) → 0 < n → Reachable tx_id n c → IsValid c
Reachable-IsValid tx_id n _ h created = new_controller-IsValid tx_id n h
Reachable-IsValid tx_id n _ h (was_reset now c r) =
    reset-IsValid now c (Reachable-IsValid tx_id n c h r)
Reachable-IsValid tx_id n _ h (peer_found now id a c r) =
    on_peer_found-IsValid now c id a (Reachable-IsValid tx_id n c h r)
Reachable-IsValid tx_id n _ h (dial_failed now id limited c r) =
    on_dail_failed-IsValid now c id limited (Reachable-IsValid tx_id n c h r)
Reachable-IsValid tx_id n _ h (peer_connected now id c r) =
    on_peer_connected-IsValid now c id (Reachable-IsValid tx_id n c h r)
Reachable-IsValid tx_id n _ h (peer_disconnected id c r) =
    on_peer_disconnected-IsValid c id (Reachable-IsValid tx_id n c h r)
Reachable-IsValid tx_id n _ h (responded now id a q c r) =
    on_response-IsValid now c id a q (Reachable-IsValid tx_id n c h r)
Reachable-IsValid tx_id n _ h (request_failed now id c r) =
    on_request_failed-IsValid now c id (Reachable-IsValid tx_id n c h r)
Reachable-IsValid tx_id n c' h (transitioned now known picks c _ r e) =
    let (d, run, v, _) = transition-RestsAt now known picks c (Reachable-IsValid tx_id n c h r) in
    subst IsValid (some_inj (sym run ∙ e)) v
  where
    some_inj : {a b : SerialSyncController} → some a ≡ some b → a ≡ b
    some_inj e = cc
