-- ===== src/Tests/Sync.antt =====
-- The download of node/sync at small states.
use ionian_rust.Base.{ℕ_discrete}
use ionian_rust.Sync.Peers.{SyncPeers, peer, expire, connecting}
use ionian_rust.Sync.Peers.Expiry
use ionian_rust.Sync.Peers.Expiry.{kept}
use ionian_rust.Base.{◌⊎◌, replicate, ok, true, refl}
use ionian_rust.Base.Dict
use ionian_rust.SharedTypes.{ChunkArray}
use ionian_rust.Sync.Peers.{connected}
use ionian_rust.Sync.Serial.{downloading, Replies, on_response}
use ionian_rust.Sync.Serial.Storing
use ionian_rust.Sync.Serial.Storing.{Advances}
use ionian_rust.Base.{◌≡◌, List, [], ◌∷◌, some, arith}
use ionian_rust.ChunkPool.Types.{TxId}
use ionian_rust.Sync.Peers.{PeerId, Multiaddr}
use ionian_rust.Sync.Serial.{SerialSyncController, new_controller, on_peer_found, transition}
use ionian_rust.Sync.Serial.Invariant.{IsValid}
use ionian_rust.Sync.Serial.Settling.{RestsAt}
use ionian_rust.Sync.Serial.Events.{new_controller-IsValid}
use ionian_rust.Sync.Serial.Transition
use ionian_rust.Sync.Serial.Reachable
use ionian_rust.Sync.Serial.Reachable.{Reachable, created, peer_found}

abbrev tx : TxId
tx = record { seq = 1; hash = 40 }

abbrev announced : List (PeerId × Multiaddr)
announced = (5, 50) ∷ []

transition-RestsAt_example :
    (c' : SerialSyncController) × (transition 100 announced (λ n. n) (new_controller tx 3000)
      ≡ some c')
    × IsValid c'
    × RestsAt 100 c' c'.state
transition-RestsAt_example =
    Transition.transition-RestsAt 100 announced (λ n. n) (new_controller tx 3000)
      (new_controller-IsValid tx 3000 (omega arith))

Reachable-IsValid_example : IsValid (on_peer_found 7 (new_controller tx 3000) 5 50).0
Reachable-IsValid_example =
    Reachable.Reachable-IsValid tx 3000 (on_peer_found 7 (new_controller tx 3000) 5 50).0
      (omega arith) (peer_found 7 5 50 (new_controller tx 3000) created)

-- The only peer is asked for the two chunks of the file.
abbrev asked : SerialSyncController
asked = record {
  tx_id = tx;
  num_chunks = 2;
  next_chunk = 0;
  failures = 0;
  state = downloading 5 0 2 100;
  peers = (5, record { addr = 50; state = connected; since = 90 }) ∷ [];
  sent = [];
}

asked-IsValid : IsValid asked
unfolding Dict.get
asked-IsValid = record {
  distinct = (refl, tt);
  one_active = omega arith;
  progress = (refl, omega arith, omega arith, refl);
}

abbrev two_chunks : ChunkArray
two_chunks = record { bytes = replicate 512 1; start_index = 0 }

abbrev accepted : Replies
accepted = record { proof = ok true; put = ok true; finalize = ok true }

on_response-Advances_example :
    ((on_response 101 asked 5 two_chunks accepted).next_chunk ≡ 0)
    ⊎ Advances asked (on_response 101 asked 5 two_chunks accepted) two_chunks accepted
on_response-Advances_example =
    Storing.on_response-Advances 101 asked 5 two_chunks accepted asked-IsValid

-- One peer in time, one that has timed out.
abbrev two_peers : SyncPeers
two_peers =
    (5, record { addr = 50; state = connecting; since = 90 })
    ∷ (6, record { addr = 60; state = connecting; since = 97 })
    ∷ []

two_peers-Distinct : Dict.Distinct ℕ_discrete two_peers
unfolding Dict.get ℕ_discrete
two_peers-Distinct = (refl, (refl, tt))

peer-expire_example : peer (expire 100 two_peers) 6 ≡ kept 100 (peer two_peers 6)
peer-expire_example = Expiry.peer-expire 100 two_peers 6 two_peers-Distinct
