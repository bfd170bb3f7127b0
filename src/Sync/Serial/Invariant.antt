-- ===== src/Sync/Serial/Invariant.antt =====
-- What every event of serial.rs keeps.
use ionian_rust.Base.{
  ℕ, ◌+◌, ◌≡◌, ◌≤◌, ◌<◌, inl, inr, refl, List, [], ◌∷◌, min, ℕ_discrete, arith, Option-cases,
}
use ionian_rust.Base.Dict
use ionian_rust.Sync.Peers.{
  PeerId, Multiaddr, peer, PeerState, connecting, connected, disconnected, SyncPeers, add_new_peer,
  update_state, update_state_force, count, expire,
}
use ionian_rust.Sync.Peers.Counting.{
  bit, moves, update_state-Moves, count-add_new_peer, add_new_peer-Distinct, expire-Distinct,
  count-expire,
}
use ionian_rust.Sync.Serial.{
  max_chunks_to_request, Message, SyncState, idle, found_peers, connecting_peers, awaiting_download,
  completed, finding_peers, awaiting_outgoing_connection, downloading, failed, SerialSyncController,
  to_state,
}

-- The peers that a connection is made to or stands to.
abbrev pub active : List PeerState
active = connecting ∷ connected ∷ []

abbrev pub dialling : List PeerState
dialling = connecting ∷ []

-- What holds in a state of the download, of the chunks `next` and `num` and the number of peers
-- that are being dialled. A request in flight is for the next chunks, at least one and at most the
-- limit; nobody is dialled during it, nor once the download has ended.
abbrev pub Progress : ℕ → ℕ → ℕ → SyncState → Type 0
Progress next num dialled idle = next < num
Progress next num dialled (finding_peers t) = next < num
Progress next num dialled found_peers = next < num
Progress next num dialled connecting_peers = next < num
Progress next num dialled (awaiting_outgoing_connection t) = next < num
Progress next num dialled awaiting_download = (next < num) × (dialled ≡ 0)
Progress next num dialled (downloading id from to t) =
    (from ≡ next) × (next < to) × (to ≡ min (next + max_chunks_to_request) num) × (dialled ≡ 0)
Progress next num dialled completed = (next ≡ num) × (0 < num) × (dialled ≡ 0)
Progress next num dialled (failed r) = (next ≤ num) × (0 < num) × (dialled ≡ 0)

-- Each peer is entered once, at most one is dialled or connected.
pub record IsValid (c : SerialSyncController) : Type 0 where
  pub distinct : Dict.Distinct ℕ_discrete c.peers
  pub one_active : count c.peers active ≤ 1
  pub progress : Progress c.next_chunk c.num_chunks (count c.peers dialling) c.state

-- No peer is entered twice, and no more of them are active or dialled than before.
pub record Shrinks (p p' : SyncPeers) : Type 0 where
  pub distinct : Dict.Distinct ℕ_discrete p → Dict.Distinct ℕ_discrete p'
  pub fewer_active : count p' active ≤ count p active
  pub fewer_dialled : count p' dialling ≤ count p dialling

Progress-mono :
    (next num d d' : ℕ) (s : SyncState) → d' ≤ d → Progress next num d s → Progress next num d' s
Progress-mono next num d d' idle le h = h
Progress-mono next num d d' (finding_peers t) le h = h
Progress-mono next num d d' found_peers le h = h
Progress-mono next num d d' connecting_peers le h = h
Progress-mono next num d d' (awaiting_outgoing_connection t) le h = h
Progress-mono next num d d' awaiting_download le h = (h.0, omega arith)
Progress-mono next num d d' (downloading id from to t) le (a, b, c, z) = (a, b, c, omega arith)
Progress-mono next num d d' completed le (a, b, z) = (a, b, omega arith)
Progress-mono next num d d' (failed r) le (a, b, z) = (a, b, omega arith)

-- Whoever dials has chunks to get.
pub Progress-dialling :
    (next num d : ℕ) (s : SyncState) → 0 < d → Progress next num d s → next < num
Progress-dialling next num d idle lt h = h
Progress-dialling next num d (finding_peers t) lt h = h
Progress-dialling next num d found_peers lt h = h
Progress-dialling next num d connecting_peers lt h = h
Progress-dialling next num d (awaiting_outgoing_connection t) lt h = h
Progress-dialling next num d awaiting_download lt h = h.0
Progress-dialling next num d (downloading id from to t) lt (a, b, c, z) = omega arith
Progress-dialling next num d completed lt h = omega arith
Progress-dialling next num d (failed r) lt h = omega arith

-- There is something to download.
pub Progress-nonempty : (next num d : ℕ) (s : SyncState) → Progress next num d s → 0 < num
Progress-nonempty next num d idle h = omega arith
Progress-nonempty next num d (finding_peers t) h = omega arith
Progress-nonempty next num d found_peers h = omega arith
Progress-nonempty next num d connecting_peers h = omega arith
Progress-nonempty next num d (awaiting_outgoing_connection t) h = omega arith
Progress-nonempty next num d awaiting_download h = omega arith
Progress-nonempty next num d (downloading id from to t) h = omega arith
Progress-nonempty next num d completed h = omega arith
Progress-nonempty next num d (failed r) h = omega arith

pub peers-IsValid :
    (c : SerialSyncController) (p : SyncPeers)
    → IsValid c
    → Shrinks c.peers p
    → IsValid (record c { peers = p })
peers-IsValid c p v s = record {
  distinct = s.distinct v.distinct;
  one_active = omega (arith, v.one_active, s.fewer_active);
  progress =
      Progress-mono c.next_chunk c.num_chunks (count c.peers dialling) (count p dialling) c.state
        s.fewer_dialled v.progress;
}

pub state-IsValid :
    (c : SerialSyncController) (s : SyncState)
    → IsValid c
    → Progress c.next_chunk c.num_chunks (count c.peers dialling) s
    → IsValid (to_state s c)
state-IsValid c s v h = record { distinct = v.distinct; one_active = v.one_active; progress = h }

pub Shrinks-refl : (p : SyncPeers) → Shrinks p p
Shrinks-refl p = record {
  distinct = λ d. d;
  fewer_active = omega arith;
  fewer_dialled = omega arith;
}

-- A move between two states shrinks what is active unless it starts to dial.
pub update_state-Shrinks :
    (now : ℕ) (p : SyncPeers) (id : PeerId) (from to : PeerState)
    → bit active to ≤ bit active from
    → bit dialling to ≤ bit dialling from
    → Shrinks p (update_state now p id from to).0
update_state-Shrinks now p id from to a b = elim (update_state-Moves now p id from to) [
  | inl (r, _, e, _) ↦ rw e (Shrinks-refl p)
  | inr (p', e, m, _) ↦ rw e (record {
    distinct = m.distinct;
    fewer_active = omega (arith, m.balance active);
    fewer_dialled = omega (arith, m.balance dialling);
  })
]

pub expire-Shrinks :
    (now : ℕ) (p : SyncPeers) → Dict.Distinct ℕ_discrete p → Shrinks p (expire now p)
expire-Shrinks now p d = record {
  distinct = expire-Distinct now p;
  fewer_active = count-expire now p active d;
  fewer_dialled = count-expire now p dialling d;
}

pub add_new_peer-Shrinks :
    (now : ℕ) (p : SyncPeers) (id : PeerId) (a : Multiaddr) → Shrinks p (add_new_peer now p id a).0
add_new_peer-Shrinks now p id a = record {
  distinct = add_new_peer-Distinct now p id a;
  fewer_active = omega (arith, count-add_new_peer now p id a active refl);
  fewer_dialled = omega (arith, count-add_new_peer now p id a dialling refl);
}

pub update_state_force-Shrinks :
    (p : SyncPeers) (id : PeerId) → Shrinks p (update_state_force p id disconnected).0
unfolding update_state_force
update_state_force-Shrinks p id = elim (Option-cases (peer p id)) [
  | inl e ↦ rw (e, update_state_force) (Shrinks-refl p)
  | inr (info, e) ↦
      let m = moves p id info (record info { state = disconnected }) e in
      rw (e, update_state_force)
        (record {
          distinct = m.distinct;
          fewer_active = omega (arith, m.balance active);
          fewer_dialled = omega (arith, m.balance dialling);
        })
]

-- The messages and the count of failures are free.
pub send-IsValid :
    (c : SerialSyncController) (sent : List Message) (n : ℕ)
    → IsValid c
    → IsValid (record c { sent = sent; failures = n })
send-IsValid c sent n v = record {
  distinct = v.distinct;
  one_active = v.one_active;
  progress = v.progress;
}
