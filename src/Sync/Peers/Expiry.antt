-- ===== src/Sync/Peers/Expiry.antt =====
-- `SyncPeers::transition` of peers.rs: which peers are removed.
use ionian_rust.Base.{
  ℕ, ◌+◌, ltb, ◌≡◌, ◌∙◌, refl, Bool, false, ◌||◌, if◌then◌else◌, Option, none, some, List, [], ◌∷◌,
  ◌==◌, ℕ_discrete, arith, Bool-cases, inl, inr,
}
use ionian_rust.Base.Dict
use ionian_rust.Sync.Peers.{
  PeerId, PeerInfo, SyncPeers, PeerState, found, connecting, connected, disconnecting, disconnected,
  peer, is_bad, bad_peers, remove_all, expire,
}

-- What is left of an entry: for a peer that is connecting or disconnecting, five seconds from the
-- last change on decide.
abbrev pub kept_info : PeerState → ℕ → PeerInfo → Option PeerInfo
kept_info found now info = some info
kept_info connecting now info = if ltb now (info.since + 5) then some info else none
kept_info connected now info = some info
kept_info disconnecting now info = if ltb now (info.since + 5) then some info else none
kept_info disconnected now info = none

abbrev pub kept : ℕ → Option PeerInfo → Option PeerInfo
kept now none = none
kept now (some info) = kept_info info.state now info

abbrev is_in : PeerId → List PeerId → Bool
is_in id [] = false
is_in id (j ∷ ids) = j == id || is_in id ids

abbrev is_bad_entry : ℕ → Option PeerInfo → Bool
is_bad_entry now none = false
is_bad_entry now (some info) = is_bad now info

is_bad-kept_info :
    (now : ℕ) (addr since : ℕ) (s : PeerState)
    → let info : PeerInfo = record { addr = addr; state = s; since = since } in
      (if is_bad now info then none else some info) ≡ kept_info s now info
is_bad-kept_info now addr since found = refl
is_bad-kept_info now addr since connecting = ground arith
is_bad-kept_info now addr since connected = refl
is_bad-kept_info now addr since disconnecting = ground arith
is_bad-kept_info now addr since disconnected = refl

is_bad-kept :
    (now : ℕ) (o : Option PeerInfo) → (if is_bad_entry now o then none else o) ≡ kept now o
is_bad-kept now none = refl
is_bad-kept now (some info) = is_bad-kept_info now info.addr info.since info.state

get-remove_all :
    (ids : List PeerId) (p : SyncPeers) (id : PeerId)
    → peer (remove_all ids p) id ≡ (if is_in id ids then none else peer p id)
get-remove_all [] p id = refl
get-remove_all (j ∷ ids) p id =
    get-remove_all ids (Dict.remove ℕ_discrete j p) id
    ∙ ground (arith, Dict.get-remove ℕ_discrete j id p)

is_in-bad_peers :
    (now : ℕ) (p : SyncPeers) (id : PeerId)
    → Dict.Distinct ℕ_discrete p
    → is_in id (bad_peers now p) ≡ is_bad_entry now (peer p id)
unfolding Dict.get
is_in-bad_peers now [] id d = refl
is_in-bad_peers now ((j, info) ∷ p) id d = elim (Bool-cases (is_bad now info)) [
  | inl b ↦ rw (b, bad_peers) (ground (arith, b, d.0, is_in-bad_peers now p id d.1))
  | inr b ↦ rw (b, bad_peers) (ground (arith, b, d.0, is_in-bad_peers now p id d.1))
]

-- Where no peer is entered twice, `transition` keeps each peer that is found or connected, and each
-- that has been connecting or disconnecting for less than five seconds, as it is, and removes all
-- others.
pub peer-expire :
    (now : ℕ) (p : SyncPeers) (id : PeerId)
    → Dict.Distinct ℕ_discrete p
    → peer (expire now p) id ≡ kept now (peer p id)
unfolding expire
peer-expire now p id d =
    get-remove_all (bad_peers now p) p id
    ∙ rw (is_in-bad_peers now p id d) (is_bad-kept now (peer p id))
