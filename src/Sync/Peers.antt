-- ===== src/Sync/Peers.antt =====
-- node/sync/src/controllers/peers.rs. Peers and addresses are numbers, times are seconds, and the
-- current time is an argument.
pub mod Counting
pub mod Choice
pub mod Expiry
use ionian_rust.Base.{
  ℕ, ◌+◌, ◌-◌, ◌%◌, ◌≡◌, Bool, true, false, ◌||◌, if◌then◌else◌, Option, none, some, List, [], ◌∷◌,
  leb, ◌==◌, is_some, length, get_elem?, ℕ_discrete,
}
use ionian_rust.Base.Dict
use ionian_rust.Base.Dict.{Dict}

abbrev pub PeerId : Type 0
PeerId = ℕ

abbrev pub Multiaddr : Type 0
Multiaddr = ℕ

abbrev pub peer_connect_timeout : ℕ
peer_connect_timeout = 5

abbrev pub peer_disconnect_timeout : ℕ
peer_disconnect_timeout = 5

pub data PeerState : Type 0 where
  found connecting connected disconnecting disconnected : PeerState

abbrev pub discriminant : PeerState → ℕ
discriminant found = 0
discriminant connecting = 1
discriminant connected = 2
discriminant disconnecting = 3
discriminant disconnected = 4

-- The derived `PartialEq`.
abbrev pub state_eq : PeerState → PeerState → Bool
state_eq s t = discriminant s == discriminant t

pub record PeerInfo : Type 0 where
  pub addr : Multiaddr
  pub state : PeerState
  pub since : ℕ

abbrev pub SyncPeers : Type 0
SyncPeers = Dict PeerId PeerInfo

abbrev pub peer : SyncPeers → PeerId → Option PeerInfo
peer p id = Dict.get ℕ_discrete id p

unfoldable pub add_new_peer : ℕ → SyncPeers → PeerId → Multiaddr → SyncPeers × Bool
add_new_peer now p id addr =
    if is_some (peer p id)
    then (p, false)
    else (Dict.insert ℕ_discrete id (record { addr = addr; state = found; since = now }) p, true)

-- `SyncPeers::update_state`; the answer is none where the peer is not known.
unfoldable pub update_state :
    ℕ → SyncPeers → PeerId → PeerState → PeerState → SyncPeers × Option Bool
update_state now p id from to = elim (peer p id) [
  | none ↦ (p, none)
  | some info ↦
      if state_eq info.state from
      then (
        Dict.insert ℕ_discrete id (record { addr = info.addr; state = to; since = now }) p,
        some true,
      )
      else (p, some false)
]

-- The time of the peer's last change stays.
unfoldable pub update_state_force : SyncPeers → PeerId → PeerState → SyncPeers × Option PeerState
update_state_force p id to = elim (peer p id) [
  | none ↦ (p, none)
  | some info ↦ (Dict.insert ℕ_discrete id (record info { state = to }) p, some info.state)
]

unfoldable pub peer_state : SyncPeers → PeerId → Option PeerState
peer_state p id = elim (peer p id) [ none ↦ none | some info ↦ some info.state ]

abbrev pub in_state : PeerState → SyncPeers → List (PeerId × Multiaddr)
in_state s [] = []
in_state s ((id, info) ∷ p) =
    if state_eq info.state s then (id, info.addr) ∷ in_state s p else in_state s p

-- The choice of the random generator is the number `pick`.
unfoldable pub random_peer : ℕ → SyncPeers → PeerState → Option (PeerId × Multiaddr)
random_peer pick p s = get_elem? (in_state s p) (pick % length (in_state s p))

abbrev pub contains : List PeerState → PeerState → Bool
contains [] s = false
contains (t ∷ states) s = state_eq s t || contains states s

-- A peer counts 1 where its state is among the given ones.
abbrev pub counts : List PeerState → PeerInfo → ℕ
counts states info = if contains states info.state then 1 else 0

abbrev pub count : SyncPeers → List PeerState → ℕ
count p states = Dict.total (counts states) p

abbrev pub is_bad : ℕ → PeerInfo → Bool
is_bad now info = elim (info.state) [
  | found ↦ false
  | connected ↦ false
  | connecting ↦ leb peer_connect_timeout (now - info.since)
  | disconnecting ↦ leb peer_disconnect_timeout (now - info.since)
  | disconnected ↦ true
]

abbrev pub bad_peers : ℕ → SyncPeers → List PeerId
bad_peers now [] = []
bad_peers now ((id, info) ∷ p) = if is_bad now info then id ∷ bad_peers now p else bad_peers now p

abbrev pub remove_all : List PeerId → SyncPeers → SyncPeers
remove_all [] p = p
remove_all (id ∷ ids) p = remove_all ids (Dict.remove ℕ_discrete id p)

-- `SyncPeers::transition`.
unfoldable pub expire : ℕ → SyncPeers → SyncPeers
expire now p = remove_all (bad_peers now p) p
