-- ===== src/Sync/Peers/Counting.antt =====
-- How the operations of peers.rs move the counts of peers in each state.
use ionian_rust.Base.{
  ℕ, zero, suc, ◌+◌, ◌≡◌, ◌≢◌, ◌≤◌, ◌⊎◌, inl, inr, refl, sym, ap, ◌∙◌, Bool, true, false,
  if◌then◌else◌, Option, none, some, List, [], ◌∷◌, ℕ_discrete, arith, Bool-cases, Option-cases,
  subst,
}
use ionian_rust.Base.Dict
use ionian_rust.Sync.Peers.{
  PeerId, Multiaddr, PeerState, found, connecting, connected, disconnecting, disconnected,
  discriminant, state_eq, PeerInfo, SyncPeers, peer, add_new_peer, update_state, peer_state,
  contains, counts, count, bad_peers, remove_all, expire,
}

of_discriminant : ℕ → PeerState
of_discriminant zero = found
of_discriminant (suc zero) = connecting
of_discriminant (suc (suc zero)) = connected
of_discriminant (suc (suc (suc zero))) = disconnecting
of_discriminant (suc (suc (suc (suc n)))) = disconnected

of_discriminant-discriminant : (s : PeerState) → of_discriminant (discriminant s) ≡ s
unfolding of_discriminant
of_discriminant-discriminant found = refl
of_discriminant-discriminant connecting = refl
of_discriminant-discriminant connected = refl
of_discriminant-discriminant disconnecting = refl
of_discriminant-discriminant disconnected = refl

pub state_eq_sound : (s t : PeerState) → state_eq s t ≡ true → s ≡ t
state_eq_sound s t h =
    let same : discriminant s ≡ discriminant t = ground arith in
    sym (of_discriminant-discriminant s) ∙ ap of_discriminant same ∙ of_discriminant-discriminant t

state_eq_irrefl : (s t : PeerState) → state_eq s t ≡ false → s ≢ t
state_eq_irrefl s t h e = absurd (ground (arith, ap discriminant e))

some-inj : {s t : PeerState} → some s ≡ some t → s ≡ t
some-inj h = cc

-- 1 where the state is among the given ones.
abbrev pub bit : List PeerState → PeerState → ℕ
bit states s = if contains states s then 1 else 0

-- A peer has moved from one state to another, and nothing else has changed in the counts.
pub record Moves (p p' : SyncPeers) (id : PeerId) (from to : PeerState) : Type 0 where
  pub distinct : Dict.Distinct ℕ_discrete p → Dict.Distinct ℕ_discrete p'
  pub balance :
      (states : List PeerState) → count p' states + bit states from ≡ count p states + bit states to
  pub now_at : peer_state p' id ≡ some to

pub moves :
    (p : SyncPeers) (id : PeerId) (old new : PeerInfo)
    → peer p id ≡ some old
    → Moves p (Dict.insert ℕ_discrete id new p) id old.state new.state
unfolding peer_state
moves p id old new e = record {
  distinct = Dict.insert-Distinct ℕ_discrete id new p;
  balance = λ states. ground (arith, e, Dict.total-insert ℕ_discrete (counts states) id new p);
  now_at = ground (arith, Dict.get-insert ℕ_discrete id id new p);
}

pub update_state-Moves :
    (now : ℕ) (p : SyncPeers) (id : PeerId) (from to : PeerState)
    → ((r : Option Bool) × (r ≢ some true)
        × (update_state now p id from to ≡ (p, r))
        × (peer_state p id ≢ some from))
      ⊎ ((p' : SyncPeers) × (update_state now p id from to ≡ (p', some true))
          × Moves p p' id from to
          × (peer_state p id ≡ some from))
unfolding update_state peer_state
update_state-Moves now p id from to = elim (Option-cases (peer p id)) [
  | inl e ↦ inl (none, (λ h. cc), rw (e, update_state) refl, rw (e, peer_state) (λ h. cc))
  | inr (info, e) ↦ elim (Bool-cases (state_eq info.state from)) [
    | inr other ↦ inl (
      some false,
      (λ h. cc),
      rw (e, other, update_state) refl,
      rw (e, peer_state) (λ h. state_eq_irrefl info.state from other (some-inj h)),
    )
    | inl same ↦
        let at : info.state ≡ from = state_eq_sound info.state from same in
        let new : PeerInfo = record { addr = info.addr; state = to; since = now } in
        inr (
          Dict.insert ℕ_discrete id new p,
          rw (e, same, update_state) refl,
          subst (λ s. Moves p (Dict.insert ℕ_discrete id new p) id s to) at (moves p id info new e),
          rw (e, peer_state) (ap some at),
        )
  ]
]

-- A peer in a state is counted there.
pub peer_state-counted :
    (p : SyncPeers) (id : PeerId) (s : PeerState) (states : List PeerState)
    → peer_state p id ≡ some s
    → bit states s ≤ count p states
unfolding peer_state
peer_state-counted p id s states e = elim (Option-cases (peer p id)) [
  | inl n ↦ cc
  | inr (info, g) ↦ ground (arith, g, Dict.weight-le-total ℕ_discrete (counts states) id p)
]

pub expire-Distinct :
    (now : ℕ) (p : SyncPeers) → Dict.Distinct ℕ_discrete p → Dict.Distinct ℕ_discrete (expire now p)
unfolding expire
expire-Distinct now p d = go (bad_peers now p) p d
  where
    go :
        (ids : List PeerId) (q : SyncPeers)
        → Dict.Distinct ℕ_discrete q
        → Dict.Distinct ℕ_discrete (remove_all ids q)
    go [] q d = d
    go (id ∷ ids) q d =
        go ids (Dict.remove ℕ_discrete id q) (Dict.remove-Distinct ℕ_discrete id q d)

pub count-expire :
    (now : ℕ) (p : SyncPeers) (states : List PeerState)
    → Dict.Distinct ℕ_discrete p
    → count (expire now p) states ≤ count p states
unfolding expire
count-expire now p states d = go (bad_peers now p) p d
  where
    go :
        (ids : List PeerId) (q : SyncPeers)
        → Dict.Distinct ℕ_discrete q
        → count (remove_all ids q) states ≤ count q states
    go [] q d = omega arith
    go (id ∷ ids) q d = omega (
      arith,
      go ids (Dict.remove ℕ_discrete id q) (Dict.remove-Distinct ℕ_discrete id q d),
      Dict.total-remove ℕ_discrete (counts states) id q d,
    )

pub add_new_peer-Distinct :
    (now : ℕ) (p : SyncPeers) (id : PeerId) (a : Multiaddr)
    → Dict.Distinct ℕ_discrete p
    → Dict.Distinct ℕ_discrete (add_new_peer now p id a).0
unfolding add_new_peer
add_new_peer-Distinct now p id a d = ground (
  arith,
  Dict.insert-Distinct ℕ_discrete id (record { addr = a; state = found; since = now }) p d,
)

-- A new peer is counted where found ones are, and nowhere else.
pub count-add_new_peer :
    (now : ℕ) (p : SyncPeers) (id : PeerId) (a : Multiaddr) (states : List PeerState)
    → bit states found ≡ 0
    → count (add_new_peer now p id a).0 states ≡ count p states
unfolding add_new_peer
count-add_new_peer now p id a states h = elim (Option-cases (peer p id)) [
  | inl e ↦
      rw (e, add_new_peer)
        (ground (
          arith,
          e,
          h,
          Dict.total-insert ℕ_discrete (counts states) id
              (record { addr = a; state = found; since = now }) p,
        ))
  | inr (info, e) ↦ rw (e, add_new_peer) refl
]

bit-active :
    (s : PeerState)
    → bit (connecting ∷ connected ∷ []) s ≡ bit (connecting ∷ []) s + bit (connected ∷ []) s
bit-active found = refl
bit-active connecting = refl
bit-active connected = refl
bit-active disconnecting = refl
bit-active disconnected = refl

-- An active peer is being dialled or connected.
pub count-active :
    (p : SyncPeers)
    → count p (connecting ∷ connected ∷ []) ≡ count p (connecting ∷ []) + count p (connected ∷ [])
count-active [] = refl
count-active ((id, info) ∷ p) = omega (arith, bit-active info.state, count-active p)

bit-usable :
    (s : PeerState)
    → bit (found ∷ connecting ∷ connected ∷ []) s
      ≡ bit (found ∷ []) s + bit (connecting ∷ connected ∷ []) s
bit-usable found = refl
bit-usable connecting = refl
bit-usable connected = refl
bit-usable disconnecting = refl
bit-usable disconnected = refl

-- A usable peer is found or active.
pub count-usable :
    (p : SyncPeers)
    → count p (found ∷ connecting ∷ connected ∷ [])
      ≡ count p (found ∷ []) + count p (connecting ∷ connected ∷ [])
count-usable [] = refl
count-usable ((id, info) ∷ p) = omega (arith, bit-usable info.state, count-usable p)
