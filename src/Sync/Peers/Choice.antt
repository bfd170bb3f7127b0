-- ===== src/Sync/Peers/Choice.antt =====
-- The random choice of a peer in a state, peers.rs.
use ionian_rust.Base.{
  ℕ, zero, suc, ◌%◌, ◌≡◌, ◌≤◌, ◌⊎◌, inl, inr, refl, ap, none, some, List, [], ◌∷◌, length,
  get_elem?, ℕ_discrete, arith, Bool-cases, Option-cases,
}
use ionian_rust.Base.Dict
use ionian_rust.Sync.Peers.{
  PeerId, Multiaddr, PeerState, state_eq, PeerInfo, SyncPeers, peer, peer_state, in_state,
  random_peer, count,
}
use ionian_rust.Sync.Peers.Counting.{state_eq_sound}

-- The candidates for a random choice.
length-in_state : (s : PeerState) (p : SyncPeers) → length (in_state s p) ≡ count p (s ∷ [])
length-in_state s [] = refl
length-in_state s ((id, info) ∷ p) = elim (Bool-cases (state_eq info.state s)) [
  | inl e ↦ rw (e, in_state) (omega (arith, length-in_state s p))
  | inr e ↦ rw (e, in_state) (omega (arith, length-in_state s p))
]

abbrev IsAt : SyncPeers → PeerId → PeerState → Type 0
IsAt p id s = (info : PeerInfo) × (peer p id ≡ some info) × (info.state ≡ s)

-- A new entry for another peer.
IsAt-skip :
    (s : PeerState) (p : SyncPeers) (j id : PeerId) (info : PeerInfo)
    → peer p j ≡ none
    → IsAt p id s
    → IsAt ((j, info) ∷ p) id s
unfolding Dict.get
IsAt-skip s p j id info n (info', e, at) = (info', ground (arith, n, e), at)

-- A candidate is a peer in the state.
in_state-IsAt :
    (s : PeerState) (p : SyncPeers) (i : ℕ) (id : PeerId) (a : Multiaddr)
    → Dict.Distinct ℕ_discrete p
    → get_elem? (in_state s p) i ≡ some (id, a)
    → IsAt p id s
unfolding Dict.get
in_state-IsAt s [] i id a d h = cc
in_state-IsAt s ((j, info) ∷ p) i id a d h = elim (Bool-cases (state_eq info.state s)) [
  | inr e ↦ IsAt-skip s p j id info d.0 (in_state-IsAt s p i id a d.1 (rw (e, in_state) at h))
  | inl e ↦
      head i (rw (e, in_state) at h) (state_eq_sound info.state s e)
        (λ k g. in_state-IsAt s p k id a d.1 g)
]
  where
    head :
        (i : ℕ)
        → get_elem? ((j, info.addr) ∷ in_state s p) i ≡ some (id, a)
        → info.state ≡ s
        → ((k : ℕ) → get_elem? (in_state s p) k ≡ some (id, a) → IsAt p id s)
        → IsAt ((j, info) ∷ p) id s
    head zero g at rest = (info, ground arith, at)
    head (suc i) g at rest = IsAt-skip s p j id info d.0 (rest i g)

-- The random choice is of a peer in the state, if there is one.
pub random_peer-cases :
    (pick : ℕ) (p : SyncPeers) (s : PeerState)
    → Dict.Distinct ℕ_discrete p
    → ((random_peer pick p s ≡ none) × (count p (s ∷ []) ≡ 0))
      ⊎ ((id : PeerId) × (a : Multiaddr) × (random_peer pick p s ≡ some (id, a))
          × (peer_state p id ≡ some s))
unfolding random_peer peer_state
random_peer-cases pick p s d =
    elim (Option-cases (get_elem? (in_state s p) (pick % length (in_state s p)))) [
      | inl e ↦ inl (e, (omega (arith, length-in_state s p, out_of_range (in_state s p) pick e)))
      | inr ((id, a), e) ↦
          let (info, g, at) = in_state-IsAt s p _ id a d e in
          inr (id, a, e, rw (g, peer_state) (ap some at))
    ]
  where
    absent : {A : Type 0} → (xs : List A) (i : ℕ) → get_elem? xs i ≡ none → length xs ≤ i
    absent [] i h = omega arith
    absent (x ∷ xs) zero h = cc
    absent (x ∷ xs) (suc i) h = omega (arith, absent xs i h)

    out_of_range :
        {A : Type 0} → (xs : List A) (n : ℕ) → get_elem? xs (n % length xs) ≡ none → length xs ≡ 0
    out_of_range [] n h = refl
    out_of_range (x ∷ xs) n h = omega (arith, absent (x ∷ xs) (n % length (x ∷ xs)) h)
