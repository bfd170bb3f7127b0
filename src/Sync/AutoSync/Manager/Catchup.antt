-- ===== src/Sync/AutoSync/Manager/Catchup.antt =====
-- The loop of the sequential synchronization of manager.rs.
use ionian_rust.Base.{
  ℕ, ◌+◌, ◌-◌, ◌<◌, ◌≤◌, ◌≡◌, refl, sym, ◌∙◌, subst, Bool, true, false, some, List, [], ◌∷◌, ltb,
  arith, inl, inr, ◌⊎◌, Run, ret, ◌>>=◌, All, length, Returns-ret,
}
use ionian_rust.Sync.Serial.{finding_peers}
use ionian_rust.Sync.AutoSync.SyncStore.Queues
use ionian_rust.Sync.AutoSync.Manager.{
  Manager, Services, sync_status, u64_max, find_peers_timeout, request, handle_on_reorg,
  move_forward, moved, announce_all, sync_once, sync_round, sync_tx,
}
use ionian_rust.Sync.AutoSync.Manager.Announcement.{Announced, Raised, announce_all-Raised}
use ionian_rust.Sync.AutoSync.Manager.Progress.{move_forward-answer, move_forward-Forward}

-- The manager after some rounds of the loop, each with what the services answer in it and the
-- announcements that come in.
unfoldable pub rounds : List (Services × List ℕ) → Manager → Run Manager
rounds [] m = ret m
rounds ((e, announced) ∷ rest) m = do (m', o) ← sync_round e announced m; rounds rest m'

-- A transaction does not hold up the others: it is complete, or its peers have been looked for in
-- vain for the whole time.
abbrev pub IsResolved : Services → ℕ → Type 0
IsResolved e q =
    (e.check_tx_completed q ≡ some true)
    ⊎ ((e.check_tx_completed q ≡ some false)
        × (e.has_tx q ≡ some true)
        × (since : ℕ) × (e.status q ≡ some (some (finding_peers since)))
        × (find_peers_timeout < e.now - since))

-- In each of the rounds, the next transaction is resolved, and no announcement is the largest number.
abbrev pub AreResolved : ℕ → List (Services × List ℕ) → Type 0
AreResolved q [] = Unit {0}
AreResolved q ((e, announced) ∷ rest) =
    IsResolved e q × All (λ a. a < u64_max) announced × AreResolved (q + 1) rest

-- A manager that has moved on by one.
record Moved (m m' : Manager) : Type 0 where
  valid : Queues.IsValid m'.sync_store
  next : m'.next_tx_seq ≡ m.next_tx_seq + 1
  raised : Raised m m'
  reverted : m'.reverted_tx_seq ≡ m.reverted_tx_seq

move_forward-max : (m : Manager) (p : Bool) → (move_forward m p).0.max_tx_seq ≡ m.max_tx_seq
unfolding move_forward
move_forward-max m p = ground arith

moved-Moved :
    (l : List ℕ) (m : Manager) (p : Bool)
    → Queues.IsValid m.sync_store
    → m.next_tx_seq ≤ m.max_tx_seq
    → m.max_tx_seq < u64_max
    → All (λ a. a < u64_max) l
    → (m' : Manager) × (moved l m p ≡ ret (m', some true)) × Moved m m'
unfolding moved
moved-Moved l m p v h u g =
    let (n, run, (k, (up, lim))) =
      Returns-ret (λ m'. Announced m m' × Raised m m') (announce_all l m)
        (announce_all-Raised l m v u g) in
    let c : ltb n.max_tx_seq n.next_tx_seq ≡ false = ground (arith, h, up, k.next) in
    let f = move_forward-Forward n p k.keeps.valid c in
    (
      (move_forward n p).0,
      rw run (rw (move_forward-answer n p, c) refl),
      record {
        valid = f.valid;
        next = omega (arith, f.next, k.next, h, u);
        raised =
            (omega (arith, up, move_forward-max n p), omega (arith, lim, move_forward-max n p));
        reverted = f.reverted ∙ k.reverted;
      },
    )

-- A round without a reversion to handle.
unreverted :
    (e : Services) (l : List ℕ) (m : Manager)
    → m.reverted_tx_seq ≡ u64_max
    → sync_round e l m ≡ sync_once e l m
unfolding sync_round handle_on_reorg
unreverted e l m z = ground (arith, z)

-- A round at a transaction that is resolved.
round-Moved :
    (e : Services) (l : List ℕ) (m : Manager)
    → Queues.IsValid m.sync_store
    → m.reverted_tx_seq ≡ u64_max
    → m.next_tx_seq ≤ m.max_tx_seq
    → m.max_tx_seq < u64_max
    → All (λ a. a < u64_max) l
    → IsResolved e m.next_tx_seq
    → (m' : Manager) × (sync_round e l m ≡ ret (m', some true)) × Moved m m'
unfolding sync_once sync_tx
round-Moved e l m v z h u g (inl d) =
    let c : ltb m.max_tx_seq m.next_tx_seq ≡ false = ground (arith, h) in
    let (m', run, k) = moved-Moved l m false v h u g in (m', unreverted e l m z ∙ rw (c, d) run, k)
round-Moved e l m v z h u g (inr (d, k, since, s, w)) =
    let c : ltb m.max_tx_seq m.next_tx_seq ≡ false = ground (arith, h) in
    let t : ltb find_peers_timeout (e.now - since) ≡ true = ground (arith, w) in
    let (m', run, f) = moved-Moved l (request (sync_status m.next_tx_seq) m) true v h u g in
    (
      m',
      unreverted e l m z ∙ rw (c, d, k, s, t) run,
      record { valid = f.valid; next = f.next; raised = f.raised; reverted = f.reverted },
    )

-- From valid queues, a maximum that is set and no reversion to handle, where in each round the
-- transaction at the position is complete or its peers have been looked for in vain, and no
-- announcement is the largest number, the rounds of the loop do not panic, and each moves the
-- position on by one. This is so for up to as many rounds as there are transactions up to the
-- maximum, which bring the position right behind it.
pub rounds-next :
    (rs : List (Services × List ℕ)) (m : Manager)
    → Queues.IsValid m.sync_store
    → m.reverted_tx_seq ≡ u64_max
    → m.next_tx_seq + length rs ≤ m.max_tx_seq + 1
    → m.max_tx_seq < u64_max
    → AreResolved m.next_tx_seq rs
    → (m' : Manager) × (rounds rs m ≡ ret m') × (m'.next_tx_seq ≡ m.next_tx_seq + length rs)
unfolding rounds
rounds-next [] m v z h u r = (m, refl, omega arith)
rounds-next ((e, l) ∷ rs) m v z h u (r, b, later) =
    let (m', run, k) = round-Moved e l m v z (omega (arith, h)) u b r in
    let (m'', run', g) =
      rounds-next rs m' k.valid (k.reverted ∙ z) (omega (arith, h, k.next, k.raised.0)) k.raised.1
        (subst (λ q. AreResolved q rs) (sym k.next) later) in
    (m'', rw run run', omega (arith, g, k.next))
