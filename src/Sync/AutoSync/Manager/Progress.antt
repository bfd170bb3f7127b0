-- ===== src/Sync/AutoSync/Manager/Progress.antt =====
-- `move_forward` and `sync_once` of manager.rs.
use ionian_rust.Base.{
  ℕ, ◌+◌, ◌%◌, ◌^◌, ◌<◌, ◌≤◌, ◌≡◌, refl, ap, ◌∙◌, sym, subst, Bool, true, false, Option, none, some,
  List, [], ◌∷◌, ltb, ◌==◌, not, arith, All, Bool-cases, inl, inr, ◌⊎◌, Run, ret, panic, ℕ_discrete,
  Returns, Returns-ret,
}
use ionian_rust.Sync.Serial.{
  SyncState, finding_peers, failed, idle, found_peers, connecting_peers, awaiting_download,
  completed, awaiting_outgoing_connection, downloading,
}
use ionian_rust.Sync.AutoSync.SyncStore.{SyncStore, set_next_tx_seq, add_pending_tx}
use ionian_rust.Sync.AutoSync.SyncStore.Queues
use ionian_rust.Sync.AutoSync.SyncStore.Queues.{
  Placed, Place, place, upgraded_place, added_place, nowhere, in_ready, in_pending,
  upgrade_tx_to_ready-Placed, add_pending_tx-Placed,
}
use ionian_rust.Sync.AutoSync.Manager.{
  Manager, Services, SyncRequest, u64_max, update_on_announcement, announce_all, move_forward,
  moved, stays, sync_tx, on_status, on_state, on_tx, on_check, request, sync_status, after_sync,
  sync_once,
}
use ionian_rust.Sync.AutoSync.Manager.Announcement.{
  is_queue, is_queued, Announced, announce_all-Announced, announce_all-Raised, Raised,
}

-- What the sequential synchronization leaves: its position has moved past a transaction that is
-- complete or waits in a queue, or it is where it was. No transaction has left the queues.
pub record Progress (e : Services) (m m' : Manager) : Type 0 where
  pub valid : Queues.IsValid m'.sync_store
  pub queued : (q : ℕ) → is_queued m.sync_store q ≡ true → is_queued m'.sync_store q ≡ true
  pub reverted : m'.reverted_tx_seq ≡ m.reverted_tx_seq
  pub next :
      (m'.next_tx_seq ≡ m.next_tx_seq)
      ⊎ ((m'.next_tx_seq ≡ (m.next_tx_seq + 1) % 2 ^ 64)
          × ((e.check_tx_completed m.next_tx_seq ≡ some true)
              ⊎ (is_queued m'.sync_store m.next_tx_seq ≡ true)))

-- A property of the outcome, or another where the code panics.
abbrev pub Unless : {A : Type 0} → Type 0 → (A → Type 0) → Run A → Type 0
Unless Q P (ret a) = P a
Unless Q P panic = Q

-- Announcements that could set a maximum below the position.
abbrev pub Unlimited : Manager → List ℕ → Type 0
Unlimited m l = ¬ ((m.max_tx_seq < u64_max) × All (λ a. a < u64_max) l)

-- Only the requests differ.
abbrev pub Same : Manager → Manager → Type 0
Same m m' = m' ≡ record m { requests = m'.requests }

on_state-Same : (e : Services) (m : Manager) (q : ℕ) (s : SyncState) → Same m (on_state e m q s).0
on_state-Same e m q idle = refl
on_state-Same e m q found_peers = refl
on_state-Same e m q connecting_peers = refl
on_state-Same e m q awaiting_download = refl
on_state-Same e m q completed = refl
on_state-Same e m q (finding_peers since) = refl
on_state-Same e m q (awaiting_outgoing_connection since) = refl
on_state-Same e m q (downloading id a b since) = refl
on_state-Same e m q (failed reason) = refl

on_status-Same :
    (e : Services) (m : Manager) (q : ℕ) (o : Option (Option SyncState))
    → Same m (on_status e m q o).0
on_status-Same e m q none = refl
on_status-Same e m q (some none) = refl
on_status-Same e m q (some (some s)) = on_state-Same e m q s

on_tx-Same : (e : Services) (m : Manager) (q : ℕ) (o : Option Bool) → Same m (on_tx e m q o).0
on_tx-Same e m q none = refl
on_tx-Same e m q (some false) = refl
on_tx-Same e m q (some true) = on_status-Same e (request (sync_status q) m) q (e.status q)

pub sync_tx-Same : (e : Services) (m : Manager) (q : ℕ) → Same m (sync_tx e m q).0
unfolding sync_tx
sync_tx-Same e m q = on_tx-Same e m q (e.has_tx q)

added_is_queue : (p : Place) → is_queue (added_place p) ≡ true
added_is_queue nowhere = refl
added_is_queue in_pending = refl
added_is_queue in_ready = refl

-- The same queues under another number that is stored as the next one.
next-IsValid : (s : SyncStore) (n : ℕ) → Queues.IsValid s → Queues.IsValid (set_next_tx_seq s n)
unfolding set_next_tx_seq
next-IsValid s n v = record { pending = v.pending; ready = v.ready; disjoint = v.disjoint }

-- What `move_forward` leaves where it moves.
pub record Forward (m : Manager) (pending : Bool) (m' : Manager) : Type 0 where
  pub valid : Queues.IsValid m'.sync_store
  pub queued : (q : ℕ) → is_queued m.sync_store q ≡ true → is_queued m'.sync_store q ≡ true
  pub put : (pending ≡ true) → is_queued m'.sync_store m.next_tx_seq ≡ true
  pub next : m'.next_tx_seq ≡ (m.next_tx_seq + 1) % 2 ^ 64
  pub reverted : m'.reverted_tx_seq ≡ m.reverted_tx_seq

pub move_forward-Forward :
    (m : Manager) (pending : Bool)
    → Queues.IsValid m.sync_store
    → ltb m.max_tx_seq m.next_tx_seq ≡ false
    → Forward m pending (move_forward m pending).0
unfolding move_forward set_next_tx_seq
move_forward-Forward m false v h = rw h (record {
  valid = next-IsValid m.sync_store _ v;
  queued = λ q g. g;
  put = λ g. absurd (cc g);
  next = refl;
  reverted = refl;
})
move_forward-Forward m true v h =
    let p = add_pending_tx-Placed m.sync_store m.next_tx_seq v in
    rw h (record {
      valid = next-IsValid _ _ p.valid;
      queued = λ q g. elim (ℕ_discrete m.next_tx_seq q) [
        | yes c ↦
            subst (λ k. is_queued (add_pending_tx m.sync_store m.next_tx_seq).0 k ≡ true) c
              (ap is_queue p.placed ∙ added_is_queue (place m.sync_store m.next_tx_seq))
        | no c ↦ ap is_queue (p.others q c) ∙ g
      ];
      put = λ g. ap is_queue p.placed ∙ added_is_queue (place m.sync_store m.next_tx_seq);
      next = refl;
      reverted = refl;
    })

pub move_forward-answer :
    (m : Manager) (pending : Bool)
    → (move_forward m pending).1 ≡ not (ltb m.max_tx_seq m.next_tx_seq)
unfolding move_forward
move_forward-answer m pending = ground arith

-- A move after announcements, or the panic that one of them below the position causes.
moved-Progress :
    (e : Services) (l : List ℕ) (m : Manager) (pending : Bool)
    → Queues.IsValid m.sync_store
    → m.next_tx_seq ≤ m.max_tx_seq
    → (pending ≡ true) ⊎ (e.check_tx_completed m.next_tx_seq ≡ some true)
    → Unless (Unlimited m l) (λ r. Progress e m r.0) (moved l m pending)
unfolding moved
moved-Progress e l m pending v h why =
    let (n, run, k) = Returns-ret (Announced m) (announce_all l m) (announce_all-Announced l m v) in
    rw run (elim (Bool-cases (ltb n.max_tx_seq n.next_tx_seq)) [
      | inl c ↦
          rw (move_forward-answer n pending, c)
            (λ (lim, below).
              let (k', (up, _)) =
                subst (Returns (λ m'. Announced m m' × Raised m m')) run
                  (announce_all-Raised l m v lim below) in
              ground (arith, c, up, h, k.next))
      | inr c ↦
          let f = move_forward-Forward n pending k.keeps.valid c in
          rw (move_forward-answer n pending, c)
            (record {
              valid = f.valid;
              queued = λ q g. f.queued q (k.keeps.queued q ∙ g);
              reverted = f.reverted ∙ k.reverted;
              next = inr (
                f.next ∙ ap (λ i. (i + 1) % 2 ^ 64) k.next,
                elim why [
                  | inl p ↦ inr (
                      subst (λ i. is_queued (move_forward n pending).0.sync_store i ≡ true) k.next
                        (f.put p))
                  | inr d ↦ inl d
                ],
              );
            })
    ])

-- No move, after announcements.
stays-Progress :
    (e : Services) (l : List ℕ) (m : Manager) (o : Option Bool)
    → Queues.IsValid m.sync_store
    → Unless (Unlimited m l) (λ r. Progress e m r.0) (stays l m o)
stays-Progress e l m o v =
    let (n, run, k) = Returns-ret (Announced m) (announce_all l m) (announce_all-Announced l m v) in
    rw (run, stays)
      (record {
        valid = k.keeps.valid;
        queued = λ q g. k.keeps.queued q ∙ g;
        reverted = k.reverted;
        next = inl k.next;
      })

Unless-mono :
    {A : Type 0} (Q : Type 0) (P P' : A → Type 0)
    → ((a : A) → P a → P' a)
    → (m : Run A) → Unless Q P m
    → Unless Q P' m
Unless-mono Q P P' f (ret a) h = f a h
Unless-mono Q P P' f panic h = h

Progress-requests :
    (e : Services) (m : Manager) (q : List SyncRequest) (r : Manager × Option Bool)
    → Progress e (record m { requests = q }) r.0
    → Progress e m r.0
Progress-requests e m q r h = record {
  valid = h.valid;
  queued = h.queued;
  reverted = h.reverted;
  next = h.next;
}

after_sync-Progress :
    (e : Services) (l : List ℕ) (m m' : Manager) (o : Option Bool)
    → Same m m'
    → Queues.IsValid m.sync_store
    → m.next_tx_seq ≤ m.max_tx_seq
    → Unless (Unlimited m l) (λ r. Progress e m r.0) (after_sync l (m', o))
after_sync-Progress e l m m' o s v h =
    subst (λ k. Unless (Unlimited m l) (λ r. Progress e m r.0) (after_sync l (k, o))) (sym s) (go o)
  where
    n : Manager
    n = record m { requests = m'.requests }

    go : (o : Option Bool) → Unless (Unlimited m l) (λ r. Progress e m r.0) (after_sync l (n, o))
    go none =
        Unless-mono _ _ _ (Progress-requests e m m'.requests) (stays l n none)
          (stays-Progress e l n none v)
    go (some false) =
        Unless-mono _ _ _ (Progress-requests e m m'.requests) (stays l n (some false))
          (stays-Progress e l n (some false) v)
    go (some true) =
        Unless-mono _ _ _ (Progress-requests e m m'.requests) (moved l n true)
          (moved-Progress e l n true v h (inl refl))

-- From valid queues, `sync_once` panics only where no maximum is set or an announcement is the
-- largest number; else it makes progress.
pub sync_once-Progress :
    (e : Services) (l : List ℕ) (m : Manager)
    → Queues.IsValid m.sync_store
    → Unless (Unlimited m l) (λ r. Progress e m r.0) (sync_once e l m)
unfolding sync_once
sync_once-Progress e l m v = elim (Bool-cases (ltb m.max_tx_seq m.next_tx_seq)) [
  | inl c ↦ rw c (record { valid = v; queued = λ q g. g; reverted = refl; next = inl refl })
  | inr c ↦ rw c (go (e.check_tx_completed m.next_tx_seq) refl (ground (arith, c)))
]
  where
    go :
        (o : Option Bool)
        → e.check_tx_completed m.next_tx_seq ≡ o
        → m.next_tx_seq ≤ m.max_tx_seq
        → Unless (Unlimited m l) (λ r. Progress e m r.0) (on_check e l m o)
    go none w h = stays-Progress e l m none v
    go (some true) w h = moved-Progress e l m false v h (inr w)
    go (some false) w h =
        after_sync-Progress e l m (sync_tx e m m.next_tx_seq).0 (sync_tx e m m.next_tx_seq).1
          (sync_tx-Same e m m.next_tx_seq) v h

Unless-returns :
    {A : Type 0} (Q : Type 0) (P : A → Type 0) (m : Run A)
    → ¬ Q
    → Unless Q P m
    → (a : A) × (m ≡ ret a) × P a
Unless-returns Q P (ret a) n h = (a, refl, h)
Unless-returns Q P panic n h = absurd (n h)

-- From valid queues, where a maximum is set and no announcement that comes in meanwhile is the
-- largest number, `sync_once` does not panic: its position moves past a transaction that is complete
-- or waits in a queue, or it stays, and no transaction leaves the queues.
pub sync_once-returns :
    (e : Services) (l : List ℕ) (m : Manager)
    → Queues.IsValid m.sync_store
    → m.max_tx_seq < u64_max
    → All (λ a. a < u64_max) l
    → (r : Manager × Option Bool) × (sync_once e l m ≡ ret r) × Progress e m r.0
sync_once-returns e l m v h b =
    Unless-returns (Unlimited m l) (λ r. Progress e m r.0) (sync_once e l m) (λ n. n (h, b))
      (sync_once-Progress e l m v)

-- Where no maximum is set and the transaction at the position is complete, an announcement from
-- below the position that comes in while the log store is asked makes `sync_once` panic.
pub sync_once_announced :
    (e : Services) (m : Manager) (a : ℕ)
    → m.max_tx_seq ≡ u64_max
    → m.next_tx_seq ≤ u64_max
    → a < m.next_tx_seq
    → e.check_tx_completed m.next_tx_seq ≡ some true
    → sync_once e (a ∷ []) m ≡ panic
unfolding sync_once moved announce_all update_on_announcement move_forward
sync_once_announced e m a h n b d =
    let c : ltb m.max_tx_seq m.next_tx_seq ≡ false = ground (arith, h, n) in
    let u : (m.max_tx_seq == u64_max) ≡ true = ground (arith, h) in
    let g : ltb a m.next_tx_seq ≡ true = ground (arith, b) in rw (c, d, u, g) refl
