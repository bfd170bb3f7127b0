-- ===== src/Sync/AutoSync/Manager/Coverage.antt =====
-- The steps of manager.rs together with the log store and the channel of its events.
use ionian_rust.Base.{
  ℕ, ◌<◌, ◌≡◌, refl, ap, ◌∙◌, sym, subst, Bool, true, false, Option, none, some, List, [], ◌∷◌,
  ◌++◌, ltb, ◌==◌, ◌||◌, ◌&&◌, arith, All, Bool-cases, inl, inr, ◌⊎◌, ret, ℕ_discrete, Returns,
}
use ionian_rust.Sync.AutoSync.SyncStore.Queues
use ionian_rust.Sync.AutoSync.SyncStore.Queues.{
  Placed, Place, place, downgraded_place, nowhere, in_ready, in_pending,
  downgrade_tx_to_pending-Placed, remove_tx-Placed,
}
use ionian_rust.Sync.AutoSync.Manager.{
  Manager, Services, SyncRequest, u64_max, set_reverted, handle_on_reorg, update_on_announcement,
  sync_once, sync_pending_tx, on_pending_check, after_pending_sync, sync_tx,
}
use ionian_rust.Sync.AutoSync.Manager.Announcement.{
  is_queue, is_queued, Placed-Keeps, Announced, update_on_announcement-Announced,
}
use ionian_rust.Sync.AutoSync.Manager.Reorg.{set_reverted-min}
use ionian_rust.Sync.AutoSync.Manager.Progress.{
  Progress, Unless, Unlimited, sync_once-Progress, Same, sync_tx-Same,
}

-- The log store's complete transactions, the manager, and the reversions that it has not heard of.
pub record System : Type 0 where
  pub is_complete : ℕ → Bool
  pub manager : Manager
  pub events : List ℕ

-- What the log store answers is so.
abbrev pub Agrees : Services → (ℕ → Bool) → Type 0
Agrees e is_complete = (q : ℕ) (b : Bool) → e.check_tx_completed q ≡ some b → is_complete q ≡ b

abbrev pub with_manager : System → Manager → System
with_manager s m = record s { manager = m }

-- One step. A transaction is completed, or the transactions from one on are reverted, which is
-- announced on the channel; the manager hears of a reversion, handles it, hears of an announcement,
-- or works on the transaction at its position, or on one of the queues.
pub data Step (s : System) : System → Type 0 where
  completes : (q : ℕ) → Step s (record s { is_complete = λ r. q == r || s.is_complete r })
  reverts :
      (q : ℕ)
      → Step s
          (record s { is_complete = λ r. ltb r q && s.is_complete r; events = s.events ++ q ∷ [] })
  hears :
      (q : ℕ) (rest : List ℕ)
      → s.events ≡ q ∷ rest
      → Step s (record s { manager = (set_reverted s.manager q).0; events = rest })
  handles : Step s (with_manager s (handle_on_reorg s.manager).0)
  announces :
      (a : ℕ) (m : Manager) → update_on_announcement s.manager a ≡ ret m → Step s (with_manager s m)
  syncs :
      (e : Services) (l : List ℕ) (r : Manager × Option Bool)
      → Agrees e s.is_complete
      → sync_once e l s.manager ≡ ret r
      → Step s (with_manager s r.0)
  syncs_pending :
      (e : Services) (q : ℕ) (r : Manager × Option Bool)
      → Agrees e s.is_complete
      → sync_pending_tx e s.manager q ≡ ret r
      → Step s (with_manager s r.0)

-- Any number of steps from a system.
pub data Reachable (a : System) : System → Type 0 where
  start : Reachable a a
  then_step : (s t : System) → Reachable a s → Step s t → Reachable a t

-- The queues are valid, and every transaction below the position that no reversion has reached is
-- complete or in a queue.
pub record IsCovered (s : System) : Type 0 where
  pub valid : Queues.IsValid s.manager.sync_store
  pub covered :
      (q : ℕ)
      → q < s.manager.next_tx_seq
      → q < s.manager.reverted_tx_seq
      → All (λ r. q < r) s.events
      → (s.is_complete q || is_queued s.manager.sync_store q) ≡ true

-- What work on a queue leaves: a transaction has left the queues only when it is complete.
pub record Kept (e : Services) (q : ℕ) (m m' : Manager) : Type 0 where
  pub valid : Queues.IsValid m'.sync_store
  pub queued :
      (r : ℕ)
      → is_queued m.sync_store r ≡ true
      → (is_queued m'.sync_store r ≡ true) ⊎ ((q ≡ r) × (e.check_tx_completed q ≡ some true))
  pub next : m'.next_tx_seq ≡ m.next_tx_seq
  pub reverted : m'.reverted_tx_seq ≡ m.reverted_tx_seq

downgraded_queue : (p : Place) → is_queue (downgraded_place p) ≡ is_queue p
downgraded_queue nowhere = refl
downgraded_queue in_pending = refl
downgraded_queue in_ready = refl

-- From valid queues, work on a transaction of a queue does not panic, its position and its reversion
-- stay, and no transaction leaves the queues but that one, when it is complete.
pub sync_pending_tx-Kept :
    (e : Services) (m : Manager) (q : ℕ)
    → Queues.IsValid m.sync_store
    → Returns (λ r. Kept e q m r.0) (sync_pending_tx e m q)
unfolding sync_pending_tx
sync_pending_tx-Kept e m q v = go (e.check_tx_completed q) refl
  where
    finish :
        (l : List SyncRequest) (o : Option Bool)
        → Returns (λ r. Kept e q m r.0) (after_pending_sync q (record m { requests = l }, o))
    finish l none = record { valid = v; queued = λ r h. inl h; next = refl; reverted = refl }
    finish l (some false) = record {
      valid = v;
      queued = λ r h. inl h;
      next = refl;
      reverted = refl;
    }
    finish l (some true) =
        let (s', run, p) = downgrade_tx_to_pending-Placed m.sync_store q v in
        let k = Placed-Keeps m.sync_store s' q _ p (downgraded_queue (place m.sync_store q)) in
        rw run (record {
          valid = k.valid;
          queued = λ r h. inl (k.queued r ∙ h);
          next = refl;
          reverted = refl;
        })

    after :
        (n : Manager) (o : Option Bool)
        → Same m n
        → Returns (λ r. Kept e q m r.0) (after_pending_sync q (n, o))
    after n o s =
        subst (λ k. Returns (λ r. Kept e q m r.0) (after_pending_sync q (k, o))) (sym s)
          (finish n.requests o)

    go :
        (o : Option Bool)
        → e.check_tx_completed q ≡ o
        → Returns (λ r. Kept e q m r.0) (on_pending_check e m q o)
    go none w = record { valid = v; queued = λ r h. inl h; next = refl; reverted = refl }
    go (some true) w =
        let (s', run, p) = remove_tx-Placed m.sync_store q v in
        rw run (record {
          valid = p.valid;
          queued = λ r h. elim (ℕ_discrete q r) [
            | yes c ↦ inr (c, w)
            | no c ↦ inl (ap is_queue (p.others r c) ∙ h)
          ];
          next = refl;
          reverted = refl;
        })
    go (some false) w = after (sync_tx e m q).0 (sync_tx e m q).1 (sync_tx-Same e m q)

All-snoc : (r q : ℕ) (l : List ℕ) → All (λ x. r < x) (l ++ q ∷ []) → All (λ x. r < x) l × (r < q)
All-snoc r q [] (h, _) = (tt, h)
All-snoc r q (x ∷ l) (h, hs) = let (k, g) = All-snoc r q l hs in ((h, k), g)

handle_on_reorg-IsCovered :
    (s : System) → IsCovered s → IsCovered (with_manager s (handle_on_reorg s.manager).0)
unfolding handle_on_reorg
handle_on_reorg-IsCovered s c = elim (Bool-cases (s.manager.reverted_tx_seq == u64_max)) [
  | inl e ↦ rw e (record { valid = c.valid; covered = c.covered })
  | inr e ↦ elim (Bool-cases (ltb s.manager.next_tx_seq s.manager.reverted_tx_seq)) [
    | inl g ↦
        rw (e, g)
          (record { valid = c.valid; covered = λ q h k l. c.covered q h (ground (arith, g, h)) l })
    | inr g ↦
        rw (e, g)
          (record { valid = c.valid; covered = λ q h k l. c.covered q (ground (arith, g, h)) h l })
  ]
]

Announced-IsCovered :
    (s : System) (m : Manager) → IsCovered s → Announced s.manager m → IsCovered (with_manager s m)
Announced-IsCovered s m c a = record {
  valid = a.keeps.valid;
  covered = λ q h k l.
      rw (a.keeps.queued q)
        (c.covered q (omega (arith, h, a.next)) (omega (arith, k, a.reverted)) l);
}

or_left : (a b : Bool) → a ≡ true → (a || b) ≡ true
or_left true b h = refl
or_left false b h = absurd (cc h)

or_right : (a b : Bool) → b ≡ true → (a || b) ≡ true
or_right true b h = refl
or_right false b h = h

or_first : (a b : Bool) → b ≡ false → (a || b) ≡ true → a ≡ true
or_first true b e h = refl
or_first false b e h = absurd (cc (e, h))

or_true : (a b b' : Bool) → (b ≡ true → b' ≡ true) → (a || b) ≡ true → (a || b') ≡ true
or_true true b b' f h = refl
or_true false b b' f h = f h

Progress-IsCovered :
    (s : System) (e : Services) (m : Manager)
    → Agrees e s.is_complete
    → IsCovered s
    → Progress e s.manager m
    → IsCovered (with_manager s m)
Progress-IsCovered s e m g c p = record {
  valid = p.valid;
  covered = λ q h k l. elim (p.next) [
    | inl n ↦ old q (omega (arith, h, n)) (omega (arith, k, p.reverted)) l
    | inr (n, why) ↦ elim (ℕ_discrete q s.manager.next_tx_seq) [
      | no d ↦ old q (omega (arith, h, n, d)) (omega (arith, k, p.reverted)) l
      | yes d ↦ elim why [
        | inl w ↦
            subst (λ i. (s.is_complete i || is_queued m.sync_store i) ≡ true) (sym d)
              (or_left _ _ (g s.manager.next_tx_seq true w))
        | inr w ↦
            subst (λ i. (s.is_complete i || is_queued m.sync_store i) ≡ true) (sym d)
              (or_right (s.is_complete s.manager.next_tx_seq) _ w)
      ]
    ]
  ];
}
  where
    old :
        (q : ℕ)
        → q < s.manager.next_tx_seq
        → q < s.manager.reverted_tx_seq
        → All (λ r. q < r) s.events
        → (s.is_complete q || is_queued m.sync_store q) ≡ true
    old q h k l = or_true (s.is_complete q) _ _ (p.queued q) (c.covered q h k l)

Kept-IsCovered :
    (s : System) (e : Services) (q : ℕ) (m : Manager)
    → Agrees e s.is_complete
    → IsCovered s
    → Kept e q s.manager m
    → IsCovered (with_manager s m)
Kept-IsCovered s e q m g c p = record {
  valid = p.valid;
  covered = λ r h k l.
      let old = c.covered r (omega (arith, h, p.next)) (omega (arith, k, p.reverted)) l in
      elim (Bool-cases (is_queued s.manager.sync_store r)) [
        | inl i ↦ elim (p.queued r i) [
          | inl j ↦ or_right (s.is_complete r) _ j
          | inr (j, w) ↦
              or_left (s.is_complete r) _ (subst (λ i. s.is_complete i ≡ true) j (g q true w))
        ]
        | inr i ↦ or_left (s.is_complete r) _ (or_first (s.is_complete r) _ i old)
      ];
}

Step-IsCovered : (s t : System) → Step s t → IsCovered s → IsCovered t
Step-IsCovered s _ (completes q) c = record {
  valid = c.valid;
  covered = λ r h k l. ground (arith, c.covered r h k l);
}
Step-IsCovered s _ (reverts q) c = record {
  valid = c.valid;
  covered =
      λ r h k l. let (l', b) = All-snoc r q s.events l in ground (arith, c.covered r h k l', b);
}
Step-IsCovered s _ (hears q rest w) c = rw (set_reverted-min s.manager q) (record {
  valid = c.valid;
  covered = λ r h k l.
      c.covered r h (omega (arith, k)) (subst (All (λ x. r < x)) (sym w) (omega (arith, k), l));
})
Step-IsCovered s _ handles c = handle_on_reorg-IsCovered s c
Step-IsCovered s _ (announces a m w) c =
    Announced-IsCovered s m c
      (subst (Returns _) w (update_on_announcement-Announced s.manager a c.valid)).0
Step-IsCovered s _ (syncs e l r g w) c =
    Progress-IsCovered s e r.0 g c
      (subst (Unless (Unlimited s.manager l) _) w (sync_once-Progress e l s.manager c.valid))
Step-IsCovered s _ (syncs_pending e q r g w) c =
    Kept-IsCovered s e q r.0 g c (subst (Returns _) w (sync_pending_tx-Kept e s.manager q c.valid))

-- From a covered system, after any steps in which the manager does not panic and is not restarted,
-- the queues are valid, and every transaction below the position that no reversion has reached,
-- handled or under way, is complete or waits in a queue.
pub Reachable-IsCovered : (a s : System) → IsCovered a → Reachable a s → IsCovered s
Reachable-IsCovered a _ c start = c
Reachable-IsCovered a _ c (then_step s t r step) =
    Step-IsCovered s t step (Reachable-IsCovered a s c r)
