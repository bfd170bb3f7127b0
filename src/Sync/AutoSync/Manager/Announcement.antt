-- ===== src/Sync/AutoSync/Manager/Announcement.antt =====
-- The sequential synchronization of manager.rs with the announcements that come in meanwhile.
use ionian_rust.Base.{
  ℕ, ◌<◌, ◌≤◌, ◌≡◌, refl, ap, subst, ◌∙◌, Bool, true, false, List, [], ◌∷◌, ltb, leb, ◌==◌, ◌||◌,
  arith, All, Bool-cases, inl, inr, ℕ_discrete, Returns, Returns-bind, Returns-mono,
}
use ionian_rust.Sync.AutoSync.SyncStore.{SyncStore, set_max_tx_seq}
use ionian_rust.Sync.AutoSync.SyncStore.Queues
use ionian_rust.Sync.AutoSync.SyncStore.Queues.{
  Placed, Place, place, upgraded_place, added_place, nowhere, in_ready, in_pending,
  upgrade_tx_to_ready-Placed, add_pending_tx-Placed,
}
use ionian_rust.Sync.AutoSync.Manager.{Manager, u64_max, update_on_announcement, announce_all}

-- Whether a transaction is in a queue.
abbrev pub is_queue : Place → Bool
is_queue nowhere = false
is_queue in_pending = true
is_queue in_ready = true

abbrev pub is_queued : SyncStore → ℕ → Bool
is_queued s q = is_queue (place s q)

-- The same transactions in valid queues.
pub record Keeps (s s' : SyncStore) : Type 0 where
  pub valid : Queues.IsValid s'
  pub queued : (q : ℕ) → is_queued s' q ≡ is_queued s q

-- A manager that an announcement has reached: the queues have the same transactions, and the
-- sequential synchronization stands where it was.
pub record Announced (m m' : Manager) : Type 0 where
  pub keeps : Keeps m.sync_store m'.sync_store
  pub next : m'.next_tx_seq ≡ m.next_tx_seq
  pub reverted : m'.reverted_tx_seq ≡ m.reverted_tx_seq

upgraded-queue : (p : Place) → is_queue (upgraded_place p) ≡ is_queue p
upgraded-queue nowhere = refl
upgraded-queue in_pending = refl
upgraded-queue in_ready = refl

pub Placed-Keeps :
    (s s' : SyncStore) (q : ℕ) (p : Place)
    → Placed s q p s'
    → is_queue p ≡ is_queued s q
    → Keeps s s'
Placed-Keeps s s' q p h e = record {
  valid = h.valid;
  queued = λ r. elim (ℕ_discrete q r) [
    | yes g ↦ subst (λ k. is_queued s' k ≡ is_queued s k) g (ap is_queue h.placed ∙ e)
    | no g ↦ ap is_queue (h.others r g)
  ];
}

set_max-Keeps : (s : SyncStore) (n : ℕ) → Queues.IsValid s → Keeps s (set_max_tx_seq s n)
unfolding set_max_tx_seq
set_max-Keeps s n v = record {
  valid = record { pending = v.pending; ready = v.ready; disjoint = v.disjoint };
  queued = λ q. refl;
}

-- Where the maximum is set, announcements only raise it.
abbrev pub Raised : Manager → Manager → Type 0
Raised m m' = (m.max_tx_seq ≤ m'.max_tx_seq) × (m'.max_tx_seq < u64_max)

-- An announcement does not panic, keeps the queues, and raises a maximum that is set.
pub update_on_announcement-Announced :
    (m : Manager) (a : ℕ)
    → Queues.IsValid m.sync_store
    → Returns
        (λ m'. Announced m m' × (m.max_tx_seq < u64_max → a < u64_max → Raised m m'))
        (update_on_announcement m a)
unfolding update_on_announcement
update_on_announcement-Announced m a v =
    elim (Bool-cases (m.max_tx_seq == u64_max || ltb m.max_tx_seq a)) [
      | inl e ↦ rw e (
        record { keeps = set_max-Keeps m.sync_store a v; next = refl; reverted = refl },
        λ h g. (ground (arith, e, h), g),
      )
      | inr e ↦ elim (Bool-cases (leb m.next_tx_seq a)) [
        | inl g ↦
            rw (e, g)
              (
                record {
                  keeps = record { valid = v; queued = λ q. refl };
                  next = refl;
                  reverted = refl;
                },
                λ h u. (omega arith, h),
              )
        | inr g ↦
            let (s', run, p) = upgrade_tx_to_ready-Placed m.sync_store a v in
            rw (e, g, run)
              (
                record {
                  keeps =
                      Placed-Keeps m.sync_store s' a _ p (upgraded-queue (place m.sync_store a));
                  next = refl;
                  reverted = refl;
                },
                λ h u. (omega arith, h),
              )
      ]
    ]

pub Announced-refl : (m : Manager) → Queues.IsValid m.sync_store → Announced m m
Announced-refl m v = record {
  keeps = record { valid = v; queued = λ q. refl };
  next = refl;
  reverted = refl;
}

Announced-trans : (a b c : Manager) → Announced a b → Announced b c → Announced a c
Announced-trans a b c f g = record {
  keeps = record { valid = g.keeps.valid; queued = λ q. g.keeps.queued q ∙ f.keeps.queued q };
  next = g.next ∙ f.next;
  reverted = g.reverted ∙ f.reverted;
}

pub announce_all-Announced :
    (l : List ℕ) (m : Manager)
    → Queues.IsValid m.sync_store
    → Returns (Announced m) (announce_all l m)
unfolding announce_all
announce_all-Announced [] m v = Announced-refl m v
announce_all-Announced (a ∷ l) m v =
    Returns-bind (Announced m) (Announced m) (update_on_announcement m a) (announce_all l)
      (Returns-mono _ (Announced m) (update_on_announcement m a) (λ m' h. h.0)
        (update_on_announcement-Announced m a v))
      (λ m' h.
        Returns-mono (Announced m') (Announced m) (announce_all l m')
          (λ m'' g. Announced-trans m m' m'' h g) (announce_all-Announced l m' h.keeps.valid))

pub announce_all-Raised :
    (l : List ℕ) (m : Manager)
    → Queues.IsValid m.sync_store
    → m.max_tx_seq < u64_max
    → All (λ a. a < u64_max) l
    → Returns (λ m'. Announced m m' × Raised m m') (announce_all l m)
unfolding announce_all
announce_all-Raised [] m v h g = (Announced-refl m v, (omega arith, h))
announce_all-Raised (a ∷ l) m v h (g, gs) =
    Returns-bind (λ m'. Announced m m' × Raised m m') (λ m'. Announced m m' × Raised m m')
      (update_on_announcement m a) (announce_all l)
      (Returns-mono _ (λ m'. Announced m m' × Raised m m') (update_on_announcement m a)
        (λ m' k. (k.0, k.1 h g)) (update_on_announcement-Announced m a v))
      (λ m' (k, (up, lim)).
        Returns-mono (λ m''. Announced m' m'' × Raised m' m'')
          (λ m''. Announced m m'' × Raised m m'') (announce_all l m')
          (λ m'' (k', (up', lim')). (Announced-trans m m' m'' k k', (omega (arith, up, up'), lim')))
          (announce_all-Raised l m' k.keeps.valid lim gs))
