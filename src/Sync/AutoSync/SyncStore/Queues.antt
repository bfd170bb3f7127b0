-- ===== src/Sync/AutoSync/SyncStore/Queues.antt =====
-- sync_store.rs keeps every transaction in one queue at most.
use ionian_rust.Base.{
  ℕ, ◌≡◌, ◌≢◌, refl, ◌⊎◌, inl, inr, false, ◌||◌, ◌&&◌, if◌then◌else◌, none, some, ret, arith,
  Bool-cases,
}
use ionian_rust.Base.Dict
use ionian_rust.Sync.AutoSync.TxStore.{has, add}
use ionian_rust.Sync.AutoSync.TxStore.Enumeration
use ionian_rust.Sync.AutoSync.TxStore.Enumeration.{
  add-IsValid, remove-IsValid, random-has, empty-IsValid,
}
use ionian_rust.Sync.AutoSync.SyncStore.{
  SyncStore, new_store, add_pending_tx, upgrade_tx_to_ready, downgrade_tx_to_pending, random_tx,
  remove_tx,
}

-- Both queues are valid and they share no transaction.
pub record IsValid (s : SyncStore) : Type 0 where
  pub pending : Enumeration.IsValid s.pending_txs
  pub ready : Enumeration.IsValid s.ready_txs
  pub disjoint : (q : ℕ) → (has s.pending_txs q && has s.ready_txs q) ≡ false

-- The queue that a transaction is in.
pub data Place : Type 0 where
  nowhere in_pending in_ready : Place

abbrev pub place : SyncStore → ℕ → Place
place s q =
    if has s.ready_txs q then in_ready else if has s.pending_txs q then in_pending else nowhere

abbrev pub added_place : Place → Place
added_place nowhere = in_pending
added_place p = p

abbrev pub upgraded_place : Place → Place
upgraded_place in_pending = in_ready
upgraded_place p = p

abbrev pub downgraded_place : Place → Place
downgraded_place in_ready = in_pending
downgraded_place p = p

-- A store after an operation on the transaction `q` that takes it to the place `p`: the store is
-- valid, and no other transaction has moved.
pub record Placed (s : SyncStore) (q : ℕ) (p : Place) (s' : SyncStore) : Type 0 where
  pub valid : IsValid s'
  pub placed : place s' q ≡ p
  pub others : (r : ℕ) → q ≢ r → place s' r ≡ place s r

-- From valid queues, a transaction in neither is put into the pending one, one in a queue stays
-- there, no other moves, and the queues stay valid and disjoint.
pub add_pending_tx-Placed :
    (s : SyncStore) (q : ℕ)
    → IsValid s
    → Placed s q (added_place (place s q)) (add_pending_tx s q).0
unfolding add_pending_tx
add_pending_tx-Placed s q v = elim (Bool-cases (has s.ready_txs q)) [
  | inl e ↦
      rw (e, add_pending_tx) (record { valid = v; placed = ground arith; others = λ r n. refl })
  | inr e ↦
      let (w, h, _) = add-IsValid s.pending_txs q v.pending in
      rw (e, add_pending_tx)
        (record {
          valid = record {
            pending = w;
            ready = v.ready;
            disjoint = λ r. ground (arith, h r, v.disjoint r, e);
          };
          placed = ground (arith, h q, e);
          others = λ r n. ground (arith, h r);
        })
]

-- From valid queues, without a panic, a pending transaction is moved to the ready queue and one that
-- is not pending stays. No other moves, the answer is whether it was pending, and the queues stay
-- valid and disjoint.
pub upgrade_tx_to_ready-Placed :
    (s : SyncStore) (q : ℕ)
    → IsValid s
    → (s' : SyncStore) × (upgrade_tx_to_ready s q ≡ ret (s', has s.pending_txs q))
      × Placed s q (upgraded_place (place s q)) s'
unfolding upgrade_tx_to_ready
upgrade_tx_to_ready-Placed s q v =
    let (p, run, w, h, _) = remove-IsValid s.pending_txs q v.pending in
    let (x, k, a) = add-IsValid s.ready_txs q v.ready in
    elim (Bool-cases (has s.pending_txs q)) [
      | inr e ↦ (
        s,
        ground (arith, run, e),
        record { valid = v; placed = ground (arith, e); others = λ r n. refl },
      )
      | inl e ↦ (
        record s { pending_txs = p; ready_txs = (add s.ready_txs q).0 },
        ground (arith, run, e, a, v.disjoint q),
        record {
          valid = record {
            pending = w;
            ready = x;
            disjoint = λ r. ground (arith, h r, k r, v.disjoint r);
          };
          placed = ground (arith, h q, k q, e, v.disjoint q);
          others = λ r n. ground (arith, h r, k r);
        },
      )
    ]

-- From valid queues, without a panic, a ready transaction is moved to the pending queue and one that
-- is not ready stays. No other moves, the answer is whether it was ready, and the queues stay valid
-- and disjoint.
pub downgrade_tx_to_pending-Placed :
    (s : SyncStore) (q : ℕ)
    → IsValid s
    → (s' : SyncStore) × (downgrade_tx_to_pending s q ≡ ret (s', has s.ready_txs q))
      × Placed s q (downgraded_place (place s q)) s'
unfolding downgrade_tx_to_pending
downgrade_tx_to_pending-Placed s q v =
    let (p, run, w, h, _) = remove-IsValid s.ready_txs q v.ready in
    let (x, k, a) = add-IsValid s.pending_txs q v.pending in
    elim (Bool-cases (has s.ready_txs q)) [
      | inr e ↦ (
        s,
        ground (arith, run, e),
        record { valid = v; placed = ground (arith, e); others = λ r n. refl },
      )
      | inl e ↦ (
        record s { pending_txs = (add s.pending_txs q).0; ready_txs = p },
        ground (arith, run, e, a, v.disjoint q),
        record {
          valid = record {
            pending = x;
            ready = w;
            disjoint = λ r. ground (arith, h r, k r, v.disjoint r);
          };
          placed = ground (arith, h q, k q, e, v.disjoint q);
          others = λ r n. ground (arith, h r, k r);
        },
      )
    ]

-- From valid queues, without a panic, removing takes a transaction out of the queue that it is in.
-- No other moves, the answer is whether it was in one, and the queues stay valid and disjoint.
pub remove_tx-Placed :
    (s : SyncStore) (q : ℕ)
    → IsValid s
    → (s' : SyncStore) × (remove_tx s q ≡ ret (s', has s.ready_txs q || has s.pending_txs q))
      × Placed s q nowhere s'
unfolding remove_tx
remove_tx-Placed s q v =
    let (p, run, w, h, _) = remove-IsValid s.ready_txs q v.ready in
    let (g, run', x, k, _) = remove-IsValid s.pending_txs q v.pending in
    elim (Bool-cases (has s.ready_txs q)) [
      | inr e ↦ (
        record s { pending_txs = g },
        ground (arith, run, run', e),
        record {
          valid = record {
            pending = x;
            ready = v.ready;
            disjoint = λ r. ground (arith, k r, v.disjoint r);
          };
          placed = ground (arith, e, k q);
          others = λ r n. ground (arith, k r);
        },
      )
      | inl e ↦ (
        record s { ready_txs = p },
        ground (arith, run, e),
        record {
          valid = record {
            pending = v.pending;
            ready = w;
            disjoint = λ r. ground (arith, h r, v.disjoint r);
          };
          placed = ground (arith, e, h q, v.disjoint q);
          others = λ r n. ground (arith, h r);
        },
      )
    ]

-- The random choice from valid queues does not panic. It is a ready transaction if there is one,
-- else a pending one, and none where both queues are empty.
pub random_tx-place :
    (i j : ℕ) (s : SyncStore)
    → IsValid s
    → ((random_tx i j s ≡ ret none) × (s.ready_txs.num ≡ 0) × (s.pending_txs.num ≡ 0))
      ⊎ ((q : ℕ) × (random_tx i j s ≡ ret (some q))
          × ((place s q ≡ in_ready) ⊎ ((s.ready_txs.num ≡ 0) × (place s q ≡ in_pending))))
unfolding random_tx
random_tx-place i j s v = elim (random-has i s.ready_txs v.ready) [
  | inr (q, e, h) ↦ inr (q, rw (e, random_tx) refl, inl (ground arith))
  | inl (e, z) ↦ elim (random-has j s.pending_txs v.pending) [
    | inl (g, y) ↦ inl (rw (e, random_tx) g, z, y)
    | inr (q, g, h) ↦ inr (q, rw (e, random_tx) g, inr (z, ground (arith, h, v.disjoint q)))
  ]
]

pub new_store-IsValid : IsValid new_store
unfolding Dict.get
new_store-IsValid = record { pending = empty-IsValid; ready = empty-IsValid; disjoint = λ q. refl }
