-- ===== src/Tests/AutoSync.antt =====
-- The queues of node/sync/src/auto_sync and a response, at small states.
use ionian_rust.Base.{ℕ, ◌+◌, ◌≡◌, not, ◌&&◌, ◌||◌, if◌then◌else◌, ret, ◌==◌}
use ionian_rust.Sync.AutoSync.TxStore.{TxStore, empty, has, add, remove}
use ionian_rust.Sync.AutoSync.TxStore.Enumeration
use ionian_rust.Sync.AutoSync.SyncStore.{SyncStore, new_store, add_pending_tx, remove_tx}
use ionian_rust.Sync.AutoSync.SyncStore.Queues
use ionian_rust.Sync.AutoSync.SyncStore.Queues.{
  Placed, place, added_place, upgraded_place, downgraded_place, nowhere, in_ready, in_pending,
  add_pending_tx-Placed, new_store-IsValid,
}

-- The elements 4 and 9 in this order.
abbrev queue : TxStore
queue = (add (add empty 4).0 9).0

queue-IsValid : Enumeration.IsValid queue
queue-IsValid =
    (Enumeration.add-IsValid (add empty 4).0 9
      (Enumeration.add-IsValid empty 4 Enumeration.empty-IsValid).0).0

remove-IsValid_example :
    (s' : TxStore) × (remove queue 4 ≡ ret (s', has queue 4))
    × Enumeration.IsValid s'
    × ((r : ℕ) → has s' r ≡ (not (4 == r) && has queue r))
    × (s'.num + (if has queue 4 then 1 else 0) ≡ queue.num)
remove-IsValid_example = Enumeration.remove-IsValid queue 4 queue-IsValid

-- The transaction 7 is pending.
abbrev store : SyncStore
store = (add_pending_tx new_store 7).0

store-IsValid : Queues.IsValid store
store-IsValid = (add_pending_tx-Placed new_store 7 new_store-IsValid).valid

remove_tx-Placed_example :
    (s' : SyncStore) × (remove_tx store 7
      ≡ ret (s', has store.ready_txs 7 || has store.pending_txs 7))
    × Placed store 7 nowhere s'
remove_tx-Placed_example = Queues.remove_tx-Placed store 7 store-IsValid
