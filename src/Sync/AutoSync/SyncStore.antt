-- ===== src/Sync/AutoSync/SyncStore.antt =====
-- node/sync/src/auto_sync/sync_store.rs: the two queues, of pending and of ready transactions, and
-- the range of transactions that were seen. A batch over both queues touches different keys of the
-- database, so its writes are applied one after the other.
pub mod Queues
use ionian_rust.Base.{ℕ, Bool, true, false, if◌then◌else◌, Option, none, some, Run, ret, ◌>>=◌}
use ionian_rust.Sync.AutoSync.TxStore.{TxStore, empty, has, add, random, remove}

pub record SyncStore : Type 0 where
  pub next_tx_seq : Option ℕ
  pub max_tx_seq : Option ℕ
  pub pending_txs : TxStore
  pub ready_txs : TxStore

abbrev pub new_store : SyncStore
new_store = record { next_tx_seq = none; max_tx_seq = none; pending_txs = empty; ready_txs = empty }

unfoldable pub get_tx_seq_range : SyncStore → Option ℕ × Option ℕ
get_tx_seq_range s = (s.next_tx_seq, s.max_tx_seq)

unfoldable pub set_next_tx_seq : SyncStore → ℕ → SyncStore
set_next_tx_seq s tx_seq = record s { next_tx_seq = some tx_seq }

unfoldable pub set_max_tx_seq : SyncStore → ℕ → SyncStore
set_max_tx_seq s tx_seq = record s { max_tx_seq = some tx_seq }

pub add_pending_tx : SyncStore → ℕ → SyncStore × Bool
add_pending_tx s tx_seq =
    if has s.ready_txs tx_seq
    then (s, false)
    else let (p, added) = add s.pending_txs tx_seq in (record s { pending_txs = p }, added)

pub upgrade_tx_to_ready : SyncStore → ℕ → Run (SyncStore × Bool)
upgrade_tx_to_ready s tx_seq = do
  (p, removed) ← remove s.pending_txs tx_seq
  if removed
      then ret (
        record s { pending_txs = p; ready_txs = (add s.ready_txs tx_seq).0 },
        (add s.ready_txs tx_seq).1,
      )
      else ret (s, false)

pub downgrade_tx_to_pending : SyncStore → ℕ → Run (SyncStore × Bool)
downgrade_tx_to_pending s tx_seq = do
  (r, removed) ← remove s.ready_txs tx_seq
  if removed
      then ret (
        record s { pending_txs = (add s.pending_txs tx_seq).0; ready_txs = r },
        (add s.pending_txs tx_seq).1,
      )
      else ret (s, false)

-- The choices of the random generator are numbers.
pub random_tx : ℕ → ℕ → SyncStore → Run (Option ℕ)
random_tx pick_ready pick_pending s = do
  r ← random pick_ready s.ready_txs
  elim r [ some val ↦ ret (some val) | none ↦ random pick_pending s.pending_txs ]

pub remove_tx : SyncStore → ℕ → Run (SyncStore × Bool)
remove_tx s tx_seq = do
  (r, removed) ← remove s.ready_txs tx_seq
  if removed
      then ret (record s { ready_txs = r }, true)
      else do (p, gone) ← remove s.pending_txs tx_seq; ret (record s { pending_txs = p }, gone)
