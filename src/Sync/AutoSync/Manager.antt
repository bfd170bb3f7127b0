-- ===== src/Sync/AutoSync/Manager.antt =====
-- node/sync/src/auto_sync/manager.rs: the sequential and the pending synchronization of files. What
-- the log store and the sync service answer is an argument; an error of one of them is `none`. An
-- error of the database under the queues is not modelled.
pub mod Announcement
pub mod Reorg
pub mod Progress
pub mod Coverage
pub mod Catchup
use ionian_rust.Base.{
  ℕ, ◌+◌, ◌-◌, ◌%◌, ◌^◌, Bool, true, false, if◌then◌else◌, Option, none, some, List, [], ◌∷◌, ltb,
  leb, ◌==◌, ◌||◌, Run, ret, ◌>>=◌, ◌>>◌, assert,
}
use ionian_rust.Sync.Serial.{
  SyncState, finding_peers, failed, idle, found_peers, connecting_peers, awaiting_download,
  completed, awaiting_outgoing_connection, downloading,
}
use ionian_rust.Sync.AutoSync.SyncStore.{
  SyncStore, get_tx_seq_range, set_next_tx_seq, set_max_tx_seq, add_pending_tx, upgrade_tx_to_ready,
  downgrade_tx_to_pending, remove_tx,
}

abbrev pub find_peers_timeout : ℕ
find_peers_timeout = 30

abbrev pub u64_max : ℕ
u64_max = 2 ^ 64 - 1

pub data SyncRequest : Type 0 where
  sync_status sync_file terminate_file_sync : (tx_seq : ℕ) → SyncRequest

-- The three counters, the stored queues, and the requests that went to the sync service.
pub record Manager : Type 0 where
  pub next_tx_seq : ℕ
  pub max_tx_seq : ℕ
  pub reverted_tx_seq : ℕ
  pub sync_store : SyncStore
  pub requests : List SyncRequest

-- The answers: whether the log store has a transaction, whether its file is complete, the state of
-- the synchronization of a file, and whether the request to start one is answered.
pub record Services : Type 0 where
  pub has_tx : ℕ → Option Bool
  pub check_tx_completed : ℕ → Option Bool
  pub status : ℕ → Option (Option SyncState)
  pub starts : ℕ → Bool
  pub now : ℕ

abbrev pub unwrap_or : Option ℕ → ℕ → ℕ
unwrap_or none n = n
unwrap_or (some m) n = m

pub new_manager : SyncStore → Manager
new_manager s = record {
  next_tx_seq = unwrap_or (get_tx_seq_range s).0 0;
  max_tx_seq = unwrap_or (get_tx_seq_range s).1 u64_max;
  reverted_tx_seq = u64_max;
  sync_store = s;
  requests = [];
}

abbrev pub request : SyncRequest → Manager → Manager
request r m = record m { requests = r ∷ m.requests }

pub set_reverted : Manager → ℕ → Manager × Bool
set_reverted m tx_seq =
    if leb m.reverted_tx_seq tx_seq
    then (m, false)
    else (record m { reverted_tx_seq = tx_seq }, true)

pub handle_on_reorg : Manager → Manager × Option ℕ
handle_on_reorg m =
    if m.reverted_tx_seq == u64_max
    then (m, none)
    else if ltb m.next_tx_seq m.reverted_tx_seq
    then (record m { reverted_tx_seq = u64_max }, none)
    else (
      record m { next_tx_seq = m.reverted_tx_seq; reverted_tx_seq = u64_max },
      some m.next_tx_seq,
    )

pub update_on_announcement : Manager → ℕ → Run Manager
update_on_announcement m announced_tx_seq =
    if m.max_tx_seq == u64_max || ltb m.max_tx_seq announced_tx_seq
    then ret (record m {
      max_tx_seq = announced_tx_seq;
      sync_store = set_max_tx_seq m.sync_store announced_tx_seq;
    })
    else if leb m.next_tx_seq announced_tx_seq
    then ret m
    else do
      (s, added) ← upgrade_tx_to_ready m.sync_store announced_tx_seq
      ret (record m { sync_store = s })

-- The announcements that come in while another task waits.
pub announce_all : List ℕ → Manager → Run Manager
announce_all [] m = ret m
announce_all (a ∷ rest) m = do m' ← update_on_announcement m a; announce_all rest m'

abbrev pub to_next : ℕ → SyncStore → Manager → Manager
to_next next_tx_seq s m = record m {
  next_tx_seq = next_tx_seq;
  sync_store = set_next_tx_seq s next_tx_seq;
}

pub move_forward : Manager → Bool → Manager × Bool
move_forward m pending =
    let s = if pending then (add_pending_tx m.sync_store m.next_tx_seq).0 else m.sync_store in
    if ltb m.max_tx_seq m.next_tx_seq
    then (m, false)
    else (to_next ((m.next_tx_seq + 1) % 2 ^ 64) s m, true)

abbrev pub start_file : Services → Manager → ℕ → Manager × Option Bool
start_file e m tx_seq = (request (sync_file tx_seq) m, if e.starts tx_seq then some false else none)

-- `sync_tx` from the state of the synchronization on.
abbrev pub on_state : Services → Manager → ℕ → SyncState → Manager × Option Bool
on_state e m tx_seq s = elim s [
  | failed reason ↦ start_file e m tx_seq
  | finding_peers since ↦ (m, some (ltb find_peers_timeout (e.now - since)))
  | _ ↦ (m, some false)
]

-- `sync_tx` from the answer to the request for the state on.
abbrev pub on_status : Services → Manager → ℕ → Option (Option SyncState) → Manager × Option Bool
on_status e m tx_seq none = (m, none)
on_status e m tx_seq (some none) = start_file e m tx_seq
on_status e m tx_seq (some (some s)) = on_state e m tx_seq s

-- `sync_tx` from the answer of the log store on.
abbrev pub on_tx : Services → Manager → ℕ → Option Bool → Manager × Option Bool
on_tx e m tx_seq none = (m, none)
on_tx e m tx_seq (some false) = (m, some false)
on_tx e m tx_seq (some true) = on_status e (request (sync_status tx_seq) m) tx_seq (e.status tx_seq)

pub sync_tx : Services → Manager → ℕ → Manager × Option Bool
sync_tx e m tx_seq = on_tx e m tx_seq (e.has_tx tx_seq)

-- `assert!(manager.move_forward(pending).await?)`, with the announcements that came in before.
pub moved : List ℕ → Manager → Bool → Run (Manager × Option Bool)
moved announced m pending = do
  m' ← announce_all announced m
  assert (move_forward m' pending).1
  ret ((move_forward m' pending).0, some true)

-- `sync_once` where it does not move forward, with the announcements that came in before.
abbrev pub stays : List ℕ → Manager → Option Bool → Run (Manager × Option Bool)
stays announced m answer = do m' ← announce_all announced m; ret (m', answer)

-- `sync_once` where the file is not complete.
abbrev pub after_sync : List ℕ → Manager × Option Bool → Run (Manager × Option Bool)
after_sync announced (m, none) = stays announced m none
after_sync announced (m, some false) = stays announced m (some false)
after_sync announced (m, some true) = moved announced m true

-- `sync_once` from the answer of the log store on.
abbrev pub on_check : Services → List ℕ → Manager → Option Bool → Run (Manager × Option Bool)
on_check e announced m none = stays announced m none
on_check e announced m (some true) = moved announced m false
on_check e announced m (some false) = after_sync announced (sync_tx e m m.next_tx_seq)

pub sync_once : Services → List ℕ → Manager → Run (Manager × Option Bool)
sync_once e announced m =
    if ltb m.max_tx_seq m.next_tx_seq
    then ret (m, some false)
    else on_check e announced m (e.check_tx_completed m.next_tx_seq)

-- One round of the loop of `start_sync`.
pub sync_round : Services → List ℕ → Manager → Run (Manager × Option Bool)
sync_round e announced m =
    let (m', terminated) = handle_on_reorg m in
    elim terminated [
      | none ↦ sync_once e announced m'
      | some tx_seq ↦ sync_once e announced (request (terminate_file_sync tx_seq) m')
    ]

-- `sync_pending_tx` where the file is not complete.
abbrev pub after_pending_sync : ℕ → Manager × Option Bool → Run (Manager × Option Bool)
after_pending_sync tx_seq (m, none) = ret (m, none)
after_pending_sync tx_seq (m, some false) = ret (m, some false)
after_pending_sync tx_seq (m, some true) = do
  (s, downgraded) ← downgrade_tx_to_pending m.sync_store tx_seq
  ret (record m { sync_store = s }, some true)

-- `sync_pending_tx` where the file is complete.
abbrev pub drop_completed : Manager → ℕ → Run (Manager × Option Bool)
drop_completed m tx_seq = do
  (s, removed) ← remove_tx m.sync_store tx_seq
  ret (record m { sync_store = s }, some true)

-- `sync_pending_tx` from the answer of the log store on.
abbrev pub on_pending_check : Services → Manager → ℕ → Option Bool → Run (Manager × Option Bool)
on_pending_check e m tx_seq none = ret (m, none)
on_pending_check e m tx_seq (some true) = drop_completed m tx_seq
on_pending_check e m tx_seq (some false) = after_pending_sync tx_seq (sync_tx e m tx_seq)

pub sync_pending_tx : Services → Manager → ℕ → Run (Manager × Option Bool)
sync_pending_tx e m tx_seq = on_pending_check e m tx_seq (e.check_tx_completed tx_seq)
