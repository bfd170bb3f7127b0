-- ===== src/Tests/Manager.antt =====
-- The manager of node/sync/src/auto_sync, at small states.
use ionian_rust.Base.{
  ◌+◌, ◌≡◌, refl, ret, panic, [], ◌∷◌, arith, true, false, some, none, Option, Bool, false, ltb,
  ◌&&◌, if◌then◌else◌, inl, inr, ℕ, List, length,
}
use ionian_rust.Sync.Serial.{finding_peers}
use ionian_rust.Sync.AutoSync.SyncStore.{new_store, get_tx_seq_range, set_next_tx_seq}
use ionian_rust.Sync.AutoSync.SyncStore.Queues.{new_store-IsValid}
use ionian_rust.Sync.AutoSync.Manager.{
  Manager, Services, u64_max, set_reverted, handle_on_reorg, new_manager, sync_once,
}
use ionian_rust.Sync.AutoSync.Manager.Reorg
use ionian_rust.Sync.AutoSync.Manager.Reorg.{revert_all, lowest, reaches}
use ionian_rust.Sync.AutoSync.Manager.Progress
use ionian_rust.Sync.AutoSync.Manager.Progress.{Progress}
use ionian_rust.Sync.AutoSync.Manager.Coverage
use ionian_rust.Sync.AutoSync.Manager.Coverage.{
  System, IsCovered, Reachable, reverts, hears, start, then_step,
}
use ionian_rust.Sync.AutoSync.Manager.Catchup
use ionian_rust.Sync.AutoSync.Manager.Catchup.{rounds}

-- The position 4 is stored, and there is no maximum.
abbrev manager : Manager
manager = record {
  next_tx_seq = 4;
  max_tx_seq = u64_max;
  reverted_tx_seq = u64_max;
  sync_store = set_next_tx_seq new_store 4;
  requests = [];
}

-- At the beginning of a sequence of seven transactions.
abbrev limited : Manager
limited = record manager { next_tx_seq = 0; max_tx_seq = 6; sync_store = new_store }

-- Every file is complete.
abbrev services : Services
services = record {
  has_tx = λ q. some true;
  check_tx_completed = λ q. some true;
  status = λ q. some none;
  starts = λ q. true;
  now = 100;
}

handle_on_reorg-revert_all_example : handle_on_reorg (revert_all (5 ∷ 3 ∷ []) manager) ≡ (
  record manager { next_tx_seq = lowest 4 (5 ∷ 3 ∷ []); reverted_tx_seq = u64_max },
  if reaches (5 ∷ 3 ∷ []) 4 then some 4 else none,
)
handle_on_reorg-revert_all_example =
    Reorg.handle_on_reorg-revert_all manager (5 ∷ 3 ∷ []) refl (omega arith, (omega arith, tt))

stored : (get_tx_seq_range manager.sync_store).0 ≡ some 4
unfolding get_tx_seq_range set_next_tx_seq
stored = refl

restart_after_reorg_example :
    ((handle_on_reorg (set_reverted manager 3).0).0.next_tx_seq ≡ 3)
    × ((new_manager (handle_on_reorg (set_reverted manager 3).0).0.sync_store).next_tx_seq ≡ 4)
restart_after_reorg_example =
    Reorg.restart_after_reorg manager 3 refl (omega arith) (omega arith) stored

sync_once-returns_example :
    (r : Manager × Option Bool) × (sync_once services (2 ∷ []) limited ≡ ret r)
    × Progress services limited r.0
sync_once-returns_example =
    Progress.sync_once-returns services (2 ∷ []) limited new_store-IsValid (omega arith)
      (omega arith, tt)

sync_once_announced_example : sync_once services (2 ∷ []) manager ≡ panic
sync_once_announced_example =
    Progress.sync_once_announced services manager 2 refl (omega arith) (omega arith) refl

-- Nothing is complete yet.
abbrev system : System
system = record { is_complete = λ q. false; manager = limited; events = [] }

system-IsCovered : IsCovered system
system-IsCovered = record {
  valid = new_store-IsValid;
  covered = λ q h k l. absurd (omega (arith, h));
}

-- The transactions from 3 on are reverted, and the manager hears of it.
abbrev reverted : System
reverted = record system { is_complete = λ r. ltb r 3 && false; events = 3 ∷ [] }

abbrev heard : System
heard = record reverted { manager = (set_reverted limited 3).0; events = [] }

Reachable-IsCovered_example : IsCovered heard
Reachable-IsCovered_example =
    Coverage.Reachable-IsCovered system heard system-IsCovered
      (then_step reverted heard (then_step system reverted start (reverts 3)) (hears 3 [] refl))

-- No file is complete, and the search for peers has taken too long.
abbrev searching : Services
searching = record services {
  check_tx_completed = λ q. some false;
  status = λ q. some (some (finding_peers 10));
}

-- The second of three rounds finds no peers, and hears of a file from before and of a later one.
abbrev three_rounds : List (Services × List ℕ)
three_rounds = (services, []) ∷ (searching, 0 ∷ 9 ∷ []) ∷ (services, []) ∷ []

rounds-next_example :
    (m' : Manager) × (rounds three_rounds limited ≡ ret m')
    × (m'.next_tx_seq ≡ 0 + length three_rounds)
rounds-next_example =
    Catchup.rounds-next three_rounds limited new_store-IsValid refl (omega arith) (omega arith) (
      inl refl,
      tt,
      (
        inr (refl, refl, 10, refl, omega arith),
        (omega arith, (omega arith, tt)),
        (inl refl, tt, tt),
      ),
    )
