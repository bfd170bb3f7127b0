-- ===== src/ChunkPool/WriteControl/Writers.antt =====
-- The count of writers of chunk_write_control.rs against the slots that are being written.
use ionian_rust.Base.{
  ℕ, zero, suc, ◌+◌, ◌-◌, ◌≤◌, ◌≡◌, refl, ◌∙◌, false, none, some, length, ℕ_discrete, arith, inl,
  inr, Option-cases, leb, ret,
}
use ionian_rust.Base.Dict
use ionian_rust.Base.Dict.{total, Dict}
use ionian_rust.ChunkPool.Types.{DataRoot}
use ionian_rust.ChunkPool.WriteControl.{
  SlotStatus, writing, finished, CtrlWindow, slot, move_forward, FileWriteCtrl, ChunkPoolWriteCtrl,
  get_file, remove_file, on_write_succeeded, on_write_failed,
}
use ionian_rust.ChunkPool.WriteControl.Window
use ionian_rust.ChunkPool.WriteControl.Window.{
  IsBounded, marked, completed, taken, freed, finish_writing_lem, completed-IsValid,
  rollback_writing_lem, freed-IsValid,
}

abbrev pub writer : SlotStatus → ℕ
writer writing = 1
writer finished = 0

-- The slots of a window that are being written, and those of all files.
abbrev pub writers : FileWriteCtrl → ℕ
writers f = total writer f.window.slots

abbrev pub in_flight : ChunkPoolWriteCtrl → ℕ
in_flight c = total writers c.files

total-move_forward :
    (fuel : ℕ) (w : CtrlWindow)
    → Dict.Distinct ℕ_discrete w.slots
    → total writer (move_forward fuel w).slots ≡ total writer w.slots
unfolding move_forward
total-move_forward zero w d = refl
total-move_forward (suc fuel) w d = elim (Option-cases (slot w w.left_boundary)) [
  | inl e ↦ rw (e, move_forward) refl
  | inr (writing, e) ↦ rw (e, move_forward) refl
  | inr (finished, e) ↦
      rw (e, move_forward)
        (total-move_forward fuel _ (Dict.remove-Distinct ℕ_discrete w.left_boundary w.slots d)
          ∙ ground (arith, e, Dict.total-remove ℕ_discrete writer w.left_boundary w.slots d))
]

-- Finishing a segment, or giving it up, ends one writer; starting one adds one.
total-completed :
    (w : CtrlWindow) (index : ℕ)
    → slot w index ≡ some writing
    → Dict.Distinct ℕ_discrete w.slots
    → total writer (completed w index).slots + 1 ≡ total writer w.slots
total-completed w index h d = ground (
  arith,
  total-move_forward (length (marked w index).slots) (marked w index)
      (Dict.insert-Distinct ℕ_discrete index finished w.slots d),
  Dict.total-insert ℕ_discrete writer index finished w.slots,
)

total-freed :
    (w : CtrlWindow) (index : ℕ)
    → slot w index ≡ some writing
    → Dict.Distinct ℕ_discrete w.slots
    → total writer (freed w index).slots + 1 ≡ total writer w.slots
total-freed w index h d = ground (arith, Dict.total-remove ℕ_discrete writer index w.slots d)

pub total-taken :
    (w : CtrlWindow) (index : ℕ)
    → slot w index ≡ none
    → total writer (taken w index).slots ≡ total writer w.slots + 1
total-taken w index h = ground (arith, Dict.total-insert ℕ_discrete writer index writing w.slots)

-- One entry for a file, each window valid, and no more slots being written than writers counted.
pub record IsValid (c : ChunkPoolWriteCtrl) : Type 0 where
  pub distinct : Dict.Distinct ℕ_discrete c.files
  pub windows :
      (root : DataRoot) (f : FileWriteCtrl) → get_file c root ≡ some f → Window.IsValid f.window
  pub counted : in_flight c ≤ c.total_writings
  pub limited : c.total_writings ≤ c.config.max_writings

-- Storing a valid control for a file, with the counts adjusted.
pub put-IsValid :
    (c : ChunkPoolWriteCtrl) (root : DataRoot) (f : FileWriteCtrl) (n : ℕ)
    → IsValid c
    → Window.IsValid f.window
    → total writers (Dict.insert ℕ_discrete root f c.files) ≤ n
    → n ≤ c.config.max_writings
    → IsValid (record c { files = Dict.insert ℕ_discrete root f c.files; total_writings = n })
unfolding get_file
put-IsValid c root f n v w le lim = record {
  distinct = Dict.insert-Distinct ℕ_discrete root f c.files v.distinct;
  windows = λ r g h. ground (arith, Dict.get-insert ℕ_discrete root r f c.files, v.windows r g);
  counted = le;
  limited = lim;
}

pub remove-IsValid :
    (c : ChunkPoolWriteCtrl) (root : DataRoot) → IsValid c → IsValid (remove_file c root).0
unfolding get_file remove_file
remove-IsValid c root v = record {
  distinct = Dict.remove-Distinct ℕ_discrete root c.files v.distinct;
  windows = λ r g h. ground (arith, Dict.get-remove ℕ_discrete root r c.files, v.windows r g);
  counted = ground (arith, Dict.total-remove ℕ_discrete writers root c.files v.distinct, v.counted);
  limited = v.limited;
}

-- In a valid state, a report of success for a slot that is being written does not hit an assertion.
-- The answer is whether the window has moved past the last segment; the state stays valid, and one
-- writer is taken off both the slots and the count.
pub on_write_succeeded-IsValid :
    (c : ChunkPoolWriteCtrl) (root : DataRoot) (seg_index : ℕ) (f : FileWriteCtrl)
    → IsValid c
    → get_file c root ≡ some f
    → slot f.window seg_index ≡ some writing
    → (c' : ChunkPoolWriteCtrl) × (on_write_succeeded c root seg_index
        ≡ ret (c', leb f.total_segments (completed f.window seg_index).left_boundary))
      × IsValid c'
      × (c'.total_writings + 1 ≡ c.total_writings)
      × (in_flight c' + 1 ≡ in_flight c)
unfolding on_write_succeeded get_file
on_write_succeeded-IsValid c root seg_index f v e h = (
  record c { files = files'; total_writings = c.total_writings - 1 },
  ground (arith, finish_writing_lem f.window seg_index h, counts, v.counted),
  put-IsValid c root f' (c.total_writings - 1) v valid (ground (arith, counts, v.counted))
      (ground (arith, v.limited)),
  ground (arith, counts, v.counted),
  counts,
)
  where
    f' : FileWriteCtrl
    f' = record f { window = completed f.window seg_index }

    files' : Dict DataRoot FileWriteCtrl
    files' = Dict.insert ℕ_discrete root f' c.files

    valid : Window.IsValid (completed f.window seg_index)
    valid = completed-IsValid f.window seg_index h (v.windows root f e)

    counts : total writers files' + 1 ≡ in_flight c
    counts = ground (
      arith,
      e,
      Dict.total-insert ℕ_discrete writers root f' c.files,
      total-completed f.window seg_index h (v.windows root f e).bounded.distinct,
    )

-- In a valid state, a report of failure for a slot that is being written does not hit an assertion.
-- The state stays valid, the slot is free again, and one writer is taken off both the slots and the
-- count.
pub on_write_failed-IsValid :
    (c : ChunkPoolWriteCtrl) (root : DataRoot) (seg_index : ℕ) (f : FileWriteCtrl)
    → IsValid c
    → get_file c root ≡ some f
    → slot f.window seg_index ≡ some writing
    → (c' : ChunkPoolWriteCtrl) × (on_write_failed c root seg_index ≡ ret c')
      × IsValid c'
      × (get_file c' root ≡ some (record f { window = freed f.window seg_index }))
      × (c'.total_writings + 1 ≡ c.total_writings)
      × (in_flight c' + 1 ≡ in_flight c)
unfolding on_write_failed get_file
on_write_failed-IsValid c root seg_index f v e h = (
  record c { files = files'; total_writings = c.total_writings - 1 },
  ground (arith, rollback_writing_lem f.window seg_index h, counts, v.counted),
  put-IsValid c root f' (c.total_writings - 1) v
      (freed-IsValid f.window seg_index (v.windows root f e)) (ground (arith, counts, v.counted))
      (ground (arith, v.limited)),
  ground (arith, Dict.get-insert ℕ_discrete root root f' c.files),
  ground (arith, counts, v.counted),
  counts,
)
  where
    f' : FileWriteCtrl
    f' = record f { window = freed f.window seg_index }

    files' : Dict DataRoot FileWriteCtrl
    files' = Dict.insert ℕ_discrete root f' c.files

    counts : total writers files' + 1 ≡ in_flight c
    counts = ground (
      arith,
      e,
      Dict.total-insert ℕ_discrete writers root f' c.files,
      total-freed f.window seg_index h (v.windows root f e).bounded.distinct,
    )

-- A report for a file that is not tracked changes nothing, the count of writers included.
pub untracked :
    (c : ChunkPoolWriteCtrl) (root : DataRoot) (seg_index : ℕ)
    → get_file c root ≡ none
    → (on_write_succeeded c root seg_index ≡ ret (c, false))
      × (on_write_failed c root seg_index ≡ ret c)
unfolding on_write_succeeded on_write_failed
untracked c root seg_index e = (rw (e, on_write_succeeded), rw (e, on_write_failed))

pub remove_file-gone :
    (c : ChunkPoolWriteCtrl) (root : DataRoot) → get_file (remove_file c root).0 root ≡ none
unfolding remove_file get_file
remove_file-gone c root = ground (arith, Dict.get-remove ℕ_discrete root root c.files)

pub remove_file-total_writings :
    (c : ChunkPoolWriteCtrl) (root : DataRoot)
    → (remove_file c root).0.total_writings ≡ c.total_writings
unfolding remove_file
remove_file-total_writings c root = refl
