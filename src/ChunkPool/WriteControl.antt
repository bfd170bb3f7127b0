-- ===== src/ChunkPool/WriteControl.antt =====
-- node/chunk_pool/src/mem_pool/chunk_write_control.rs: the sliding window of a file that is being
-- uploaded, and the count of the writers of all files. An assertion that fails is `panic`.
pub mod Window
pub mod Uploaded
pub mod Writers
pub mod Segment
pub mod Duplicates
pub mod Admission
use ionian_rust.Base.{
  ℕ, zero, suc, ◌+◌, ◌-◌, ◌≤◌, ◌<◌, ◌≡◌, Bool, true, false, ◌||◌, if◌then◌else◌, Option, none, some,
  [], ltb, leb, ◌==◌, is_some, Run, ret, panic, ◌>>=◌, ◌>>◌, assert, Result, ok, err, length,
  ℕ_discrete, not,
}
use ionian_rust.Base.Dict
use ionian_rust.Base.Dict.{Dict}
use ionian_rust.ChunkPool.Types.{DataRoot, FileId, Config, file_id_eq}

pub data SlotStatus : Type 0 where
  writing finished : SlotStatus

pub record CtrlWindow : Type 0 where
  pub size : ℕ
  pub left_boundary : ℕ
  pub slots : Dict ℕ SlotStatus

pub data WriteError : Type 0 where
  window_limit tx_reverted size_mismatch too_many_writings : WriteError

-- `assert_eq!(status, Some(SlotStatus::Writing))`.
abbrev pub is_writing : Option SlotStatus → Bool
is_writing (some writing) = true
is_writing _ = false

abbrev pub is_finished : Option SlotStatus → Bool
is_finished (some finished) = true
is_finished _ = false

abbrev pub slot : CtrlWindow → ℕ → Option SlotStatus
slot w i = Dict.get ℕ_discrete i w.slots

pub new_window : ℕ → CtrlWindow
new_window size = record { size = size; left_boundary = 0; slots = [] }

pub check_duplicate : CtrlWindow → ℕ → Bool
check_duplicate w index = ltb index w.left_boundary || is_some (slot w index)

pub start_writing : CtrlWindow → ℕ → Run (CtrlWindow × Result WriteError (Unit {0}))
start_writing w index = do
  assert (leb w.left_boundary index)
  if leb (w.left_boundary + w.size) index then ret (w, err window_limit) else do
    assert (not (is_some (slot w index)))
    ret (record w { slots = Dict.insert ℕ_discrete index writing w.slots }, ok tt)

pub rollback_writing : CtrlWindow → ℕ → Run CtrlWindow
rollback_writing w index = do
  assert (is_writing (slot w index))
  ret (record w { slots = Dict.remove ℕ_discrete index w.slots })

-- The loop of `finish_writing`, on the boundary and the slots. Each round takes a slot away, so
-- there are at most as many rounds as slots.
pub move_forward : ℕ → CtrlWindow → CtrlWindow
move_forward zero w = w
move_forward (suc fuel) w = elim (is_finished (slot w w.left_boundary)) [
  | true ↦ move_forward fuel (record w {
    slots = Dict.remove ℕ_discrete w.left_boundary w.slots;
    left_boundary = w.left_boundary + 1;
  })
  | false ↦ w
]

pub finish_writing : CtrlWindow → ℕ → Run CtrlWindow
finish_writing w index =
    let slots = Dict.insert ℕ_discrete index finished w.slots in
    do
      assert (is_writing (slot w index))
      ret (move_forward (length slots) (record w { slots = slots }))

pub record FileWriteCtrl : Type 0 where
  pub id : FileId
  pub total_segments : ℕ
  pub window : CtrlWindow

pub new_file : FileId → ℕ → ℕ → FileWriteCtrl
unfolding new_window
new_file id total_segments window_size = record {
  id = id;
  total_segments = total_segments;
  window = new_window window_size;
}

pub uploaded_seg_num : FileWriteCtrl → ℕ
uploaded_seg_num f = f.window.left_boundary

pub record ChunkPoolWriteCtrl : Type 0 where
  pub config : Config
  pub files : Dict DataRoot FileWriteCtrl
  pub total_writings : ℕ

pub new_ctrl : Config → ChunkPoolWriteCtrl
new_ctrl c = record { config = c; files = []; total_writings = 0 }

unfoldable pub get_file : ChunkPoolWriteCtrl → DataRoot → Option FileWriteCtrl
get_file c root = Dict.get ℕ_discrete root c.files

pub remove_file : ChunkPoolWriteCtrl → DataRoot → ChunkPoolWriteCtrl × Option FileWriteCtrl
unfolding get_file
remove_file c root = (record c { files = Dict.remove ℕ_discrete root c.files }, get_file c root)

-- The control of the file after `entry(id.root).or_insert_with(..)`.
abbrev pub file_or_new : ChunkPoolWriteCtrl → FileId → ℕ → FileWriteCtrl
file_or_new c id total_segments = elim (get_file c id.root) [
  | some f ↦ f
  | none ↦ new_file id total_segments c.config.write_window_size
]

abbrev pub put_file : ChunkPoolWriteCtrl → DataRoot → FileWriteCtrl → ChunkPoolWriteCtrl
put_file c root f = record c { files = Dict.insert ℕ_discrete root f c.files }

-- The tail of `write_segment`, once the window of the file has answered.
abbrev pub start_in_file :
    ChunkPoolWriteCtrl
    → DataRoot
    → FileWriteCtrl
    → CtrlWindow × Result WriteError (Unit {0})
    → ChunkPoolWriteCtrl × Result WriteError (Unit {0})
start_in_file c root f (w, err e) = (put_file c root (record f { window = w }), err e)
start_in_file c root f (w, ok _) = (
  record (put_file c root (record f { window = w })) { total_writings = c.total_writings + 1 },
  ok tt,
)

pub write_segment :
    ChunkPoolWriteCtrl → FileId → ℕ → ℕ → Run (ChunkPoolWriteCtrl × Result WriteError (Unit {0}))
unfolding check_duplicate remove_file
write_segment c id seg_index total_segments =
    let f = file_or_new c id total_segments in
    let c' = put_file c id.root f in
    if not (file_id_eq f.id id)
    then ret ((remove_file c' id.root).0, err tx_reverted)
    else if not (f.total_segments == total_segments)
    then ret (c', err size_mismatch)
    else if check_duplicate f.window seg_index
    then ret (c', ok tt)
    else if leb c.config.max_writings c.total_writings
    then ret (c', err too_many_writings)
    else do r ← start_writing f.window seg_index; ret (start_in_file c id.root f r)

pub on_write_succeeded : ChunkPoolWriteCtrl → DataRoot → ℕ → Run (ChunkPoolWriteCtrl × Bool)
on_write_succeeded c root seg_index = elim (get_file c root) [
  | none ↦ ret (c, false)
  | some f ↦ do
    w ← finish_writing f.window seg_index
    assert (ltb 0 c.total_writings)
    ret (
      record (put_file c root (record f { window = w })) { total_writings = c.total_writings - 1 },
      leb f.total_segments w.left_boundary,
    )
]

pub on_write_failed : ChunkPoolWriteCtrl → DataRoot → ℕ → Run ChunkPoolWriteCtrl
on_write_failed c root seg_index = elim (get_file c root) [
  | none ↦ ret c
  | some f ↦ do
    w ← rollback_writing f.window seg_index
    assert (ltb 0 c.total_writings)
    ret (record (put_file c root (record f { window = w })) {
      total_writings = c.total_writings - 1;
    })
]
