-- ===== src/ChunkPool/WriteControl/Duplicates.antt =====
-- A segment that its window has passed, in chunk_write_control.rs.
use ionian_rust.Base.{
  ℕ, ◌<◌, ◌≡◌, refl, true, if◌then◌else◌, some, ◌==◌, ret, panic, ok, ℕ_discrete, arith,
  Option-cases, inl, inr,
}
use ionian_rust.Base.Dict
use ionian_rust.ChunkPool.Types.{FileId, file_id_eq}
use ionian_rust.ChunkPool.WriteControl.{
  FileWriteCtrl, ChunkPoolWriteCtrl, CtrlWindow, get_file, slot, put_file, file_or_new,
  write_segment, check_duplicate, finish_writing, on_write_succeeded,
}
use ionian_rust.ChunkPool.WriteControl.Window

-- A slot that the window has passed is not being written.
finish_writing-panic :
    (w : CtrlWindow) (i : ℕ) → Window.IsValid w → i < w.left_boundary → finish_writing w i ≡ panic
unfolding finish_writing
finish_writing-panic w i v lt = elim (Option-cases (slot w i)) [
  | inl e ↦ rw (e, finish_writing) refl
  | inr (s, e) ↦ absurd (omega (arith, v.bounded.above i s e))
]

pub write_segment-duplicate :
    (c : ChunkPoolWriteCtrl) (id : FileId) (i n : ℕ) (f : FileWriteCtrl)
    → get_file c id.root ≡ some f
    → file_id_eq f.id id ≡ true
    → f.total_segments ≡ n
    → i < f.window.left_boundary
    → write_segment c id i n ≡ ret (put_file c id.root f, ok tt)
unfolding write_segment get_file check_duplicate
write_segment-duplicate c id i n f e same size lt =
    let e' : Dict.get ℕ_discrete id.root c.files ≡ some f = e in
    let sized : (f.total_segments == n) ≡ true = ground arith in
    let old : check_duplicate f.window i ≡ true = ground arith in
    rw (e', write_segment, file_or_new, get_file)
      (rw (same, sized, old, write_segment, if◌then◌else◌) refl)

pub on_write_succeeded-panic :
    (c : ChunkPoolWriteCtrl) (root i : ℕ) (f : FileWriteCtrl)
    → Window.IsValid f.window
    → i < f.window.left_boundary
    → on_write_succeeded (put_file c root f) root i ≡ panic
unfolding on_write_succeeded get_file
on_write_succeeded-panic c root i f v lt =
    ground
      (arith, Dict.get-insert ℕ_discrete root root f c.files, finish_writing-panic f.window i v lt)
