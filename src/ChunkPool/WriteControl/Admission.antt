-- ===== src/ChunkPool/WriteControl/Admission.antt =====
-- `write_segment` of chunk_write_control.rs on the first segment of a file.
use ionian_rust.Base.{
  ℕ, ◌+◌, ◌<◌, ◌≡◌, refl, true, false, none, some, [], arith, leb, ◌==◌, ret, ok, inl, inr,
  if◌then◌else◌, ℕ_discrete,
}
use ionian_rust.Base.Dict
use ionian_rust.ChunkPool.Types.{FileId, DataRoot, file_id_eq}
use ionian_rust.ChunkPool.WriteControl.{
  FileWriteCtrl, ChunkPoolWriteCtrl, write_segment, get_file, file_or_new, new_file, new_window,
  put_file, start_writing, check_duplicate, slot, writing,
}
use ionian_rust.ChunkPool.WriteControl.Window.{taken, start_writing_lem}

file_id_eq_refl : (id : FileId) → file_id_eq id id ≡ true
file_id_eq_refl id = ground arith

-- The control of a file that nothing has been written of.
abbrev pub untouched : FileId → ℕ → ℕ → FileWriteCtrl
untouched id total_segments window_size = record {
  id = id;
  total_segments = total_segments;
  window = record { size = window_size; left_boundary = 0; slots = [] };
}

-- The control of a file with one writer more.
abbrev pub started : FileWriteCtrl → ℕ → FileWriteCtrl
started f seg_index = record f { window = taken f.window seg_index }

abbrev pub with_writer : ChunkPoolWriteCtrl → FileId → ℕ → FileWriteCtrl → ChunkPoolWriteCtrl
with_writer c id seg_index f = record (put_file c id.root (started f seg_index)) {
  total_writings = c.total_writings + 1;
}

file_or_new-untouched :
    (c : ChunkPoolWriteCtrl) (id : FileId) (total_segments : ℕ)
    → get_file c id.root ≡ none
    → file_or_new c id total_segments ≡ untouched id total_segments c.config.write_window_size
unfolding new_file new_window
file_or_new-untouched c id total_segments e = rw (e, file_or_new) refl

untouched-fresh :
    (id : FileId) (total_segments size seg_index : ℕ)
    → check_duplicate (untouched id total_segments size).window seg_index ≡ false
unfolding check_duplicate Dict.get
untouched-fresh id total_segments size seg_index = ground arith

untouched-start_writing :
    (id : FileId) (total_segments size seg_index : ℕ)
    → seg_index < size
    → start_writing (untouched id total_segments size).window seg_index
      ≡ ret (taken (untouched id total_segments size).window seg_index, ok tt)
untouched-start_writing id total_segments size seg_index h =
    elim (start_writing_lem (untouched id total_segments size).window seg_index
      (untouched-fresh id total_segments size seg_index)) [
        | inl (past, _) ↦ absurd (omega (arith, past, h))
        | inr (_, _, _, e) ↦ e
      ]

-- The first segment of a file that is not tracked is admitted.
pub write_segment-with_writer :
    (c : ChunkPoolWriteCtrl) (id : FileId) (seg_index total_segments : ℕ)
    → get_file c id.root ≡ none
    → seg_index < c.config.write_window_size
    → c.total_writings < c.config.max_writings
    → let f = untouched id total_segments c.config.write_window_size in
      write_segment c id seg_index total_segments ≡ ret (with_writer c id seg_index f, ok tt)
unfolding write_segment
write_segment-with_writer c id seg_index total_segments e lo room =
    let f = untouched id total_segments c.config.write_window_size in
    let is_f : file_or_new c id total_segments ≡ f = file_or_new-untouched c id total_segments e in
    let full : leb c.config.max_writings c.total_writings ≡ false = ground (arith, room) in
    let size : (total_segments == total_segments) ≡ true = ground arith in
    let fresh = untouched-fresh id total_segments c.config.write_window_size seg_index in
    let start = untouched-start_writing id total_segments c.config.write_window_size seg_index lo in
    rw is_f (rw (file_id_eq_refl id, size, fresh, full, start) refl)

pub started-slot :
    (id : FileId) (total_segments size seg_index j : ℕ)
    → slot (started (untouched id total_segments size) seg_index).window j
      ≡ (if seg_index == j then some writing else none)
unfolding Dict.get
started-slot id total_segments size seg_index j =
    ground (arith, Dict.get-insert ℕ_discrete seg_index j writing [])

pub with_writer-file :
    (c : ChunkPoolWriteCtrl) (id : FileId) (seg_index : ℕ) (f : FileWriteCtrl) (root : DataRoot)
    → get_file (with_writer c id seg_index f) root
      ≡ (if id.root == root then some (started f seg_index) else get_file c root)
unfolding get_file
with_writer-file c id seg_index f root =
    ground (arith, Dict.get-insert ℕ_discrete id.root root (started f seg_index) c.files)
