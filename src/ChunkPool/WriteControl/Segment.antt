-- ===== src/ChunkPool/WriteControl/Segment.antt =====
-- `write_segment` of chunk_write_control.rs on every branch.
use ionian_rust.Base.{
  ℕ, ◌+◌, ◌<◌, ◌≡◌, refl, false, ◌⊎◌, none, some, ℕ_discrete, arith, inl, inr, Option-cases, leb,
  ◌==◌, Run, ret, panic, Bool-cases, Result, err, ◌>>=◌, if◌then◌else◌, Returns,
}
use ionian_rust.Base.Dict
use ionian_rust.Base.Dict.{total, Dict}
use ionian_rust.ChunkPool.Types.{FileId, file_id_eq}
use ionian_rust.ChunkPool.WriteControl.{
  WriteError, FileWriteCtrl, ChunkPoolWriteCtrl, write_segment, get_file, remove_file, file_or_new,
  start_writing, new_file, put_file, start_in_file, on_write_succeeded, on_write_failed,
  check_duplicate, tx_reverted,
}
use ionian_rust.ChunkPool.WriteControl.Window
use ionian_rust.ChunkPool.WriteControl.Window.{
  taken, start_writing_lem, taken-IsValid, new_window-IsValid,
}
use ionian_rust.ChunkPool.WriteControl.Writers.{
  IsValid, writers, in_flight, total-taken, put-IsValid, remove-IsValid, untracked,
}

-- The control that `write_segment` works on is valid, and its entry leaves the counts alone.
file_or_new-IsValid :
    (c : ChunkPoolWriteCtrl) (id : FileId) (n : ℕ)
    → IsValid c
    → Window.IsValid (file_or_new c id n).window
      × (total writers (Dict.insert ℕ_discrete id.root (file_or_new c id n) c.files) ≡ in_flight c)
unfolding get_file new_file
file_or_new-IsValid c id n v = elim (Option-cases (get_file c id.root)) [
  | inl e ↦
      rw (e, file_or_new)
        (
          new_window-IsValid c.config.write_window_size,
          ground (
            arith,
            e,
            Dict.total-insert ℕ_discrete writers id.root (new_file id n c.config.write_window_size)
                c.files,
          ),
        )
  | inr (f, e) ↦
      rw (e, file_or_new)
        (
          v.windows id.root f e,
          ground (arith, e, Dict.total-insert ℕ_discrete writers id.root f c.files),
        )
]

-- The writers counted and the slots being written have changed by the same number.
abbrev pub IsBalanced : ChunkPoolWriteCtrl → ChunkPoolWriteCtrl → Type 0
IsBalanced c c' = c'.total_writings + in_flight c ≡ c.total_writings + in_flight c'

-- What a call that does not panic leaves: a valid state, and balanced counts unless the transaction
-- was reverted.
abbrev pub Leaves :
    ChunkPoolWriteCtrl → Run (ChunkPoolWriteCtrl × Result WriteError (Unit {0})) → Type 0
Leaves c panic = ⊥
Leaves c (ret (c', r)) = IsValid c' × ((r ≡ err tx_reverted) ⊎ IsBalanced c c')

-- The last step, on the control `f` of the file that the caller has stored in `c`.
start-Leaves :
    (c : ChunkPoolWriteCtrl) (id : FileId) (seg_index : ℕ) (f : FileWriteCtrl)
    → IsValid c
    → Window.IsValid f.window
    → total writers (Dict.insert ℕ_discrete id.root f c.files) ≡ in_flight c
    → check_duplicate f.window seg_index ≡ false
    → c.total_writings < c.config.max_writings
    → Leaves c (start_writing f.window seg_index >>= λ q. ret (start_in_file c id.root f q))
start-Leaves c id seg_index f v w same fresh room =
    elim (start_writing_lem f.window seg_index fresh) [
      | inl (_, e) ↦
          rw e (
            put-IsValid c id.root f c.total_writings v w (omega arith) v.limited,
            inr (omega arith),
          )
      | inr (hi, lo, free, e) ↦
          let f' : FileWriteCtrl = record f { window = taken f.window seg_index } in
          let more : total writers (Dict.insert ℕ_discrete id.root f' c.files) ≡ in_flight c + 1 =
            ground (
              arith,
              total-taken f.window seg_index free,
              Dict.total-insert ℕ_discrete writers id.root f c.files,
              Dict.total-insert ℕ_discrete writers id.root f' c.files,
            ) in
          rw e (
            put-IsValid c id.root f' (c.total_writings + 1) v
                (taken-IsValid f.window seg_index lo hi w) (omega arith) (omega arith),
            inr (omega arith),
          )
    ]

-- `write_segment` on a valid state never panics and leaves a valid one: slots within the window,
-- no more of them being written than writers counted, and no more writers than the limit. The count
-- of writers grows by what the slots that are being written grow by, unless the answer is that the
-- transaction was reverted.
pub write_segment-Leaves :
    (c : ChunkPoolWriteCtrl) (id : FileId) (seg_index total_segments : ℕ)
    → IsValid c
    → Leaves c (write_segment c id seg_index total_segments)
unfolding write_segment
write_segment-Leaves c id seg_index total_segments v =
    let f = file_or_new c id total_segments in
    let w = file_or_new-IsValid c id total_segments v in
    let c' = put_file c id.root f in
    let v' : IsValid c' = put-IsValid c id.root f c.total_writings v w.0 (omega arith) v.limited in
    elim (Bool-cases (file_id_eq f.id id)) [
      | inr other ↦ rw (other, write_segment) (remove-IsValid c' id.root v', inl refl)
      | inl same ↦ elim (Bool-cases (f.total_segments == total_segments)) [
        | inr size ↦ rw (same, size, write_segment) (v', inr (omega arith))
        | inl size ↦ elim (Bool-cases (check_duplicate f.window seg_index)) [
          | inl old ↦ rw (same, size, old, write_segment) (v', inr (omega arith))
          | inr fresh ↦ elim (Bool-cases (leb c.config.max_writings c.total_writings)) [
            | inl full ↦ rw (same, size, fresh, full, write_segment) (v', inr (omega arith))
            | inr room ↦
                rw (same, size, fresh, room, write_segment)
                  (start-Leaves c id seg_index f v w.0 w.1 fresh (ground arith))
          ]
        ]
      ]
    ]

-- In a valid state, a segment of a tracked file whose transaction has changed is refused as
-- reverted: the file is dropped with its window. The count of writers stays, though the slots that
-- are being written are fewer by those of the dropped window, and a later report for the file, of
-- success or failure and of whichever segment, changes nothing.
pub write_segment-reverted :
    (c : ChunkPoolWriteCtrl) (id : FileId) (seg_index total_segments reported : ℕ)
    (f : FileWriteCtrl)
    → IsValid c
    → get_file c id.root ≡ some f
    → file_id_eq f.id id ≡ false
    → (c' : ChunkPoolWriteCtrl) × (write_segment c id seg_index total_segments
        ≡ ret (c', err tx_reverted))
      × (get_file c' id.root ≡ none)
      × (c'.total_writings ≡ c.total_writings)
      × (in_flight c' + writers f ≡ in_flight c)
      × (on_write_succeeded c' id.root reported ≡ ret (c', false))
      × (on_write_failed c' id.root reported ≡ ret c')
unfolding write_segment get_file remove_file
write_segment-reverted c id seg_index total_segments reported f v e other =
    let c' = (remove_file (put_file c id.root f) id.root).0 in
    let e' : Dict.get ℕ_discrete id.root c.files ≡ some f = e in
    (
      c',
      rw (e', write_segment, file_or_new, get_file) (rw (other, write_segment, if◌then◌else◌) refl),
      gone,
      refl,
      counts,
      (untracked c' id.root reported gone).0,
      (untracked c' id.root reported gone).1,
    )
  where
    gone : Dict.get ℕ_discrete id.root (remove_file (put_file c id.root f) id.root).0.files ≡ none
    gone = ground (
      arith,
      Dict.get-remove ℕ_discrete id.root id.root (Dict.insert ℕ_discrete id.root f c.files),
    )

    counts : in_flight (remove_file (put_file c id.root f) id.root).0 + writers f ≡ in_flight c
    counts = ground (
      arith,
      e,
      Dict.get-insert ℕ_discrete id.root id.root f c.files,
      Dict.total-insert ℕ_discrete writers id.root f c.files,
      Dict.total-remove ℕ_discrete writers id.root (Dict.insert ℕ_discrete id.root f c.files)
          (Dict.insert-Distinct ℕ_discrete id.root f c.files v.distinct),
    )

pub write_segment-IsValid :
    (c : ChunkPoolWriteCtrl) (id : FileId) (seg_index total_segments : ℕ)
    → IsValid c
    → Returns (λ q. IsValid q.0) (write_segment c id seg_index total_segments)
write_segment-IsValid c id seg_index total_segments v =
    go (write_segment c id seg_index total_segments)
      (write_segment-Leaves c id seg_index total_segments v)
  where
    go :
        (m : Run (ChunkPoolWriteCtrl × Result WriteError (Unit {0})))
        → Leaves c m
        → Returns (λ q. IsValid q.0) m
    go (ret (c', r)) l = l.0
    go panic l = l
