-- ===== src/ChunkPool/WriteControl/Uploaded.antt =====
-- The window of chunk_write_control.rs against a plain set: the segments uploaded so far.
use ionian_rust.Base.{
  ℕ, zero, suc, ◌<◌, ◌≡◌, refl, ◌∙◌, Bool, true, false, ◌||◌, some, length, ℕ_discrete, arith, inl,
  inr, Option-cases, ltb, ◌==◌, ret,
}
use ionian_rust.Base.Dict
use ionian_rust.ChunkPool.WriteControl.{
  writing, finished, CtrlWindow, is_finished, slot, move_forward, finish_writing,
}
use ionian_rust.ChunkPool.WriteControl.Window.{
  IsValid, marked, completed, finish_writing_lem, completed-IsValid,
}

-- Whether a segment is in the store, as the window records it.
abbrev pub uploaded : CtrlWindow → ℕ → Bool
uploaded w i = ltb i w.left_boundary || is_finished (slot w i)

-- A round of the loop forgets a slot and moves the boundary over it: the set stays.
uploaded-move_forward :
    (fuel : ℕ) (w : CtrlWindow) (i : ℕ) → uploaded (move_forward fuel w) i ≡ uploaded w i
unfolding move_forward
uploaded-move_forward zero w i = refl
uploaded-move_forward (suc fuel) w i = elim (Option-cases (slot w w.left_boundary)) [
  | inl e ↦ rw (e, move_forward) refl
  | inr (writing, e) ↦ rw (e, move_forward) refl
  | inr (finished, e) ↦
      rw (e, move_forward)
        (uploaded-move_forward fuel _ i
          ∙ ground (arith, e, Dict.get-remove ℕ_discrete w.left_boundary i w.slots))
]

-- Finishing a segment that is being written, in a valid window, does not hit an assertion and leaves
-- a valid window. It adds the segment to the uploaded set and nothing else. The
-- count that is reported is the length of the uploaded prefix: every segment before it is in the
-- set, and it is not.
pub finish_writing-uploaded :
    (w : CtrlWindow) (index : ℕ)
    → slot w index ≡ some writing
    → IsValid w
    → (w' : CtrlWindow) × (finish_writing w index ≡ ret w')
      × IsValid w'
      × ((i : ℕ) → uploaded w' i ≡ (index == i || uploaded w i))
      × ((i : ℕ) → i < w'.left_boundary → uploaded w' i ≡ true)
      × (uploaded w' w'.left_boundary ≡ false)
finish_writing-uploaded w index h v =
    (completed w index, finish_writing_lem w index h, valid, adds, λ i lt. ground arith, boundary)
  where
    valid : IsValid (completed w index)
    valid = completed-IsValid w index h v

    adds : (i : ℕ) → uploaded (completed w index) i ≡ (index == i || uploaded w i)
    adds i =
        uploaded-move_forward (length (marked w index).slots) (marked w index) i
        ∙ ground (arith, Dict.get-insert ℕ_discrete index i finished w.slots)

    boundary : uploaded (completed w index) (completed w index).left_boundary ≡ false
    boundary = ground (arith, valid.moved)
