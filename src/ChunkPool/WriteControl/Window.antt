-- ===== src/ChunkPool/WriteControl/Window.antt =====
-- The window of one file, chunk_write_control.rs: when its operations run, and its bounds.
use ionian_rust.Base.{
  ℕ, zero, suc, ◌+◌, ◌≤◌, ◌<◌, ◌≡◌, refl, ◌≢◌, false, none, some, [], ◌∷◌, ret, ok, err, length,
  ℕ_discrete, arith, inl, inr, Option-cases, ◌⊎◌,
}
use ionian_rust.Base.Dict
use ionian_rust.Base.Dict.{Dict}
use ionian_rust.ChunkPool.WriteControl.{
  SlotStatus, writing, finished, CtrlWindow, window_limit, slot, check_duplicate, start_writing,
  rollback_writing, move_forward, finish_writing, new_window,
}

-- Each slot lies within the window, and none twice.
pub record IsBounded (w : CtrlWindow) : Type 0 where
  pub distinct : Dict.Distinct ℕ_discrete w.slots
  pub above : (i : ℕ) (s : SlotStatus) → slot w i ≡ some s → w.left_boundary ≤ i
  pub below : (i : ℕ) (s : SlotStatus) → slot w i ≡ some s → i < w.left_boundary + w.size

-- Besides, the boundary stands at a slot that is not finished.
pub record IsValid (w : CtrlWindow) : Type 0 where
  pub bounded : IsBounded w
  pub moved : slot w w.left_boundary ≢ some finished

pub new_window-IsValid : (size : ℕ) → IsValid (new_window size)
unfolding new_window Dict.get
new_window-IsValid size = record {
  bounded = record { distinct = tt; above = λ i s h. cc; below = λ i s h. cc };
  moved = λ h. cc;
}

round-IsBounded :
    (w : CtrlWindow)
    → IsBounded w
    → IsBounded (record w {
      slots = Dict.remove ℕ_discrete w.left_boundary w.slots;
      left_boundary = w.left_boundary + 1;
    })
round-IsBounded w b = record {
  distinct = Dict.remove-Distinct ℕ_discrete w.left_boundary w.slots b.distinct;
  above =
      λ i s h. ground (arith, Dict.get-remove ℕ_discrete w.left_boundary i w.slots, b.above i s);
  below =
      λ i s h. ground (arith, Dict.get-remove ℕ_discrete w.left_boundary i w.slots, b.below i s);
}

no_slot : (m : Dict ℕ SlotStatus) (k : ℕ) → length m ≤ 0 → Dict.get ℕ_discrete k m ≡ none
unfolding Dict.get
no_slot [] k h = refl
no_slot (e ∷ m) k h = absurd (omega arith)

-- With a round for each slot the loop ends by its own test.
pub move_forward-IsValid :
    (fuel : ℕ) (w : CtrlWindow)
    → length w.slots ≤ fuel
    → IsBounded w
    → IsValid (move_forward fuel w)
unfolding move_forward
move_forward-IsValid zero w n b = record {
  bounded = b;
  moved = λ h. cc (no_slot w.slots w.left_boundary n);
}
move_forward-IsValid (suc fuel) w n b = elim (Option-cases (slot w w.left_boundary)) [
  | inl e ↦ rw (e, move_forward) (record { bounded = b; moved = λ h. cc })
  | inr (writing, e) ↦ rw (e, move_forward) (record { bounded = b; moved = λ h. cc })
  | inr (finished, e) ↦
      rw (e, move_forward)
        (move_forward-IsValid fuel _
          (omega (arith, Dict.length-remove ℕ_discrete w.left_boundary w.slots finished e))
          (round-IsBounded w b))
]

-- A write into a free slot of the window.
insert-IsBounded :
    (w : CtrlWindow) (index : ℕ) (s : SlotStatus)
    → w.left_boundary ≤ index
    → index < w.left_boundary + w.size
    → IsBounded w
    → IsBounded (record w { slots = Dict.insert ℕ_discrete index s w.slots })
insert-IsBounded w index s lo hi b = record {
  distinct = Dict.insert-Distinct ℕ_discrete index s w.slots b.distinct;
  above = λ i t h. ground (arith, Dict.get-insert ℕ_discrete index i s w.slots, b.above i t);
  below = λ i t h. ground (arith, Dict.get-insert ℕ_discrete index i s w.slots, b.below i t);
}

-- The windows that the three operations leave behind.
abbrev pub taken : CtrlWindow → ℕ → CtrlWindow
taken w index = record w { slots = Dict.insert ℕ_discrete index writing w.slots }

abbrev pub freed : CtrlWindow → ℕ → CtrlWindow
freed w index = record w { slots = Dict.remove ℕ_discrete index w.slots }

abbrev pub marked : CtrlWindow → ℕ → CtrlWindow
marked w index = record w { slots = Dict.insert ℕ_discrete index finished w.slots }

abbrev pub completed : CtrlWindow → ℕ → CtrlWindow
completed w index = move_forward (length (marked w index).slots) (marked w index)

-- `start_writing`, after `check_duplicate`, does not panic. Past the window it fails and changes
-- nothing; else the slot is taken for a writer.
pub start_writing_lem :
    (w : CtrlWindow) (index : ℕ)
    → check_duplicate w index ≡ false
    → ((w.left_boundary + w.size ≤ index) × (start_writing w index ≡ ret (w, err window_limit)))
      ⊎ ((index < w.left_boundary + w.size)
          × (w.left_boundary ≤ index)
          × (slot w index ≡ none)
          × (start_writing w index ≡ ret (taken w index, ok tt)))
unfolding check_duplicate start_writing
start_writing_lem w index h = ground arith

pub rollback_writing_lem :
    (w : CtrlWindow) (index : ℕ)
    → slot w index ≡ some writing
    → rollback_writing w index ≡ ret (freed w index)
unfolding rollback_writing
rollback_writing_lem w index h = rw h

pub finish_writing_lem :
    (w : CtrlWindow) (index : ℕ)
    → slot w index ≡ some writing
    → finish_writing w index ≡ ret (completed w index)
unfolding finish_writing
finish_writing_lem w index h = rw h

pub taken-IsValid :
    (w : CtrlWindow) (index : ℕ)
    → w.left_boundary ≤ index
    → index < w.left_boundary + w.size
    → IsValid w
    → IsValid (taken w index)
taken-IsValid w index lo hi v = record {
  bounded = insert-IsBounded w index writing lo hi v.bounded;
  moved = λ h.
      ground (arith, Dict.get-insert ℕ_discrete index w.left_boundary writing w.slots, v.moved);
}

pub freed-IsValid : (w : CtrlWindow) (index : ℕ) → IsValid w → IsValid (freed w index)
freed-IsValid w index v = record {
  bounded = record {
    distinct = Dict.remove-Distinct ℕ_discrete index w.slots v.bounded.distinct;
    above =
        λ i t h. ground (arith, Dict.get-remove ℕ_discrete index i w.slots, v.bounded.above i t);
    below =
        λ i t h. ground (arith, Dict.get-remove ℕ_discrete index i w.slots, v.bounded.below i t);
  };
  moved = λ h. ground (arith, Dict.get-remove ℕ_discrete index w.left_boundary w.slots, v.moved);
}

pub completed-IsValid :
    (w : CtrlWindow) (index : ℕ)
    → slot w index ≡ some writing
    → IsValid w
    → IsValid (completed w index)
completed-IsValid w index h v =
    move_forward-IsValid (length (marked w index).slots) (marked w index) (omega arith) (
      insert-IsBounded w index finished (v.bounded.above index writing h)
        (v.bounded.below index writing h) v.bounded)
