-- ===== src/SharedTypes/Slices.antt =====
-- `chunk_at` and `sub_array` of node/shared_types/src/lib.rs.
use ionian_rust.Base.{
  ℕ, zero, suc, ◌+◌, ◌-◌, ◌*◌, ◌/◌, ◌≤◌, ◌<◌, ◌≡◌, refl, ap, sym, ◌∙◌, List, [], ◌∷◌, some, ret,
  arith, length, take, drop, length-take, length-drop, drop-drop, take-take, leb, ltb, ◌||◌, false,
}
use ionian_rust.SharedTypes.{ChunkArray, chunk_size, end_index, slice, chunk_at, sub_array}

take-nil : (n : ℕ) → take {A = ℕ} n [] ≡ []
take-nil zero = refl
take-nil (suc n) = refl

-- A window of a window of a list is a window of the list.
take-drop-take :
    (n i m : ℕ) (xs : List ℕ) → i + n ≤ m → take n (drop i (take m xs)) ≡ take n (drop i xs)
take-drop-take n zero m xs h = take-take n m xs (omega arith)
take-drop-take n (suc i) zero xs h = absurd (omega arith)
take-drop-take n (suc i) (suc m) [] h = refl
take-drop-take n (suc i) (suc m) (x ∷ xs) h = take-drop-take n i m xs (omega arith)

slice_lem :
    (xs : List ℕ) (a b : ℕ) → a ≤ b → b ≤ length xs → slice xs a b ≡ ret (take (b - a) (drop a xs))
unfolding slice
slice_lem xs a b h k = ground arith

-- In range, `chunk_at` does not panic and reads the bytes of the chunk.
pub chunk_at_lem :
    (a : ChunkArray) (i : ℕ)
    → a.start_index ≤ i
    → i < end_index a
    → chunk_at a i ≡ ret (some (take chunk_size (drop ((i - a.start_index) * chunk_size) a.bytes)))
unfolding chunk_at
chunk_at_lem a i lo hi =
    rw (in_range, chunk_at)
      (rw (
        slice_lem a.bytes ((i - a.start_index) * chunk_size)
            ((i - a.start_index) * chunk_size + chunk_size) (omega arith) (omega arith),
        width,
      ))
  where
    in_range : (leb (end_index a) i || ltb i a.start_index) ≡ false
    in_range = ground arith

    width :
        (i - a.start_index) * chunk_size + chunk_size - (i - a.start_index) * chunk_size
        ≡ chunk_size
    width = omega arith

-- A range that lies within the array and is not empty is cut out without a panic: the part starts
-- and ends where the range does, and each of its chunks is the chunk that the array has there.
pub sub_array-chunk_at :
    (a : ChunkArray) (start end i : ℕ)
    → a.start_index ≤ start
    → start ≤ i
    → i < end
    → end ≤ end_index a
    → (b : ChunkArray) × (sub_array a start end ≡ ret (some b))
      × (b.start_index ≡ start)
      × (end_index b ≡ end)
      × (chunk_at b i ≡ chunk_at a i)
unfolding sub_array
sub_array-chunk_at a start end i lo h k hi = (
  record { bytes = take n (drop so a.bytes); start_index = start },
  rw (in_range, sub_array)
      (rw (slice_lem a.bytes so ((end - a.start_index) * chunk_size) (omega arith) (omega arith))),
  refl,
  ends,
  chunk_at_lem _ i h (omega (arith, ends))
      ∙ ap (λ xs. ret (some xs)) same
      ∙ sym (chunk_at_lem a i (omega arith) (omega arith)),
)
  where
    n : ℕ
    n = (end - a.start_index) * chunk_size - (start - a.start_index) * chunk_size

    so : ℕ
    so = (start - a.start_index) * chunk_size

    in_range :
        (leb (end_index a) start
          || (ltb start a.start_index
              || (ltb (end_index a) end || (leb end a.start_index || leb end start))))
        ≡ false
    in_range = ground arith

    same :
        take chunk_size (drop ((i - start) * chunk_size) (take n (drop so a.bytes)))
        ≡ take chunk_size (drop ((i - a.start_index) * chunk_size) a.bytes)
    same =
        take-drop-take chunk_size ((i - start) * chunk_size) n (drop so a.bytes) (omega arith)
        ∙ ap (take chunk_size) (
            drop-drop ((i - start) * chunk_size) so ((i - a.start_index) * chunk_size) a.bytes
              (omega arith))

    ends : length (take n (drop so a.bytes)) / chunk_size + start ≡ end
    ends = omega (arith, length-take n (drop so a.bytes), length-drop so a.bytes)
