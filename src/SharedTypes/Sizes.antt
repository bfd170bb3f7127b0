-- ===== src/SharedTypes/Sizes.antt =====
-- The sizes that node/shared_types/src/lib.rs computes.
use ionian_rust.Base.{ℕ, ◌+◌, ◌*◌, ◌%◌, ◌≤◌, ◌<◌, ◌≡◌, arith, Bool-cases, inl, inr, ◌==◌}
use ionian_rust.SharedTypes.{chunk_size, bytes_to_chunks, compute_segment_size}
use native.Mathlib.Nat.{div-add-mod, mod-lt}

-- The chunks of a file hold its bytes, and less than one chunk more.
pub bytes_to_chunks_bounds :
    (n : ℕ)
    → (n ≤ bytes_to_chunks n * chunk_size) × (bytes_to_chunks n * chunk_size < n + chunk_size)
unfolding bytes_to_chunks
bytes_to_chunks_bounds n = ground arith

-- The segments of a file that is not empty, at a length `per` that is not 0: with the last of the
-- length that is computed and all others full they hold as many chunks as the file has, and the
-- length of the last is from 1 to `per`.
pub compute_segment_size_covers :
    (chunks per : ℕ)
    → 0 < chunks
    → 0 < per
    → ((compute_segment_size chunks per).0 * per + (compute_segment_size chunks per).1
        ≡ chunks + per)
      × (0 < (compute_segment_size chunks per).1)
      × ((compute_segment_size chunks per).1 ≤ per)
unfolding compute_segment_size
compute_segment_size_covers chunks per h k = elim (Bool-cases (chunks % per == 0)) [
  | inl e ↦
      rw (e, compute_segment_size)
        (ground (arith, e, div-add-mod chunks per), omega arith, omega arith)
  | inr e ↦
      rw (e, compute_segment_size)
        (grind (arith, div-add-mod chunks per), ground (arith, e), omega (arith, mod-lt chunks k))
]
