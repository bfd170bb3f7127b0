-- ===== src/Tests/Shared.antt =====
-- Sizes and arrays of chunks of node/shared_types at concrete inputs.
use ionian_rust.Base.{◌+◌, ◌*◌, ◌≤◌, ◌<◌, ◌≡◌, refl, replicate, some, ret, arith}
use ionian_rust.SharedTypes.{
  ChunkArray, bytes_to_chunks, compute_segment_size, chunk_at, sub_array, end_index,
}
use ionian_rust.SharedTypes.Sizes
use ionian_rust.SharedTypes.Slices

bytes_to_chunks_300 : bytes_to_chunks 300 ≡ 2
unfolding bytes_to_chunks
bytes_to_chunks_300 = refl

compute_segment_size_covers_example :
    ((compute_segment_size 10 4).0 * 4 + (compute_segment_size 10 4).1 ≡ 10 + 4)
    × (0 < (compute_segment_size 10 4).1)
    × ((compute_segment_size 10 4).1 ≤ 4)
compute_segment_size_covers_example =
    Sizes.compute_segment_size_covers 10 4 (omega arith) (omega arith)

-- Three chunks from chunk 5 on.
abbrev three_chunks : ChunkArray
three_chunks = record { bytes = replicate 768 1; start_index = 5 }

sub_array-chunk_at_example :
    (b : ChunkArray) × (sub_array three_chunks 6 8 ≡ ret (some b))
    × (b.start_index ≡ 6)
    × (end_index b ≡ 8)
    × (chunk_at b 7 ≡ chunk_at three_chunks 7)
sub_array-chunk_at_example =
    Slices.sub_array-chunk_at three_chunks 6 8 7 (omega arith) (omega arith) (omega arith)
      (omega arith)
