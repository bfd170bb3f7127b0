-- ===== src/SharedTypes.antt =====
-- node/shared_types/src/lib.rs: sizes in chunks, and arrays of chunks.
pub mod Sizes
pub mod Slices
use ionian_rust.Base.{
  ℕ, zero, suc, ◌+◌, ◌-◌, ◌*◌, ◌/◌, ◌%◌, ◌^◌, Bool, ◌||◌, if◌then◌else◌, Option, none, some, List,
  [], ◌∷◌, ltb, leb, ◌==◌, Run, ret, panic, ◌>>=◌, ◌&&◌, length, take, drop,
}

abbrev pub chunk_size : ℕ
chunk_size = 256

unfoldable pub bytes_to_chunks : ℕ → ℕ
bytes_to_chunks size_bytes =
    if size_bytes % chunk_size == 0 then size_bytes / chunk_size else size_bytes / chunk_size + 1

-- The number of segments, and the length of the last one.
unfoldable pub compute_segment_size : ℕ → ℕ → ℕ × ℕ
compute_segment_size chunks chunks_per_segment =
    if chunks % chunks_per_segment == 0
    then (chunks / chunks_per_segment, chunks_per_segment)
    else (chunks / chunks_per_segment + 1, chunks % chunks_per_segment)

-- A slice `data[a..b]`, which panics out of range.
unfoldable pub slice : List ℕ → ℕ → ℕ → Run (List ℕ)
slice xs a b = if leb a b && leb b (length xs) then ret (take (b - a) (drop a xs)) else panic

-- The length of `data` is a multiple of `chunk_size`.
pub record ChunkArray : Type 0 where
  pub bytes : List ℕ
  pub start_index : ℕ

abbrev pub end_index : ChunkArray → ℕ
end_index a = length a.bytes / chunk_size + a.start_index

unfoldable pub chunk_at : ChunkArray → ℕ → Run (Option (List ℕ))
chunk_at a index =
    let offset = (index - a.start_index) * chunk_size in
    if leb (end_index a) index || ltb index a.start_index
    then ret none
    else do c ← slice a.bytes offset (offset + chunk_size); ret (some c)

pub first_chunk : ChunkArray → Run (Option (List ℕ))
first_chunk a = chunk_at a a.start_index

-- `checked_sub(1)?` answers `None` at 0.
pub last_chunk : ChunkArray → Run (Option (List ℕ))
last_chunk a =
    let last = a.start_index + length a.bytes / chunk_size in
    if last == 0 then ret none else chunk_at a (last - 1)

unfoldable pub sub_array : ChunkArray → ℕ → ℕ → Run (Option ChunkArray)
sub_array a start end =
    let start_offset = (start - a.start_index) * chunk_size in
    let end_offset = (end - a.start_index) * chunk_size in
    if leb (end_index a) start
      || (ltb start a.start_index
          || (ltb (end_index a) end || (leb end a.start_index || leb end start)))
    then ret none
    else do
      bytes ← slice a.bytes start_offset end_offset
      ret (some (record { bytes = bytes; start_index = start }))

-- A node at depth `depth` of the flow stands for so many entries; `depth` is at least 1.
unfoldable pub num_entries_of_node : ℕ → ℕ
num_entries_of_node depth = 2 ^ (depth - 1)
