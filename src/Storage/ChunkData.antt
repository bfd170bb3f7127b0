-- ===== src/Storage/ChunkData.antt =====
-- node/storage/src/log_store/load_chunk/chunk_data.rs: the data of one load of 1,024 sectors of 256
-- bytes, whole or as a list of separate parts.
pub mod Find
pub mod Insertion
pub mod Put
pub mod Position
pub mod Bytes
pub mod Overlap
pub mod Edges
pub mod Seals
pub mod Insert
pub mod Truncate
pub mod Slices
use ionian_rust.Base.{
  ℕ, zero, suc, ◌+◌, ◌-◌, ◌*◌, ◌/◌, ◌%◌, ◌^◌, Bool, true, false, ◌&&◌, ◌||◌, not, if◌then◌else◌,
  Option, none, some, List, [], ◌∷◌, ◌++◌, ltb, leb, ◌==◌, Run, ret, panic, ◌>>=◌, ◌>>◌, assert,
  Result, ok, err, length, get_elem?, set, take, drop, map,
}
use ionian_rust.SharedTypes.{bytes_to_chunks}
use ionian_rust.Miner.{bytes_per_sector, sectors_per_load, kb}

abbrev pub bytes_per_load : ℕ
bytes_per_load = 256 * kb

abbrev pub sectors_per_seal : ℕ
sectors_per_seal = 4 * kb / bytes_per_sector

pub record PartialBatch : Type 0 where
  pub start_sector : ℕ
  pub bytes : List ℕ

pub data EntryBatchData : Type 0 where
  complete : List ℕ → EntryBatchData
  incomplete : List PartialBatch → EntryBatchData

pub data BatchError : Type 0 where
  overwrite_complete start_overlapped end_overlapped data_overlapped : BatchError

abbrev pub end_sector : PartialBatch → ℕ
end_sector p = p.start_sector + bytes_to_chunks (length p.bytes)

-- The position of the first part that does not start before a sector.
abbrev pub lower : ℕ → List PartialBatch → ℕ
lower k [] = 0
lower k (p ∷ ps) = if ltb p.start_sector k then suc (lower k ps) else 0

-- `binary_search_by_key` on the first sectors, as it is specified for an ordered list: the position
-- of the part that starts there, or the one to insert it at.
unfoldable pub search : ℕ → List PartialBatch → Result ℕ ℕ
search k ps = elim (get_elem? ps (lower k ps)) [
  | none ↦ err (lower k ps)
  | some p ↦ if p.start_sector == k then ok (lower k ps) else err (lower k ps)
]

-- Whether the part at a position has the sector; else it belongs behind that part.
abbrev pub hit : List PartialBatch → ℕ → ℕ → Result ℕ ℕ
hit ps k i = elim (get_elem? ps i) [
  | none ↦ err (i + 1)
  | some p ↦ if ltb k (end_sector p) then ok i else err (i + 1)
]

-- The position of the part that has a sector, or the one at which a part with it is missing.
unfoldable pub find : List PartialBatch → ℕ → Result ℕ ℕ
find ps k = elim (search k ps) [
  | ok i ↦ hit ps k i
  | err i ↦ elim i [ zero ↦ err 0 | suc j ↦ hit ps k j ]
]

abbrev pub new_data : EntryBatchData
new_data = incomplete []

abbrev pub is_empty : EntryBatchData → Bool
is_empty (complete bytes) = false
is_empty (incomplete []) = true
is_empty (incomplete (p ∷ ps)) = false

-- `data.get(a..a + n)`.
abbrev pub range : List ℕ → ℕ → ℕ → Option (List ℕ)
range bytes a n = if leb (a + n) (length bytes) then some (take n (drop a bytes)) else none

-- The same within the part at a position that `find` has answered.
abbrev pub range_in : List PartialBatch → ℕ → ℕ → Result ℕ ℕ → Option (List ℕ)
range_in ps start_byte length_byte (err i) = none
range_in ps start_byte length_byte (ok i) = elim (get_elem? ps i) [
  | none ↦ none
  | some p ↦ range p.bytes (start_byte - p.start_sector * bytes_per_sector) length_byte
]

unfoldable pub get : EntryBatchData → ℕ → ℕ → Run (Option (List ℕ))
get (complete bytes) start_byte length_byte = do
  assert (leb (start_byte + length_byte) bytes_per_load)
  ret (range bytes start_byte length_byte)
get (incomplete ps) start_byte length_byte = do
  assert (leb (start_byte + length_byte) bytes_per_load)
  ret (range_in ps start_byte length_byte (find ps (start_byte / bytes_per_sector)))

-- The bytes with others written from a position on.
abbrev pub splice : List ℕ → ℕ → List ℕ → List ℕ
splice bytes a new = take a bytes ++ new ++ drop (a + length new) bytes

-- A slice with what puts another of its length in its place.
abbrev pub slice_of :
    Option (List ℕ) → (List ℕ → EntryBatchData) → Option (List ℕ × (List ℕ → EntryBatchData))
slice_of none put_back = none
slice_of (some slice) put_back = some (slice, put_back)

-- The mutable slice within the part at a position that `find` has answered.
abbrev pub slice_in :
    List PartialBatch → ℕ → ℕ → Result ℕ ℕ → Option (List ℕ × (List ℕ → EntryBatchData))
slice_in ps start_byte length_byte (err i) = none
slice_in ps start_byte length_byte (ok i) = elim (get_elem? ps i) [
  | none ↦ none
  | some p ↦
      let start = start_byte - p.start_sector * bytes_per_sector in
      slice_of (range p.bytes start length_byte)
        (λ new. incomplete (set ps i (record p { bytes = splice p.bytes start new })))
]

pub get_mut : EntryBatchData → ℕ → ℕ → Run (Option (List ℕ × (List ℕ → EntryBatchData)))
get_mut (complete bytes) start_byte length_byte = do
  assert (leb (start_byte + length_byte) bytes_per_load)
  ret (
      slice_of (range bytes start_byte length_byte) (λ new. complete (splice bytes start_byte new)))
get_mut (incomplete ps) start_byte length_byte = do
  assert (leb (start_byte + length_byte) bytes_per_load)
  ret (slice_in ps start_byte length_byte (find ps (start_byte / bytes_per_sector)))

-- The parts up to a position, the one at that position cut at a byte and left out if it is empty.
abbrev pub cut_at : List PartialBatch → ℕ → Result ℕ ℕ → List PartialBatch
cut_at ps truncated_byte (err i) = take i ps
cut_at ps truncated_byte (ok i) = elim (get_elem? ps i) [
  | none ↦ take i ps
  | some p ↦
      let bytes = take (truncated_byte - p.start_sector * bytes_per_sector) p.bytes in
      take (if length bytes == 0 then i else suc i) (set ps i (record p { bytes = bytes }))
]

pub truncate : EntryBatchData → ℕ → Run EntryBatchData
truncate (complete bytes) truncated_byte = do
  assert (truncated_byte % bytes_per_sector == 0)
  ret (incomplete (record { start_sector = 0; bytes = take truncated_byte bytes } ∷ []))
truncate (incomplete ps) truncated_byte = do
  assert (truncated_byte % bytes_per_sector == 0)
  ret (incomplete (cut_at ps truncated_byte (find ps (truncated_byte / bytes_per_sector))))

abbrev pub range_of : PartialBatch → ℕ × ℕ
range_of p = (p.start_sector, length p.bytes / bytes_per_sector)

pub available_range_entries : EntryBatchData → List (ℕ × ℕ)
available_range_entries (complete bytes) = (0, length bytes / bytes_per_sector) ∷ []
available_range_entries (incomplete ps) = map range_of ps
