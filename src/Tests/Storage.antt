-- ===== src/Tests/Storage.antt =====
-- The loads of node/storage/src/log_store/load_chunk, at small data.
use ionian_rust.Base.{
  ℕ, ◌+◌, ◌-◌, ◌≡◌, refl, ret, ok, err, List, [], ◌∷◌, length, not, ◌*◌, get_elem?, leb, ltb, ◌&&◌,
  if◌then◌else◌, arith, replicate, true, false, none,
}
use ionian_rust.SharedTypes.{bytes_to_chunks}
use ionian_rust.Storage.ChunkData.{
  PartialBatch, EntryBatchData, BatchError, incomplete, find, truncate,
}
use ionian_rust.Storage.ChunkData.Insertion.{insert_data}
use ionian_rust.Storage.ChunkData.Find
use ionian_rust.Storage.ChunkData.Find.{Parts, walk}
use ionian_rust.Storage.ChunkData.Bytes
use ionian_rust.Storage.ChunkData.Bytes.{byte_at, is_vacant}
use ionian_rust.Storage.ChunkData.Insert
use ionian_rust.Storage.ChunkData.Seals.{elem, is_intact}
use ionian_rust.Storage.ChunkData.Truncate

-- One sector of the byte 7 at the sector 3.
abbrev sector : List ℕ
sector = replicate 256 7

abbrev parts : List PartialBatch
parts = record { start_sector = 3; bytes = sector } ∷ []

parts-Parts : Parts 0 parts
unfolding bytes_to_chunks
parts-Parts = (omega arith, omega arith, omega arith, refl, tt)

find-walk_example : find parts 5 ≡ walk parts 5
find-walk_example = Find.find-walk parts 5 0 parts-Parts

data-IsValid : Bytes.IsValid (incomplete parts)
unfolding Bytes.IsValid
data-IsValid = parts-Parts

front_is_vacant : is_vacant (incomplete parts) 512 256 ≡ true
unfolding byte_at
front_is_vacant = refl

-- The sector 2 is put before the sector 3.
insert_data-byte_at_example :
    (d' : EntryBatchData) × (seals : List ℕ) × (insert_data (incomplete parts) 512 sector
      ≡ ret (d', ok seals))
    × Bytes.IsValid d'
    × (byte_at d' 600 ≡ (
        if leb 512 600 && ltb 600 (512 + length sector)
        then get_elem? sector (600 - 512)
        else byte_at (incomplete parts) 600))
    × (elem 0 seals ≡ (is_intact d' 0 && not (is_intact (incomplete parts) 0)))
insert_data-byte_at_example =
    Insert.insert_data-byte_at (incomplete parts) 512 sector 600 0 data-IsValid refl refl
      (omega arith) (omega arith) front_is_vacant

back_is_taken : is_vacant (incomplete parts) 768 256 ≡ false
unfolding byte_at
back_is_taken = refl

-- The sector 3 is there already.
insert_data-occupied_example :
    (e : BatchError) × (insert_data (incomplete parts) 768 sector ≡ ret (incomplete parts, err e))
insert_data-occupied_example =
    Insert.insert_data-occupied (incomplete parts) 768 sector data-IsValid refl refl (omega arith)
      (omega arith) back_is_taken

truncate-byte_at_example :
    (d' : EntryBatchData) × (truncate (incomplete parts) (3 * 256) ≡ ret d')
    × Bytes.IsValid d'
    × (byte_at d' 800 ≡ (if ltb 800 (3 * 256) then byte_at (incomplete parts) 800 else none))
truncate-byte_at_example =
    Truncate.truncate-byte_at (incomplete parts) 3 800 data-IsValid (omega arith)
