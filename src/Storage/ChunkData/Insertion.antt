-- ===== src/Storage/ChunkData/Insertion.antt =====
-- `insert_data` of chunk_data.rs, with the seals that it completes.
use ionian_rust.Base.{
  ℕ, zero, suc, ◌+◌, ◌-◌, ◌/◌, ◌%◌, ◌^◌, Bool, true, false, ◌&&◌, if◌then◌else◌, Option, none, some,
  List, [], ◌∷◌, ◌++◌, ltb, leb, ◌==◌, Run, ret, ◌>>◌, assert, Result, ok, err, length, get_elem?,
  set,
}
use ionian_rust.SharedTypes.{bytes_to_chunks}
use ionian_rust.Miner.{bytes_per_sector, sectors_per_load}
use ionian_rust.Storage.ChunkData.{
  PartialBatch, EntryBatchData, complete, incomplete, BatchError, overwrite_complete,
  start_overlapped, end_overlapped, data_overlapped, end_sector, find, sectors_per_seal,
}

-- The indices of the seals that lie within a range of sectors, as a range.
unfoldable pub get_intact_sealing_index : ℕ → ℕ → ℕ × ℕ
get_intact_sealing_index start_sector length_sector = (
  (start_sector + sectors_per_seal - 1) / sectors_per_seal % 2 ^ 16,
  (start_sector + length_sector) / sectors_per_seal % 2 ^ 16,
)

-- The indices of the seals that meet a range of sectors.
unfoldable pub get_covered_sealing_index : ℕ → ℕ → ℕ × ℕ
get_covered_sealing_index start_sector length_sector = (
  start_sector / sectors_per_seal % 2 ^ 16,
  (start_sector + length_sector + sectors_per_seal - 1) / sectors_per_seal % 2 ^ 16,
)

abbrev pub is_within : ℕ × ℕ → ℕ → Bool
is_within (a, b) i = leb a i && ltb i b

-- The elements of the range of `n` numbers from `a` on that a test lets through.
abbrev pub filter_from : (ℕ → Bool) → ℕ → ℕ → List ℕ
filter_from p a zero = []
filter_from p a (suc n) = if p a then a ∷ filter_from p (a + 1) n else filter_from p (a + 1) n

-- The part before a position, which is not the first, and the one at it.
abbrev pub before : List PartialBatch → ℕ → Option PartialBatch
before ps zero = none
before ps (suc i) = get_elem? ps i

abbrev pub ends_at : Option PartialBatch → ℕ → Bool
ends_at none k = false
ends_at (some p) k = k == end_sector p

abbrev pub starts_at : Option PartialBatch → ℕ → Bool
starts_at none k = false
starts_at (some p) k = k == p.start_sector

-- `Vec::insert`, and `Vec::remove` without its answer.
abbrev pub insert_elem : ℕ → PartialBatch → List PartialBatch → List PartialBatch
insert_elem zero x ps = x ∷ ps
insert_elem (suc i) x [] = x ∷ []
insert_elem (suc i) x (p ∷ ps) = p ∷ insert_elem i x ps

abbrev pub remove_elem : ℕ → List PartialBatch → List PartialBatch
remove_elem i [] = []
remove_elem zero (p ∷ ps) = ps
remove_elem (suc i) (p ∷ ps) = p ∷ remove_elem i ps

abbrev pub bytes_of : Option PartialBatch → List ℕ
bytes_of none = []
bytes_of (some p) = p.bytes

abbrev pub start_of : Option PartialBatch → ℕ
start_of none = 0
start_of (some p) = p.start_sector

-- The list with the new part, merged with the part before it, the part behind it, both or none,
-- and the part that holds the new data now.
abbrev pub place :
    List PartialBatch → ℕ → PartialBatch → Bool → Bool → List PartialBatch × PartialBatch
place ps i new false false = (insert_elem i new ps, new)
place ps i new true false =
    let prev = before ps i in
    let p : PartialBatch = record {
      start_sector = start_of prev;
      bytes = bytes_of prev ++ new.bytes;
    } in
    (set ps (i - 1) p, p)
place ps i new false true =
    let p : PartialBatch = record new { bytes = new.bytes ++ bytes_of (get_elem? ps i) } in
    (set ps i p, p)
place ps i new true true =
    let prev = before ps i in
    let p : PartialBatch = record {
      start_sector = start_of prev;
      bytes = (bytes_of prev ++ new.bytes) ++ bytes_of (get_elem? ps i);
    } in
    (set (remove_elem i ps) (i - 1) p, p)

-- The list at the end of `insert_data`: it turns into the whole load when it is full.
abbrev pub fill : List PartialBatch → EntryBatchData
fill [] = incomplete []
fill (p ∷ []) =
    if p.start_sector == 0 && bytes_to_chunks (length p.bytes) == sectors_per_load
    then complete p.bytes
    else incomplete (p ∷ [])
fill (p ∷ q ∷ ps) = incomplete (p ∷ q ∷ ps)

-- `insert_data` from the position on: the new data, and the seals that it completes.
unfoldable pub insert_at_position : List PartialBatch → ℕ → PartialBatch → EntryBatchData × List ℕ
insert_at_position ps i new =
    let length_sector = length new.bytes / bytes_per_sector in
    let (ps', updated) =
      place ps i new (ends_at (before ps i) new.start_sector)
        (starts_at (get_elem? ps i) (new.start_sector + length_sector)) in
    let intact =
      get_intact_sealing_index updated.start_sector (length updated.bytes / bytes_per_sector) in
    let (a, b) = get_covered_sealing_index new.start_sector length_sector in
    (fill ps', filter_from (is_within intact) a (b - a))

-- `insert_data` from the outcomes of the searches for the first and the last sector on.
abbrev pub insert_found :
    List PartialBatch
    → PartialBatch
    → Result ℕ ℕ
    → Result ℕ ℕ
    → EntryBatchData × Result BatchError (List ℕ)
insert_found ps new (ok x) r = (incomplete ps, err start_overlapped)
insert_found ps new (err i) (ok x) = (incomplete ps, err end_overlapped)
insert_found ps new (err i) (err j) =
    if i == j
    then ((insert_at_position ps i new).0, ok (insert_at_position ps i new).1)
    else (incomplete ps, err data_overlapped)

abbrev pub insert_part :
    List PartialBatch → PartialBatch → EntryBatchData × Result BatchError (List ℕ)
insert_part ps new =
    insert_found ps new (find ps new.start_sector)
      (find ps (new.start_sector + length new.bytes / bytes_per_sector - 1))

abbrev pub insert_nonempty :
    EntryBatchData → PartialBatch → EntryBatchData × Result BatchError (List ℕ)
insert_nonempty (complete whole) new = (complete whole, err overwrite_complete)
insert_nonempty (incomplete ps) new = insert_part ps new

unfoldable pub insert_data :
    EntryBatchData → ℕ → List ℕ → Run (EntryBatchData × Result BatchError (List ℕ))
insert_data d start_byte bytes =
    let new : PartialBatch = record {
      start_sector = start_byte / bytes_per_sector;
      bytes = bytes;
    } in
    do
      assert (start_byte % bytes_per_sector == 0)
      assert (length bytes % bytes_per_sector == 0)
      ret (if length bytes == 0 then (d, ok []) else insert_nonempty d new)
