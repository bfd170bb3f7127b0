-- ===== src/Storage/ChunkData/Find.antt =====
-- The binary search of chunk_data.rs against a walk along the list.
use ionian_rust.Base.{
  ℕ, zero, suc, ◌+◌, ◌%◌, ◌≤◌, ◌<◌, ◌≡◌, refl, ap, sym, ◌∙◌, if◌then◌else◌, List, [], ◌∷◌, ltb,
  Result, ok, err, length, arith, Bool-cases, inl, inr,
}
use ionian_rust.Miner.{bytes_per_sector, sectors_per_load}
use ionian_rust.Storage.ChunkData.{PartialBatch, end_sector, search, hit, find}

-- The parts from a sector on: each has data, a whole number of sectors of it within the load, and
-- between two of them a sector is missing.
abbrev pub Parts : ℕ → List PartialBatch → Type 0
Parts low [] = Unit {0}
Parts low (p ∷ ps) =
    (low ≤ p.start_sector)
    × (p.start_sector < end_sector p)
    × (end_sector p ≤ sectors_per_load)
    × (length p.bytes % bytes_per_sector ≡ 0)
    × Parts (end_sector p + 1) ps

-- One position further.
abbrev pub later : Result ℕ ℕ → Result ℕ ℕ
later (ok i) = ok (suc i)
later (err i) = err (suc i)

-- The search as a walk along the list.
unfoldable pub walk : List PartialBatch → ℕ → Result ℕ ℕ
walk [] k = err 0
walk (p ∷ ps) k =
    let rest = walk ps k in
    if ltb k p.start_sector then err 0 else if ltb k (end_sector p) then ok 0 else later rest

search-later :
    (p : PartialBatch) (ps : List PartialBatch) (k : ℕ)
    → p.start_sector < k
    → search k (p ∷ ps) ≡ later (search k ps)
unfolding search
search-later p ps k lt = ground arith

hit-later :
    (p : PartialBatch) (ps : List PartialBatch) (k i : ℕ)
    → hit (p ∷ ps) k (suc i) ≡ later (hit ps k i)
hit-later p ps k i = ground arith

-- Behind a sector that the first part has, no part starts before it.
search_before : (ps : List PartialBatch) (k low : ℕ) → Parts low ps → k < low → search k ps ≡ err 0
unfolding search
search_before [] k low v lt = refl
search_before (p ∷ ps) k low v lt = ground (arith, v.0)

-- The search from the outcome of the binary search.
abbrev from_search : List PartialBatch → ℕ → Result ℕ ℕ → Result ℕ ℕ
from_search ps k (ok i) = hit ps k i
from_search ps k (err zero) = err 0
from_search ps k (err (suc j)) = hit ps k j

find-from_search : (ps : List PartialBatch) (k : ℕ) → find ps k ≡ from_search ps k (search k ps)
unfolding find
find-from_search ps k = go (search k ps)
  where
    go :
        (r : Result ℕ ℕ)
        → elim r [ ok i ↦ hit ps k i | err i ↦ elim i [ zero ↦ err 0 | suc j ↦ hit ps k j ] ]
          ≡ from_search ps k r
    go (ok i) = refl
    go (err zero) = refl
    go (err (suc j)) = refl

-- Past the first part.
from_search-later :
    (p : PartialBatch) (ps : List PartialBatch) (k : ℕ) (r : Result ℕ ℕ)
    → end_sector p ≤ k
    → from_search (p ∷ ps) k (later r) ≡ later (from_search ps k r)
from_search-later p ps k (ok i) h = hit-later p ps k i
from_search-later p ps k (err zero) h = ground arith
from_search-later p ps k (err (suc j)) h = hit-later p ps k j

-- On an ordered list of separate parts the binary search finds what the walk along the list finds.
pub find-walk : (ps : List PartialBatch) (k low : ℕ) → Parts low ps → find ps k ≡ walk ps k
unfolding walk search
find-walk [] k low v = find-from_search [] k
find-walk (p ∷ ps) k low (a, b, c, d, v) =
    find-from_search (p ∷ ps) k ∙ elim (Bool-cases (ltb p.start_sector k)) [
      | inr e ↦ ground arith
      | inl e ↦ elim (Bool-cases (ltb k (end_sector p))) [
        | inl g ↦ ground (arith, search-later p ps k, search_before ps k (end_sector p + 1) v)
        | inr g ↦
            let lt : p.start_sector < k = ground arith in
            rw (search-later p ps k lt) (
              from_search-later p ps k (search k ps) (ground arith)
              ∙ ap later (sym (find-from_search ps k) ∙ find-walk ps k (end_sector p + 1) v)
              ∙ ground (arith, g, lt))
      ]
    ]
