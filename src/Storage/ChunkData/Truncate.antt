-- ===== src/Storage/ChunkData/Truncate.antt =====
-- `truncate` and `get` of chunk_data.rs against the bytes that the batch has.
use ionian_rust.Base.{
  ℕ, zero, suc, ◌+◌, ◌-◌, ◌*◌, ◌/◌, ◌%◌, ◌≤◌, ◌<◌, ◌≡◌, inl, inr, refl, ap, ◌∙◌, true, false,
  if◌then◌else◌, none, List, [], ◌∷◌, ltb, leb, ◌==◌, ret, Result, ok, err, length, get_elem?, take,
  length-take, arith, Bool-cases, Option-cases, min, ltb→lt,
}
use ionian_rust.SharedTypes.{bytes_to_chunks}
use ionian_rust.Miner.{bytes_per_sector}
use ionian_rust.Storage.ChunkData.{
  PartialBatch, EntryBatchData, complete, incomplete, end_sector, truncate, cut_at,
}
use ionian_rust.Storage.ChunkData.Find.{Parts, walk, later, find-walk}
use ionian_rust.Storage.ChunkData.Bytes.{
  byte_at, parts_at, part_at, IsValid, or_else-none, part_at-before, part_at-behind,
  end_sector-bytes,
}
use ionian_rust.Storage.ChunkData.Overlap.{parts_at-before}

get_elem?-take :
    (n i : ℕ) (xs : List ℕ) → get_elem? (take n xs) i ≡ (if ltb i n then get_elem? xs i else none)
get_elem?-take zero i xs = ground arith
get_elem?-take (suc n) i [] = ground arith
get_elem?-take (suc n) zero (x ∷ xs) = ground arith
get_elem?-take (suc n) (suc i) (x ∷ xs) = ground (arith, get_elem?-take n i xs)

-- A part with the data before a sector.
abbrev shortened : PartialBatch → ℕ → PartialBatch
shortened p k = record p {
  bytes = take (k * bytes_per_sector - p.start_sector * bytes_per_sector) p.bytes;
}

-- The list cut at a sector, as a walk.
unfoldable pub cut : List PartialBatch → ℕ → List PartialBatch
cut [] k = []
cut (p ∷ ps) k =
    let rest = cut ps k in
    if leb k p.start_sector
    then []
    else if ltb k (end_sector p)
    then shortened p k ∷ []
    else p ∷ rest

cut_at-later :
    (p : PartialBatch) (ps : List PartialBatch) (b : ℕ) (r : Result ℕ ℕ)
    → cut_at (p ∷ ps) b (later r) ≡ p ∷ cut_at ps b r
cut_at-later p ps b (err i) = refl
cut_at-later p ps b (ok i) = elim (Option-cases (get_elem? ps i)) [
  | inl e ↦ rw (e, cut_at) refl
  | inr (q, e) ↦
      elim (Bool-cases (length (take (b - q.start_sector * bytes_per_sector) q.bytes) == 0)) [
        | inl g ↦ rw (e, g, cut_at) refl
        | inr g ↦ rw (e, g, cut_at) refl
      ]
]

-- The part that has the sector is shortened, or left out if nothing of it is left.
cut_here :
    (p : PartialBatch) (ps : List PartialBatch) (k : ℕ)
    → length p.bytes % bytes_per_sector ≡ 0
    → p.start_sector ≤ k
    → k < end_sector p
    → cut_at (p ∷ ps) (k * bytes_per_sector) (ok 0)
      ≡ (if leb k p.start_sector then [] else shortened p k ∷ [])
cut_here p ps k d h g = elim (Bool-cases (leb k p.start_sector)) [
  | inl e ↦
      let z : (length (shortened p k).bytes == 0) ≡ true = ground (arith, e, l) in rw (e, z) refl
  | inr e ↦
      let z : (length (shortened p k).bytes == 0) ≡ false =
        ground (arith, e, l, end_sector-bytes p d, g) in
      rw (e, z) refl
]
  where
    l :
        length (shortened p k).bytes
        ≡ min (k * bytes_per_sector - p.start_sector * bytes_per_sector) (length p.bytes)
    l = length-take _ p.bytes

-- The walk cuts where the search does.
cut_at-cut :
    (ps : List PartialBatch) (k low : ℕ)
    → Parts low ps
    → cut_at ps (k * bytes_per_sector) (walk ps k) ≡ cut ps k
unfolding walk cut
cut_at-cut [] k low v = refl
cut_at-cut (p ∷ ps) k low (a, b, c, d, v) = elim (Bool-cases (ltb k p.start_sector)) [
  | inl h ↦ ground (arith, h)
  | inr h ↦ elim (Bool-cases (ltb k (end_sector p))) [
    | inl g ↦ rw (h, g) (cut_here p ps k d (ground (arith, h)) (ltb→lt _ _ g))
    | inr g ↦
        let e : leb k p.start_sector ≡ false = ground (arith, g, b) in
        rw (h, g, e)
          (cut_at-later p ps (k * bytes_per_sector) (walk ps k)
            ∙ ap (◌∷◌ p) (cut_at-cut ps k (end_sector p + 1) v))
  ]
]

shortened-bytes :
    (p : PartialBatch) (k b : ℕ)
    → p.start_sector ≤ k
    → part_at (shortened p k) b ≡ (if ltb b (k * bytes_per_sector) then part_at p b else none)
shortened-bytes p k b h = elim (Bool-cases (ltb b (p.start_sector * bytes_per_sector))) [
  | inl e ↦ ground (arith, e, h)
  | inr e ↦ ground (
    arith,
    e,
    h,
    get_elem?-take (k * bytes_per_sector - p.start_sector * bytes_per_sector)
        (b - p.start_sector * bytes_per_sector) p.bytes,
  )
]

-- What is cut off is missing, and the rest is as it was.
cut-bytes :
    (ps : List PartialBatch) (k low b : ℕ)
    → Parts low ps
    → parts_at (cut ps k) b ≡ (if ltb b (k * bytes_per_sector) then parts_at ps b else none)
unfolding cut
cut-bytes [] k low b v = ground arith
cut-bytes (p ∷ ps) k low b (a, l, c, d, v) = elim (Bool-cases (leb k p.start_sector)) [
  | inl h ↦ rw h (elim (Bool-cases (ltb b (k * bytes_per_sector))) [
    | inr i ↦ rw i
    | inl i ↦ rw (
      i,
      part_at-before p b (ground (arith, i, h)),
      parts_at-before ps (end_sector p + 1) b v (ground (arith, i, h, l)),
    )
  ])
  | inr h ↦ elim (Bool-cases (ltb k (end_sector p))) [
    | inl g ↦
        let rest : b < k * bytes_per_sector → parts_at ps b ≡ none =
          λ u. parts_at-before ps (end_sector p + 1) b v (ground (arith, u, g)) in
        rw (h, g, shortened-bytes p k b (ground (arith, h)))
          (elim (Bool-cases (ltb b (k * bytes_per_sector))) [
            | inr i ↦ rw i
            | inl i ↦ rw (i, rest (ltb→lt _ _ i))
          ])
    | inr g ↦
        rw (h, g, cut-bytes ps k (end_sector p + 1) b v)
          (elim (Bool-cases (ltb b (k * bytes_per_sector))) [
            | inl i ↦ rw i
            | inr i ↦ rw (i, part_at-behind p d b (ground (arith, i, g)))
          ])
  ]
]

cut-Parts : (ps : List PartialBatch) (k low : ℕ) → Parts low ps → Parts low (cut ps k)
unfolding cut bytes_to_chunks
cut-Parts [] k low v = v
cut-Parts (p ∷ ps) k low (a, l, c, d, v) = elim (Bool-cases (leb k p.start_sector)) [
  | inl h ↦ rw h tt
  | inr h ↦ elim (Bool-cases (ltb k (end_sector p))) [
    | inl g ↦
        let n = length-take (k * bytes_per_sector - p.start_sector * bytes_per_sector) p.bytes in
        let t : end_sector (shortened p k) ≡ k = ground (arith, n, h, g, end_sector-bytes p d) in
        rw (h, g)
          (
            a,
            ground (arith, t, h),
            ground (arith, t, c, g),
            ground (arith, n, h, g, end_sector-bytes p d),
            tt,
          )
    | inr g ↦ rw (h, g) (a, l, c, d, cut-Parts ps k (end_sector p + 1) v)
  ]
]

whole : (k : ℕ) → (k * bytes_per_sector % bytes_per_sector == 0) ≡ true
whole k = ground arith

sector : (k : ℕ) → k * bytes_per_sector / bytes_per_sector ≡ k
sector k = omega arith

first-bytes :
    (xs : List ℕ) (b : ℕ) → part_at (record { start_sector = 0; bytes = xs }) b ≡ get_elem? xs b
first-bytes xs b = ground arith

-- Cutting a valid batch at a sector, which is not the first, does not panic: the batch is valid, the
-- bytes from that sector on are missing, and those before it are as they were.
pub truncate-byte_at :
    (d : EntryBatchData) (k b : ℕ)
    → IsValid d
    → 0 < k
    → (d' : EntryBatchData) × (truncate d (k * bytes_per_sector) ≡ ret d')
      × IsValid d'
      × (byte_at d' b ≡ (if ltb b (k * bytes_per_sector) then byte_at d b else none))
unfolding truncate IsValid byte_at bytes_to_chunks
truncate-byte_at (incomplete ps) k b v h = (
  incomplete (cut ps k),
  rw (whole k, sector k)
      (ap (λ l. ret (incomplete l))
        (ap (cut_at ps (k * bytes_per_sector)) (find-walk ps k 0 v) ∙ cut_at-cut ps k 0 v)),
  cut-Parts ps k 0 v,
  cut-bytes ps k 0 b v,
)
truncate-byte_at (complete bytes) k b v h = (
  incomplete (record { start_sector = 0; bytes = take (k * bytes_per_sector) bytes } ∷ []),
  rw (whole k),
  (omega arith, ground (arith, n, v, h), ground (arith, n, v), ground (arith, n, v), tt),
  or_else-none _
      ∙ first-bytes (take (k * bytes_per_sector) bytes) b
      ∙ get_elem?-take (k * bytes_per_sector) b bytes,
)
  where
    n : length (take (k * bytes_per_sector) bytes) ≡ min (k * bytes_per_sector) (length bytes)
    n = length-take _ bytes
