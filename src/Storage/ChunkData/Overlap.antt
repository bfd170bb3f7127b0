-- ===== src/Storage/ChunkData/Overlap.antt =====
-- Parts of chunk_data.rs that fit in a list and parts that do not, by their bytes.
use ionian_rust.Base.{
  ℕ, ◌+◌, ◌-◌, ◌*◌, ◌/◌, ◌%◌, ◌≤◌, ◌<◌, ◌≡◌, ◌⊎◌, inl, inr, refl, ap, sym, ◌∙◌, ◌&&◌, none, some,
  List, [], ◌∷◌, ltb, leb, ◌==◌, length, get_elem?, arith, Bool-cases, max, ltb→lt,
}
use ionian_rust.SharedTypes.{bytes_to_chunks}
use ionian_rust.Miner.{bytes_per_sector, sectors_per_load}
use ionian_rust.Storage.ChunkData.{PartialBatch, end_sector}
use ionian_rust.Storage.ChunkData.Insertion.{fill}
use ionian_rust.Storage.ChunkData.Find.{Parts}
use ionian_rust.Storage.ChunkData.Put.{
  put, join, Free, IsPart, placed, front, next, prev, behind, put_front, put_next, put_prev,
  put_later, join-IsPart, join-Free, later_Parts,
}
use ionian_rust.Storage.ChunkData.Bytes.{
  byte_at, parts_at, part_at, or_else, or_else_assoc, or_else-none, or_else_swap, IsValid,
  part_at-join, part_at-elem, part_at-before, part_at-behind, part_at-within,
}

-- Two parts, one before the other, have no byte in common.
apart :
    (p q : PartialBatch) (b : ℕ)
    → length p.bytes % bytes_per_sector ≡ 0
    → end_sector p ≤ q.start_sector
    → (part_at p b ≡ none) ⊎ (part_at q b ≡ none)
apart p q b h e = elim (Bool-cases (ltb b (end_sector p * bytes_per_sector))) [
  | inl l ↦ inr (part_at-before q b (omega (arith, ltb→lt _ _ l, e)))
  | inr l ↦ inl (part_at-behind p h b (ground (arith, l)))
]

-- The list with a part that fits has the bytes of that part, and the others as before.
pub put-bytes :
    (ps : List PartialBatch) (new : PartialBatch) (low b : ℕ)
    → Parts low ps
    → IsPart low new
    → Free new ps
    → parts_at (put new ps).0 b ≡ or_else (part_at new b) (parts_at ps b)
unfolding put
put-bytes [] new low k v n f = refl
put-bytes (p ∷ ps) new low k (a, b, c, d, v) (la, lb, lc, ld, lv) f = elim (placed new p ps f) [
  | front h ↦ rw (put_front new p ps h)
  | next h ↦
      rw (put_next new p ps h, part_at-join new p k ld h)
        (or_else_assoc (part_at new k) (part_at p k) (parts_at ps k))
  | prev h g ↦
      let (j, e) = join-IsPart low low p new (a, b, c, d, lv) (la, lb, lc, ld, lv) h in
      rw (put_prev new p ps (omega (arith, h, lb, b)) h) (
        put-bytes ps (join p new) low k
          (later_Parts ps (end_sector p + 1) low (omega (arith, a, b)) v) j
          (join-Free p new ps h v e g)
        ∙ ap (λ o. or_else o (parts_at ps k)) (part_at-join p new k d h)
        ∙ or_else_assoc (part_at p k) (part_at new k) (parts_at ps k)
        ∙ or_else_swap (part_at p k) (part_at new k) (parts_at ps k)
            (apart p new k d (omega (arith, h))))
  | behind h g ↦
      rw
        (
          put_later new p ps (omega (arith, h, lb, b)) h,
          put-bytes ps new (end_sector p + 1) k v (omega (arith, h), lb, lc, ld, lv) g,
        )
        (or_else_swap (part_at p k) (part_at new k) (parts_at ps k)
          (apart p new k d (omega (arith, h))))
]

-- The whole load in place of a list that is full has the same bytes.
pub fill-bytes : (ps : List PartialBatch) (b : ℕ) → byte_at (fill ps) b ≡ parts_at ps b
unfolding byte_at
fill-bytes [] b = refl
fill-bytes (p ∷ []) b =
    elim (Bool-cases
      (p.start_sector == 0 && bytes_to_chunks (length p.bytes) == sectors_per_load)) [
        | inl h ↦
            let z : p.start_sector ≡ 0 = ground (arith, h) in
            let i : b - p.start_sector * bytes_per_sector ≡ b = omega (arith, z) in
            rw (h, part_at-elem p b (omega (arith, z)), i)
              (sym (or_else-none (get_elem? p.bytes b)))
        | inr h ↦ rw h
      ]
fill-bytes (p ∷ q ∷ ps) b = refl

pub fill-IsValid : (ps : List PartialBatch) → Parts 0 ps → IsValid (fill ps)
unfolding IsValid bytes_to_chunks
fill-IsValid [] v = v
fill-IsValid (p ∷ []) v =
    elim (Bool-cases
      (p.start_sector == 0 && bytes_to_chunks (length p.bytes) == sectors_per_load)) [
        | inl h ↦ rw h (ground (arith, h, v.3))
        | inr h ↦ rw h v
      ]
fill-IsValid (p ∷ q ∷ ps) v = v

-- A part fits, or one of its sectors is in the list.
pub overlap :
    (ps : List PartialBatch) (new : PartialBatch) (low : ℕ)
    → Parts low ps
    → new.start_sector < end_sector new
    → Free new ps
      ⊎ ((k : ℕ) × (new.start_sector ≤ k)
          × (k < end_sector new)
          × (x : ℕ) × (parts_at ps (k * bytes_per_sector) ≡ some x))
overlap [] new low v l = inl tt
overlap (p ∷ ps) new low (a, b, c, d, v) l =
    elim (Bool-cases (leb (end_sector new) p.start_sector)) [
      | inl h ↦ inl (inl (ground (arith, h)))
      | inr h ↦ elim (Bool-cases (leb (end_sector p) new.start_sector)) [
        | inl g ↦ elim (overlap ps new (end_sector p + 1) v l) [
          | inl f ↦ inl (inr (ground (arith, g), f))
          | inr (k, s, e, x, q) ↦
              inr (
                k,
                s,
                e,
                x,
                rw (part_at-behind p d (k * bytes_per_sector) (ground (arith, s, g))) q,
              )
        ]
        | inr g ↦
            let k = max new.start_sector p.start_sector in
            let (x, e) =
              part_at-within p d (k * bytes_per_sector) (omega arith) (ground (arith, g, b)) in
            inr (k, omega arith, ground (arith, h, l), x, rw e)
      ]
    ]

pub parts_at-before :
    (ps : List PartialBatch) (low b : ℕ)
    → Parts low ps
    → b < low * bytes_per_sector
    → parts_at ps b ≡ none
parts_at-before [] low k v h = refl
parts_at-before (p ∷ ps) low k (a, b, c, d, v) h =
    rw (part_at-before p k (omega (arith, a, h)))
      (parts_at-before ps (end_sector p + 1) k v (omega (arith, a, b, h)))

-- The bytes of a part that fits are missing in the list.
pub Free-bytes :
    (ps : List PartialBatch) (new : PartialBatch) (low b : ℕ)
    → Parts low ps
    → Free new ps
    → new.start_sector * bytes_per_sector ≤ b
    → b < end_sector new * bytes_per_sector
    → parts_at ps b ≡ none
Free-bytes [] new low k v f l u = refl
Free-bytes (p ∷ ps) new low k (a, b, c, d, v) (inl h) l u = rw (
  part_at-before p k (omega (arith, u, h)),
  parts_at-before ps (end_sector p + 1) k v (omega (arith, u, h, b)),
)
Free-bytes (p ∷ ps) new low k (a, b, c, d, v) (inr (h, f)) l u =
    rw (part_at-behind p d k (omega (arith, l, h))) (Free-bytes ps new (end_sector p + 1) k v f l u)

pub end_sector-aligned :
    (p : PartialBatch)
    → length p.bytes % bytes_per_sector ≡ 0
    → p.start_sector + length p.bytes / bytes_per_sector ≡ end_sector p
unfolding bytes_to_chunks
end_sector-aligned p h = ground (arith, h)
