-- ===== src/Storage/ChunkData/Bytes.antt =====
-- The bytes that a batch of chunk_data.rs has, by their offsets in the load.
use ionian_rust.Base.{
  ℕ, zero, suc, ◌+◌, ◌-◌, ◌*◌, ◌%◌, ◌≤◌, ◌<◌, ◌≡◌, ◌⊎◌, inl, inr, refl, sym, ◌∙◌, Bool, true, false,
  if◌then◌else◌, ◌&&◌, not, Option, none, some, List, [], ◌∷◌, ◌++◌, ltb, length, get_elem?, arith,
  Bool-cases, is_some, ltb→lt, lt→ltb,
}
use ionian_rust.SharedTypes.{bytes_to_chunks}
use ionian_rust.Miner.{bytes_per_sector}
use ionian_rust.Storage.ChunkData.{
  PartialBatch, EntryBatchData, complete, incomplete, end_sector, bytes_per_load,
}
use ionian_rust.Storage.ChunkData.Find.{Parts}
use ionian_rust.Storage.ChunkData.Put.{join}

abbrev pub or_else : Option ℕ → Option ℕ → Option ℕ
or_else none o = o
or_else (some x) o = some x

-- The byte that a part has at an offset, and the one that a list of parts or a batch has there.
abbrev pub part_at : PartialBatch → ℕ → Option ℕ
part_at p b =
    if ltb b (p.start_sector * bytes_per_sector)
    then none
    else get_elem? p.bytes (b - p.start_sector * bytes_per_sector)

abbrev pub parts_at : List PartialBatch → ℕ → Option ℕ
parts_at [] b = none
parts_at (p ∷ ps) b = or_else (part_at p b) (parts_at ps b)

unfoldable pub byte_at : EntryBatchData → ℕ → Option ℕ
byte_at (complete bytes) b = get_elem? bytes b
byte_at (incomplete ps) b = parts_at ps b

-- A batch that is whole, or a list of separate parts in order.
unfoldable pub IsValid : EntryBatchData → Type 0
IsValid (complete bytes) = length bytes ≡ bytes_per_load
IsValid (incomplete ps) = Parts 0 ps

-- Whether no byte of a range is there.
abbrev pub is_vacant : EntryBatchData → ℕ → ℕ → Bool
is_vacant d b zero = true
is_vacant d b (suc n) = not (is_some (byte_at d b)) && is_vacant d (b + 1) n

pub or_else_assoc : (a b c : Option ℕ) → or_else (or_else a b) c ≡ or_else a (or_else b c)
or_else_assoc none b c = refl
or_else_assoc (some x) b c = refl

pub or_else-none : (a : Option ℕ) → or_else a none ≡ a
or_else-none none = refl
or_else-none (some x) = refl

pub or_else_swap :
    (a b c : Option ℕ) → (a ≡ none) ⊎ (b ≡ none) → or_else a (or_else b c) ≡ or_else b (or_else a c)
or_else_swap none b c h = refl
or_else_swap (some x) none c h = refl
or_else_swap (some x) (some y) c (inl h) = absurd (cc h)
or_else_swap (some x) (some y) c (inr h) = absurd (cc h)

pub get_elem?-past : (xs : List ℕ) (i : ℕ) → length xs ≤ i → get_elem? xs i ≡ none
get_elem?-past [] i h = refl
get_elem?-past (x ∷ xs) zero h = absurd (omega arith)
get_elem?-past (x ∷ xs) (suc i) h = get_elem?-past xs i (omega arith)

pub get_elem?-within : (xs : List ℕ) (i : ℕ) → i < length xs → (x : ℕ) × (get_elem? xs i ≡ some x)
get_elem?-within [] i h = absurd (omega arith)
get_elem?-within (x ∷ xs) zero h = (x, refl)
get_elem?-within (x ∷ xs) (suc i) h = get_elem?-within xs i (omega arith)

get_elem?-append :
    (xs ys : List ℕ) (i : ℕ)
    → get_elem? (xs ++ ys) i
      ≡ (if ltb i (length xs) then get_elem? xs i else get_elem? ys (i - length xs))
get_elem?-append [] ys i = ground arith
get_elem?-append (x ∷ xs) ys zero = ground arith
get_elem?-append (x ∷ xs) ys (suc i) = ground (arith, get_elem?-append xs ys i)

-- The first byte behind a part.
pub end_sector-bytes :
    (p : PartialBatch)
    → length p.bytes % bytes_per_sector ≡ 0
    → end_sector p * bytes_per_sector ≡ p.start_sector * bytes_per_sector + length p.bytes
unfolding bytes_to_chunks
end_sector-bytes p h = ground arith

module _ (p : PartialBatch) where
  pub part_at-elem :
      (b : ℕ)
      → p.start_sector * bytes_per_sector ≤ b
      → part_at p b ≡ get_elem? p.bytes (b - p.start_sector * bytes_per_sector)
  part_at-elem b l = ground (arith, l)

  pub part_at-before : (b : ℕ) → b < p.start_sector * bytes_per_sector → part_at p b ≡ none
  part_at-before b l = ground (arith, l)

module _ (p : PartialBatch) (h : length p.bytes % bytes_per_sector ≡ 0) where
  pub part_at-behind : (b : ℕ) → end_sector p * bytes_per_sector ≤ b → part_at p b ≡ none
  part_at-behind b l =
      let e = end_sector-bytes p h in
      part_at-elem p b (omega (arith, l, e)) ∙ get_elem?-past p.bytes _ (omega (arith, l, e))

  pub part_at-within :
      (b : ℕ)
      → p.start_sector * bytes_per_sector ≤ b
      → b < end_sector p * bytes_per_sector
      → (x : ℕ) × (part_at p b ≡ some x)
  part_at-within b l u =
      let (x, g) =
        get_elem?-within p.bytes (b - p.start_sector * bytes_per_sector)
          (omega (arith, l, u, end_sector-bytes p h)) in
      (x, part_at-elem p b l ∙ g)

-- A part with the one behind it has the bytes of both.
pub part_at-join :
    (p q : PartialBatch) (b : ℕ)
    → length p.bytes % bytes_per_sector ≡ 0
    → end_sector p ≡ q.start_sector
    → part_at (join p q) b ≡ or_else (part_at p b) (part_at q b)
part_at-join p q b h e = elim (Bool-cases (ltb b (p.start_sector * bytes_per_sector))) [
  | inl l ↦ rw (
    part_at-before p b (ltb→lt _ _ l),
    part_at-before q b (omega (arith, ltb→lt _ _ l, g, e)),
    part_at-before (join p q) b (ltb→lt _ _ l),
  )
  | inr l ↦ elim (Bool-cases (ltb b (end_sector p * bytes_per_sector))) [
    | inl u ↦
        let (x, k) = part_at-within p h b (ground (arith, l)) (ltb→lt _ _ u) in
        let w : ltb (b - p.start_sector * bytes_per_sector) (length p.bytes) ≡ true =
          lt→ltb _ _ (omega (arith, g, ltb→lt _ _ u, at_least l)) in
        rw (k, joined l, w) (sym (part_at-elem p b (at_least l)) ∙ k)
    | inr u ↦
        let w : ltb (b - p.start_sector * bytes_per_sector) (length p.bytes) ≡ false =
          ground (arith, u, g) in
        let i : b - p.start_sector * bytes_per_sector - length p.bytes
            ≡ b - q.start_sector * bytes_per_sector =
          omega (arith, g, e) in
        rw (
          part_at-behind p h b (ground (arith, u)),
          part_at-elem q b (ground (arith, u, e)),
          joined l,
          w,
          i,
        )
  ]
]
  where
    g : end_sector p * bytes_per_sector ≡ p.start_sector * bytes_per_sector + length p.bytes
    g = end_sector-bytes p h

    at_least :
        ltb b (p.start_sector * bytes_per_sector) ≡ false → p.start_sector * bytes_per_sector ≤ b
    at_least l = ground (arith, l)

    joined :
        ltb b (p.start_sector * bytes_per_sector) ≡ false
        → part_at (join p q) b ≡ (
            if ltb (b - p.start_sector * bytes_per_sector) (length p.bytes)
            then get_elem? p.bytes (b - p.start_sector * bytes_per_sector)
            else get_elem? q.bytes (b - p.start_sector * bytes_per_sector - length p.bytes))
    joined l =
        part_at-elem (join p q) b (at_least l)
        ∙ get_elem?-append p.bytes q.bytes (b - p.start_sector * bytes_per_sector)
