-- ===== src/Storage/ChunkData/Position.antt =====
-- The position and the merges of `insert_data` of chunk_data.rs.
use ionian_rust.Base.{
  ℕ, zero, suc, ◌+◌, ◌-◌, ◌≤◌, ◌<◌, ◌≡◌, ◌⊎◌, inl, inr, refl, ap, ◌∙◌, Bool, true, false,
  if◌then◌else◌, List, [], ◌∷◌, ltb, leb, ◌==◌, Result, ok, err, get_elem?, arith, Bool-cases,
  ℕ_discrete,
}
use ionian_rust.Storage.ChunkData.{PartialBatch, end_sector}
use ionian_rust.Storage.ChunkData.Insertion.{before, ends_at, starts_at, place}
use ionian_rust.Storage.ChunkData.Find.{Parts, walk, later}
use ionian_rust.Storage.ChunkData.Put.{
  put, after, join, Free, IsPart, placed, front, next, prev, behind, put_front, put_next, put_prev,
  put_later, join-IsPart,
}

-- The number of parts before a part that fits.
abbrev pub gap : PartialBatch → List PartialBatch → ℕ
gap new [] = 0
gap new (p ∷ ps) = if leb (end_sector new) p.start_sector then 0 else suc (gap new ps)

-- A part that fits is missing at its first and at its last sector, at one position.
pub walk-gap :
    (ps : List PartialBatch) (new : PartialBatch) (low k : ℕ)
    → Parts low ps
    → Free new ps
    → new.start_sector ≤ k
    → k < end_sector new
    → walk ps k ≡ err (gap new ps)
unfolding walk
walk-gap [] new low k v f h g = refl
walk-gap (p ∷ ps) new low k v (inl a) h g = ground (arith, a)
walk-gap (p ∷ ps) new low k (a, b, c, d, v) (inr (e, f)) h g =
    ground (arith, walk-gap ps new (end_sector p + 1) k v f h g, e)

later-err : (r : Result ℕ ℕ) (i : ℕ) → later r ≡ err i → (j : ℕ) × (r ≡ err j) × (i ≡ suc j)
later-err (ok x) i e = absurd (cc e)
later-err (err j) i e = (j, refl, ground (arith, e))

-- A missing sector lies before the first part, or behind it and is missing there.
walk-err :
    (p : PartialBatch) (ps : List PartialBatch) (k i : ℕ)
    → walk (p ∷ ps) k ≡ err i
    → ((k < p.start_sector) × (i ≡ 0))
      ⊎ ((end_sector p ≤ k) × ((j : ℕ) × (walk ps k ≡ err j) × (i ≡ suc j)))
unfolding walk
walk-err p ps k i e = elim (Bool-cases (ltb k p.start_sector)) [
  | inl h ↦ inl (ground (arith, h, e))
  | inr h ↦ elim (Bool-cases (ltb k (end_sector p))) [
    | inl g ↦ absurd (ground (arith, h, g, e))
    | inr g ↦ inr (ground (arith, g), later-err (walk ps k) i (ground (arith, h, g, e)))
  ]
]

-- Two sectors that are missing at one position have nothing between them.
pub walk-Free :
    (ps : List PartialBatch) (new : PartialBatch) (i : ℕ)
    → walk ps new.start_sector ≡ err i
    → walk ps (end_sector new - 1) ≡ err i
    → Free new ps
walk-Free [] new i a b = tt
walk-Free (p ∷ ps) new i a b = elim (walk-err p ps (end_sector new - 1) i b) [
  | inl (h, z) ↦ inl (omega (arith, h))
  | inr (h, (j, e, z)) ↦ elim (walk-err p ps new.start_sector i a) [
    | inl (h', z') ↦ absurd (omega (arith, z, z'))
    | inr (h', (j', e', z')) ↦ inr (h', walk-Free ps new j (ground (arith, e', z, z')) e)
  ]
]

-- The outcome of the merges at a position.
abbrev pub placed_at : PartialBatch → ℕ → List PartialBatch → ℕ → List PartialBatch × PartialBatch
placed_at new end ps i =
    place ps i new (ends_at (before ps i) new.start_sector) (starts_at (get_elem? ps i) end)

place-later :
    (p : PartialBatch) (ps : List PartialBatch) (j : ℕ) (new : PartialBatch) (a b : Bool)
    → place (p ∷ ps) (suc (suc j)) new a b ≡ after p (place ps (suc j) new a b)
place-later p ps j new true true = ground arith
place-later p ps j new true false = ground arith
place-later p ps j new false true = ground arith
place-later p ps j new false false = refl

place-front :
    (p : PartialBatch) (ps : List PartialBatch) (new : PartialBatch) (b : Bool)
    → place (p ∷ ps) 1 new false b ≡ after p (place ps 0 new false b)
place-front p ps new true = refl
place-front p ps new false = refl

-- Further behind a part, it makes no difference.
place_behind :
    (new p : PartialBatch) (ps : List PartialBatch) (i : ℕ)
    → end_sector p < new.start_sector
    → placed_at new (end_sector new) (p ∷ ps) (suc i)
      ≡ after p (placed_at new (end_sector new) ps i)
place_behind new p ps zero h =
    let e : (new.start_sector == end_sector p) ≡ false = ground (arith, h) in
    rw e (place-front p ps new _)
place_behind new p ps (suc j) h = place-later p ps j new _ _

gap-later :
    (new p : PartialBatch) (ps : List PartialBatch)
    → p.start_sector < end_sector new
    → gap new (p ∷ ps) ≡ suc (gap new ps)
gap-later new p ps h = ground (arith, h)

-- Right behind a part, before the others.
place_prev :
    (new p : PartialBatch) (ps : List PartialBatch)
    → Parts (end_sector p + 1) ps
    → Free new ps
    → end_sector p ≡ new.start_sector
    → end_sector (join p new) ≡ end_sector new
    → placed_at new (end_sector new) (p ∷ ps) (suc (gap new ps)) ≡ put (join p new) ps
unfolding put
place_prev new p [] v f h e = ground (arith, h)
place_prev new p (q ∷ qs) v (inl f) h e = elim (ℕ_discrete (end_sector new) q.start_sector) [
  | yes l ↦ ground (arith, h, l, e)
  | no l ↦ ground (arith, h, l, f, e)
]
place_prev new p (q ∷ qs) v (inr f) h e = absurd (omega (arith, v.0, v.1, f.0, h))

-- The merges at the position make the list that the walk makes.
pub place-put :
    (ps : List PartialBatch) (new : PartialBatch) (low : ℕ)
    → Parts low ps
    → IsPart low new
    → Free new ps
    → placed_at new (end_sector new) ps (gap new ps) ≡ put new ps
unfolding put
place-put [] new low v n f = refl
place-put (p ∷ ps) new low (a, b, c, d, v) (la, lb, lc, ld, lv) f = elim (placed new p ps f) [
  | front h ↦ rw (put_front new p ps h) (ground (arith, h))
  | next h ↦ rw (put_next new p ps h) (ground (arith, h))
  | prev h g ↦
      let (j, e) = join-IsPart low low p new (a, b, c, d, lv) (la, lb, lc, ld, lv) h in
      rw
        (
          put_prev new p ps (omega (arith, h, lb, b)) h,
          gap-later new p ps (omega (arith, h, lb, b)),
        )
        (place_prev new p ps v g h e)
  | behind h g ↦
      rw
        (
          put_later new p ps (omega (arith, h, lb, b)) h,
          gap-later new p ps (omega (arith, h, lb, b)),
        )
        (place_behind new p ps (gap new ps) h
          ∙ ap (after p)
              (place-put ps new (end_sector p + 1) v (omega (arith, h), lb, lc, ld, lv) g))
]
