-- ===== src/Storage/ChunkData/Edges.antt =====
-- The part of chunk_data.rs that has the new data, and the gaps around it.
use ionian_rust.Base.{
  ℕ, ◌+◌, ◌-◌, ◌*◌, ◌%◌, ◌≤◌, ◌<◌, ◌≡◌, ◌⊎◌, inl, inr, refl, true, Option, none, some, List, [],
  ◌∷◌, length, arith, is_some,
}
use ionian_rust.Miner.{bytes_per_sector, sectors_per_load}
use ionian_rust.Storage.ChunkData.{PartialBatch, end_sector}
use ionian_rust.Storage.ChunkData.Find.{Parts}
use ionian_rust.Storage.ChunkData.Put.{
  put, join, Free, IsPart, placed, front, next, prev, behind, put_front, put_next, put_prev,
  put_later, join-IsPart, join-Free, later_Parts,
}
use ionian_rust.Storage.ChunkData.Bytes.{
  parts_at, part_at, or_else, part_at-before, part_at-behind, part_at-within,
}
use ionian_rust.Storage.ChunkData.Overlap.{parts_at-before}

-- A part in a list.
abbrev pub Has : PartialBatch → List PartialBatch → Type 0
Has u [] = ⊥
Has u (p ∷ ps) = (u ≡ p) ⊎ Has u ps

-- The part that has the new data now is in the list, and it is around that data.
pub put-Has :
    (ps : List PartialBatch) (new : PartialBatch) (low : ℕ)
    → Parts low ps
    → IsPart low new
    → Free new ps
    → Has (put new ps).1 (put new ps).0
      × ((put new ps).1.start_sector ≤ new.start_sector)
      × (end_sector new ≤ end_sector (put new ps).1)
unfolding put
put-Has [] new low v n f = (inl refl, omega arith, omega arith)
put-Has (p ∷ ps) new low (a, b, c, d, v) (la, lb, lc, ld, lv) f = elim (placed new p ps f) [
  | front h ↦ rw (put_front new p ps h) (inl refl, omega arith, omega arith)
  | next h ↦
      let (j, e) = join-IsPart low low new p (la, lb, lc, ld, lv) (a, b, c, d, lv) h in
      rw (put_next new p ps h) (inl refl, omega arith, omega (arith, e, h, b))
  | prev h g ↦
      let (j, e) = join-IsPart low low p new (a, b, c, d, lv) (la, lb, lc, ld, lv) h in
      let (i, s, t) =
        put-Has ps (join p new) low (later_Parts ps (end_sector p + 1) low (omega (arith, a, b)) v)
          j (join-Free p new ps h v e g) in
      rw (put_prev new p ps (omega (arith, h, lb, b)) h)
        (i, omega (arith, s, h, b), omega (arith, e, t))
  | behind h g ↦
      let (i, s, t) = put-Has ps new (end_sector p + 1) v (omega (arith, h), lb, lc, ld, lv) g in
      rw (put_later new p ps (omega (arith, h, lb, b)) h) (inr i, s, t)
]

-- A part of a list has its bytes, and no byte on either side of it is there.
pub record Edges (ps : List PartialBatch) (u : PartialBatch) : Type 0 where
  pub within :
      (b : ℕ)
      → u.start_sector * bytes_per_sector ≤ b
      → b < end_sector u * bytes_per_sector
      → is_some (parts_at ps b) ≡ true
  pub above : parts_at ps (end_sector u * bytes_per_sector) ≡ none
  pub below : 0 < u.start_sector → parts_at ps (u.start_sector * bytes_per_sector - 1) ≡ none
  pub fits : end_sector u ≤ sectors_per_load
  pub whole : length u.bytes % bytes_per_sector ≡ 0

or_else-some : (a b : Option ℕ) → is_some b ≡ true → is_some (or_else a b) ≡ true
or_else-some none b h = h
or_else-some (some x) b h = refl

Has-low :
    (ps : List PartialBatch) (u : PartialBatch) (low : ℕ)
    → Parts low ps
    → Has u ps
    → (low ≤ u.start_sector) × (u.start_sector < end_sector u)
Has-low [] u low v h = absurd h
Has-low (p ∷ ps) u low (a, b, c, d, v) (inl e) = rw e (a, b)
Has-low (p ∷ ps) u low (a, b, c, d, v) (inr h) =
    let (l, k) = Has-low ps u (end_sector p + 1) v h in (omega (arith, a, b, l), k)

pub Has-Edges :
    (ps : List PartialBatch) (u : PartialBatch) (low : ℕ) → Parts low ps → Has u ps → Edges ps u
Has-Edges [] u low v h = absurd h
Has-Edges (p ∷ ps) u low (a, b, c, d, v) (inl e) = rw e (record {
  within = λ k l h. let (x, g) = part_at-within p d k l h in rw g refl;
  above =
      rw (part_at-behind p d (end_sector p * bytes_per_sector) (omega arith))
        (parts_at-before ps (end_sector p + 1) _ v (omega arith));
  below = λ h.
      rw (part_at-before p (p.start_sector * bytes_per_sector - 1) (omega (arith, h)))
        (parts_at-before ps (end_sector p + 1) _ v (omega (arith, b)));
  fits = c;
  whole = d;
})
Has-Edges (p ∷ ps) u low (a, b, c, d, v) (inr h) =
    let (l, k) = Has-low ps u (end_sector p + 1) v h in
    let g = Has-Edges ps u (end_sector p + 1) v h in
    record {
      within = λ i x y. or_else-some (part_at p i) (parts_at ps i) (g.within i x y);
      above =
          rw (part_at-behind p d (end_sector u * bytes_per_sector) (omega (arith, l, k))) g.above;
      below = λ x.
          rw (part_at-behind p d (u.start_sector * bytes_per_sector - 1) (omega (arith, l)))
            (g.below x);
      fits = g.fits;
      whole = g.whole;
    }
