-- ===== src/Storage/ChunkData/Put.antt =====
-- The position, the merges and the list of `insert_data` of chunk_data.rs against a walk along the list.
use ionian_rust.Base.{
  ℕ, ◌+◌, ◌%◌, ◌≤◌, ◌<◌, ◌≡◌, ◌⊎◌, inl, inr, refl, subst, sym, if◌then◌else◌, List, [], ◌∷◌, ◌++◌,
  ltb, ◌==◌, length, arith, length-append, lt→ltb, ℕ_discrete,
}
use ionian_rust.SharedTypes.{bytes_to_chunks}
use ionian_rust.Miner.{bytes_per_sector}
use ionian_rust.Storage.ChunkData.{PartialBatch, end_sector}
use ionian_rust.Storage.ChunkData.Find.{Parts}

-- A part with the one behind it.
abbrev pub join : PartialBatch → PartialBatch → PartialBatch
join p q = record p { bytes = p.bytes ++ q.bytes }

-- A list and a part of it, behind another part.
abbrev pub after :
    PartialBatch → List PartialBatch × PartialBatch → List PartialBatch × PartialBatch
after p (ps, q) = (p ∷ ps, q)

-- A part put at its place in the list, and joined with its neighbours: the list, and the part that
-- has it now.
unfoldable pub put : PartialBatch → List PartialBatch → List PartialBatch × PartialBatch
put new [] = (new ∷ [], new)
put new (p ∷ ps) =
    let joined = put (join p new) ps in
    let rest = put new ps in
    if ltb (end_sector new) p.start_sector
    then (new ∷ p ∷ ps, new)
    else if end_sector new == p.start_sector
    then (join new p ∷ ps, join new p)
    else if new.start_sector == end_sector p
    then joined
    else after p rest

pub later_Parts :
    (ps : List PartialBatch) (low low' : ℕ) → low' ≤ low → Parts low ps → Parts low' ps
later_Parts [] low low' h v = v
later_Parts (p ∷ ps) low low' h (a, b, c, d, v) = (omega (arith, h, a), b, c, d, v)

-- No sector of the part is in the list.
abbrev pub Free : PartialBatch → List PartialBatch → Type 0
Free new [] = Unit {0}
Free new (p ∷ ps) =
    (end_sector new ≤ p.start_sector) ⊎ ((end_sector p ≤ new.start_sector) × Free new ps)

-- A part with data, a whole number of sectors of it, within the load and from a sector on.
abbrev pub IsPart : ℕ → PartialBatch → Type 0
IsPart low p = Parts low (p ∷ [])

pub end_sector-join :
    (p q : PartialBatch)
    → length p.bytes % bytes_per_sector ≡ 0
    → end_sector (join p q) ≡ end_sector p + bytes_to_chunks (length q.bytes)
unfolding bytes_to_chunks
end_sector-join p q h = ground (arith, length-append p.bytes q.bytes)

pub join-IsPart :
    (low low' : ℕ) (p q : PartialBatch)
    → IsPart low p
    → IsPart low' q
    → end_sector p ≡ q.start_sector
    → IsPart low (join p q) × (end_sector (join p q) ≡ end_sector q)
join-IsPart low low' p q (a, b, c, d, v) (a', b', c', d', v') e =
    let l = end_sector-join p q d in
    let e' : end_sector (join p q) ≡ end_sector q = omega (arith, l, e) in
    (
      (
        a,
        omega (arith, e', e),
        omega (arith, e'),
        omega (arith, d, d', length-append p.bytes q.bytes),
        v,
      ),
      e',
    )

pub join-Free :
    (p new : PartialBatch) (ps : List PartialBatch)
    → end_sector p ≡ new.start_sector
    → Parts (end_sector p + 1) ps
    → end_sector (join p new) ≡ end_sector new
    → Free new ps
    → Free (join p new) ps
join-Free p new [] e v g h = h
join-Free p new (q ∷ qs) e v g (inl h) = inl (omega (arith, g, h))
join-Free p new (q ∷ qs) e v g (inr h) = absurd (omega (arith, e, v.0, v.1, h.0))

module _ (new p : PartialBatch) (ps : List PartialBatch) where
  pub put_front : end_sector new < p.start_sector → put new (p ∷ ps) ≡ (new ∷ p ∷ ps, new)
  unfolding put
  put_front h = rw (lt→ltb _ _ h, put) refl

  pub put_next : end_sector new ≡ p.start_sector → put new (p ∷ ps) ≡ (join new p ∷ ps, join new p)
  unfolding put
  put_next h = ground (arith, h)

  pub put_prev :
      p.start_sector < end_sector new
      → end_sector p ≡ new.start_sector
      → put new (p ∷ ps) ≡ put (join p new) ps
  unfolding put
  put_prev h e = ground (arith, h, e)

  pub put_later :
      p.start_sector < end_sector new
      → end_sector p < new.start_sector
      → put new (p ∷ ps) ≡ after p (put new ps)
  unfolding put
  put_later h e = ground (arith, h, e)

-- The place of a part that fits.
pub data Place (new p : PartialBatch) (ps : List PartialBatch) : Type 0 where
  front : end_sector new < p.start_sector → Place new p ps
  next : end_sector new ≡ p.start_sector → Place new p ps
  prev : end_sector p ≡ new.start_sector → Free new ps → Place new p ps
  behind : end_sector p < new.start_sector → Free new ps → Place new p ps

pub placed : (new p : PartialBatch) (ps : List PartialBatch) → Free new (p ∷ ps) → Place new p ps
placed new p ps (inl h) = elim (ℕ_discrete (end_sector new) p.start_sector) [
  | yes e ↦ next e
  | no e ↦ front (omega (arith, h, e))
]
placed new p ps (inr (h, f)) = elim (ℕ_discrete (end_sector p) new.start_sector) [
  | yes e ↦ prev e f
  | no e ↦ behind (omega (arith, h, e)) f
]

-- A part that fits keeps the parts separate and in order.
pub put-Parts :
    (ps : List PartialBatch) (new : PartialBatch) (low : ℕ)
    → Parts low ps
    → IsPart low new
    → Free new ps
    → Parts low (put new ps).0
unfolding put
put-Parts [] new low v n f = n
put-Parts (p ∷ ps) new low (a, b, c, d, v) (la, lb, lc, ld, lv) f = elim (placed new p ps f) [
  | front h ↦ rw (put_front new p ps h) (la, lb, lc, ld, (omega (arith, h), b, c, d, v))
  | next h ↦
      let ((ja, jb, jc, jd, jv), e) =
        join-IsPart low low new p (la, lb, lc, ld, lv) (a, b, c, d, lv) h in
      rw (put_next new p ps h) (ja, jb, jc, jd, subst (λ k. Parts (k + 1) ps) (sym e) v)
  | prev h g ↦
      let (j, e) = join-IsPart low low p new (a, b, c, d, lv) (la, lb, lc, ld, lv) h in
      rw (put_prev new p ps (omega (arith, h, lb, b)) h) (
        put-Parts ps (join p new) low
          (later_Parts ps (end_sector p + 1) low (omega (arith, a, b)) v) j
          (join-Free p new ps h v e g))
  | behind h g ↦
      rw (put_later new p ps (omega (arith, h, lb, b)) h)
        (a, b, c, d, put-Parts ps new (end_sector p + 1) v (omega (arith, h), lb, lc, ld, lv) g)
]
