-- ===== src/Storage/ChunkData/Seals.antt =====
-- The seals that `insert_data` of chunk_data.rs answers, against the bytes that the batch has.
use ionian_rust.Base.{
  ℕ, zero, suc, ◌+◌, ◌-◌, ◌*◌, ◌/◌, ◌%◌, ◌^◌, ◌≤◌, ◌<◌, ◌≡◌, ◌⊎◌, inl, inr, refl, ap, subst, ◌∙◌,
  Bool, true, false, ◌&&◌, ◌||◌, not, none, List, [], ◌∷◌, ltb, leb, ◌==◌, arith, Bool-cases,
  is_some, max, ℕ_discrete,
}
use ionian_rust.Miner.{bytes_per_sector}
use ionian_rust.Storage.ChunkData.{
  PartialBatch, EntryBatchData, incomplete, end_sector, sectors_per_seal,
}
use ionian_rust.Storage.ChunkData.Insertion.{
  fill, filter_from, is_within, get_intact_sealing_index, get_covered_sealing_index,
  insert_at_position,
}
use ionian_rust.Storage.ChunkData.Find.{Parts}
use ionian_rust.Storage.ChunkData.Put.{put, Free, IsPart, put-Parts}
use ionian_rust.Storage.ChunkData.Position.{gap, place-put}
use ionian_rust.Storage.ChunkData.Bytes.{byte_at, parts_at, or_else, part_at-before, part_at-behind}
use ionian_rust.Storage.ChunkData.Overlap.{fill-bytes, put-bytes, Free-bytes, end_sector-aligned}
use ionian_rust.Storage.ChunkData.Edges.{Edges, put-Has, Has-Edges}

abbrev pub elem : ℕ → List ℕ → Bool
elem k [] = false
elem k (x ∷ xs) = k == x || elem k xs

-- Whether every byte of a range is there.
abbrev pub is_there : EntryBatchData → ℕ → ℕ → Bool
is_there d b zero = true
is_there d b (suc n) = is_some (byte_at d b) && is_there d (b + 1) n

-- Whether every byte of a seal is there.
unfoldable pub is_intact : EntryBatchData → ℕ → Bool
is_intact d k =
    is_there d (k * (sectors_per_seal * bytes_per_sector)) (sectors_per_seal * bytes_per_sector)

elem-filter_from :
    (p : ℕ → Bool) (a n k : ℕ) → elem k (filter_from p a n) ≡ (p k && (leb a k && ltb k (a + n)))
elem-filter_from p a zero k = ground arith
elem-filter_from p a (suc n) k = elim (ℕ_discrete k a) [
  | yes e ↦
      subst (λ a. elem k (filter_from p a (suc n)) ≡ (p k && (leb a k && ltb k (a + suc n)))) e
        (elim (Bool-cases (p k)) [
          | inl g ↦ ground (arith, g)
          | inr g ↦ ground (arith, g, elem-filter_from p (k + 1) n k)
        ])
  | no e ↦ elim (Bool-cases (p a)) [
    | inl g ↦ ground (arith, g, e, elem-filter_from p (a + 1) n k)
    | inr g ↦ ground (arith, g, e, elem-filter_from p (a + 1) n k)
  ]
]

pub is_there-byte :
    (d : EntryBatchData) (a n b : ℕ)
    → is_there d a n ≡ true
    → a ≤ b
    → b < a + n
    → is_some (byte_at d b) ≡ true
is_there-byte d a zero b h l u = absurd (omega arith)
is_there-byte d a (suc n) b h l u = elim (Bool-cases (is_some (byte_at d a))) [
  | inr e ↦ absurd (ground (arith, h, e))
  | inl e ↦ elim (ℕ_discrete a b) [
    | yes q ↦ subst (λ k. is_some (byte_at d k) ≡ true) q e
    | no q ↦
        is_there-byte d (a + 1) n b (ground (arith, h, e)) (omega (arith, l, q)) (omega (arith, u))
  ]
]

pub is_there-intro :
    (d : EntryBatchData) (a n : ℕ)
    → ((b : ℕ) → a ≤ b → b < a + n → is_some (byte_at d b) ≡ true)
    → is_there d a n ≡ true
is_there-intro d a zero h = refl
is_there-intro d a (suc n) h =
    rw (h a (omega arith) (omega arith))
      (is_there-intro d (a + 1) n (λ b l u. h b (omega arith) (omega arith)))

module _ (us ue ns ne k : ℕ) (h : us ≤ ns) (g : ns < ne) (l : ne ≤ ue) (m : ue ≤ 1024) where
  from_start : leb ((us + 16 - 1) / 16 % 65536) k ≡ leb us (16 * k)
  from_start = ground (arith, h, g, l, m)

  to_end : ltb k (ue / 16 % 65536) ≡ leb (16 * k + 16) ue
  to_end = ground (arith, m)

  meets_start : leb (ns / 16 % 65536) k ≡ ltb ns (16 * k + 16)
  meets_start = ground (arith, g, l, m)

  meets_end :
      ltb k (ns / 16 % 65536 + ((ne + 16 - 1) / 16 % 65536 - ns / 16 % 65536)) ≡ ltb (16 * k) ne
  meets_end = ground (arith, g, l, m)

  -- The two ranges of seals in sectors.
  seals_in_sectors :
      (is_within ((us + 16 - 1) / 16 % 65536, ue / 16 % 65536) k
        && (leb (ns / 16 % 65536) k
            && ltb k (ns / 16 % 65536 + ((ne + 16 - 1) / 16 % 65536 - ns / 16 % 65536))))
      ≡ ((leb us (16 * k) && leb (16 * k + 16) ue) && (ltb ns (16 * k + 16) && ltb (16 * k) ne))
  seals_in_sectors = rw (from_start, to_end, meets_start, meets_end)

-- The answer, as the seals that meet the new data and lie in the part that has it now.
answer :
    (ps : List PartialBatch) (new : PartialBatch) (k : ℕ)
    → Parts 0 ps
    → IsPart 0 new
    → Free new ps
    → elem k (insert_at_position ps (gap new ps) new).1 ≡ (
        (leb (put new ps).1.start_sector (16 * k) && leb (16 * k + 16) (end_sector (put new ps).1))
        && (ltb new.start_sector (16 * k + 16) && ltb (16 * k) (end_sector new)))
unfolding insert_at_position get_intact_sealing_index get_covered_sealing_index
answer ps new k v n f =
    let (has, s, t) = put-Has ps new 0 v n f in
    let e = Has-Edges (put new ps).0 (put new ps).1 0 (put-Parts ps new 0 v n f) has in
    rw
      (
        end_sector-aligned new n.3,
        place-put ps new 0 v n f,
        end_sector-aligned (put new ps).1 e.whole,
      )
      (elem-filter_from
          (is_within (
            ((put new ps).1.start_sector + sectors_per_seal - 1) / sectors_per_seal % 2 ^ 16,
            end_sector (put new ps).1 / sectors_per_seal % 2 ^ 16,
          ))
          (new.start_sector / 16 % 65536)
          ((end_sector new + 16 - 1) / 16 % 65536 - new.start_sector / 16 % 65536) k
        ∙ seals_in_sectors (put new ps).1.start_sector (end_sector (put new ps).1) new.start_sector
            (end_sector new) k s n.1 t e.fits)

pub is_there-same :
    (d d' : EntryBatchData) (a n : ℕ)
    → ((b : ℕ) → a ≤ b → b < a + n → byte_at d b ≡ byte_at d' b)
    → is_there d a n ≡ is_there d' a n
is_there-same d d' a zero h = refl
is_there-same d d' a (suc n) h = rw (
  h a (omega arith) (omega arith),
  is_there-same d d' (a + 1) n (λ b l u. h b (omega arith) (omega arith)),
)

module _ (d : EntryBatchData) (k : ℕ) where
  -- A byte that is missing in a seal.
  missing :
      (b : ℕ) → byte_at d b ≡ none → k * 4096 ≤ b → b < k * 4096 + 4096 → is_intact d k ≡ false
  unfolding is_intact
  missing b h l u = elim (Bool-cases (is_there d (k * 4096) 4096)) [
    | inl e ↦ absurd (cc (h, is_there-byte d (k * 4096) 4096 b e l u))
    | inr e ↦ e
  ]

  is_intact-intro :
      ((b : ℕ) → k * 4096 ≤ b → b < k * 4096 + 4096 → is_some (byte_at d b) ≡ true)
      → is_intact d k ≡ true
  unfolding is_intact
  is_intact-intro h = is_there-intro d (k * 4096) 4096 h

  is_intact-same :
      (d' : EntryBatchData)
      → ((b : ℕ) → k * 4096 ≤ b → b < k * 4096 + 4096 → byte_at d b ≡ byte_at d' b)
      → is_intact d k ≡ is_intact d' k
  unfolding is_intact
  is_intact-same d' h = is_there-same d d' (k * 4096) 4096 h

and_false : (x y : Bool) → (x && false) ≡ (y && not y)
and_false true true = refl
and_false true false = refl
and_false false true = refl
and_false false false = refl

-- The seals of the answer are those that are intact now and were not before.
module _ (ps : List PartialBatch) (new : PartialBatch) (k : ℕ) (v : Parts 0 ps) (n : IsPart 0 new)
    (f : Free new ps) where
  edges : Edges (put new ps).0 (put new ps).1
  edges =
      Has-Edges (put new ps).0 (put new ps).1 0 (put-Parts ps new 0 v n f)
        (put-Has ps new 0 v n f).0

  outside :
      (end_sector new ≤ 16 * k) ⊎ (16 * k + 16 ≤ new.start_sector)
      → is_intact (fill (put new ps).0) k ≡ is_intact (incomplete ps) k
  unfolding byte_at
  outside o = is_intact-same (fill (put new ps).0) k (incomplete ps) (λ b l u.
      fill-bytes (put new ps).0 b
      ∙ put-bytes ps new 0 b v n f
      ∙ ap (λ x. or_else x (parts_at ps b))
          (elim o [
            | inl e ↦ part_at-behind new n.3 b (omega (arith, l, e))
            | inr e ↦ part_at-before new b (omega (arith, u, e))
          ]))

  covered :
      (put new ps).1.start_sector ≤ 16 * k
      → 16 * k + 16 ≤ end_sector (put new ps).1
      → is_intact (fill (put new ps).0) k ≡ true
  covered h g = is_intact-intro (fill (put new ps).0) k (λ b l u.
      ap is_some (fill-bytes (put new ps).0 b)
      ∙ edges.within b (omega (arith, h, l)) (omega (arith, g, u)))

  was_not :
      new.start_sector < 16 * k + 16 → 16 * k < end_sector new → is_intact (incomplete ps) k ≡ false
  unfolding byte_at
  was_not h g =
      missing (incomplete ps) k (max (16 * k) new.start_sector * bytes_per_sector)
        (Free-bytes ps new 0 _ v f (omega arith) (omega (arith, g, n.1))) (omega arith)
        (omega (arith, h))

  not_covered :
      new.start_sector < 16 * k + 16
      → 16 * k < end_sector new
      → (16 * k < (put new ps).1.start_sector) ⊎ (end_sector (put new ps).1 < 16 * k + 16)
      → is_intact (fill (put new ps).0) k ≡ false
  not_covered h g (inl e) =
      let s = (put-Has ps new 0 v n f).1 in
      missing (fill (put new ps).0) k ((put new ps).1.start_sector * bytes_per_sector - 1)
        (fill-bytes (put new ps).0 _ ∙ edges.below (omega (arith, e))) (omega (arith, e))
        (omega (arith, h, s, e))
  not_covered h g (inr e) =
      let t = (put-Has ps new 0 v n f).2 in
      missing (fill (put new ps).0) k (end_sector (put new ps).1 * bytes_per_sector)
        (fill-bytes (put new ps).0 _ ∙ edges.above) (omega (arith, g, t)) (omega (arith, e))

pub answer-is_intact :
    (ps : List PartialBatch) (new : PartialBatch) (k : ℕ)
    → Parts 0 ps
    → IsPart 0 new
    → Free new ps
    → elem k (insert_at_position ps (gap new ps) new).1
      ≡ (is_intact (fill (put new ps).0) k && not (is_intact (incomplete ps) k))
answer-is_intact ps new k v n f =
    answer ps new k v n f
    ∙ (elim (Bool-cases (ltb new.start_sector (16 * k + 16) && ltb (16 * k) (end_sector new))) [
      | inr o ↦
          rw (o, outside ps new k v n f (ground (arith, o)))
            (and_false _ (is_intact (incomplete ps) k))
      | inl m ↦
          elim (Bool-cases (
            leb (put new ps).1.start_sector (16 * k)
            && leb (16 * k + 16) (end_sector (put new ps).1))) [
              | inl c ↦
                  rw
                    (
                      m,
                      c,
                      covered ps new k v n f (ground (arith, c)) (ground (arith, c)),
                      was_not ps new k v n f (ground (arith, m)) (ground (arith, m)),
                    )
                    refl
              | inr c ↦
                  rw
                    (
                      m,
                      c,
                      not_covered ps new k v n f (ground (arith, m)) (ground (arith, m))
                          (ground (arith, c)),
                    )
                    refl
            ]
    ])
