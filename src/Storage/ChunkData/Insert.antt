-- ===== src/Storage/ChunkData/Insert.antt =====
-- `insert_data` of chunk_data.rs against the bytes that the batch has.
use ionian_rust.Base.{
  ℕ, zero, suc, ◌+◌, ◌-◌, ◌*◌, ◌/◌, ◌%◌, ◌≤◌, ◌<◌, ◌≡◌, inl, inr, refl, ap, subst, sym, ◌∙◌, true,
  false, if◌then◌else◌, ◌&&◌, not, Option, none, List, ltb, leb, ret, Result, ok, err, length,
  get_elem?, ℕ_discrete, Option-cases, arith, Bool-cases,
}
use ionian_rust.SharedTypes.{bytes_to_chunks}
use ionian_rust.Miner.{bytes_per_sector}
use ionian_rust.Storage.ChunkData.{
  PartialBatch, EntryBatchData, complete, incomplete, end_sector, bytes_per_load, BatchError, find,
  start_overlapped, end_overlapped, data_overlapped, overwrite_complete,
}
use ionian_rust.Storage.ChunkData.Insertion.{
  fill, insert_at_position, insert_part, insert_found, insert_data, insert_nonempty,
}
use ionian_rust.Storage.ChunkData.Find.{Parts, find-walk}
use ionian_rust.Storage.ChunkData.Put.{put, Free, IsPart, put-Parts}
use ionian_rust.Storage.ChunkData.Position.{gap, walk-gap, walk-Free, place-put}
use ionian_rust.Storage.ChunkData.Bytes.{
  byte_at, parts_at, part_at, or_else, IsValid, is_vacant, get_elem?-within, get_elem?-past,
  end_sector-bytes,
}
use ionian_rust.Storage.ChunkData.Seals.{elem, is_intact, answer-is_intact}
use ionian_rust.Storage.ChunkData.Overlap.{
  end_sector-aligned, put-bytes, fill-bytes, fill-IsValid, overlap, Free-bytes,
}

module _ (ps : List PartialBatch) (new : PartialBatch) (v : Parts 0 ps) (n : IsPart 0 new) where
  -- A part that fits goes to its place.
  insert_at_position-put :
      Free new ps → (insert_at_position ps (gap new ps) new).0 ≡ fill (put new ps).0
  unfolding insert_at_position
  insert_at_position-put f =
      rw (end_sector-aligned new n.3) (ap (λ r. fill r.0) (place-put ps new 0 v n f))

  find-end :
      (k : ℕ)
      → Free new ps
      → new.start_sector ≤ k
      → k < end_sector new
      → find ps k ≡ err (gap new ps)
  find-end k f l u = find-walk ps k 0 v ∙ walk-gap ps new 0 k v f l u

  -- Then neither search finds a part, and they agree.
  insert_part-Free :
      Free new ps
      → insert_part ps new ≡ (
        (insert_at_position ps (gap new ps) new).0,
        ok (insert_at_position ps (gap new ps) new).1,
      )
  insert_part-Free f =
      rw
        (
          end_sector-aligned new n.3,
          find-end new.start_sector f (omega arith) n.1,
          find-end (end_sector new - 1) f (omega (arith, n.1)) (omega (arith, n.1)),
        )
        (ground arith)

  insert_found-overlap :
      ¬ Free new ps
      → (a b : Result ℕ ℕ) → find ps new.start_sector ≡ a
      → find ps (end_sector new - 1) ≡ b
      → (e : BatchError) × (insert_found ps new a b ≡ (incomplete ps, err e))
  insert_found-overlap f (ok x) b h k = (start_overlapped, refl)
  insert_found-overlap f (err i) (ok x) h k = (end_overlapped, refl)
  insert_found-overlap f (err i) (err j) h k = elim (ℕ_discrete i j) [
    | yes e ↦ absurd (
        f (
          walk-Free ps new i (sym (find-walk ps new.start_sector 0 v) ∙ h)
            (sym (find-walk ps _ 0 v) ∙ k ∙ ap err (sym e))))
    | no e ↦ (data_overlapped, ground (arith, e))
  ]

  -- A part that does not fit is refused, and the list is left alone.
  insert_part-overlap :
      ¬ Free new ps → (e : BatchError) × (insert_part ps new ≡ (incomplete ps, err e))
  insert_part-overlap f =
      rw (end_sector-aligned new n.3)
        (insert_found-overlap f (find ps new.start_sector) (find ps (end_sector new - 1)) refl refl)

-- A range of bytes is vacant when each of them is missing, and only then.
is_vacant-byte_at :
    (d : EntryBatchData) (a n b : ℕ)
    → is_vacant d a n ≡ true
    → a ≤ b
    → b < a + n
    → byte_at d b ≡ none
is_vacant-byte_at d a zero b h l u = absurd (omega arith)
is_vacant-byte_at d a (suc n) b h l u = elim (Option-cases (byte_at d a)) [
  | inl e ↦ elim (ℕ_discrete a b) [
    | yes q ↦ subst (λ k. byte_at d k ≡ none) q e
    | no q ↦
        is_vacant-byte_at d (a + 1) n b (ground (arith, h, e)) (omega (arith, l, q))
          (omega (arith, u))
  ]
  | inr (x, e) ↦ absurd (ground (arith, h, e))
]

is_vacant-intro :
    (d : EntryBatchData) (a n : ℕ)
    → ((b : ℕ) → a ≤ b → b < a + n → byte_at d b ≡ none)
    → is_vacant d a n ≡ true
is_vacant-intro d a zero h = refl
is_vacant-intro d a (suc n) h =
    rw (h a (omega arith) (omega arith))
      (is_vacant-intro d (a + 1) n (λ b l u. h b (omega arith) (omega arith)))

-- The part that `insert_data` makes of its arguments.
abbrev part_of : ℕ → List ℕ → PartialBatch
part_of start_byte bytes = record { start_sector = start_byte / bytes_per_sector; bytes = bytes }

part_at-part_of :
    (start_byte b : ℕ) (bytes : List ℕ) (o : Option ℕ)
    → start_byte % bytes_per_sector ≡ 0
    → or_else (part_at (part_of start_byte bytes) b) o ≡ (
        if leb start_byte b && ltb b (start_byte + length bytes)
        then get_elem? bytes (b - start_byte)
        else o)
part_at-part_of start_byte b bytes o h = rw s (elim (Bool-cases (ltb b start_byte)) [
  | inl e ↦ ground (arith, e)
  | inr e ↦ elim (Bool-cases (ltb b (start_byte + length bytes))) [
    | inl g ↦
        let (x, k) = get_elem?-within bytes (b - start_byte) (ground (arith, e, g)) in
        ground (arith, e, g, k)
    | inr g ↦ ground (arith, e, g, get_elem?-past bytes (b - start_byte))
  ]
])
  where
    s : start_byte / bytes_per_sector * bytes_per_sector ≡ start_byte
    s = omega (arith, h)

module _ (start_byte : ℕ) (bytes : List ℕ) (aligned : start_byte % bytes_per_sector ≡ 0)
    (whole : length bytes % bytes_per_sector ≡ 0) (given : 0 < length bytes)
    (fits : start_byte + length bytes ≤ bytes_per_load) where
  part_of-IsPart : IsPart 0 (part_of start_byte bytes)
  unfolding bytes_to_chunks
  part_of-IsPart = (
    omega arith,
    ground (arith, aligned, whole, given),
    ground (arith, aligned, whole, fits),
    whole,
    tt,
  )

  part_of-end : end_sector (part_of start_byte bytes) * bytes_per_sector ≡ start_byte + length bytes
  part_of-end = omega (arith, end_sector-bytes (part_of start_byte bytes) whole, aligned)

  insert_data-insert_nonempty :
      (d : EntryBatchData)
      → insert_data d start_byte bytes ≡ ret (insert_nonempty d (part_of start_byte bytes))
  unfolding insert_data
  insert_data-insert_nonempty d = ground (arith, aligned, whole, given)

  vacant-Free :
      (ps : List PartialBatch)
      → Parts 0 ps
      → is_vacant (incomplete ps) start_byte (length bytes) ≡ true
      → Free (part_of start_byte bytes) ps
  unfolding byte_at
  vacant-Free ps v h = elim (overlap ps (part_of start_byte bytes) 0 v part_of-IsPart.1) [
    | inl f ↦ f
    | inr (k, l, u, x, e) ↦ absurd (
        cc (
          e,
          is_vacant-byte_at (incomplete ps) start_byte (length bytes) (k * bytes_per_sector) h
              (omega (arith, l, aligned)) (omega (arith, u, part_of-end)),
        ))
  ]

  -- The bytes in range of a list that has place for the part are missing.
  Free-vacant :
      (ps : List PartialBatch)
      → Parts 0 ps
      → Free (part_of start_byte bytes) ps
      → is_vacant (incomplete ps) start_byte (length bytes) ≡ true
  unfolding byte_at
  Free-vacant ps v f = is_vacant-intro (incomplete ps) start_byte (length bytes) (λ b l u.
      Free-bytes ps (part_of start_byte bytes) 0 b v f (omega (arith, l, aligned))
        (omega (arith, u, part_of-end)))

-- Storing data of whole sectors, in a range of the load of which the batch has no byte, does not
-- panic and succeeds: the batch is valid, it has the new data in that range, and outside of it
-- it has the bytes that it had before. The answer has the seals of which every byte is there now
-- and was not before, and no other.
pub insert_data-byte_at :
    (d : EntryBatchData) (start_byte : ℕ) (bytes : List ℕ) (b k : ℕ)
    → IsValid d
    → start_byte % bytes_per_sector ≡ 0
    → length bytes % bytes_per_sector ≡ 0
    → 0 < length bytes
    → start_byte + length bytes ≤ bytes_per_load
    → is_vacant d start_byte (length bytes) ≡ true
    → (d' : EntryBatchData) × (seals : List ℕ) × (insert_data d start_byte bytes
        ≡ ret (d', ok seals))
      × IsValid d'
      × (byte_at d' b ≡ (
          if leb start_byte b && ltb b (start_byte + length bytes)
          then get_elem? bytes (b - start_byte)
          else byte_at d b))
      × (elem k seals ≡ (is_intact d' k && not (is_intact d k)))
unfolding IsValid byte_at
insert_data-byte_at (complete all) a bytes b k v h w g f vacant =
    let (x, e) = get_elem?-within all a (omega (arith, v, g, f)) in
    absurd (
      cc (
        e,
        is_vacant-byte_at (complete all) a (length bytes) a vacant (omega arith) (omega (arith, g)),
      ))
insert_data-byte_at (incomplete ps) a bytes b k v h w g f vacant =
    let n = part_of-IsPart a bytes h w g f in
    let free = vacant-Free a bytes h w g f ps v vacant in
    let new = part_of a bytes in
    (
      fill (put new ps).0,
      (insert_at_position ps (gap new ps) new).1,
      insert_data-insert_nonempty a bytes h w g f (incomplete ps)
          ∙ ap ret (insert_part-Free ps new v n free)
          ∙ ap (λ d. ret (d, ok (insert_at_position ps (gap new ps) new).1))
              (insert_at_position-put ps new v n free),
      fill-IsValid (put new ps).0 (put-Parts ps new 0 v n free),
      fill-bytes (put new ps).0 b
          ∙ put-bytes ps new 0 b v n free
          ∙ part_at-part_of a b bytes (parts_at ps b) h,
      answer-is_intact ps new k v n free,
    )

-- Storing data of whole sectors, in a range of the load of which the batch has a byte already, does
-- not panic: it is refused, and the batch is left as it was.
pub insert_data-occupied :
    (d : EntryBatchData) (start_byte : ℕ) (bytes : List ℕ)
    → IsValid d
    → start_byte % bytes_per_sector ≡ 0
    → length bytes % bytes_per_sector ≡ 0
    → 0 < length bytes
    → start_byte + length bytes ≤ bytes_per_load
    → is_vacant d start_byte (length bytes) ≡ false
    → (e : BatchError) × (insert_data d start_byte bytes ≡ ret (d, err e))
unfolding IsValid
insert_data-occupied (complete all) a bytes v h w g f taken =
    (overwrite_complete, insert_data-insert_nonempty a bytes h w g f (complete all))
insert_data-occupied (incomplete ps) a bytes v h w g f taken =
    let (e, q) =
      insert_part-overlap ps (part_of a bytes) v (part_of-IsPart a bytes h w g f)
        (λ free. absurd (cc (taken, Free-vacant a bytes h w g f ps v free))) in
    (e, insert_data-insert_nonempty a bytes h w g f (incomplete ps) ∙ ap ret q)
