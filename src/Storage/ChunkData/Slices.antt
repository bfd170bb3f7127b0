-- ===== src/Storage/ChunkData/Slices.antt =====
-- What `get` of chunk_data.rs answers.
use ionian_rust.Base.{
  ℕ, ◌+◌, ◌-◌, ◌*◌, ◌/◌, ◌≡◌, subst, inl, inr, Bool, true, false, Option, some, List, leb,
  get_elem?, take, drop, length, length-take, length-drop, ret, ◌>>◌, assert, Result, ok, err,
  arith, Bool-cases, Option-cases,
}
use ionian_rust.Miner.{bytes_per_sector}
use ionian_rust.Storage.ChunkData.{
  PartialBatch, EntryBatchData, complete, incomplete, range, range_in, find, get,
}

range-length : (bytes l : List ℕ) (a n : ℕ) → range bytes a n ≡ some l → length l ≡ n
range-length bytes l a n h = elim (Bool-cases (leb (a + n) (length bytes))) [
  | inl e ↦
      let q : take n (drop a bytes) ≡ l = ground (arith, h, e) in
      subst (λ x. length x ≡ n) q
        (ground (arith, e, length-take n (drop a bytes), length-drop a bytes))
  | inr e ↦ absurd (ground (arith, h, e))
]

range_in-length :
    (ps : List PartialBatch) (l : List ℕ) (a n : ℕ) (r : Result ℕ ℕ)
    → range_in ps a n r ≡ some l
    → length l ≡ n
range_in-length ps l a n (err i) h = absurd (cc h)
range_in-length ps l a n (ok i) h = elim (Option-cases (get_elem? ps i)) [
  | inl e ↦ absurd (ground (arith, h, e))
  | inr (p, e) ↦
      range-length p.bytes l (a - p.start_sector * bytes_per_sector) n (ground (arith, h, e))
]

asserted :
    (b : Bool) (o : Option (List ℕ)) (l : List ℕ) → (assert b >> ret o) ≡ ret (some l) → o ≡ some l
asserted true o l h = cc h
asserted false o l h = absurd (cc h)

-- A slice that is there has the length that was asked for.
pub get-length :
    (d : EntryBatchData) (a n : ℕ) (l : List ℕ) → get d a n ≡ ret (some l) → length l ≡ n
unfolding get
get-length (complete bytes) a n l h = range-length bytes l a n (asserted _ _ l h)
get-length (incomplete ps) a n l h =
    range_in-length ps l a n (find ps (a / bytes_per_sector)) (asserted _ _ l h)
