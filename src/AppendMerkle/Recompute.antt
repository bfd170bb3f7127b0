-- ===== src/AppendMerkle/Recompute.antt =====
-- `recompute` of common/append_merkle/src/lib.rs after the end of a layer has changed: it builds
-- the tree of the new leaves. Every node is known here.
use native.Mathlib.Nat.{sub-zero, suc-sub-suc}
use ionian_rust.Base.{
  ℕ, zero, suc, ◌+◌, ◌-◌, ◌/◌, ◌%◌, ◌≤◌, ◌<◌, ◌≡◌, refl, ap, sym, ◌∙◌, ◌≢◌, ◌⊎◌, inl, inr, true,
  List, [], ◌∷◌, Option, none, some, ret, arith, length, take, drop, leb, ltb, if◌then◌else◌,
  length-drop, take-append-drop, take-length, take-take, list-cases, ltb→lt, ◌&&◌, Bool-cases,
}
use ionian_rust.AppendMerkle.{Algorithm, slice, end_of, recompute_layer, recompute_from, next_end}
use ionian_rust.AppendMerkle.Parents.{
  double, double_lem, level, AreKnown, length-level, chunk_parents-level, level-AreKnown,
  drop-level, take-level, drop-AreKnown, last_index, last_index-cons, apply_updates_lem,
}

module _ {E : Type 0} where
  take-drop : (xs : List E) (n : ℕ) → take (length xs - n) (drop n xs) ≡ drop n xs
  take-drop xs zero = rw sub-zero (take-length xs)
  take-drop [] (suc n) = let e : 0 - suc n ≡ 0 = omega arith in rw e refl
  take-drop (x ∷ xs) (suc n) = rw suc-sub-suc (take-drop xs n)

module _ {E : Type 0} (alg : Algorithm E) where
  -- Each layer is computed from the one below, and the top has one node at most.
  abbrev pub IsTower : ℕ → List (List E) → Type 0
  IsTower h [] = ⊥
  IsTower h (cur ∷ []) = length cur ≤ 1
  IsTower h (cur ∷ up ∷ rest) = (up ≡ level alg h cur) × IsTower (h + 1) (up ∷ rest)

  -- A range that ends with the layer.
  abbrev pub EndsAt : Option ℕ → ℕ → Type 0
  EndsAt e n = (e ≡ none) ⊎ (e ≡ some n)

  end_of-EndsAt : (e : Option ℕ) (n : ℕ) → EndsAt e n → end_of e n ≡ n
  end_of-EndsAt e n (inl h) = rw (h, end_of) refl
  end_of-EndsAt e n (inr h) = rw (h, end_of) (ground arith)

  -- The nodes that a round reads are those from the pair of the first change on.
  slice_lem :
      (start : ℕ) (cur : List E)
      → start ≤ length cur
      → slice alg cur (start - start % 2) (length cur) ≡ ret (drop (double (start / 2)) cur)
  unfolding slice
  slice_lem start cur le =
      let in_range : (leb (start - start % 2) (length cur) && leb (length cur) (length cur))
          ≡ true =
        ground arith in
      let even : start - start % 2 ≡ double (start / 2) = omega (arith, double_lem (start / 2)) in
      rw (in_range, if◌then◌else◌) (rw (even, take-drop cur (double (start / 2))) refl)

  recompute_layer_lem :
      (h start : ℕ) (e : Option ℕ) (cur upper : List E)
      → EndsAt e (length cur)
      → start ≤ length cur
      → start / 2 ≤ length upper
      → length upper ≤ start / 2 + 1
      → length upper ≤ length (level alg h cur)
      → take (start / 2) upper ≡ take (start / 2) (level alg h cur)
      → AreKnown alg cur
      → ((a b : E) → alg.parent a b ≢ alg.null)
      → recompute_layer alg h start e cur upper
        ≡ ret
            (level alg h cur, last_index alg (start / 2) (drop (start / 2) (level alg h cur)) none)
  unfolding recompute_layer
  recompute_layer_lem h start e cur upper ends le lo hi len agree known hash =
      let k = start / 2 in
      rw (end_of-EndsAt e (length cur) ends, slice_lem start cur le)
        (rw
          (chunk_parents-level alg h (drop (double k) cur) (drop-AreKnown alg (double k) cur known))
          (rw (← drop-level alg h k cur) (
            apply_updates_lem alg upper (drop k (level alg h cur)) k lo hi
              (omega (arith, length-drop k (level alg h cur)))
              (drop-AreKnown alg k (level alg h cur) (level-AreKnown alg hash h cur))
            ∙ rw (agree, take-append-drop k (level alg h cur)) refl)))

  -- The end that a round hands on is again the end of its layer.
  next_end-EndsAt :
      (k : ℕ) (xs : List E)
      → k ≤ length xs
      → EndsAt (next_end (last_index alg k (drop k xs) none)) (length xs)
  next_end-EndsAt k xs le = elim (list-cases (drop k xs)) [
    | inl e ↦ rw e (inl refl)
    | inr (p, ps, e) ↦
        rw (e, last_index-cons alg k p ps none)
          (inr (ap some (omega (arith, ap length e, length-drop k xs))))
  ]

  last_index-drop :
      (k : ℕ) (xs : List E)
      → k < length xs
      → last_index alg k (drop k xs) none ≡ some (length xs - 1)
  last_index-drop k xs lt = elim (list-cases (drop k xs)) [
    | inl e ↦ absurd (omega (arith, ap length e, length-drop k xs))
    | inr (p, ps, e) ↦
        rw (e, last_index-cons alg k p ps none)
          (ap some (omega (arith, ap length e, length-drop k xs)))
  ]

  -- The layer that replaces the stale `up` agrees with it up to the pair of the first change.
  agree-level :
      (h start : ℕ) (old cur : List E)
      → start ≤ length old
      → length old ≤ length cur
      → take start old ≡ take start cur
      → take (start / 2) (level alg h old) ≡ take (start / 2) (level alg h cur)
  agree-level h start old cur le len same =
      let k = start / 2 in
      let even : double k ≤ start = omega (arith, double_lem k) in
      take-level alg h k old (omega arith)
      ∙ ap (level alg h) (
          sym (take-take (double k) start old even)
          ∙ ap (take (double k)) same
          ∙ take-take (double k) start cur even)
      ∙ sym (take-level alg h k cur (omega arith))

  module _ (hash : (a b : E) → alg.parent a b ≢ alg.null) where
    -- The layers above `old` are made the layers above `cur`, where `cur` differs from `old` from
    -- its last node on at most.
    pub recompute_from-IsTower :
        (fuel h start : ℕ) (e : Option ℕ) (old cur : List E) (uppers : List (List E))
        → length uppers + length cur < fuel
        → EndsAt e (length cur)
        → start ≤ length old
        → length old ≤ start + 1
        → length old ≤ length cur
        → take start old ≡ take start cur
        → AreKnown alg cur
        → IsTower h (old ∷ uppers)
        → (ls : List (List E)) × (recompute_from alg fuel h start e cur uppers ≡ ret (cur ∷ ls))
          × IsTower h (cur ∷ ls)
    unfolding recompute_from
    recompute_from-IsTower zero h start e old cur uppers f ends le near len same known t =
        absurd (omega arith)
    recompute_from-IsTower (suc fuel) h start e old cur [] f ends le near len same known t =
        elim (Bool-cases (ltb 1 (length cur))) [
          | inr small ↦ ([], rw (small, recompute_from) refl, ground arith)
          | inl big ↦
              let next = level alg h cur in
              let k = start / 2 in
              let many : 1 < length cur = ltb→lt 1 (length cur) big in
              let next_len = length-level alg h cur in
              let first : k ≡ 0 = omega arith in
              let agree : take k [] ≡ take k next = rw first refl in
              let last = last_index-drop k next (omega arith) in
              let round : recompute_layer alg h start e cur []
                  ≡ ret (next, some (length next - 1)) =
                recompute_layer_lem h start e cur [] ends (omega arith) (omega arith) (omega arith)
                  (omega arith) agree known hash
                ∙ ap (λ o. ret (next, o)) last in
              let (ls, run, tower) =
                recompute_from-IsTower fuel (h + 1) k (some (length next - 1 + 1)) [] next []
                  (omega arith) (inr (ap some (omega arith))) (omega arith) (omega arith)
                  (omega arith) agree (level-AreKnown alg hash h cur) (omega arith) in
              (
                next ∷ ls,
                rw (big, recompute_from) (rw (round, recompute_from) (rw run refl)),
                (refl, tower),
              )
        ]
    recompute_from-IsTower (suc fuel) h start e old cur (up ∷ uppers) f ends le near len same known
          t =
        let next = level alg h cur in
        let k = start / 2 in
        let up_len : length up ≡ (length old + 1) / 2 = ap length t.0 ∙ length-level alg h old in
        let next_len = length-level alg h cur in
        let round =
          recompute_layer_lem h start e cur up ends (omega arith) (omega arith) (omega arith)
            (omega arith) (rw t.0 (agree-level h start old cur le len same)) known hash in
        let (ls, run, tower) =
          recompute_from-IsTower fuel (h + 1) k (next_end (last_index alg k (drop k next) none)) up
            next uppers (omega arith) (next_end-EndsAt k next (omega arith)) (omega arith)
            (omega arith) (omega arith) (rw t.0 (agree-level h start old cur le len same))
            (level-AreKnown alg hash h cur) t.1 in
        (next ∷ ls, rw (round, recompute_from) (rw run refl), (refl, tower))
