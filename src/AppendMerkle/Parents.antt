-- ===== src/AppendMerkle/Parents.antt =====
-- One layer of the tree of common/append_merkle/src/lib.rs from the layer below: the plain
-- description, and the loop of `recompute` that computes it where every node is known.
use mathlib.Core.List.{append-nil, append_assoc}
use ionian_rust.Base.{
  ◌&&◌, not, ltb, ◌==◌, get_elem?, set, Bool-cases, Option-cases, inl, inr, length-append,
  length-take, ℕ, zero, suc, ◌+◌, ◌-◌, ◌/◌, ◌≤◌, ◌≡◌, refl, ap, ◌∙◌, ◌≢◌, true, false, List, [],
  ◌∷◌, ◌++◌, Option, none, some, ret, arith, length, take, drop, All, if_neg, Bool,
}
use ionian_rust.AppendMerkle.{
  Algorithm, is_null, chunk_parents, numbered, apply_updates, is_invalid, same,
}

abbrev pub double : ℕ → ℕ
double zero = zero
double (suc n) = suc (suc (double n))

pub double_lem : (n : ℕ) → double n ≡ n + n
double_lem zero = omega arith
double_lem (suc n) = omega (arith, double_lem n)

and_false : (a b : Bool) → (a && (b && false)) ≡ false
and_false true true = refl
and_false true false = refl
and_false false b = refl

module _ {E : Type 0} (alg : Algorithm E) where
  -- Neighbours are joined; a last node alone is joined with the padding of its height.
  abbrev pub level : ℕ → List E → List E
  level h [] = []
  level h (r ∷ []) = alg.parent r (alg.end_pad h) ∷ []
  level h (l ∷ r ∷ rest) = alg.parent l r ∷ level h rest

  abbrev pub AreKnown : List E → Type 0
  AreKnown = All (λ x. x ≢ alg.null)

  pub not_is_null : (e : E) → e ≢ alg.null → is_null alg e ≡ false
  not_is_null e h = if_neg (alg.eq e alg.null) h _ _

  pub length-level : (h : ℕ) (xs : List E) → length (level h xs) ≡ (length xs + 1) / 2
  length-level h [] = omega arith
  length-level h (r ∷ []) = omega arith
  length-level h (l ∷ r ∷ rest) = omega (arith, length-level h rest)

  pub chunk_parents-level :
      (h : ℕ) (xs : List E) → AreKnown xs → chunk_parents alg h xs ≡ level h xs
  unfolding chunk_parents
  chunk_parents-level h [] k = refl
  chunk_parents-level h (r ∷ []) k = rw (if_neg (alg.eq r alg.null) k.0)
  chunk_parents-level h (l ∷ r ∷ rest) k =
      rw (if_neg (alg.eq l alg.null) k.0, if_neg (alg.eq r alg.null) k.1.0)
        (ap (◌∷◌ (alg.parent l r)) (chunk_parents-level h rest k.1.1))

  pub level-AreKnown :
      ((a b : E) → alg.parent a b ≢ alg.null) → (h : ℕ) (xs : List E) → AreKnown (level h xs)
  level-AreKnown n h [] = tt
  level-AreKnown n h (r ∷ []) = (n r (alg.end_pad h), tt)
  level-AreKnown n h (l ∷ r ∷ rest) = (n l r, level-AreKnown n h rest)

  -- Pairs stay pairs at an even position.
  pub drop-level : (h k : ℕ) (xs : List E) → drop k (level h xs) ≡ level h (drop (double k) xs)
  drop-level h zero xs = refl
  drop-level h (suc k) [] = refl
  drop-level h (suc k) (r ∷ []) = drop-nil k
    where
      drop-nil : (k : ℕ) → drop {A = E} k [] ≡ level h (drop (suc (double k)) [])
      drop-nil zero = refl
      drop-nil (suc k) = refl
  drop-level h (suc k) (l ∷ r ∷ rest) = drop-level h k rest

  pub take-level :
      (h k : ℕ) (xs : List E)
      → double k ≤ length xs
      → take k (level h xs) ≡ level h (take (double k) xs)
  take-level h zero xs le = refl
  take-level h (suc k) [] le = refl
  take-level h (suc k) (r ∷ []) le = absurd (omega arith)
  take-level h (suc k) (l ∷ r ∷ rest) le =
      ap (◌∷◌ (alg.parent l r)) (take-level h k rest (omega arith))

  pub drop-AreKnown : (n : ℕ) (xs : List E) → AreKnown xs → AreKnown (drop n xs)
  drop-AreKnown zero xs k = k
  drop-AreKnown (suc n) [] k = tt
  drop-AreKnown (suc n) (x ∷ xs) k = drop-AreKnown n xs k.1

  -- The last position that updates at `n` and on change.
  abbrev pub last_index : ℕ → List E → Option ℕ → Option ℕ
  last_index n [] last = last
  last_index n (p ∷ ps) last = last_index (n + 1) ps (some n)

  pub last_index-cons :
      (n : ℕ) (p : E) (ps : List E) (last : Option ℕ)
      → last_index n (p ∷ ps) last ≡ some (n + length ps)
  last_index-cons n p [] last = ap some (omega arith)
  last_index-cons n p (q ∷ ps) last = last_index-cons (n + 1) q ps (some n) ∙ ap some (omega arith)

  -- Nodes beyond the end of a layer are pushed, one after the other.
  pub apply_updates-push :
      (upper ps : List E) (n : ℕ) (last : Option ℕ)
      → n ≡ length upper
      → apply_updates alg upper (numbered alg n ps) last ≡ ret (upper ++ ps, last_index n ps last)
  unfolding apply_updates numbered
  apply_updates-push upper [] n last e = rw append-nil refl
  apply_updates-push upper (p ∷ ps) n last e =
      let not_below : ltb n (length upper) ≡ false = ground arith in
      let at_end : (n == length upper) ≡ true = ground arith in
      rw (not_below, apply_updates)
        (rw (at_end, apply_updates)
          (rw
            (
              apply_updates-push (upper ++ p ∷ []) ps (n + 1) (some n)
                  (omega (arith, length-append upper (p ∷ []))),
              append_assoc,
            )
            refl))

  set-last : (xs : List E) (k : ℕ) (p : E) → length xs ≡ k + 1 → set xs k p ≡ take k xs ++ p ∷ []
  set-last [] k p e = absurd (omega arith)
  set-last (x ∷ []) zero p e = refl
  set-last (x ∷ y ∷ xs) zero p e = absurd (omega arith)
  set-last (x ∷ xs) (suc k) p e = ap (◌∷◌ x) (set-last xs k p (omega arith))

  take_all : (xs : List E) (k : ℕ) → length xs ≡ k → take k xs ≡ xs
  take_all [] zero e = refl
  take_all [] (suc k) e = refl
  take_all (x ∷ xs) zero e = absurd (omega arith)
  take_all (x ∷ xs) (suc k) e = ap (◌∷◌ x) (take_all xs k (omega arith))

  is_invalid-last :
      (upper : List E) (i : ℕ) (p : E) → length upper ≡ i + 1 → is_invalid alg upper i p ≡ false
  is_invalid-last upper i p e =
      let at_end : (i == length upper - 1) ≡ true = ground arith in
      elim (Option-cases (get_elem? upper i)) [
        | inl none_there ↦ rw (none_there, is_invalid) refl
        | inr (old, there) ↦
            rw (there, is_invalid)
              (rw at_end (and_false (not (is_null alg old)) (not (same alg old p))))
      ]

  -- Known nodes that start at the end of a layer, or at its last node, replace the rest of it.
  pub apply_updates_lem :
      (upper ps : List E) (k : ℕ)
      → k ≤ length upper
      → length upper ≤ k + 1
      → length upper ≤ k + length ps
      → AreKnown ps
      → apply_updates alg upper (numbered alg k ps) none
        ≡ ret (take k upper ++ ps, last_index k ps none)
  unfolding apply_updates numbered
  apply_updates_lem upper [] k lo hi len known =
      rw (take_all upper k (omega arith)) (apply_updates-push upper [] k none (omega arith))
  apply_updates_lem upper (p ∷ ps) k lo hi len known = elim (Bool-cases (ltb k (length upper))) [
    | inr e ↦
        rw (take_all upper k (ground arith))
          (apply_updates-push upper (p ∷ ps) k none (ground arith))
    | inl e ↦
        let last : length upper ≡ k + 1 = ground arith in
        rw (e, apply_updates)
          (rw (not_is_null p known.0, apply_updates)
            (rw (is_invalid-last upper k p last, apply_updates)
              (rw (set-last upper k p last) (
                apply_updates-push (take k upper ++ p ∷ []) ps (k + 1) (some k)
                  (omega (arith, length-append (take k upper) (p ∷ []), length-take k upper))
                ∙ rw append_assoc refl))))
  ]
