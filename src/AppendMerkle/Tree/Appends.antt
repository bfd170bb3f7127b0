-- ===== src/AppendMerkle/Tree/Appends.antt =====
-- Appending to the tree of common/append_merkle/src/lib.rs, where every node is known.
use ionian_rust.Base.{
  ℕ, zero, suc, ◌+◌, ◌-◌, ◌≤◌, ◌≡◌, refl, ap, sym, subst, ◌≢◌, inl, inr, list-cases, false, List,
  [], ◌∷◌, ◌++◌, none, ret, arith, length, take, set, length-append, length-set, Run, ◌==◌,
}
use ionian_rust.AppendMerkle.{Algorithm, AppendMerkleTree, rounds, recompute}
use ionian_rust.AppendMerkle.Parents.{AreKnown}
use ionian_rust.AppendMerkle.Recompute.{IsTower, recompute_from-IsTower}
use ionian_rust.AppendMerkle.Tree.{
  append_list, append, update_last, with_last, leaf_layer, first_layer,
}

module _ {E : Type 0} where
  length-le-rounds : (ls : List (List E)) → length ls ≤ rounds ls
  length-le-rounds [] = omega arith
  length-le-rounds (l ∷ ls) = omega (arith, length-le-rounds ls)

  take_append : (xs ys : List E) → take (length xs) xs ≡ take (length xs) (xs ++ ys)
  take_append [] ys = refl
  take_append (x ∷ xs) ys = ap (◌∷◌ x) (take_append xs ys)

  take-set : (xs : List E) (i : ℕ) (v : E) → take i xs ≡ take i (set xs i v)
  take-set xs zero v = refl
  take-set [] (suc i) v = refl
  take-set (x ∷ xs) (suc i) v = ap (◌∷◌ x) (take-set xs i v)

module _ {E : Type 0} (alg : Algorithm E) where
  -- The layers are the tree of the leaves, and every leaf is known.
  pub record IsValid (t : AppendMerkleTree E) : Type 0 where
    pub tower : IsTower alg t.leaf_height t.layers
    pub known : AreKnown alg (leaf_layer t)

  append-AreKnown : (xs ys : List E) → AreKnown alg xs → AreKnown alg ys → AreKnown alg (xs ++ ys)
  append-AreKnown [] ys h k = k
  append-AreKnown (x ∷ xs) ys h k = (h.0, append-AreKnown xs ys h.1 k)

  set-AreKnown :
      (xs : List E) (i : ℕ) (v : E) → AreKnown alg xs → v ≢ alg.null → AreKnown alg (set xs i v)
  set-AreKnown [] i v h k = h
  set-AreKnown (x ∷ xs) zero v h k = (k, h.1)
  set-AreKnown (x ∷ xs) (suc i) v h k = (h.0, set-AreKnown xs i v h.1 k)

  -- The result of an operation: a valid tree of other leaves, all else as before.
  abbrev pub Rebuilt : AppendMerkleTree E → List E → Run (AppendMerkleTree E) → Type 0
  Rebuilt t new m =
      (ls : List (List E)) × (m ≡ ret (record t { layers = new ∷ ls }))
      × IsValid (record t { layers = new ∷ ls })

  module _ (hash : (a b : E) → alg.parent a b ≢ alg.null) where
    rebuild :
        (t : AppendMerkleTree E) (old cur : List E) (uppers : List (List E)) (start : ℕ)
        → IsTower alg t.leaf_height (old ∷ uppers)
        → start ≤ length old
        → length old ≤ start + 1
        → length old ≤ length cur
        → take start old ≡ take start cur
        → AreKnown alg cur
        → Rebuilt t cur (recompute alg (record t { layers = cur ∷ uppers }) start none)
    unfolding recompute
    rebuild t old cur uppers start tower le near len same known =
        let (ls, run, built) =
          recompute_from-IsTower alg hash (rounds (cur ∷ uppers)) t.leaf_height start none old cur
            uppers (omega (arith, length-le-rounds uppers)) (inl refl) le near len same known
            tower in
        (ls, rw run refl, record { tower = built; known = known })

    module _ (t : AppendMerkleTree E) (v : IsValid t) where
      -- The layers of a valid tree, taken apart.
      parts :
          (old : List E) × (uppers : List (List E)) × (t.layers ≡ old ∷ uppers)
          × (leaf_layer t ≡ old)
          × AreKnown alg old
          × IsTower alg t.leaf_height (old ∷ uppers)
      parts = elim (list-cases t.layers) [
        | inl e ↦ absurd (subst (IsTower alg t.leaf_height) e v.tower)
        | inr (old, uppers, e) ↦ (
          old,
          uppers,
          e,
          ap first_layer e,
          subst (λ ls. AreKnown alg (first_layer ls)) e v.known,
          subst (IsTower alg t.leaf_height) e v.tower,
        )
      ]

      -- Where no parent hash is null, appending leaves that are not null to a valid tree does not
      -- panic, and gives the valid tree of the old leaves followed by the new ones: every layer is
      -- computed from the one below, up to one root. Versions and settings stay.
      pub append_list-IsValid :
          (xs : List E) → AreKnown alg xs → Rebuilt t (leaf_layer t ++ xs) (append_list alg t xs)
      unfolding append_list
      append_list-IsValid xs k =
          let (old, uppers, e, first, known, tower) = parts in
          subst (λ l. Rebuilt t (l ++ xs) (append_list alg t xs)) (sym first)
            (rw (e, append_list)
              (rebuild t old (old ++ xs) uppers (length old) tower (omega arith) (omega arith)
                (omega (arith, length-append old xs)) (take_append old xs)
                (append-AreKnown old xs known k)))

      -- Where no parent hash is null, appending a leaf that is not null to a valid tree does not
      -- panic, and gives the valid tree of the old leaves and the new one, all else as before.
      pub append-IsValid :
          (x : E) → x ≢ alg.null → Rebuilt t (leaf_layer t ++ x ∷ []) (append alg t x)
      unfolding append
      append-IsValid x k =
          let (old, uppers, e, first, known, tower) = parts in
          let end : length (old ++ x ∷ []) - 1 ≡ length old =
            omega (arith, length-append old (x ∷ [])) in
          subst (λ l. Rebuilt t (l ++ x ∷ []) (append alg t x)) (sym first)
            (rw (e, append)
              (rw end (
                rebuild t old (old ++ x ∷ []) uppers (length old) tower (omega arith) (omega arith)
                  (omega (arith, length-append old (x ∷ []))) (take_append old (x ∷ []))
                  (append-AreKnown old (x ∷ []) known (k, tt)))))

      -- Where no parent hash is null, replacing the last leaf of a valid tree by one that is not
      -- null, or pushing it into an empty tree, does not panic, and gives the valid tree of the new
      -- leaves, all else as before.
      pub update_last-IsValid :
          (x : E) → x ≢ alg.null → Rebuilt t (with_last (leaf_layer t) x) (update_last alg t x)
      unfolding update_last
      update_last-IsValid x k =
          let (old, uppers, e, first, known, tower) = parts in
          subst (λ l. Rebuilt t (with_last l x) (update_last alg t x)) (sym first)
            (rw (e, update_last) (go old uppers known tower))
        where
          go :
              (old : List E) (uppers : List (List E))
              → AreKnown alg old
              → IsTower alg t.leaf_height (old ∷ uppers)
              → Rebuilt t (with_last old x) (
                  recompute alg
                    (record t { layers = with_last old x ∷ uppers })
                    (length (with_last old x) - 1)
                    none)
          go [] uppers known tower =
              rebuild t [] (x ∷ []) uppers 0 tower (omega arith) (omega arith) (omega arith) refl
                (k, tt)
          go (y ∷ old) uppers known tower =
              let n = length old in
              let some_leaf : (suc n == 0) ≡ false = ground arith in
              let end : suc n - 1 ≡ n = omega arith in
              let same = take-set (y ∷ old) n x in
              rw (some_leaf, with_last)
                (rw end (
                  rw (length-set (y ∷ old) n x) (
                    rw end (
                      rebuild t (y ∷ old) (set (y ∷ old) n x) uppers n tower (omega arith)
                        (omega arith) (omega (arith, length-set (y ∷ old) n x)) same
                        (set-AreKnown (y ∷ old) n x known k)))))
