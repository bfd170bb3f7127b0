-- ===== src/AppendMerkle/Proof/RoundTrip.antt =====
-- A proof that `gen_proof` makes is one that `validate` accepts, for the tree of merkle_tree.rs.
use ionian_rust.Base.{
  ℕ, zero, suc, ◌+◌, ◌-◌, ◌<◌, ◌≡◌, refl, ap, subst, ◌∙◌, ◌≢◌, inl, inr, Bool, true, false, List,
  [], ◌∷◌, ◌++◌, some, ret, ◌>>=◌, arith, length, get_elem?, leb, ◌==◌, if◌then◌else◌, Bool-cases,
  list-cases, if_pos, ◌&&◌, length-append, Result, ok, unwrap,
}
use ionian_rust.AppendMerkle.{Algorithm, AppendMerkleTree, same}
use ionian_rust.AppendMerkle.Parents.{not_is_null}
use ionian_rust.AppendMerkle.Recompute.{IsTower}
use ionian_rust.AppendMerkle.Versions.{last, root}
use ionian_rust.AppendMerkle.Tree.{leaf_layer, first_layer}
use ionian_rust.AppendMerkle.Tree.Appends.{IsValid}
use ionian_rust.AppendMerkle.Proof.{
  Proof, ProofError, MerkleTreeRead, read_tree, gen_loop, new_proof, gen_proof, fold_path, inner,
  validate_integrity, validate, position_from, root_of,
}
use ionian_rust.AppendMerkle.Proof.Climb.{Reads, gen_loop-Climbs}

module _ {E : Type 0} (alg : Algorithm E) where
  read_tree-Reads : (t : AppendMerkleTree E) → Reads alg (read_tree alg t) 0 t.leaf_height t.layers
  unfolding read_tree
  read_tree-Reads t = record {
    nodes = λ j m l e. let here : 0 + j ≡ j = omega arith in rw here (rw e refl);
    lens = λ j l e. let here : 0 + j ≡ j = omega arith in rw here (rw e refl);
    pads = λ j. ap alg.end_pad (omega arith);
  }

  -- The top layer is the last of the layers.
  get_elem?-root :
      (l : List E) (ls : List (List E)) (y : E)
      → root (l ∷ ls) ≡ some y
      → (top : List E) × (get_elem? (l ∷ ls) (length ls) ≡ some top) × (get_elem? top 0 ≡ some y)
  get_elem?-root l [] y e = (l, refl, e)
  get_elem?-root l (m ∷ ls) y e = get_elem?-root m ls y e

  root_of-read_tree :
      (t : AppendMerkleTree E) (l : List E) (ls : List (List E)) (y : E)
      → t.layers ≡ l ∷ ls
      → root (l ∷ ls) ≡ some y
      → root_of alg (read_tree alg t) ≡ ret y
  unfolding read_tree
  root_of-read_tree t l ls y e top =
      let (m, at, first) = get_elem?-root l ls y top in
      let end : suc (length ls) - 1 ≡ length ls = omega arith in
      rw e (rw end (rw at (rw first refl)))

  height_lem :
      (t : AppendMerkleTree E) (l : List E) (ls : List (List E))
      → t.layers ≡ l ∷ ls
      → (read_tree alg t).height - 1 ≡ length ls
  unfolding read_tree
  height_lem t l ls e = omega (arith, ap length e)

  get_elem?-lt : (l : List E) (i : ℕ) (x : E) → get_elem? l i ≡ some x → i < length l
  get_elem?-lt [] i x e = absurd (cc)
  get_elem?-lt (y ∷ l) zero x e = omega arith
  get_elem?-lt (y ∷ l) (suc i) x e = omega (arith, get_elem?-lt l i x e)

  inner-append : (ss : List E) (y : E) → inner alg (ss ++ y ∷ []) ≡ ss
  inner-append [] y = refl
  inner-append (s ∷ []) y = refl
  inner-append (s ∷ s' ∷ ss) y = ap (◌∷◌ s) (inner-append (s' ∷ ss) y)

  last-append : (ss : List E) (y : E) → last (ss ++ y ∷ []) ≡ some y
  last-append [] y = refl
  last-append (s ∷ []) y = refl
  last-append (s ∷ s' ∷ ss) y = last-append (s' ∷ ss) y

  same_self : (x : E) → same alg x x ≡ true
  same_self x = if_pos (alg.eq x x) refl _ _

  -- A lemma whose fold reaches its last node has integrity.
  validate_integrity_lem :
      (x y : E) (path : List Bool) (ss : List E)
      → fold_path alg x path ss ≡ ret y
      → validate_integrity alg (record { lemma = x ∷ ss ++ y ∷ []; path = path }) ≡ ret true
  unfolding validate_integrity
  validate_integrity_lem x y path [] e =
      let equal : x ≡ y = ground arith in rw equal (rw (same_self y) refl)
  validate_integrity_lem x y path (s ∷ ss) e =
      rw (inner-append (s ∷ ss) y) (rw e (rw (last-append (s ∷ ss) y) (rw (same_self y) refl)))

  validate_lem :
      (x y : E) (i : ℕ) (path : List Bool) (ss : List E)
      → fold_path alg x path ss ≡ ret y
      → position_from 0 path ≡ i
      → validate alg (record { lemma = x ∷ ss ++ y ∷ []; path = path }) x i ≡ ret (ok tt)
  unfolding validate
  validate_lem x y i path ss e pos =
      let at : (i == position_from 0 path) ≡ true = ground (arith, pos) in
      rw (validate_integrity_lem x y path ss e) (rw (same_self x) (rw at refl))

  new_proof_lem :
      (x y : E) (path : List Bool) (ss : List E)
      → length ss ≡ length path
      → new_proof alg (x ∷ ss ++ y ∷ []) path
        ≡ ret (record { lemma = x ∷ ss ++ y ∷ []; path = path })
  unfolding new_proof
  new_proof_lem x y path ss e =
      let len : (leb 2 (suc (length (ss ++ y ∷ [])))
            && suc (length (ss ++ y ∷ [])) - 2 == length path)
          ≡ true =
        ground (arith, e, length-append ss (y ∷ [])) in
      rw len refl

  gen_loop-zero :
      (r : MerkleTreeRead E) (i : ℕ) (ss : List E) (path : List Bool)
      → gen_loop alg r 0 0 i ≡ ret (ss, path)
      → (ss ≡ []) × (path ≡ [])
  unfolding gen_loop
  gen_loop-zero r i ss path e = (ground arith, ground arith)

  fold_path-nil : (x y : E) (path : List Bool) → fold_path alg x path [] ≡ ret y → x ≡ y
  unfolding fold_path
  fold_path-nil x y path e = ground arith

  -- `gen_proof`, from what the reader answers.
  gen_proof_lem :
      (r : MerkleTreeRead E) (n i : ℕ) (x y : E) (ss : List E) (path : List Bool)
      → r.layer_len 0 ≡ ret n
      → i < n
      → r.node 0 i ≡ ret x
      → x ≢ alg.null
      → root_of alg r ≡ ret y
      → gen_loop alg r (r.height - 1) 0 i ≡ ret (ss, path)
      → fold_path alg x path ss ≡ ret y
      → length ss ≡ length path
      → gen_proof alg r i ≡ ret (ok (record { lemma = x ∷ ss ++ y ∷ []; path = path }))
  unfolding gen_proof
  gen_proof_lem r n i x y ss path len lt node known top loop fold same_len =
      let inside : leb n i ≡ false = ground arith in
      rw len (
        rw (inside, if◌then◌else◌)
          (rw node (
            rw (not_is_null alg x known, if◌then◌else◌)
              (rw (top, loop)
                (elim (Bool-cases (r.height == 1)) [
                  | inr tall ↦ rw tall (rw (new_proof_lem x y path ss same_len) refl)
                  | inl one ↦ rw one (one_layer ss path (ground (arith, one)) loop fold)
                ])))))
    where
      -- A tree of one layer has the proof of the root twice.
      one_layer :
          (ss : List E) (path : List Bool)
          → r.height - 1 ≡ 0
          → gen_loop alg r (r.height - 1) 0 i ≡ ret (ss, path)
          → fold_path alg x path ss ≡ ret y
          → ◌>>=◌ {B = Result ProofError (Proof E)}
              (new_proof alg (y ∷ y ∷ []) [])
              (λ p. ret (ok p))
            ≡ ret (ok (record { lemma = x ∷ ss ++ y ∷ []; path = path }))
      one_layer ss path low loop fold =
          let (no_siblings, no_path) = gen_loop-zero r i ss path (rw low at loop) in
          let equal : x ≡ y =
            fold_path-nil x y path (subst (λ z. fold_path alg x path z ≡ ret y) no_siblings fold) in
          rw (no_siblings, no_path, equal) (rw (new_proof_lem y y [] [] refl) refl)

  -- For every leaf of a valid tree that is not null, `gen_proof` makes a proof without a panic;
  -- `validate` accepts it for that leaf at that position, and it ends in the root of the tree.
  pub gen_proof-validate :
      (t : AppendMerkleTree E) (i : ℕ) (x : E)
      → IsValid alg t
      → get_elem? (leaf_layer t) i ≡ some x
      → x ≢ alg.null
      → (p : Proof E) × (y : E) × (gen_proof alg (read_tree alg t) i ≡ ret (ok p))
        × (validate alg p x i ≡ ret (ok tt))
        × (root t.layers ≡ some y)
        × (last p.lemma ≡ some y)
  gen_proof-validate t i x v e known = elim (list-cases t.layers) [
    | inl none_there ↦ absurd (subst (IsTower alg t.leaf_height) none_there v.tower)
    | inr (cur, rest, layers) ↦
        let r = read_tree alg t in
        let reads : Reads alg r 0 t.leaf_height (cur ∷ rest) =
          subst (Reads alg r 0 t.leaf_height) layers (read_tree-Reads t) in
        let tower : IsTower alg t.leaf_height (cur ∷ rest) =
          subst (IsTower alg t.leaf_height) layers v.tower in
        let leaf : get_elem? cur i ≡ some x =
          subst (λ ls. get_elem? (first_layer ls) i ≡ some x) layers e in
        let (q, run, climbs) =
          gen_loop-Climbs alg r 0 t.leaf_height 0 i cur rest x reads tower leaf in
        let (same_len, y, fold, top, pos) = climbs in
        let height : r.height - 1 ≡ length rest = height_lem t cur rest layers in
        (
          record { lemma = x ∷ q.0 ++ y ∷ []; path = q.1 },
          y,
          gen_proof_lem r (length cur) i x y q.0 q.1 (reads.lens 0 cur refl)
              (get_elem?-lt cur i x leaf) (reads.nodes 0 i cur refl ∙ ap unwrap leaf) known
              (root_of-read_tree t cur rest y layers top)
              (ap (λ n. gen_loop alg r n 0 i) height ∙ run) fold same_len,
          validate_lem x y i q.1 q.0 fold (omega (arith, pos)),
          ap root layers ∙ top,
          last-append (x ∷ q.0) y,
        )
  ]
