-- ===== src/AppendMerkle/Proof/Climb.antt =====
-- The loop of `gen_proof` of merkle_tree.rs climbs from a leaf to the root.
use native.Mathlib.Numerals.{towards_suc}
use ionian_rust.Base.{
  ℕ, zero, suc, ◌+◌, ◌-◌, ◌*◌, ◌/◌, ◌%◌, ◌^◌, ◌≡◌, refl, ap, ◌∙◌, ◌≢◌, inl, inr, Bool, false, List,
  [], ◌∷◌, some, Run, ret, arith, length, get_elem?, ◌==◌, if◌then◌else◌, Bool-cases, unwrap,
}
use ionian_rust.AppendMerkle.{Algorithm}
use ionian_rust.AppendMerkle.Parents.{level}
use ionian_rust.AppendMerkle.Recompute.{IsTower}
use ionian_rust.AppendMerkle.Versions.{root}
use ionian_rust.AppendMerkle.Proof.{MerkleTreeRead, sibling, gen_loop, fold_path, position_from}

pow-add-one : (k : ℕ) → 2 ^ (k + 1) ≡ 2 * 2 ^ k
pow-add-one k = simp towards_suc (omega arith)

-- A bit and the bits above it spell the index.
position_step :
    (i p above : ℕ) → above ≡ i / 2 * (2 * p) → (if i % 2 == 0 then 0 else p) + above ≡ i * p
position_step i p above e = elim (Bool-cases (i % 2 == 0)) [
  | inl even ↦
      let half : i ≡ 2 * (i / 2) = ground (arith, even) in
      rw even (omega (arith, e, ap (λ (n : ℕ). n * p) half))
  | inr odd ↦
      let bit : i % 2 ≢ 0 = λ z. ground (arith, odd) in
      let half : i ≡ 2 * (i / 2) + 1 = omega arith in
      rw odd (omega (arith, e, ap (λ (n : ℕ). n * p) half))
]

module _ {E : Type 0} (alg : Algorithm E) where
  -- The parent of a node, from its sibling and its side.
  abbrev pub joined : ℕ → E → E → E
  joined i x s = if i % 2 == 0 then alg.parent x s else alg.parent s x

  -- The sibling in a layer, the padding included.
  abbrev sibling_in : ℕ → List E → ℕ → Run E
  sibling_in h cur i =
      if i % 2 == 0
      then if i + 1 == length cur then ret (alg.end_pad h) else unwrap (get_elem? cur (i + 1))
      else unwrap (get_elem? cur (i - 1))

  shift_next :
      (i : ℕ) (x z : E) (cur : List E)
      → get_elem? (x ∷ z ∷ cur) (suc (suc i) + 1) ≡ get_elem? cur (i + 1)
  shift_next i x z cur = let e : suc (suc i) + 1 ≡ suc (suc (i + 1)) = omega arith in rw e refl

  shift_prev :
      (i : ℕ) (x z : E) (cur : List E)
      → (i % 2 == 0) ≡ false
      → get_elem? (x ∷ z ∷ cur) (suc (suc i) - 1) ≡ get_elem? cur (i - 1)
  shift_prev i x z cur odd =
      let pos : i % 2 ≢ 0 = λ h. ground (arith, odd) in
      let e : suc (suc i) - 1 ≡ suc (suc (i - 1)) = omega arith in rw e refl

  shift_sibling :
      (h i : ℕ) (x z : E) (cur : List E)
      → sibling_in h (x ∷ z ∷ cur) (suc (suc i)) ≡ sibling_in h cur i
  shift_sibling h i x z cur = elim (Bool-cases (i % 2 == 0)) [
    | inl even ↦ rw (parity, even) (rw (at_end, shift_next i x z cur) refl)
    | inr odd ↦ rw (parity, odd) (rw (shift_prev i x z cur odd) refl)
  ]
    where
      parity : suc (suc i) % 2 ≡ i % 2
      parity = omega arith

      at_end : (suc (suc i) + 1 == suc (suc (length cur))) ≡ (i + 1 == length cur)
      at_end = ground arith

  -- The layer above has the parent of each node.
  get_elem?-level :
      (h i : ℕ) (cur : List E) (x : E)
      → get_elem? cur i ≡ some x
      → (s : E) × (sibling_in h cur i ≡ ret s)
        × (get_elem? (level alg h cur) (i / 2) ≡ some (joined i x s))
  get_elem?-level h zero [] y e = cc
  get_elem?-level h (suc i) [] y e = cc
  get_elem?-level h zero (x ∷ []) y e = (alg.end_pad h, refl, cc)
  get_elem?-level h (suc i) (x ∷ []) y e = cc
  get_elem?-level h zero (x ∷ z ∷ cur) y e = (z, ground arith, cc)
  get_elem?-level h (suc zero) (x ∷ z ∷ cur) y e = (x, refl, cc)
  get_elem?-level h (suc (suc i)) (x ∷ z ∷ cur) y e =
      let (s, found, up) = get_elem?-level h i cur y e in
      let half : suc (suc i) / 2 ≡ suc (i / 2) = omega arith in
      let parity : suc (suc i) % 2 ≡ i % 2 = omega arith in
      (s, shift_sibling h i x z cur ∙ found, rw half (rw (parity, joined) up))

  -- What the fold computes along the loop is the root, and the path spells the index.
  abbrev Climbs : ℕ → ℕ → E → List (List E) → List E × List Bool → Type 0
  Climbs k i x layers (siblings, path) =
      (length siblings ≡ length path)
      × (y : E) × (fold_path alg x path siblings ≡ ret y)
      × (root layers ≡ some y)
      × (position_from k path ≡ i * 2 ^ k)

  -- The reader answers for the layers from `h` on, whose padding is that of the heights from `g`.
  pub record Reads (r : MerkleTreeRead E) (h g : ℕ) (layers : List (List E)) : Type 0 where
    pub nodes :
        (j m : ℕ) (l : List E)
        → get_elem? layers j ≡ some l
        → r.node (h + j) m ≡ unwrap (get_elem? l m)
    pub lens :
        (j : ℕ) (l : List E) → get_elem? layers j ≡ some l → r.layer_len (h + j) ≡ ret (length l)
    pub pads : (j : ℕ) → r.padding_node (h + j) ≡ alg.end_pad (g + j)

  Reads-up :
      (r : MerkleTreeRead E) (h g : ℕ) (cur : List E) (rest : List (List E))
      → Reads r h g (cur ∷ rest)
      → Reads r (h + 1) (g + 1) rest
  Reads-up r h g cur rest v = record {
    nodes =
        λ j m l e. let up : h + 1 + j ≡ h + suc j = omega arith in rw up (v.nodes (suc j) m l e);
    lens = λ j l e. let up : h + 1 + j ≡ h + suc j = omega arith in rw up (v.lens (suc j) l e);
    pads = λ j.
        let up : h + 1 + j ≡ h + suc j = omega arith in
        let up' : g + 1 + j ≡ g + suc j = omega arith in rw (up, up') (v.pads (suc j));
  }

  sibling-Reads :
      (r : MerkleTreeRead E) (h g i : ℕ) (cur : List E) (rest : List (List E))
      → Reads r h g (cur ∷ rest)
      → sibling alg r h i ≡ sibling_in g cur i
  sibling-Reads r h g i cur rest v =
      let here : h + 0 ≡ h = omega arith in
      let here' : g + 0 ≡ g = omega arith in
      let node : (m : ℕ) → r.node h m ≡ unwrap (get_elem? cur m) =
        λ m. rw here at (v.nodes 0 m cur refl) in
      let len : r.layer_len h ≡ ret (length cur) = rw here at (v.lens 0 cur refl) in
      let pad : r.padding_node h ≡ alg.end_pad g = rw (here, here') at (v.pads 0) in
      rw (node (i + 1), node (i - 1), len, pad) refl

  -- The loop of `gen_proof` from the layer `cur` at `h` up: it does not panic, and what it
  -- returns climbs from the node `x` at `i` to the root.
  pub gen_loop-Climbs :
      (r : MerkleTreeRead E) (h g k i : ℕ) (cur : List E) (rest : List (List E)) (x : E)
      → Reads r h g (cur ∷ rest)
      → IsTower alg g (cur ∷ rest)
      → get_elem? cur i ≡ some x
      → (q : List E × List Bool) × (gen_loop alg r (length rest) h i ≡ ret q)
        × Climbs k i x (cur ∷ rest) q
  unfolding gen_loop fold_path position_from
  gen_loop-Climbs r h g k i [] [] x v tower e = cc
  gen_loop-Climbs r h g k (suc i) (y ∷ []) [] x v tower e = cc
  gen_loop-Climbs r h g k zero (y ∷ []) [] x v tower e =
      (([], []), refl, (refl, x, refl, e, omega arith))
  gen_loop-Climbs r h g k i (y ∷ z ∷ cur) [] x v tower e = absurd (omega arith)
  gen_loop-Climbs r h g k i cur (up ∷ rest) x v tower e =
      let (s, found, parent) = get_elem?-level g i cur x e in
      let above : get_elem? up (i / 2) ≡ some (joined i x s) =
        ap (λ l. get_elem? l (i / 2)) tower.0 ∙ parent in
      let (q, run, climbs) =
        gen_loop-Climbs r (h + 1) (g + 1) (k + 1) (i / 2) up rest (joined i x s)
          (Reads-up r h g cur (up ∷ rest) v) tower.1 above in
      (
        (s ∷ q.0, (i % 2 == 0) ∷ q.1),
        rw (sibling-Reads r h g i cur (up ∷ rest) v, found, run) refl,
        (
          ap suc climbs.0,
          climbs.1,
          climbs.2,
          climbs.3,
          position_step i (2 ^ k) (position_from (k + 1) q.1)
              (climbs.4 ∙ ap (◌*◌ (i / 2)) (pow-add-one k)),
        ),
      )
