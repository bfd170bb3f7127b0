-- ===== src/AppendMerkle/Proof.antt =====
-- common/append_merkle/src/proof.rs, and `gen_proof` of merkle_tree.rs over any tree that can be
-- read. An index out of range is `panic`.
pub mod Climb
pub mod RoundTrip
use ionian_rust.Base.{
  ℕ, zero, suc, ◌+◌, ◌-◌, ◌*◌, ◌/◌, ◌%◌, ◌^◌, Bool, true, false, not, ◌&&◌, if◌then◌else◌, Option,
  none, some, List, [], ◌∷◌, ◌++◌, ltb, leb, ◌==◌, Run, ret, panic, ◌>>=◌, ◌>>◌, assert, unwrap,
  Result, ok, err, length, get_elem?,
}
use ionian_rust.AppendMerkle.{Algorithm, AppendMerkleTree, DeltaNodes, is_null, same}
use ionian_rust.AppendMerkle.Versions.{last, history_node}

pub record Proof (E : Type 0) : Type 0 where
  pub lemma : List E
  pub path : List Bool

-- The trait `MerkleTreeRead`.
pub record MerkleTreeRead (E : Type 0) : Type 0 where
  pub node : ℕ → ℕ → Run E
  pub height : ℕ
  pub layer_len : ℕ → Run ℕ
  pub padding_node : ℕ → E

pub data ProofError : Type 0 where
  leaf_out_of_bound not_ready invalid_proof item_unmatch position_unmatch invalid_range : ProofError

-- `position`: the bits of the path, the lowest first; a left child is a 0.
pub position_from : ℕ → List Bool → ℕ
position_from i [] = 0
position_from i (is_left ∷ path) = (if is_left then 0 else 2 ^ i) + position_from (i + 1) path

module _ {E : Type 0} (alg : Algorithm E) where
  pub read_tree : AppendMerkleTree E → MerkleTreeRead E
  read_tree t = record {
    node = λ layer index. unwrap (get_elem? t.layers layer) >>= λ l. unwrap (get_elem? l index);
    height = length t.layers;
    layer_len = λ layer. unwrap (get_elem? t.layers layer) >>= λ l. ret (length l);
    padding_node = λ h. alg.end_pad (h + t.leaf_height);
  }

  -- `HistoryTree`: a version of the tree.
  pub read_history : AppendMerkleTree E → DeltaNodes E → MerkleTreeRead E
  read_history t d = record {
    node = history_node alg t.layers d;
    height = length d.right_most_nodes;
    layer_len = λ layer. unwrap (get_elem? d.right_most_nodes layer) >>= λ n. ret (n.0 + 1);
    padding_node = λ h. alg.end_pad (h + t.leaf_height);
  }

  -- The sibling that the loop of `gen_proof` takes at a height.
  abbrev pub sibling : MerkleTreeRead E → ℕ → ℕ → Run E
  sibling r h i =
      if i % 2 == 0
      then (r.layer_len h >>= λ n. if i + 1 == n then ret (r.padding_node h) else r.node h (i + 1))
      else r.node h (i - 1)

  -- The loop of `gen_proof` over the heights from `h`: the siblings and the path.
  pub gen_loop : MerkleTreeRead E → ℕ → ℕ → ℕ → Run (List E × List Bool)
  gen_loop r zero h i = ret ([], [])
  gen_loop r (suc n) h i =
      let rest = gen_loop r n (h + 1) (i / 2) in
      sibling r h i >>= λ s. rest >>= λ q. ret (s ∷ q.0, (i % 2 == 0) ∷ q.1)

  -- `Proof::new`.
  pub new_proof : List E → List Bool → Run (Proof E)
  new_proof lemma path = do
    assert (leb 2 (length lemma) && length lemma - 2 == length path)
    ret (record { lemma = lemma; path = path })

  abbrev pub root_of : MerkleTreeRead E → Run E
  root_of r = r.node (r.height - 1) 0

  pub gen_proof : MerkleTreeRead E → ℕ → Run (Result ProofError (Proof E))
  gen_proof r leaf_index = r.layer_len 0 >>= λ leaves.
      if leb leaves leaf_index then ret (err leaf_out_of_bound) else do
        leaf ← r.node 0 leaf_index
        if is_null alg leaf then ret (err not_ready) else do
          root ← root_of r
          (siblings, path) ← gen_loop r (r.height - 1) 0 leaf_index
          p ←
              (if r.height == 1
                then new_proof (root ∷ root ∷ []) []
                else new_proof (leaf ∷ siblings ++ root ∷ []) path)
          ret (ok p)

  -- The loop of `validate_integrity` over the inner nodes of the lemma.
  pub fold_path : E → List Bool → List E → Run E
  fold_path h path [] = ret h
  fold_path h [] (s ∷ ss) = panic
  fold_path h (is_left ∷ path) (s ∷ ss) =
      fold_path (if is_left then alg.parent h s else alg.parent s h) path ss

  -- All but the last.
  abbrev pub inner : List E → List E
  inner [] = []
  inner (x ∷ []) = []
  inner (x ∷ y ∷ xs) = x ∷ inner (y ∷ xs)

  pub validate_integrity : Proof E → Run Bool
  unfolding fold_path
  validate_integrity p = elim (p.lemma) [
    | [] ↦ ret false
    | x ∷ [] ↦ ret false
    | x ∷ y ∷ ys ↦ do
      h ← fold_path x p.path (inner (y ∷ ys))
      root ← unwrap (last (y ∷ ys))
      ret (same alg h root)
  ]

  abbrev pub item : Proof E → Option E
  item p = elim (p.lemma) [ [] ↦ none | x ∷ xs ↦ some x ]

  pub validate : Proof E → E → ℕ → Run (Result ProofError (Unit {0}))
  unfolding validate_integrity position_from
  validate p leaf position = do
    valid ← validate_integrity p
    if not valid then ret (err invalid_proof) else do
      x ← unwrap (item p)
      ret (
          if not (same alg leaf x)
          then err item_unmatch
          else if not (position == position_from 0 p.path)
          then err position_unmatch
          else ok tt)

  pub record RangeProof : Type 0 where
    pub left_proof : Proof E
    pub right_proof : Proof E

  -- `gen_range_proof`, of the leaves from `start_index` up to `end_index`.
  pub gen_range_proof : MerkleTreeRead E → ℕ → ℕ → Run (Result ProofError RangeProof)
  gen_range_proof r start_index end_index =
      if leb end_index start_index then ret (err invalid_range) else do
        left ← gen_proof r start_index
        elim left [
          | err e ↦ ret (err e)
          | ok l ↦ gen_proof r (end_index - 1) >>= λ right. ret (elim right [
            | err e ↦ err e
            | ok q ↦ ok (record { left_proof = l; right_proof = q })
          ])
        ]
