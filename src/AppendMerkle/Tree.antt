-- ===== src/AppendMerkle/Tree.antt =====
-- The operations of `AppendMerkleTree` in common/append_merkle/src/lib.rs that change its nodes.
pub mod Appends
use ionian_rust.Base.{
  ℕ, zero, suc, ◌+◌, ◌-◌, ◌%◌, ◌^◌, true, false, not, if◌then◌else◌, Option, none, some, List, [],
  ◌∷◌, ◌++◌, ltb, leb, ◌==◌, Run, ret, panic, ◌>>=◌, Result, ok, err, length, get_elem?, set,
  replicate, ℕ_discrete,
}
use ionian_rust.Base.Dict
use ionian_rust.AppendMerkle.{Algorithm, AppendMerkleTree, DeltaNodes, is_null, same, recompute}
use ionian_rust.AppendMerkle.Versions.{commit, save_empty}

pub data MerkleError : Type 0 where
  zero_depth not_aligned out_of_bound : MerkleError

module _ {E : Type 0} where
  -- `layers[0]`, which has to be there.
  abbrev pub first_layer : List (List E) → List E
  first_layer [] = []
  first_layer (l ∷ ls) = l

  abbrev pub leaf_layer : AppendMerkleTree E → List E
  leaf_layer t = first_layer t.layers

  abbrev pub leaves : AppendMerkleTree E → ℕ
  leaves t = length (leaf_layer t)

  -- The nodes that are given, and no version.
  abbrev pub bare : List (List E) → Option ℕ → ℕ → AppendMerkleTree E
  bare layers min_depth leaf_height = record {
    layers = layers;
    delta_nodes_map = [];
    root_to_tx_seq_map = [];
    min_depth = min_depth;
    leaf_height = leaf_height;
  }

  -- The last leaf replaced, or the first one pushed.
  abbrev pub with_last : List E → E → List E
  with_last l updated = if length l == 0 then updated ∷ [] else set l (length l - 1) updated

module _ {E : Type 0} (alg : Algorithm E) where
  -- `new`, from the leaves.
  pub new_tree : List E → ℕ → Option ℕ → Run (AppendMerkleTree E)
  new_tree leaf_list leaf_height start_tx_seq =
      let t = bare (leaf_list ∷ []) none leaf_height in
      if length leaf_list == 0
      then ret (save_empty t start_tx_seq)
      else recompute alg t 0 none >>= λ t'. commit alg t' start_tx_seq

  -- `new_with_depth`.
  pub new_with_depth : List E → ℕ → Option ℕ → Run (AppendMerkleTree E)
  new_with_depth leaf_list depth start_tx_seq =
      if length leaf_list == 0
      then ret (save_empty (bare (replicate depth []) (some depth) 0) start_tx_seq)
      else elim depth [
        | zero ↦ panic
        | suc d ↦
            recompute alg (bare (leaf_list ∷ replicate d []) (some (suc d)) 0) 0 none >>= λ t'.
            commit alg t' start_tx_seq
      ]

  pub append_list : AppendMerkleTree E → List E → Run (AppendMerkleTree E)
  append_list t leaf_list = elim (t.layers) [
    | [] ↦ panic
    | l ∷ ls ↦ recompute alg (record t { layers = (l ++ leaf_list) ∷ ls }) (length l) none
  ]

  pub append : AppendMerkleTree E → E → Run (AppendMerkleTree E)
  append t new_leaf = elim (t.layers) [
    | [] ↦ panic
    | l ∷ ls ↦
        recompute alg (record t { layers = (l ++ new_leaf ∷ []) ∷ ls })
          (length (l ++ new_leaf ∷ []) - 1) none
  ]

  pub update_last : AppendMerkleTree E → E → Run (AppendMerkleTree E)
  update_last t updated_leaf = elim (t.layers) [
    | [] ↦ panic
    | l ∷ ls ↦
        recompute alg (record t { layers = with_last l updated_leaf ∷ ls })
          (length (with_last l updated_leaf) - 1) none
  ]

  pub fill_leaf : AppendMerkleTree E → ℕ → E → Run (AppendMerkleTree E)
  fill_leaf t index leaf = elim (t.layers) [
    | [] ↦ panic
    | l ∷ ls ↦ elim (get_elem? l index) [
      | none ↦ panic
      | some old ↦
          if is_null alg old
          then recompute alg (record t { layers = set l index leaf ∷ ls }) index (some (index + 1))
          else if same alg old leaf
          then ret t
          else panic
    ]
  ]

  -- The layers with the unknown nodes of a subtree of height `d` and its root.
  pub push_subtree : ℕ → E → List (List E) → List (List E)
  push_subtree zero root [] = (root ∷ []) ∷ []
  push_subtree zero root (l ∷ ls) = (l ++ root ∷ []) ∷ ls
  push_subtree (suc d) root [] = replicate (2 ^ suc d) alg.null ∷ push_subtree d root []
  push_subtree (suc d) root (l ∷ ls) =
      (l ++ replicate (2 ^ suc d) alg.null) ∷ push_subtree d root ls

  pub append_subtree_inner :
      AppendMerkleTree E → ℕ → E → AppendMerkleTree E × Result MerkleError (Unit {0})
  unfolding push_subtree
  append_subtree_inner t subtree_depth root =
      if subtree_depth == 0
      then (t, err zero_depth)
      else if not (leaves t % 2 ^ (subtree_depth - 1) == 0)
      then (t, err not_aligned)
      else (record t { layers = push_subtree (subtree_depth - 1) root t.layers }, ok tt)

  pub append_subtree :
      AppendMerkleTree E → ℕ → E → Run (AppendMerkleTree E × Result MerkleError (Unit {0}))
  append_subtree t subtree_depth root =
      let start_index = leaves t in
      let (t', r) = append_subtree_inner t subtree_depth root in
      elim r [
        | err e ↦ ret (t', err e)
        | ok u ↦ recompute alg t' start_index none >>= λ t''. ret (t'', ok tt)
      ]

  -- The loop of `append_subtree_list`, up to the first error.
  pub append_inner_list :
      AppendMerkleTree E → List (ℕ × E) → AppendMerkleTree E × Result MerkleError (Unit {0})
  append_inner_list t [] = (t, ok tt)
  append_inner_list t ((depth, root) ∷ rest) =
      let (t', r) = append_subtree_inner t depth root in
      let more = append_inner_list t' rest in elim r [ err e ↦ (t', err e) | ok u ↦ more ]

  pub append_subtree_list :
      AppendMerkleTree E → List (ℕ × E) → Run (AppendMerkleTree E × Result MerkleError (Unit {0}))
  append_subtree_list t subtree_list =
      let start_index = leaves t in
      let (t', r) = append_inner_list t subtree_list in
      elim r [
        | err e ↦ ret (t', err e)
        | ok u ↦ recompute alg t' start_index none >>= λ t''. ret (t'', ok tt)
      ]

  -- `new_with_subtrees`.
  pub new_with_subtrees :
      List (ℕ × E) → ℕ → Option ℕ → Run (Result MerkleError (AppendMerkleTree E))
  new_with_subtrees subtree_root_list leaf_height start_tx_seq =
      let t = bare ([] ∷ []) none leaf_height in
      elim subtree_root_list [
        | [] ↦ ret (ok (save_empty t start_tx_seq))
        | s ∷ ss ↦ append_subtree_list t (s ∷ ss) >>= λ q. elim q.1 [
          | err e ↦ ret (err e)
          | ok u ↦ commit alg q.0 start_tx_seq >>= λ t'. ret (ok t')
        ]
      ]

  -- An unknown leaf is `none`.
  pub leaf_at : AppendMerkleTree E → ℕ → Result MerkleError (Option E)
  leaf_at t position = elim (get_elem? (leaf_layer t) position) [
    | none ↦ err out_of_bound
    | some e ↦ if is_null alg e then ok none else ok (some e)
  ]
