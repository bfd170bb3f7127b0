-- ===== src/AppendMerkle/Versions.antt =====
-- The versions of `AppendMerkleTree` in common/append_merkle/src/lib.rs: `commit`, `revert_to`,
-- and reading an old version.
use ionian_rust.Base.{
  ℕ, zero, suc, ◌+◌, ◌-◌, Bool, if◌then◌else◌, Option, none, some, List, [], ◌∷◌, ltb, leb, ◌==◌,
  is_some, Run, ret, panic, ◌>>=◌, ◌>>◌, assert, unwrap, Result, ok, err, length, get_elem?, set,
  take, replicate, ℕ_discrete,
}
use ionian_rust.Base.Dict
use ionian_rust.AppendMerkle.{Algorithm, AppendMerkleTree, DeltaNodes, same}

pub data VersionError : Type 0 where
  tx_seq_unavailable old_root_unavailable empty_tree out_of_tree_range : VersionError

module _ {E : Type 0} where
  -- `layer.last()`.
  abbrev pub last : List E → Option E
  last [] = none
  last (x ∷ []) = some x
  last (x ∷ y ∷ xs) = last (y ∷ xs)

  -- The version without a node.
  pub save_empty : AppendMerkleTree E → Option ℕ → AppendMerkleTree E
  save_empty t none = t
  save_empty t (some seq) = record t {
    delta_nodes_map =
        Dict.insert ℕ_discrete seq (record { right_most_nodes = [] }) t.delta_nodes_map;
  }

  -- The loop of `commit` over the layers; an empty layer panics.
  pub right_most : List (List E) → Run (List (ℕ × E))
  right_most [] = ret []
  right_most (l ∷ ls) =
      let rest = right_most ls in
      unwrap (last l) >>= λ x. rest >>= λ nodes. ret ((length l - 1, x) ∷ nodes)

  abbrev pub last_node : List (ℕ × E) → Option E
  last_node [] = none
  last_node ((i, x) ∷ []) = some x
  last_node (m ∷ n ∷ ns) = last_node (n ∷ ns)

  -- `root()`: the first node of the top layer.
  abbrev pub root : List (List E) → Option E
  root [] = none
  root (l ∷ []) = get_elem? l 0
  root (l ∷ m ∷ ls) = root (m ∷ ls)

  -- The loop of `revert_to`: each layer is cut behind its old right-most node.
  pub restore : List (List E) → List (ℕ × E) → Run (List (List E))
  restore [] [] = ret []
  restore (l ∷ ls) [] = ret []
  restore [] (n ∷ ns) = panic
  restore (l ∷ ls) ((i, x) ∷ ns) =
      let rest = restore ls ns in
      if leb (length l) i then panic else rest >>= λ ms. ret (set (take (i + 1) l) i x ∷ ms)

module _ {E : Type 0} (alg : Algorithm E) where
  pub commit : AppendMerkleTree E → Option ℕ → Run (AppendMerkleTree E)
  unfolding save_empty right_most
  commit t none = ret t
  commit t (some seq) = elim (t.layers) [
    | [] ↦ panic
    | [] ∷ ls ↦ ret (save_empty t (some seq))
    | (x ∷ xs) ∷ ls ↦ do
      nodes ← right_most ((x ∷ xs) ∷ ls)
      r ← unwrap (root ((x ∷ xs) ∷ ls))
      n ← unwrap (last_node nodes)
      assert (same alg r n)
      ret (record t {
        delta_nodes_map =
            Dict.insert ℕ_discrete seq (record { right_most_nodes = nodes }) t.delta_nodes_map;
        root_to_tx_seq_map = Dict.insert alg.eq r seq t.root_to_tx_seq_map;
      })
  ]

  abbrev pub check_root : AppendMerkleTree E → E → Bool
  check_root t r = is_some (Dict.get alg.eq r t.root_to_tx_seq_map)

  -- The loop of `clear_after`, from the sequence number `seq`.
  pub clear_from : ℕ → ℕ → AppendMerkleTree E → AppendMerkleTree E
  clear_from zero seq t = t
  clear_from (suc fuel) seq t = elim (Dict.get ℕ_discrete seq t.delta_nodes_map) [
    | none ↦ t
    | some nodes ↦ clear_from fuel (seq + 1) (record t {
      delta_nodes_map = Dict.remove ℕ_discrete seq t.delta_nodes_map;
      root_to_tx_seq_map = elim (last_node nodes.right_most_nodes) [
        | none ↦ t.root_to_tx_seq_map
        | some r ↦ Dict.remove alg.eq r t.root_to_tx_seq_map
      ];
    })
  ]

  -- Each round takes a version away, so there are at most as many rounds as versions.
  pub clear_after : AppendMerkleTree E → ℕ → AppendMerkleTree E
  unfolding clear_from
  clear_after t tx_seq = clear_from (length t.delta_nodes_map) (tx_seq + 1) t

  pub revert_to : AppendMerkleTree E → ℕ → Run (AppendMerkleTree E × Result VersionError (Unit {0}))
  unfolding restore
  revert_to t tx_seq = elim (t.layers) [
    | [] ↦ panic
    | [] ∷ ls ↦ ret (t, ok tt)
    | (x ∷ xs) ∷ ls ↦ elim (Dict.get ℕ_discrete tx_seq t.delta_nodes_map) [
      | none ↦ ret (t, err tx_seq_unavailable)
      | some nodes ↦ do
        layers ← restore ((x ∷ xs) ∷ ls) nodes.right_most_nodes
        ret (clear_after (record t { layers = layers }) tx_seq, ok tt)
    ]
  ]

  pub reset : AppendMerkleTree E → AppendMerkleTree E
  reset t = record t {
    layers = elim (t.min_depth) [ none ↦ [] ∷ [] | some depth ↦ replicate depth [] ];
  }

  -- `at_root_version`: the nodes that differ in the version of a root.
  pub at_root_version : AppendMerkleTree E → E → Result VersionError (DeltaNodes E)
  at_root_version t root_hash = elim (Dict.get alg.eq root_hash t.root_to_tx_seq_map) [
    | none ↦ err old_root_unavailable
    | some seq ↦ elim (Dict.get ℕ_discrete seq t.delta_nodes_map) [
      | none ↦ err tx_seq_unavailable
      | some nodes ↦ if length nodes.right_most_nodes == 0 then err empty_tree else ok nodes
    ]
  ]

  -- `DeltaNodes::get`: `none` where the node is that of the current tree.
  pub delta_get : DeltaNodes E → ℕ → ℕ → Result VersionError (Option E)
  delta_get d height position = elim (get_elem? d.right_most_nodes height) [
    | none ↦ err out_of_tree_range
    | some (i, x) ↦
        if ltb i position
        then err out_of_tree_range
        else if position == i
        then ok (some x)
        else ok none
  ]

  -- `HistoryTree::node`.
  pub history_node : List (List E) → DeltaNodes E → ℕ → ℕ → Run E
  unfolding delta_get
  history_node layers d layer index = elim (delta_get d layer index) [
    | err e ↦ panic
    | ok (some x) ↦ ret x
    | ok none ↦ unwrap (get_elem? layers layer) >>= λ l. unwrap (get_elem? l index)
  ]
