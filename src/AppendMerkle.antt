-- ===== src/AppendMerkle.antt =====
-- common/append_merkle/src/lib.rs and merkle_tree.rs: the append-only Merkle tree, over any hash.
-- `layers` has the leaves first. The traits `HashElement` and `Algorithm` are a parameter.
pub mod Proof
pub mod Parents
pub mod Recompute
pub mod Tree
pub mod Versions
use ionian_rust.Base.{
  ℕ, zero, suc, ◌+◌, ◌-◌, ◌/◌, ◌%◌, ◌^◌, Bool, true, false, ◌&&◌, ◌||◌, not, if◌then◌else◌, Option,
  none, some, List, [], ◌∷◌, ◌++◌, ltb, leb, ◌==◌, is_some, Run, ret, panic, ◌>>=◌, ◌>>◌, assert,
  unwrap, Result, ok, err, length, get_elem?, set, take, drop, replicate, ℕ_discrete, ite,
}
use ionian_rust.Base.Dict
use ionian_rust.Base.Dict.{Dict}

-- `HashElement` and `Algorithm`: `end_pad` is the hash of a padding subtree of a height, `null` an
-- unknown node.
pub record Algorithm (E : Type 0) : Type 0 where
  pub parent : E → E → E
  pub end_pad : ℕ → E
  pub null : E
  pub eq : Discrete E

-- The right-most node of each layer of a committed version, with its position.
pub record DeltaNodes (E : Type 0) : Type 0 where
  pub right_most_nodes : List (ℕ × E)

pub record AppendMerkleTree (E : Type 0) : Type 0 where
  pub layers : List (List E)
  pub delta_nodes_map : Dict ℕ (DeltaNodes E)
  pub root_to_tx_seq_map : Dict E ℕ
  pub min_depth : Option ℕ
  pub leaf_height : ℕ

-- The end of the range to recompute in a layer of `n` nodes.
abbrev pub end_of : Option ℕ → ℕ → ℕ
end_of none n = n
end_of (some e) n = if e % 2 == 1 && not (e == n) then e + 1 else e

-- `last_changed_parent_index.map(|i| i + 1)`.
abbrev pub next_end : Option ℕ → Option ℕ
next_end none = none
next_end (some i) = some (i + 1)

module _ {E : Type 0} where
  -- Enough rounds for any layers: one for each layer, and one for each node of the layers.
  abbrev pub rounds : List (List E) → ℕ
  rounds [] = 1
  rounds (l ∷ ls) = suc (length l + rounds ls)

module _ {E : Type 0} (alg : Algorithm E) where
  abbrev pub is_null : E → Bool
  is_null e = ite (alg.eq e alg.null) true false

  abbrev pub same : E → E → Bool
  same a b = ite (alg.eq a b) true false

  -- `parent` or `parent_single`, unless a child is unknown. `height` counts from real leaves.
  abbrev pub pair_parent : E → E → E
  pair_parent l r = if is_null l || is_null r then alg.null else alg.parent l r

  abbrev pub single_parent : ℕ → E → E
  single_parent height r = if is_null r then alg.null else alg.parent r (alg.end_pad height)

  -- The loop over `chunks_exact(2)` and its remainder.
  pub chunk_parents : ℕ → List E → List E
  chunk_parents height [] = []
  chunk_parents height (r ∷ []) = single_parent height r ∷ []
  chunk_parents height (l ∷ r ∷ rest) = pair_parent l r ∷ chunk_parents height rest

  -- `parent_update`: the new nodes with their positions.
  pub numbered : ℕ → List E → List (ℕ × E)
  numbered i [] = []
  numbered i (p ∷ ps) = (i, p) ∷ numbered (i + 1) ps

  -- Whether an overwrite would change a known node before the last one.
  abbrev pub is_invalid : List E → ℕ → E → Bool
  is_invalid upper i p = elim (get_elem? upper i) [
    | none ↦ false
    | some old ↦ not (is_null old) && (not (same old p) && not (i == length upper - 1))
  ]

  -- The loop over `parent_update`: the parent layer, and the last position that changed.
  pub apply_updates : List E → List (ℕ × E) → Option ℕ → Run (List E × Option ℕ)
  apply_updates upper [] last = ret (upper, last)
  apply_updates upper ((i, p) ∷ us) last = elim (ltb i (length upper)) [
    | true ↦ elim (is_null p) [
      | true ↦ apply_updates upper us last
      | false ↦ elim (is_invalid upper i p) [
        | true ↦ panic
        | false ↦ apply_updates (set upper i p) us (some i)
      ]
    ]
    | false ↦ elim (i == length upper) [
      | true ↦ apply_updates (upper ++ p ∷ []) us (some i)
      | false ↦ panic
    ]
  ]

  -- `layer[start..end]`.
  pub slice : List E → ℕ → ℕ → Run (List E)
  slice xs a b = if leb a b && leb b (length xs) then ret (take (b - a) (drop a xs)) else panic

  -- One round of `recompute` on the layer `cur` at `height` and the one above it, which is new
  -- where `uppers` is empty.
  pub recompute_layer : ℕ → ℕ → Option ℕ → List E → List E → Run (List E × Option ℕ)
  unfolding chunk_parents numbered apply_updates slice
  recompute_layer height start maybe_end cur upper = do
    nodes ← slice cur (start - start % 2) (end_of maybe_end (length cur))
    apply_updates upper (numbered (start / 2) (chunk_parents height nodes)) none

  -- The loop of `recompute`, from the layer at `height` up; each round goes one layer up. A range
  -- with no node to update adds no layer.
  pub recompute_from : ℕ → ℕ → ℕ → Option ℕ → List E → List (List E) → Run (List (List E))
  recompute_from zero height start maybe_end cur uppers = panic
  recompute_from (suc fuel) height start maybe_end cur [] = elim (ltb 1 (length cur)) [
    | false ↦ ret (cur ∷ [])
    | true ↦ recompute_layer height start maybe_end cur [] >>= λ q. elim q.1 [
      | none ↦ panic
      | some i ↦ recompute_from fuel (height + 1) (start / 2) (some (i + 1)) q.0 [] >>= λ ls.
          ret (cur ∷ ls)
    ]
  ]
  recompute_from (suc fuel) height start maybe_end cur (up ∷ uppers) =
      recompute_layer height start maybe_end cur up >>= λ q.
      recompute_from fuel (height + 1) (start / 2) (next_end q.1) q.0 uppers >>= λ ls.
      ret (cur ∷ ls)

  pub recompute : AppendMerkleTree E → ℕ → Option ℕ → Run (AppendMerkleTree E)
  recompute t start maybe_end = elim (t.layers) [
    | [] ↦ panic
    | cur ∷ uppers ↦ do
      layers ← recompute_from (rounds t.layers) t.leaf_height start maybe_end cur uppers
      ret (record t { layers = layers })
  ]
