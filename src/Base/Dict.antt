-- ===== src/Base/Dict.antt =====
-- A `HashMap` as an association list: `get`, `insert` in place, `remove`.
use Prim.Native.Nat.{ℕ, ◌+◌, ◌≤◌, ◌<◌}
use mathlib.Core.Path.{◌≡◌, refl}
use mathlib.Core.Logic.{ite}
use mathlib.Core.List.{List, [], ◌∷◌}
use mathlib.Core.Option.{Option, none, some}
use native.Mathlib.Omega.{arith}
use ionian_rust.Base.Lists.{length}

abbrev pub Dict : Type 0 → Type 0 → Type 0
Dict K V = List (K × V)

-- What an absent entry counts for is nothing.
abbrev pub weight_of : {V : Type 0} → (V → ℕ) → Option V → ℕ
weight_of f none = 0
weight_of f (some v) = f v

-- The sum of a weight over the entries.
abbrev pub total : {K V : Type 0} → (V → ℕ) → Dict K V → ℕ
total f [] = 0
total f ((k, v) ∷ m) = f v + total f m

module _ {K V : Type 0} (dec : Discrete K) where
  unfoldable pub get : K → Dict K V → Option V
  get k [] = none
  get k ((j, v) ∷ m) = ite (dec j k) (some v) (get k m)

  unfoldable pub insert : K → V → Dict K V → Dict K V
  insert k v [] = (k, v) ∷ []
  insert k v ((j, w) ∷ m) = ite (dec j k) ((k, v) ∷ m) ((j, w) ∷ insert k v m)

  unfoldable pub remove : K → Dict K V → Dict K V
  remove k [] = []
  remove k ((j, v) ∷ m) = ite (dec j k) (remove k m) ((j, v) ∷ remove k m)

  -- No key twice.
  abbrev pub Distinct : Dict K V → Type 0
  Distinct [] = Unit {0}
  Distinct ((k, v) ∷ m) = (get k m ≡ none) × Distinct m

  pub get-insert :
      (k j : K) (v : V) (m : Dict K V) → get j (insert k v m) ≡ ite (dec k j) (some v) (get j m)
  unfolding get insert
  get-insert k j v [] = refl
  get-insert k j v ((i, w) ∷ m) = ground (arith, get-insert k j v m)

  pub get-remove : (k j : K) (m : Dict K V) → get j (remove k m) ≡ ite (dec k j) none (get j m)
  unfolding get remove
  get-remove k j [] = ground arith
  get-remove k j ((i, w) ∷ m) = ground (arith, get-remove k j m)

  pub remove_absent : (k : K) (m : Dict K V) → get k m ≡ none → remove k m ≡ m
  unfolding get remove
  remove_absent k [] h = refl
  remove_absent k ((j, w) ∷ m) h = ground (arith, remove_absent k m)

  pub insert-Distinct : (k : K) (v : V) (m : Dict K V) → Distinct m → Distinct (insert k v m)
  unfolding insert get
  insert-Distinct k v [] d = (refl, tt)
  insert-Distinct k v ((j, w) ∷ m) d = ground (arith, insert-Distinct k v m d.1, get-insert k j v m)

  pub remove-Distinct : (k : K) (m : Dict K V) → Distinct m → Distinct (remove k m)
  unfolding remove
  remove-Distinct k [] d = tt
  remove-Distinct k ((j, w) ∷ m) d = ground (arith, remove-Distinct k m d.1, get-remove k j m)

  pub total-insert :
      (f : V → ℕ) (k : K) (v : V) (m : Dict K V)
      → total f (insert k v m) + weight_of f (get k m) ≡ total f m + f v
  unfolding get insert
  total-insert f k v [] = omega arith
  total-insert f k v ((j, w) ∷ m) = ground (arith, total-insert f k v m)

  pub total-remove :
      (f : V → ℕ) (k : K) (m : Dict K V)
      → Distinct m
      → total f (remove k m) + weight_of f (get k m) ≡ total f m
  unfolding get remove
  total-remove f k [] d = omega arith
  total-remove f k ((j, w) ∷ m) d = ground (arith, total-remove f k m d.1, remove_absent k m)

  pub weight-le-total : (f : V → ℕ) (k : K) (m : Dict K V) → weight_of f (get k m) ≤ total f m
  unfolding get
  weight-le-total f k [] = omega arith
  weight-le-total f k ((j, w) ∷ m) = ground (arith, weight-le-total f k m)

  pub length-remove_le : (k : K) (m : Dict K V) → length (remove k m) ≤ length m
  unfolding remove
  length-remove_le k [] = omega arith
  length-remove_le k ((j, w) ∷ m) = ground (arith, length-remove_le k m)

  pub length-remove :
      (k : K) (m : Dict K V) (v : V) → get k m ≡ some v → length (remove k m) < length m
  unfolding get remove
  length-remove k [] v h = ground arith
  length-remove k ((j, w) ∷ m) v h = ground (arith, length-remove k m v, length-remove_le k m)
