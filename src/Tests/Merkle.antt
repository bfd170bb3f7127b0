-- ===== src/Tests/Merkle.antt =====
-- The Merkle tree of common/append_merkle, over a toy hash of numbers.
use ionian_rust.Base.{
  ℕ, suc, ◌+◌, ◌*◌, ◌≡◌, ◌≢◌, refl, [], ◌∷◌, none, some, ret, ok, arith, ℕ_discrete,
}
use ionian_rust.AppendMerkle.{Algorithm, AppendMerkleTree}
use ionian_rust.AppendMerkle.Versions.{last, root}
use ionian_rust.AppendMerkle.Tree.{append_list, update_last, bare}
use ionian_rust.AppendMerkle.Tree.Appends
use ionian_rust.AppendMerkle.Tree.Appends.{IsValid, Rebuilt}
use ionian_rust.AppendMerkle.Proof.{Proof, gen_proof, read_tree, validate}
use ionian_rust.AppendMerkle.Proof.RoundTrip

abbrev toy : Algorithm ℕ
toy = record {
  parent = λ a b. suc (3 * a + 5 * b);
  end_pad = λ h. 100 + h;
  null = 0;
  eq = ℕ_discrete;
}

toy_hash : (a b : ℕ) → toy.parent a b ≢ toy.null
toy_hash a b = λ e. omega arith

-- The tree of the leaves 1, 2, 3.
abbrev three : AppendMerkleTree ℕ
three = bare ((1 ∷ 2 ∷ 3 ∷ []) ∷ (14 ∷ 510 ∷ []) ∷ (2593 ∷ []) ∷ []) none 0

three-IsValid : IsValid toy three
three-IsValid = record { tower = (refl, (refl, omega arith)); known = omega arith }

append_list-IsValid_example :
    Rebuilt toy three (1 ∷ 2 ∷ 3 ∷ 4 ∷ 5 ∷ []) (append_list toy three (4 ∷ 5 ∷ []))
append_list-IsValid_example =
    Appends.append_list-IsValid toy toy_hash three three-IsValid (4 ∷ 5 ∷ []) (omega arith)

update_last-IsValid_example : Rebuilt toy three (1 ∷ 2 ∷ 9 ∷ []) (update_last toy three 9)
update_last-IsValid_example =
    Appends.update_last-IsValid toy toy_hash three three-IsValid 9 (λ e. omega arith)

gen_proof-validate_example :
    (p : Proof ℕ) × (y : ℕ) × (gen_proof toy (read_tree toy three) 2 ≡ ret (ok p))
    × (validate toy p 3 2 ≡ ret (ok tt))
    × (root three.layers ≡ some y)
    × (last p.lemma ≡ some y)
gen_proof-validate_example =
    RoundTrip.gen_proof-validate toy three 2 3 three-IsValid refl (λ e. omega arith)
