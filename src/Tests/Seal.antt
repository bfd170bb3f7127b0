-- ===== src/Tests/Seal.antt =====
-- Sealing of common/ionian_seal with a toy hash.
use ionian_rust.Base.{ℕ, ◌+◌, ◌*◌, ◌%◌, take, ◌≡◌, refl, List, replicate, length, map, ret}
use ionian_rust.Seal.{seal, unseal}
use ionian_rust.Seal.Inverse

-- The first 32 bytes of the input, mixed.
abbrev toy : List ℕ → List ℕ
toy bytes = map (λ x. (x * 5 + 7) % 256) (take 32 bytes)

abbrev file : List ℕ
file = replicate 64 200

abbrev id : List ℕ
id = replicate 32 17

unseal-seal_example :
    (sealed : List ℕ) × (seal toy file id id 1024 ≡ ret sealed)
    × (length sealed ≡ length file)
    × (unseal toy sealed id id 1024 ≡ ret file)
unseal-seal_example = Inverse.unseal-seal toy file id id 1024 refl
