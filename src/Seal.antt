-- ===== src/Seal.antt =====
-- common/ionian_seal/src/lib.rs: data is sealed word by word, each word masked by the hash of the
-- sealed word before it. Bytes are numbers, and the hash function (Keccak-256) is a parameter.
pub mod Inverse
pub mod Windows
use ionian_rust.Base.{
  ℕ, zero, suc, ◌%◌, ◌/◌, ◌^◌, ◌*◌, ◌-◌, List, [], ◌∷◌, ◌++◌, ◌==◌, length, take, drop, replicate,
  bit_xor, Run, ret, panic, ◌>>◌, ◌>>=◌, assert,
}

-- The loop over a word zipped with the mask: bytes behind the end of the mask stay.
abbrev pub mask_word : List ℕ → List ℕ → List ℕ
mask_word [] mask = []
mask_word (x ∷ word) [] = x ∷ word
mask_word (x ∷ word) (y ∷ mask) = bit_xor x y ∷ mask_word word mask

-- The eight bytes of a number, the highest first (`to_be_bytes`).
abbrev pub be_bytes : ℕ → ℕ → List ℕ
be_bytes zero n = []
be_bytes (suc k) n = (n / 2 ^ (8 * k)) % 256 ∷ be_bytes k n

pub compute_first_mask_seed : List ℕ → List ℕ → ℕ → List ℕ
compute_first_mask_seed miner_id context_digest start_sector =
    miner_id ++ context_digest ++ replicate 24 0 ++ be_bytes 8 start_sector

module _ (keccak : List ℕ → List ℕ) where
  -- The loop of `seal_with_mask` over `fuel` words at most.
  unfoldable pub seal_words : ℕ → List ℕ → List ℕ → List ℕ
  seal_words zero mask bytes = []
  seal_words (suc fuel) mask bytes =
      let word = mask_word (take 32 bytes) mask in
      word ++ seal_words fuel (keccak word) (drop 32 bytes)

  pub unseal_words : ℕ → List ℕ → List ℕ → List ℕ
  unseal_words zero mask bytes = []
  unseal_words (suc fuel) mask bytes =
      mask_word (take 32 bytes) mask ++ unseal_words fuel (keccak (take 32 bytes)) (drop 32 bytes)

  -- There are as many words as 32 goes into the length.
  unfoldable pub seal_with_mask : List ℕ → List ℕ → Run (List ℕ)
  unfolding seal_words
  seal_with_mask bytes first_mask = do
    assert (length bytes % 32 == 0)
    ret (seal_words (length bytes / 32) first_mask bytes)

  pub unseal_with_mask : List ℕ → List ℕ → Run (List ℕ)
  unfolding unseal_words
  unseal_with_mask bytes first_mask = do
    assert (length bytes % 32 == 0)
    ret (unseal_words (length bytes / 32) first_mask bytes)

  unfoldable pub seal_with_mask_seed : List ℕ → List ℕ → Run (List ℕ)
  seal_with_mask_seed bytes seed = seal_with_mask bytes (keccak seed)

  pub unseal_with_mask_seed : List ℕ → List ℕ → Run (List ℕ)
  unseal_with_mask_seed bytes seed = unseal_with_mask bytes (keccak seed)

  unfoldable pub seal : List ℕ → List ℕ → List ℕ → ℕ → Run (List ℕ)
  seal bytes miner_id context_digest start_sector =
      seal_with_mask_seed bytes (compute_first_mask_seed miner_id context_digest start_sector)

  pub unseal : List ℕ → List ℕ → List ℕ → ℕ → Run (List ℕ)
  unseal bytes miner_id context_digest start_sector =
      unseal_with_mask_seed bytes (compute_first_mask_seed miner_id context_digest start_sector)
