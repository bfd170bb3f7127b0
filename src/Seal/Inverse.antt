-- ===== src/Seal/Inverse.antt =====
-- Unsealing is the inverse of sealing in common/ionian_seal/src/lib.rs.
use ionian_rust.Base.{
  ℕ, zero, suc, ◌*◌, ◌%◌, ◌/◌, ◌≡◌, refl, ap, List, [], ◌∷◌, ◌++◌, length, take, drop, ret, arith,
  length-append, length-take, length-drop, take-append-drop, xor_inverse,
}
use ionian_rust.Seal.{
  mask_word, compute_first_mask_seed, seal_words, unseal_words, seal_with_mask, unseal_with_mask,
  seal_with_mask_seed, unseal_with_mask_seed, seal, unseal,
}

mask_word-mask_word : (word mask : List ℕ) → mask_word (mask_word word mask) mask ≡ word
mask_word-mask_word [] mask = refl
mask_word-mask_word (x ∷ word) [] = refl
mask_word-mask_word (x ∷ word) (y ∷ mask) = cc (xor_inverse x y, mask_word-mask_word word mask)

pub length-mask_word : (word mask : List ℕ) → length (mask_word word mask) ≡ length word
length-mask_word [] mask = refl
length-mask_word (x ∷ word) [] = refl
length-mask_word (x ∷ word) (y ∷ mask) = omega (arith, length-mask_word word mask)

pub take-append : (n : ℕ) (xs ys : List ℕ) → length xs ≡ n → take n (xs ++ ys) ≡ xs
take-append zero [] ys h = refl
take-append zero (x ∷ xs) ys h = absurd (omega arith)
take-append (suc n) [] ys h = absurd (omega arith)
take-append (suc n) (x ∷ xs) ys h = ap (λ l. x ∷ l) (take-append n xs ys (omega arith))

pub drop-append : (n : ℕ) (xs ys : List ℕ) → length xs ≡ n → drop n (xs ++ ys) ≡ ys
drop-append zero [] ys h = refl
drop-append zero (x ∷ xs) ys h = absurd (omega arith)
drop-append (suc n) [] ys h = absurd (omega arith)
drop-append (suc n) (x ∷ xs) ys h = drop-append n xs ys (omega arith)

module _ (keccak : List ℕ → List ℕ) where
  pub length-seal_words :
      (n : ℕ) (mask bytes : List ℕ)
      → length bytes ≡ n * 32
      → length (seal_words keccak n mask bytes) ≡ length bytes
  unfolding seal_words
  length-seal_words zero mask bytes h = omega arith
  length-seal_words (suc n) mask bytes h =
      let word = mask_word (take 32 bytes) mask in
      omega (
        arith,
        length-append word (seal_words keccak n (keccak word) (drop 32 bytes)),
        length-mask_word (take 32 bytes) mask,
        length-take 32 bytes,
        length-drop 32 bytes,
        length-seal_words n (keccak word) (drop 32 bytes) (omega (arith, length-drop 32 bytes)),
      )

  pub unseal_words-seal_words :
      (n : ℕ) (mask bytes : List ℕ)
      → length bytes ≡ n * 32
      → unseal_words keccak n mask (seal_words keccak n mask bytes) ≡ bytes
  unfolding seal_words unseal_words
  unseal_words-seal_words zero mask [] h = refl
  unseal_words-seal_words zero mask (x ∷ bytes) h = absurd (omega arith)
  unseal_words-seal_words (suc n) mask bytes h =
      let word = mask_word (take 32 bytes) mask in
      let rest = seal_words keccak n (keccak word) (drop 32 bytes) in
      let len : length word ≡ 32 =
        omega (arith, length-mask_word (take 32 bytes) mask, length-take 32 bytes) in
      let first : take 32 (word ++ rest) ≡ word = take-append 32 word rest len in
      let later : drop 32 (word ++ rest) ≡ rest = drop-append 32 word rest len in
      let ih =
        unseal_words-seal_words n (keccak word) (drop 32 bytes)
          (omega (arith, length-drop 32 bytes)) in
      rw (first, later)
        (rw (mask_word-mask_word (take 32 bytes) mask, ih) (take-append-drop 32 bytes))

  -- Data whose length is a multiple of 32 bytes is sealed without a panic into data of the same
  -- length, and unsealing that for the same miner, context and sector gives the data back, whatever
  -- the hash function.
  pub unseal-seal :
      (bytes miner_id context_digest : List ℕ) (start_sector : ℕ)
      → length bytes % 32 ≡ 0
      → (sealed : List ℕ) × (seal keccak bytes miner_id context_digest start_sector ≡ ret sealed)
        × (length sealed ≡ length bytes)
        × (unseal keccak sealed miner_id context_digest start_sector ≡ ret bytes)
  unfolding seal unseal seal_with_mask_seed unseal_with_mask_seed seal_with_mask unseal_with_mask
  unseal-seal bytes miner context sector h =
      let mask = keccak (compute_first_mask_seed miner context sector) in
      let n = length bytes / 32 in
      let whole : length bytes ≡ n * 32 = omega arith in
      let len = length-seal_words n mask bytes whole in
      (
        seal_words keccak n mask bytes,
        ground (arith, h),
        len,
        ground (arith, h, len, unseal_words-seal_words n mask bytes whole),
      )
