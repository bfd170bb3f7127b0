-- ===== src/Seal/Windows.antt =====
-- Unsealing a part of the data in common/ionian_seal/src/lib.rs, with the sealed word before it.
use ionian_rust.Base.{
  ℕ, zero, suc, ◌+◌, ◌*◌, ◌%◌, ◌/◌, ◌≤◌, ◌≡◌, refl, ap, sym, subst, Bool, true, false, ◌==◌, assert,
  ◌>>◌, ◌-◌, ◌∙◌, List, [], ◌∷◌, ◌++◌, length, take, drop, ret, arith, length-take, length-drop,
  drop-drop, take-take, take-drop,
}
use ionian_rust.Seal.{
  mask_word, compute_first_mask_seed, seal_words, seal_with_mask, unseal_with_mask,
  seal_with_mask_seed, unseal_with_mask_seed, seal,
}
use ionian_rust.Seal.Inverse.{
  take-append, drop-append, length-mask_word, length-seal_words, unseal_words-seal_words,
}

asserted : (b : Bool) (x y : List ℕ) → (assert b >> ret x) ≡ ret y → x ≡ y
asserted true x y h = cc h
asserted false x y h = absurd (cc h)

drop_past : (n i j : ℕ) (xs ys : List ℕ) → length xs ≡ n → n + j ≡ i → drop i (xs ++ ys) ≡ drop j ys
drop_past n i j xs ys h e = sym (drop-drop j n i (xs ++ ys) e) ∙ ap (drop j) (drop-append n xs ys h)

take_past :
    (n i j : ℕ) (xs ys : List ℕ) → length xs ≡ n → n + j ≡ i → take i (xs ++ ys) ≡ xs ++ take j ys
take_past zero i j [] ys h e = let q : j ≡ i = omega arith in rw q refl
take_past zero i j (x ∷ xs) ys h e = absurd (omega arith)
take_past (suc n) i j [] ys h e = absurd (omega arith)
take_past (suc n) zero j (x ∷ xs) ys h e = absurd (omega arith)
take_past (suc n) (suc i) j (x ∷ xs) ys h e =
    ap (◌∷◌ x) (take_past n i j xs ys (omega arith) (omega arith))

module _ (keccak : List ℕ → List ℕ) where
  -- The first words of what is sealed are the first words sealed.
  take-seal_words :
      (m n : ℕ) (mask bytes : List ℕ)
      → m ≤ n
      → length bytes ≡ n * 32
      → take (m * 32) (seal_words keccak n mask bytes)
        ≡ seal_words keccak m mask (take (m * 32) bytes)
  unfolding seal_words
  take-seal_words zero n mask bytes h l = refl
  take-seal_words (suc m) zero mask bytes h l = absurd (omega arith)
  take-seal_words (suc m) (suc n) mask bytes h l =
      let word = mask_word (take 32 bytes) mask in
      let rest = seal_words keccak n (keccak word) (drop 32 bytes) in
      let len : length word ≡ 32 =
        omega (arith, length-mask_word (take 32 bytes) mask, length-take 32 bytes) in
      rw
        (
          take_past 32 (suc m * 32) (m * 32) word rest len (omega arith),
          take-take 32 (suc m * 32) bytes (omega arith),
          take-drop 32 (suc m * 32) (m * 32) bytes (omega arith),
        )
        (ap (◌++◌ word) (
          take-seal_words m n (keccak word) (drop 32 bytes) (omega arith)
            (omega (arith, length-drop 32 bytes))))

  -- What is sealed behind a word is sealed with the hash of that sealed word.
  drop-seal_words :
      (k n r : ℕ) (mask bytes : List ℕ)
      → n ≡ k + r
      → length bytes ≡ suc n * 32
      → drop (k * 32 + 32) (seal_words keccak (suc n) mask bytes)
        ≡ seal_words keccak r
            (keccak (take 32 (drop (k * 32) (seal_words keccak (suc n) mask bytes))))
            (drop (k * 32 + 32) bytes)
  unfolding seal_words
  drop-seal_words zero n r mask bytes e l =
      let word = mask_word (take 32 bytes) mask in
      let rest = seal_words keccak n (keccak word) (drop 32 bytes) in
      let len : length word ≡ 32 =
        omega (arith, length-mask_word (take 32 bytes) mask, length-take 32 bytes) in
      let q : n ≡ r = omega arith in
      rw (drop-append 32 word rest len, take-append 32 word rest len, q)
  drop-seal_words (suc k) zero r mask bytes e l = absurd (omega arith)
  drop-seal_words (suc k) (suc n) r mask bytes e l =
      let word = mask_word (take 32 bytes) mask in
      let rest = seal_words keccak (suc n) (keccak word) (drop 32 bytes) in
      let len : length word ≡ 32 =
        omega (arith, length-mask_word (take 32 bytes) mask, length-take 32 bytes) in
      rw
        (
          drop_past 32 (suc k * 32 + 32) (k * 32 + 32) word rest len (omega arith),
          drop_past 32 (suc k * 32) (k * 32) word rest len (omega arith),
          sym (drop-drop (k * 32 + 32) 32 (suc k * 32 + 32) bytes (omega arith)),
        )
        (drop-seal_words k n r (keccak word) (drop 32 bytes) (omega arith)
          (omega (arith, length-drop 32 bytes)))

  window_words :
      (n k m : ℕ) (mask bytes : List ℕ)
      → length bytes ≡ suc n * 32
      → k + m ≤ n
      → unseal_with_mask_seed keccak
          (take (m * 32) (drop (k * 32 + 32) (seal_words keccak (suc n) mask bytes)))
          (take 32 (drop (k * 32) (seal_words keccak (suc n) mask bytes)))
        ≡ ret (take (m * 32) (drop (k * 32 + 32) bytes))
  unfolding unseal_with_mask_seed unseal_with_mask
  window_words n k m mask bytes l h =
      let seed = take 32 (drop (k * 32) (seal_words keccak (suc n) mask bytes)) in
      let window = take (m * 32) (drop (k * 32 + 32) bytes) in
      let len : length window ≡ m * 32 = omega (
        arith,
        length-take (m * 32) (drop (k * 32 + 32) bytes),
        length-drop (k * 32 + 32) bytes,
        l,
        h,
      ) in
      let words : length (seal_words keccak m (keccak seed) window) ≡ m * 32 =
        length-seal_words keccak m (keccak seed) window len ∙ len in
      let even : (length (seal_words keccak m (keccak seed) window) % 32 == 0) ≡ true =
        ground (arith, words) in
      let count : length (seal_words keccak m (keccak seed) window) / 32 ≡ m =
        omega (arith, words) in
      rw
        (
          drop-seal_words k n (n - k) mask bytes (omega (arith, h)) l,
          take-seal_words m (n - k) (keccak seed) (drop (k * 32 + 32) bytes) (omega (arith, h))
              (omega (arith, length-drop (k * 32 + 32) bytes, l, h)),
          even,
          count,
        )
        (ap ret (unseal_words-seal_words keccak m (keccak seed) window len))

  -- A window of `m` words of sealed data behind the word at `k` is unsealed to that window of the
  -- data, with the sealed word as the seed.
  pub unseal-window :
      (bytes sealed miner_id context_digest : List ℕ) (start_sector k m : ℕ)
      → length bytes % 32 ≡ 0
      → seal keccak bytes miner_id context_digest start_sector ≡ ret sealed
      → k * 32 + 32 + m * 32 ≤ length bytes
      → unseal_with_mask_seed keccak
          (take (m * 32) (drop (k * 32 + 32) sealed))
          (take 32 (drop (k * 32) sealed))
        ≡ ret (take (m * 32) (drop (k * 32 + 32) bytes))
  unfolding seal seal_with_mask_seed unseal_with_mask_seed seal_with_mask unseal_with_mask
  unseal-window bytes sealed miner context sector k m h run fits =
      subst
        (λ s.
          unseal_with_mask_seed keccak (take (m * 32) (drop (k * 32 + 32) s))
            (take 32 (drop (k * 32) s))
          ≡ ret (take (m * 32) (drop (k * 32 + 32) bytes)))
        same
        (window_words (length bytes / 32 - 1) k m mask bytes (omega (arith, h, fits))
          (omega (arith, h, fits)))
    where
      mask : List ℕ
      mask = keccak (compute_first_mask_seed miner context sector)

      count : length bytes / 32 ≡ suc (length bytes / 32 - 1)
      count = omega (arith, h, fits)

      same : seal_words keccak (suc (length bytes / 32 - 1)) mask bytes ≡ sealed
      same = subst (λ n. seal_words keccak n mask bytes ≡ sealed) count (asserted _ _ _ run)
