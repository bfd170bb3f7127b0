-- ===== src/Storage/EntryBatch/Reads.antt =====
-- `get_unsealed_data` of load_chunk/mod.rs.
use ionian_rust.Base.{
  ℕ, ◌+◌, ◌-◌, ◌*◌, ◌/◌, ◌%◌, ◌^◌, ◌≤◌, ◌<◌, ◌≡◌, refl, ap, ◌∙◌, inl, inr, true, false, Option,
  none, some, List, [], ◌∷◌, ◌++◌, ltb, ◌==◌, length, take, drop, length-take, take-take, take-drop,
  drop-drop, take-length, Bool-cases, Run, ret, panic, ◌>>=◌, arith,
}
use ionian_rust.Miner.{bytes_per_sector}
use ionian_rust.Seal
use ionian_rust.Seal.Windows
use ionian_rust.Storage.SealInfo.{SealInfo, is_sealed, global_seal_sector}
use ionian_rust.Storage.ChunkData
use ionian_rust.Storage.ChunkData.{sectors_per_seal}
use ionian_rust.Storage.ChunkData.Slices.{get-length}
use ionian_rust.Storage.EntryBatch.{
  EntryBatch, bytes_per_seal, unseal_first, unseal_rest, unseal_loaded, advanced_by_one,
  get_unsealed_data,
}

-- A read of at most one seal from its first sector gives the data as it is stored, whether the seal
-- is sealed or not.
pub get_unsealed_data_aligned :
    (keccak : List ℕ → List ℕ) (b : EntryBatch) (start_sector length_sector : ℕ)
    → start_sector % sectors_per_seal ≡ 0
    → length_sector ≤ sectors_per_seal
    → get_unsealed_data keccak b start_sector length_sector
      ≡ ChunkData.get b.batch_data
          (start_sector * bytes_per_sector)
          (length_sector * bytes_per_sector)
unfolding get_unsealed_data unseal_rest
get_unsealed_data_aligned keccak b start n h l = rw (aligned, here, there) (go _ refl)
  where
    aligned : (start % sectors_per_seal == 0) ≡ true
    aligned = ground (arith, h)

    here : start * bytes_per_sector - 0 ≡ start * bytes_per_sector
    here = omega arith

    there : n * bytes_per_sector + 0 ≡ n * bytes_per_sector
    there = omega arith

    go :
        (r : Run (Option (List ℕ)))
        → ChunkData.get b.batch_data (start * bytes_per_sector) (n * bytes_per_sector) ≡ r
        → (r >>= unseal_loaded keccak b.seal (start * bytes_per_sector) false) ≡ r
    go panic e = refl
    go (ret none) e = refl
    go (ret (some bytes)) e =
        let k : ltb (bytes_per_seal - start * bytes_per_sector % bytes_per_seal) (length bytes)
            ≡ false =
          ground (arith, h, l, get-length b.batch_data _ _ bytes e) in
        rw k refl

append_nil : (xs : List ℕ) → xs ++ [] ≡ xs
append_nil [] = refl
append_nil (x ∷ xs) = ap (◌∷◌ x) (append_nil xs)

drop_all : (xs : List ℕ) → drop (length xs) xs ≡ []
drop_all [] = refl
drop_all (x ∷ xs) = drop_all xs

-- Data within the first chunk is unsealed as it is.
unseal_first_whole :
    (keccak : List ℕ → List ℕ) (n : ℕ) (seed xs ys : List ℕ)
    → length xs ≤ n
    → Seal.unseal_with_mask_seed keccak xs seed ≡ ret ys
    → unseal_first keccak n seed xs ≡ ret ys
unfolding unseal_first
unseal_first_whole keccak n seed xs ys h run = elim (Bool-cases (ltb (length xs) n)) [
  | inl e ↦ rw e run
  | inr e ↦
      let q : n ≡ length xs = ground (arith, h, e) in
      rw (e, q, take-length xs, run, drop_all xs) (ap ret (append_nil ys))
]

unseal_rest_within :
    (keccak : List ℕ → List ℕ) (s : SealInfo) (start n : ℕ) (xs : List ℕ)
    → length xs ≤ n
    → unseal_rest keccak s start n xs ≡ ret xs
unfolding unseal_rest
unseal_rest_within keccak s start n xs h =
    let e : ltb n (length xs) ≡ false = ground (arith, h) in rw e refl

advanced_within :
    (keccak : List ℕ → List ℕ) (s : SealInfo) (i j : ℕ)
    → 0 < j
    → j < 16
    → i < 2 ^ 16
    → is_sealed s i ≡ true
    → advanced_by_one keccak s (i * sectors_per_seal + j) ≡ true
advanced_within keccak s i j lo hi small marked = rw (e, q, marked)
  where
    r : (i * sectors_per_seal + j) % sectors_per_seal ≡ j
    r = omega (arith, hi)

    e : ((i * sectors_per_seal + j) % sectors_per_seal == 0) ≡ false
    e = rw r (ground (arith, lo))

    q : (i * sectors_per_seal + j) / sectors_per_seal % 2 ^ 16 ≡ i
    q = omega (arith, hi, small)

-- A read within a sealed seal, behind its first sector, gives the data that was sealed: where the
-- stored bytes from one word before the read on are those of what the data of the seal was sealed to
-- for the batch's context, miner and sector, `get_unsealed_data` gives that data's part, whatever the
-- hash function.
pub get_unsealed_data_within :
    (keccak : List ℕ → List ℕ) (b : EntryBatch) (bytes sealed digest : List ℕ) (i j n : ℕ)
    → i < 2 ^ 16
    → is_sealed b.seal i ≡ true
    → length bytes ≡ bytes_per_seal
    → Seal.seal keccak bytes b.seal.miner_id digest (global_seal_sector b.seal i) ≡ ret sealed
    → 0 < j
    → 0 < n
    → j + n ≤ sectors_per_seal
    → ChunkData.get b.batch_data
        ((i * sectors_per_seal + j) * bytes_per_sector - 32)
        (n * bytes_per_sector + 32)
      ≡ ret (some (take (n * bytes_per_sector + 32) (drop (j * bytes_per_sector - 32) sealed)))
    → get_unsealed_data keccak b (i * sectors_per_seal + j) n
      ≡ ret (some (take (n * bytes_per_sector) (drop (j * bytes_per_sector) bytes)))
unfolding get_unsealed_data
get_unsealed_data_within keccak b bytes sealed digest i j n small marked len run lo some_data hi
      stored =
    rw
      (
        advanced_within keccak b.seal i j lo (omega (arith, some_data, hi)) small marked,
        stored,
        room,
        seed,
        window,
      )
      (rw (first, rest) refl)
  where
    part : List ℕ
    part = take (n * bytes_per_sector) (drop (j * bytes_per_sector) bytes)

    room :
        bytes_per_seal - (i * sectors_per_seal + j) * bytes_per_sector % bytes_per_seal
        ≡ 4096 - j * 256
    room = omega (arith, lo, hi)

    seed :
        take 32 (take (n * bytes_per_sector + 32) (drop (j * bytes_per_sector - 32) sealed))
        ≡ take 32 (drop ((8 * j - 1) * 32) sealed)
    seed =
        let e : (8 * j - 1) * 32 ≡ j * 256 - 32 = omega (arith, lo) in
        rw e (take-take 32 (n * 256 + 32) (drop (j * 256 - 32) sealed) (omega arith))

    window :
        drop 32 (take (n * bytes_per_sector + 32) (drop (j * bytes_per_sector - 32) sealed))
        ≡ take (8 * n * 32) (drop ((8 * j - 1) * 32 + 32) sealed)
    window =
        take-drop 32 (n * 256 + 32) (8 * n * 32) (drop (j * 256 - 32) sealed) (omega arith)
        ∙ ap (take (8 * n * 32))
            (drop-drop 32 (j * 256 - 32) ((8 * j - 1) * 32 + 32) sealed (omega (arith, lo)))

    unsealed :
        Seal.unseal_with_mask_seed keccak
          (take (8 * n * 32) (drop ((8 * j - 1) * 32 + 32) sealed))
          (take 32 (drop ((8 * j - 1) * 32) sealed))
        ≡ ret part
    unsealed =
        let e : 8 * n * 32 ≡ n * 256 = omega arith in
        let e' : (8 * j - 1) * 32 + 32 ≡ j * 256 = omega (arith, lo) in
        Windows.unseal-window keccak bytes sealed b.seal.miner_id digest
          (global_seal_sector b.seal i) (8 * j - 1) (8 * n) (omega (arith, len)) run
          (omega (arith, len, lo, hi))
        ∙ ap ret (
            ap (λ k. take k (drop ((8 * j - 1) * 32 + 32) bytes)) e
            ∙ ap (λ k. take (n * 256) (drop k bytes)) e')

    first :
        unseal_first keccak
          (4096 - j * 256)
          (take 32 (drop ((8 * j - 1) * 32) sealed))
          (take (8 * n * 32) (drop ((8 * j - 1) * 32 + 32) sealed))
        ≡ ret part
    first =
        unseal_first_whole keccak (4096 - j * 256) (take 32 (drop ((8 * j - 1) * 32) sealed))
          (take (8 * n * 32) (drop ((8 * j - 1) * 32 + 32) sealed)) part
          (omega (arith, length-take (8 * n * 32) (drop ((8 * j - 1) * 32 + 32) sealed), lo, hi))
          unsealed

    rest :
        unseal_rest keccak b.seal
          ((i * sectors_per_seal + j) * bytes_per_sector)
          (4096 - j * 256)
          part
        ≡ ret part
    rest =
        unseal_rest_within keccak b.seal ((i * sectors_per_seal + j) * bytes_per_sector)
          (4096 - j * 256) part
          (omega (arith, length-take (n * 256) (drop (j * 256) bytes), lo, hi))
