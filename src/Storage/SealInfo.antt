-- ===== src/Storage/SealInfo.antt =====
-- node/storage/src/log_store/load_chunk/seal.rs and `truncate` of bitmap.rs: which seals of a load
-- are sealed, and under which contexts. A bitmap is the function of its bits, and a digest is its
-- list of bytes. Arithmetic of a fixed width wraps around, as in a release build; only `context_index`
-- adds one without it, since a seal index is below 2^16 - 1.
pub mod Contexts
pub mod Validity
pub mod RoundTrip
use ionian_rust.Base.{
  ℕ, zero, suc, ◌+◌, ◌-◌, ◌*◌, ◌/◌, ◌%◌, ◌^◌, min, Bool, true, false, if◌then◌else◌, ◌&&◌, ◌||◌,
  Option, none, some, List, [], ◌∷◌, ◌++◌, ltb, leb, ◌==◌, get_elem?, take, replicate, Run, ret,
  ◌>>=◌, ◌>>◌, panic, assert, unwrap,
}
use ionian_rust.Miner.{sectors_per_load}
use ionian_rust.Storage.ChunkData.{sectors_per_seal}
use ionian_rust.Seal

abbrev pub seals_per_load : ℕ
seals_per_load = sectors_per_load / sectors_per_seal

pub record SealContextInfo : Type 0 where
  pub context_digest : List ℕ
  pub end_seal_index : ℕ

pub record SealInfo : Type 0 where
  pub bitmap : ℕ → Bool
  pub load_index : ℕ
  pub miner_id : List ℕ
  pub seal_contexts : List SealContextInfo

pub new_info : ℕ → SealInfo
new_info load_index = record {
  bitmap = λ i. false;
  load_index = load_index;
  miner_id = replicate 32 0;
  seal_contexts = [];
}

abbrev pub is_sealed : SealInfo → ℕ → Bool
is_sealed s seal_index = s.bitmap seal_index

abbrev pub mark_sealed : SealInfo → ℕ → SealInfo
mark_sealed s seal_index = record s { bitmap = λ i. i == seal_index || s.bitmap i }

pub global_seal_sector : SealInfo → ℕ → ℕ
global_seal_sector s index = s.load_index * sectors_per_load + index * sectors_per_seal

-- The number of contexts that end before a seal: where `binary_search_by_key` on the ends, which are
-- in order, finds that end or the place for it.
abbrev pub ends_before : ℕ → List SealContextInfo → ℕ
ends_before k [] = 0
ends_before k (c ∷ cs) = if ltb c.end_seal_index k then suc (ends_before k cs) else 0

pub context_index : SealInfo → ℕ → ℕ
context_index s seal_index = ends_before (seal_index + 1) s.seal_contexts

-- `context_index(end_seal_index - 1)`, where the subtraction and the addition inside wrap around.
abbrev pub context_index_of_last : SealInfo → ℕ → ℕ
context_index_of_last s end_seal_index =
    let seal_index = (end_seal_index + 2 ^ 16 - 1) % 2 ^ 16 in
    ends_before ((seal_index + 1) % 2 ^ 16) s.seal_contexts

abbrev pub digest_of : Option SealContextInfo → Option (List ℕ)
digest_of none = none
digest_of (some c) = some c.context_digest

pub get_seal_context_digest : SealInfo → ℕ → Option (List ℕ)
get_seal_context_digest s seal_index =
    digest_of (get_elem? s.seal_contexts (context_index s seal_index))

abbrev pub is_zero : List ℕ → Bool
is_zero [] = true
is_zero (x ∷ xs) = x == 0 && is_zero xs

abbrev pub is_same : List ℕ → List ℕ → Bool
is_same [] [] = true
is_same [] (y ∷ ys) = false
is_same (x ∷ xs) [] = false
is_same (x ∷ xs) (y ∷ ys) = x == y && is_same xs ys

-- `Vec::insert`.
abbrev pub insert_context : ℕ → SealContextInfo → List SealContextInfo → List SealContextInfo
insert_context zero c cs = c ∷ cs
insert_context (suc i) c [] = c ∷ []
insert_context (suc i) c (x ∷ cs) = x ∷ insert_context i c cs

-- The three cases of the update of the contexts.
abbrev pub update_contexts : ℕ → SealContextInfo → List SealContextInfo → List SealContextInfo
update_contexts i new cs = elim (get_elem? cs i) [
  | none ↦ cs ++ new ∷ []
  | some c ↦ if is_same c.context_digest new.context_digest then cs else insert_context i new cs
]

pub set_seal_context : SealInfo → List ℕ → ℕ → List ℕ → Run SealInfo
set_seal_context s context_digest global_end_seal_index miner_id =
    let miner = if is_zero s.miner_id then miner_id else s.miner_id in
    let first = s.load_index * seals_per_load % 2 ^ 64 in
    let local = (global_end_seal_index + 2 ^ 64 - first) % 2 ^ 64 in
    let end_seal_index = min (local % 2 ^ 16) seals_per_load in
    let new : SealContextInfo = record {
      context_digest = context_digest;
      end_seal_index = end_seal_index;
    } in
    do
      assert (is_same miner miner_id)
      ret (record s {
        miner_id = miner;
        seal_contexts =
            update_contexts (context_index_of_last s end_seal_index) new s.seal_contexts;
      })

abbrev pub end_of_context : Option SealContextInfo → Run ℕ
end_of_context none = panic
end_of_context (some c) = ret c.end_seal_index

pub truncated_seal_index : SealInfo → ℕ → Run ℕ
truncated_seal_index s reverted_seal_index = elim (context_index s reverted_seal_index) [
  | zero ↦ ret 0
  | suc i ↦ end_of_context (get_elem? s.seal_contexts i)
]

-- The bits of the mask `(1 << index) - 1`, where a shift is by the remainder of the width.
abbrev pub mask : ℕ → ℕ → Bool
mask index i = ltb i (index % 64)

abbrev pub truncate_bitmap : (ℕ → Bool) → ℕ → ℕ → Bool
truncate_bitmap b index i = b i && mask index i

pub truncate_info : SealInfo → ℕ → Run SealInfo
truncate_info s reverted_seal_index = do
  index ← truncated_seal_index s reverted_seal_index
  ret (record s {
    bitmap = truncate_bitmap s.bitmap index;
    seal_contexts = take (context_index s reverted_seal_index) s.seal_contexts;
  })

pub unseal_at : (List ℕ → List ℕ) → SealInfo → List ℕ → ℕ → Run (List ℕ)
unseal_at keccak s bytes index =
    if is_sealed s index
    then (do
      seal_context ← unwrap (get_seal_context_digest s index)
      Seal.unseal keccak bytes s.miner_id seal_context (global_seal_sector s index))
    else ret bytes
