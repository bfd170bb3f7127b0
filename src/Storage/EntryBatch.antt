-- ===== src/Storage/EntryBatch.antt =====
-- node/storage/src/log_store/load_chunk/mod.rs: the data of a load with its seals. The roots of its
-- Merkle tree are left out.
pub mod Reads
use ionian_rust.Base.{
  ℕ, zero, suc, ◌+◌, ◌-◌, ◌*◌, ◌/◌, ◌%◌, ◌^◌, min, Bool, true, false, if◌then◌else◌, ◌&&◌, not,
  Option, none, some, List, [], ◌∷◌, ◌++◌, ltb, leb, ◌==◌, get_elem?, set, take, drop, length, Run,
  ret, panic, ◌>>=◌, ◌>>◌, assert, unwrap, Result, ok, err,
}
use ionian_rust.SharedTypes.{ChunkArray}
use ionian_rust.Miner.{sectors_per_load, bytes_per_sector}
use ionian_rust.Seal
use ionian_rust.Storage.ChunkData
use ionian_rust.Storage.ChunkData.Insertion
use ionian_rust.Storage.ChunkData.{
  PartialBatch, EntryBatchData, complete, incomplete, BatchError, bytes_per_load, sectors_per_seal,
  new_data, get_mut, available_range_entries,
}
use ionian_rust.Storage.SealInfo.{
  SealInfo, new_info, is_sealed, mark_sealed, seals_per_load, set_seal_context,
  truncated_seal_index, truncate_info, unseal_at,
}

abbrev pub bytes_per_seal : ℕ
bytes_per_seal = sectors_per_seal * bytes_per_sector

pub record EntryBatch : Type 0 where
  pub seal : SealInfo
  pub batch_data : EntryBatchData

pub record SealAnswer : Type 0 where
  pub seal_index : ℕ
  pub miner_id : List ℕ
  pub sealed_data : List ℕ
  pub seal_context : List ℕ
  pub context_end_seal : ℕ

pub new_batch : ℕ → EntryBatch
new_batch load_index_global = record { seal = new_info load_index_global; batch_data = new_data }

abbrev pub is_empty_batch : EntryBatch → Bool
is_empty_batch b = ChunkData.is_empty b.batch_data

-- The data of a seal that has the given state.
abbrev pub data_if : Bool → EntryBatch → ℕ → Run (Option (List ℕ))
data_if false b seal_index = ret none
data_if true b seal_index = ChunkData.get b.batch_data (seal_index * bytes_per_seal) bytes_per_seal

pub get_sealed_data : EntryBatch → ℕ → Run (Option (List ℕ))
get_sealed_data b seal_index = data_if (is_sealed b.seal seal_index) b seal_index

pub get_non_sealed_data : EntryBatch → ℕ → Run (Option (List ℕ))
get_non_sealed_data b seal_index = data_if (not (is_sealed b.seal seal_index)) b seal_index

pub insert_batch_data : EntryBatch → ℕ → List ℕ → Run (EntryBatch × Result BatchError (List ℕ))
insert_batch_data b offset bytes = do
  (d, answer) ← Insertion.insert_data b.batch_data (offset * bytes_per_sector) bytes
  ret (record b { batch_data = d }, answer)

pub submit_seal_result : EntryBatch → SealAnswer → Run EntryBatch
submit_seal_result b answer =
    let local_seal_index = answer.seal_index % seals_per_load in
    do
      assert (not (is_sealed b.seal local_seal_index))
      assert (answer.seal_index / seals_per_load == b.seal.load_index)
      s ← set_seal_context b.seal answer.seal_context answer.context_end_seal answer.miner_id
      loaded ← get_mut b.batch_data (local_seal_index * bytes_per_seal) bytes_per_seal
      (segment, put_back) ← unwrap loaded
      assert (length segment == length answer.sealed_data)
      ret (record {
        seal = mark_sealed s local_seal_index;
        batch_data = put_back answer.sealed_data;
      })

module _ (keccak : List ℕ → List ℕ) where
  -- The loop over the chunks of a seal's length from a seal on; `fuel` is the number of them.
  pub unseal_chunks : ℕ → SealInfo → ℕ → List ℕ → Run (List ℕ)
  unseal_chunks zero s seal_index bytes = ret []
  unseal_chunks (suc fuel) s seal_index bytes = do
    chunk ← unseal_at keccak s (take bytes_per_seal bytes) (seal_index % 2 ^ 16)
    rest ← unseal_chunks fuel s (seal_index + 1) (drop bytes_per_seal bytes)
    ret (chunk ++ rest)

  -- The chunks behind the first one.
  pub unseal_rest : SealInfo → ℕ → ℕ → List ℕ → Run (List ℕ)
  unseal_rest s start_byte first_seal_chunk_length bytes =
      let behind = drop first_seal_chunk_length bytes in
      let fuel = (length behind + bytes_per_seal - 1) / bytes_per_seal in
      if ltb first_seal_chunk_length (length bytes)
      then (unseal_chunks fuel s ((start_byte + first_seal_chunk_length) / bytes_per_seal) behind
          >>= λ rest. ret (take first_seal_chunk_length bytes ++ rest))
      else ret bytes

  -- The first chunk, with the word before it as the seed of its mask.
  pub unseal_first : ℕ → List ℕ → List ℕ → Run (List ℕ)
  unseal_first first_seal_chunk_length seed bytes =
      if ltb (length bytes) first_seal_chunk_length
      then Seal.unseal_with_mask_seed keccak bytes seed
      else (Seal.unseal_with_mask_seed keccak (take first_seal_chunk_length bytes) seed >>= λ first.
          ret (first ++ drop first_seal_chunk_length bytes))

  -- `get_unsealed_data` from the loaded data on; the first word is for unsealing where the read
  -- starts one word early.
  abbrev pub unseal_loaded : SealInfo → ℕ → Bool → Option (List ℕ) → Run (Option (List ℕ))
  unseal_loaded s start_byte advanced none = ret none
  unseal_loaded s start_byte false (some loaded) =
      unseal_rest s start_byte (bytes_per_seal - start_byte % bytes_per_seal) loaded >>= λ bytes.
      ret (some bytes)
  unseal_loaded s start_byte true (some loaded) =
      let first_seal_chunk_length = bytes_per_seal - start_byte % bytes_per_seal in
      do
        first ← unseal_first first_seal_chunk_length (take 32 loaded) (drop 32 loaded)
        bytes ← unseal_rest s start_byte first_seal_chunk_length first
        ret (some bytes)

  -- Whether the read starts within a seal that is sealed.
  abbrev pub advanced_by_one : SealInfo → ℕ → Bool
  advanced_by_one s start_sector =
      not (start_sector % sectors_per_seal == 0)
      && is_sealed s (start_sector / sectors_per_seal % 2 ^ 16)

  pub get_unsealed_data : EntryBatch → ℕ → ℕ → Run (Option (List ℕ))
  get_unsealed_data b start_sector length_sector =
      let start_byte = start_sector * bytes_per_sector in
      let length_byte = length_sector * bytes_per_sector in
      let advanced = advanced_by_one b.seal start_sector in
      let word = if advanced then 32 else 0 in
      do
        loaded ← ChunkData.get b.batch_data (start_byte - word) (length_byte + word)
        unseal_loaded b.seal start_byte advanced loaded

  -- The loop of `truncate_seal` over `n` seals from one on, and the seals that were unsealed.
  pub unseal_each : ℕ → ℕ → ℕ → EntryBatch → Run (EntryBatch × List ℕ)
  unseal_each zero unseal_index truncated_sector b = ret (b, [])
  unseal_each (suc n) unseal_index truncated_sector b =
      let first_unseal_byte = unseal_index * bytes_per_seal in
      let length_byte =
        min (truncated_sector * bytes_per_sector - first_unseal_byte) bytes_per_seal in
      if is_sealed b.seal unseal_index
      then (do
        loaded ← get_mut b.batch_data first_unseal_byte length_byte
        (to_unseal, put_back) ← unwrap loaded
        unsealed ← unseal_at keccak b.seal to_unseal unseal_index
        (b', to_reseal) ←
            unseal_each n (unseal_index + 1) truncated_sector
              (record b { batch_data = put_back unsealed })
        ret (b', unseal_index ∷ to_reseal))
      else unseal_each n (unseal_index + 1) truncated_sector b

  pub truncate_seal : EntryBatch → ℕ → Run (EntryBatch × List ℕ)
  truncate_seal b truncated_sector =
      let reverted_seal_index = truncated_sector / sectors_per_seal % 2 ^ 16 in
      let last_unseal_index = (truncated_sector - 1) / sectors_per_seal % 2 ^ 16 in
      do
        first_unseal_index ← truncated_seal_index b.seal reverted_seal_index
        (b', to_reseal_set) ←
            unseal_each (last_unseal_index + 1 - first_unseal_index) first_unseal_index
              truncated_sector b
        s ← truncate_info b'.seal reverted_seal_index
        ret (record b' { seal = s }, to_reseal_set)

  pub truncate_batch : EntryBatch → ℕ → Run (EntryBatch × List ℕ)
  truncate_batch b truncated_sector = do
    assert (ltb 0 truncated_sector && ltb truncated_sector sectors_per_load)
    d ← ChunkData.truncate b.batch_data (truncated_sector * bytes_per_sector)
    truncate_seal (record b { batch_data = d }) truncated_sector

  -- The chunk arrays of the ranges of the data.
  pub data_list : EntryBatch → ℕ → List (ℕ × ℕ) → Run (List ChunkArray)
  data_list b global_start_entry [] = ret []
  data_list b global_start_entry ((start_entry, length_entry) ∷ ranges) = do
    loaded ← get_unsealed_data b start_entry length_entry
    bytes ← unwrap loaded
    rest ← data_list b global_start_entry ranges
    ret (record { bytes = bytes; start_index = global_start_entry + start_entry } ∷ rest)

  pub into_data_list : EntryBatch → ℕ → Run (List ChunkArray)
  into_data_list b global_start_entry =
      data_list b global_start_entry (available_range_entries b.batch_data)
