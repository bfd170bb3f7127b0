-- ===== src/Tests/EntryBatch.antt =====
-- Reads of node/storage/src/log_store/load_chunk/mod.rs, at a load with one sealed seal.
use ionian_rust.Base.{
  ℕ, ◌+◌, ◌-◌, ◌*◌, ◌≡◌, ◌==◌, refl, some, List, [], ◌∷◌, take, drop, replicate, ret, arith,
}
use ionian_rust.SharedTypes.{bytes_to_chunks}
use ionian_rust.Seal.{seal, seal_with_mask_seed, seal_with_mask, seal_words}
use ionian_rust.Storage.ChunkData
use ionian_rust.Storage.ChunkData.{EntryBatchData, incomplete, find, search, sectors_per_seal}
use ionian_rust.Storage.SealInfo.{global_seal_sector}
use ionian_rust.Storage.EntryBatch.{EntryBatch, get_unsealed_data}
use ionian_rust.Storage.EntryBatch.Reads

-- A hash without a byte, which leaves the data as it is.
abbrev no_hash : List ℕ → List ℕ
no_hash bytes = []

abbrev stored : List ℕ
stored = replicate 4096 5

-- The seal 1 is there and sealed.
abbrev batch : EntryBatch
batch = record {
  seal = record {
    bitmap = λ i. i == 1;
    load_index = 0;
    miner_id = 9 ∷ [];
    seal_contexts = record { context_digest = 1 ∷ []; end_seal_index = 2 } ∷ [];
  };
  batch_data = incomplete (record { start_sector = 16; bytes = stored } ∷ []);
}

get_unsealed_data_aligned_example :
    get_unsealed_data no_hash batch 16 3 ≡ ChunkData.get batch.batch_data (16 * 256) (3 * 256)
get_unsealed_data_aligned_example =
    Reads.get_unsealed_data_aligned no_hash batch 16 3 refl (omega arith)

stored_slice :
    ChunkData.get batch.batch_data ((1 * 16 + 2) * 256 - 32) (3 * 256 + 32)
    ≡ ret (some (take (3 * 256 + 32) (drop (2 * 256 - 32) stored)))
unfolding ChunkData.get find search bytes_to_chunks
stored_slice = refl

sealed_as_is : seal no_hash stored (9 ∷ []) (1 ∷ []) (global_seal_sector batch.seal 1) ≡ ret stored
unfolding seal seal_with_mask_seed seal_with_mask seal_words
sealed_as_is = refl

get_unsealed_data_within_example :
    get_unsealed_data no_hash batch (1 * 16 + 2) 3
    ≡ ret (some (take (3 * 256) (drop (2 * 256) stored)))
get_unsealed_data_within_example =
    Reads.get_unsealed_data_within no_hash batch stored stored (1 ∷ []) 1 2 3 (omega arith) refl
      refl sealed_as_is (omega arith) (omega arith) (omega arith) stored_slice
