-- ===== src/ChunkPool/SegmentCache.antt =====
-- node/chunk_pool/src/mem_pool/chunk_cache.rs: segments held in memory until the log entry of
-- their file is known. The files stand in the order in which they entered (`LinkedHashMap`), and
-- the current time is an argument. Times are numbers of one unit.
pub mod Counts
pub mod Caching
use ionian_rust.Base.{
  ℕ, ◌+◌, ◌-◌, ◌*◌, ◌/◌, Bool, true, false, ◌&&◌, if◌then◌else◌, Option, none, some, List, [], ◌∷◌,
  ltb, leb, is_some, Run, ret, panic, ◌>>=◌, ◌>>◌, assert, Result, ok, err, length, ℕ_discrete,
}
use ionian_rust.Base.Dict
use ionian_rust.Base.Dict.{Dict}
use ionian_rust.SharedTypes.{ChunkArray, chunk_size, bytes_to_chunks}
use ionian_rust.ChunkPool.Types.{DataRoot, TxId, FileId, Config}

pub record SegmentInfo : Type 0 where
  pub root : DataRoot
  pub seg_data : List ℕ
  pub seg_index : ℕ
  pub chunks_per_segment : ℕ

-- `From<SegmentInfo> for ChunkArray`.
abbrev pub to_chunk_array : SegmentInfo → ChunkArray
to_chunk_array s = record { bytes = s.seg_data; start_index = s.seg_index * s.chunks_per_segment }

pub record MemoryCachedFile : Type 0 where
  pub id : FileId
  pub segments : Dict ℕ ChunkArray
  pub total_chunks : ℕ
  pub expired_at : ℕ
  pub cached_chunk_num : ℕ

-- The transaction of a file is unknown at first: `Default::default()`.
abbrev pub unknown_tx : TxId
unknown_tx = record { seq = 0; hash = 0 }

abbrev pub new_cached_file : DataRoot → ℕ → MemoryCachedFile
new_cached_file root expired_at = record {
  id = record { root = root; tx_id = unknown_tx };
  segments = [];
  total_chunks = 0;
  expired_at = expired_at;
  cached_chunk_num = 0;
}

-- `update_with_tx`, at the size and the identity of the transaction.
pub update_with_tx : MemoryCachedFile → ℕ → TxId → MemoryCachedFile
update_with_tx f size tx_id = record f {
  total_chunks = bytes_to_chunks size;
  id = record { root = f.id.root; tx_id = tx_id };
}

abbrev pub is_completed : MemoryCachedFile → Bool
is_completed f = ltb 0 f.total_chunks && leb f.total_chunks f.cached_chunk_num

pub record ChunkPoolCache : Type 0 where
  pub config : Config
  pub files : Dict DataRoot MemoryCachedFile
  pub total_chunks : ℕ

pub new_cache : Config → ChunkPoolCache
new_cache c = record { config = c; files = []; total_chunks = 0 }

abbrev pub get_cached : ChunkPoolCache → DataRoot → Option MemoryCachedFile
get_cached c root = Dict.get ℕ_discrete root c.files

abbrev pub update_total_chunks_when_remove_file : ℕ → MemoryCachedFile → Run ℕ
update_total_chunks_when_remove_file total f = do
  assert (leb f.cached_chunk_num total)
  ret (total - f.cached_chunk_num)

pub remove_cached : ChunkPoolCache → DataRoot → Run (ChunkPoolCache × Option MemoryCachedFile)
remove_cached c root = elim (get_cached c root) [
  | none ↦ ret (c, none)
  | some f ↦ do
    total ← update_total_chunks_when_remove_file c.total_chunks f
    ret (record c { files = Dict.remove ℕ_discrete root c.files; total_chunks = total }, some f)
]

-- The loop of `garbage_collect`: files are dropped from the front while the front has expired.
pub collect : ℕ → Dict DataRoot MemoryCachedFile → ℕ → Run (Dict DataRoot MemoryCachedFile × ℕ)
collect now [] total = ret ([], total)
collect now ((r, f) ∷ files) total = elim (ltb now f.expired_at) [
  | true ↦ ret ((r, f) ∷ files, total)
  | false ↦ update_total_chunks_when_remove_file total f >>= collect now files
]

pub garbage_collect : ℕ → ChunkPoolCache → Run ChunkPoolCache
garbage_collect now c = do
  (files, total) ← collect now c.files c.total_chunks
  ret (record c { files = files; total_chunks = total })

pub data CacheError : Type 0 where
  exceeds_max_cached_chunks : CacheError

-- The file after `entry(root).or_insert_with(..)`.
abbrev pub cached_or_new : ChunkPoolCache → ℕ → DataRoot → MemoryCachedFile
cached_or_new c now root = elim (get_cached c root) [
  | some f ↦ f
  | none ↦ new_cached_file root (now + c.config.expiration_time)
]

-- `cache_segment` past the collection of garbage.
pub cache_collected : ℕ → ChunkPoolCache → SegmentInfo → ChunkPoolCache × Result CacheError Bool
cache_collected now c s =
    let f = cached_or_new c now s.root in
    let num_chunks = length s.seg_data / chunk_size in
    let entered = record c { files = Dict.insert ℕ_discrete s.root f c.files } in
    let f' = record f {
      cached_chunk_num = f.cached_chunk_num + num_chunks;
      expired_at = now + c.config.expiration_time;
      segments = Dict.insert ℕ_discrete s.seg_index (to_chunk_array s) f.segments;
    } in
    if is_some (Dict.get ℕ_discrete s.seg_index f.segments)
    then (entered, ok (is_completed f))
    else if ltb c.config.max_cached_chunks_all (c.total_chunks + num_chunks)
    then (entered, err exceeds_max_cached_chunks)
    else (
      record c {
        total_chunks = c.total_chunks + num_chunks;
        files = Dict.insert ℕ_discrete s.root f' c.files;
      },
      ok (is_completed f'),
    )

-- Whether the whole file is uploaded and its log entry known.
pub cache_segment : ℕ → ChunkPoolCache → SegmentInfo → Run (ChunkPoolCache × Result CacheError Bool)
unfolding garbage_collect
cache_segment now c s = do c' ← garbage_collect now c; ret (cache_collected now c' s)
