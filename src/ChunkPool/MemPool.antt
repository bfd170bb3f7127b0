-- ===== src/ChunkPool/MemPool.antt =====
-- node/chunk_pool/src/mem_pool/chunk_pool_inner.rs: the pool over the segment cache and the write
-- control. A method that waits on the store is split where it gives up the lock, and takes the
-- store's reply as an argument; what is sent to the finalizing task is returned.
pub mod Release
pub mod Writes
pub mod Duplicates
pub mod Admission
use ionian_rust.Base.{
  ℕ, ◌+◌, ◌-◌, Bool, true, false, if◌then◌else◌, Option, none, some, List, [], ◌∷◌, map, ltb, leb,
  ◌==◌, is_some, Run, ret, panic, ◌>>=◌, ◌>>◌, assert, unwrap, Result, ok, err, length, ℕ_discrete,
  not, ◌%◌,
}
use ionian_rust.Base.Dict
use ionian_rust.Base.Dict.{Dict}
use ionian_rust.SharedTypes.{ChunkArray, chunk_size, bytes_to_chunks, compute_segment_size}
use ionian_rust.ChunkPool.Types.{DataRoot, TxId, FileId, Config}
use ionian_rust.ChunkPool.WriteControl.{
  ChunkPoolWriteCtrl, WriteError, new_ctrl, write_segment, on_write_succeeded, on_write_failed,
  remove_file, get_file, uploaded_seg_num,
}
use ionian_rust.ChunkPool.SegmentCache.{
  ChunkPoolCache, MemoryCachedFile, SegmentInfo, CacheError, new_cache, get_cached, remove_cached,
  cache_segment, update_with_tx, to_chunk_array,
}

pub record Inner : Type 0 where
  pub config : Config
  pub segment_cache : ChunkPoolCache
  pub write_control : ChunkPoolWriteCtrl

pub new_inner : Config → Inner
new_inner c = record { config = c; segment_cache = new_cache c; write_control = new_ctrl c }

-- One writer and `n` chunks are given back, and then the file's own count: the file has to be
-- there. The two handlers of the source have this same body.
release_cache : Inner → DataRoot → ℕ → Run Inner
release_cache i root n = do
  assert (ltb 0 i.write_control.total_writings)
  assert (leb n i.segment_cache.total_chunks)
  file ← unwrap (get_cached i.segment_cache root)
  assert (leb n file.cached_chunk_num)
  ret (record i {
    write_control = record (i.write_control) {
      total_writings = i.write_control.total_writings - 1;
    };
    segment_cache = record (i.segment_cache) {
      total_chunks = i.segment_cache.total_chunks - n;
      files =
          Dict.insert ℕ_discrete root (record file { cached_chunk_num = file.cached_chunk_num - n })
            i.segment_cache.files;
    };
  })

pub on_write_cache_succeeded : Inner → DataRoot → ℕ → Run Inner
unfolding release_cache
on_write_cache_succeeded i root n = release_cache i root n

pub on_write_cache_failed : Inner → DataRoot → ℕ → Run Inner
unfolding release_cache
on_write_cache_failed i root n = release_cache i root n

pub data PoolError : Type 0 where
  too_many_writings file_not_found transaction_reverted channel_closed empty_data invalid_length :
      PoolError
  store_failed : ℕ → PoolError
  write : WriteError → PoolError
  cache : CacheError → PoolError

pub get_all_cached_segments_to_write :
    Inner → DataRoot → Run (Inner × Result PoolError (FileId × ℕ × List ChunkArray))
get_all_cached_segments_to_write i root =
    if leb i.config.max_writings i.write_control.total_writings
    then ret (i, err too_many_writings)
    else do
      (c, removed) ← remove_cached i.segment_cache root
      ret (elim removed [
        | none ↦ (record i { segment_cache = c }, err file_not_found)
        | some f ↦ (
          record i {
            segment_cache = c;
            write_control = record (i.write_control) {
              total_writings = i.write_control.total_writings + 1;
            };
          },
          ok (f.id, f.cached_chunk_num, map (λ e. e.1) f.segments),
        )
      ])

pub validate_segment_size : List ℕ → Result PoolError (Unit {0})
validate_segment_size segment =
    if length segment == 0
    then err empty_data
    else if not (length segment % chunk_size == 0)
    then err invalid_length
    else ok tt

-- The reply of the store to `put_chunks_with_tx_hash`: stored, reverted, or a numbered error.
pub data StoreReply : Type 0 where
  stored reverted : StoreReply
  failed : ℕ → StoreReply

-- `write_chunks` up to the wait on the store.
pub write_chunks_begin :
    Inner → SegmentInfo → FileId → ℕ → Run (Inner × Result PoolError (Unit {0}))
write_chunks_begin i s file_id file_size =
    let (total_segments, _) =
      compute_segment_size (bytes_to_chunks file_size) s.chunks_per_segment in
    do
      assert (not (s.chunks_per_segment == 0))
      (w, r) ← write_segment i.write_control file_id s.seg_index total_segments
      ret (record i { write_control = w }, elim r [ ok u ↦ ok u | err e ↦ err (write e) ])

-- `write_chunks` from the reply on. The file to finalize is sent if all of it is written;
-- `open_channel` is whether the sending succeeds.
pub write_chunks_end :
    Inner
    → SegmentInfo
    → FileId
    → StoreReply
    → Bool
    → Run (Inner × Result PoolError (Option FileId))
write_chunks_end i s file_id stored open_channel = do
  (w, all_uploaded) ← on_write_succeeded i.write_control s.root s.seg_index
  ret (
    record i { write_control = w },
    if all_uploaded
        then if open_channel then ok (some file_id) else err channel_closed
        else ok none,
  )
write_chunks_end i s file_id reverted open_channel = do
  w ← on_write_failed i.write_control s.root s.seg_index
  ret (record i { write_control = (remove_file w s.root).0 }, err transaction_reverted)
write_chunks_end i s file_id (failed e) open_channel = do
  w ← on_write_failed i.write_control s.root s.seg_index
  ret (record i { write_control = w }, err (store_failed e))

-- `update_file_info`, at the data root, the size and the identity of the transaction: whether the
-- file is in the cache, and what is sent.
pub update_file_info :
    Inner → DataRoot → ℕ → TxId → Bool → Inner × Result PoolError (Bool × Option FileId)
update_file_info i root size tx_id open_channel = elim (get_cached i.segment_cache root) [
  | none ↦ (i, ok (false, none))
  | some f ↦
      let f' = update_with_tx f size tx_id in
      let i' = record i {
        segment_cache = record (i.segment_cache) {
          files = Dict.insert ℕ_discrete root f' i.segment_cache.files;
        };
      } in
      if ltb f'.cached_chunk_num f'.total_chunks
      then (i', ok (true, none))
      else if open_channel
      then (i', ok (true, some (record { root = root; tx_id = tx_id })))
      else (i', err channel_closed)
]

pub cache_chunks_begin : ℕ → Inner → SegmentInfo → Run (Inner × Result PoolError Bool)
cache_chunks_begin now i s = do
  (c, r) ← cache_segment now i.segment_cache s
  ret (record i { segment_cache = c }, elim r [ ok b ↦ ok b | err e ↦ err (cache e) ])

-- `remove_file`: the write control is not asked where the cache had the file.
pub remove_from_pool : Inner → DataRoot → Run (Inner × Bool)
remove_from_pool i root = do
  (c, cached) ← remove_cached i.segment_cache root
  ret (elim cached [
    | some f ↦ (record i { segment_cache = c }, true)
    | none ↦
        let (w, written) = remove_file i.write_control root in
        (record i { segment_cache = c; write_control = w }, is_some written)
  ])

-- The chunks or segments uploaded so far, and whether the file is in the cache.
pub get_uploaded_seg_num : Inner → DataRoot → ℕ × Bool
get_uploaded_seg_num i root = elim (get_cached i.segment_cache root) [
  | some f ↦ (f.cached_chunk_num, true)
  | none ↦ elim (get_file i.write_control root) [
    | some f ↦ (uploaded_seg_num f, false)
    | none ↦ (0, false)
  ]
]

abbrev failure : StoreReply → Option PoolError
failure stored = none
failure reverted = some transaction_reverted
failure (failed e) = some (store_failed e)

-- The loop over the segments in `write_all_cached_chunks_and_finalize`, where `put` is what the
-- store replies to each. They are taken from the end of the list, up to the first failure.
pub put_all : (ChunkArray → StoreReply) → List ChunkArray → Option PoolError
put_all put [] = none
put_all put (s ∷ segments) = elim (put_all put segments) [
  | some e ↦ some e
  | none ↦ failure (put s)
]

-- What follows that loop.
pub finish_cached :
    Inner
    → DataRoot
    → FileId
    → ℕ
    → Option PoolError
    → Bool
    → Run (Inner × Result PoolError (Option FileId))
finish_cached i root file n (some e) open_channel = do
  i' ← on_write_cache_failed i root n
  ret (i', err e)
finish_cached i root file n none open_channel = do
  i' ← on_write_cache_succeeded i root n
  ret (i', if open_channel then ok (some file) else err channel_closed)

abbrev finish_all :
    DataRoot
    → (ChunkArray → StoreReply)
    → Bool
    → Inner × Result PoolError (FileId × ℕ × List ChunkArray)
    → Run (Inner × Result PoolError (Option FileId))
finish_all root put open_channel (i, err e) = ret (i, err e)
finish_all root put open_channel (i, ok (file, n, segments)) =
    finish_cached i root file n (put_all put segments) open_channel

-- The whole of it, where nobody else takes the lock in between.
pub write_all_cached_chunks_and_finalize :
    Inner
    → DataRoot
    → (ChunkArray → StoreReply)
    → Bool
    → Run (Inner × Result PoolError (Option FileId))
write_all_cached_chunks_and_finalize i root put open_channel =
    get_all_cached_segments_to_write i root >>= finish_all root put open_channel

-- `cache_chunks`: a file that is complete and known is written at once.
pub cache_chunks :
    ℕ
    → Inner
    → SegmentInfo
    → (ChunkArray → StoreReply)
    → Bool
    → Run (Inner × Result PoolError (Option FileId))
cache_chunks now i s put open_channel = do
  (i', r) ← cache_chunks_begin now i s
  elim r [
    | err e ↦ ret (i', err e)
    | ok completed ↦
        if completed
        then write_all_cached_chunks_and_finalize i' s.root put open_channel
        else ret (i', ok none)
  ]
