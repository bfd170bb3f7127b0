-- ===== src/ChunkPool/MemPool/Release.antt =====
-- What chunk_pool_inner.rs gives back, and what it gives back twice.
use ionian_rust.Base.{ℕ, ◌<◌, ◌≡◌, Bool, false, Option, none, some, leb, panic, arith}
use ionian_rust.SharedTypes.{ChunkArray}
use ionian_rust.ChunkPool.Types.{DataRoot, FileId}
use ionian_rust.ChunkPool.WriteControl.Writers
use ionian_rust.ChunkPool.WriteControl.Writers.{
  in_flight, on_write_failed-IsValid, on_write_succeeded-IsValid, remove-IsValid,
}
use ionian_rust.ChunkPool.SegmentCache.{get_cached, MemoryCachedFile}
use ionian_rust.ChunkPool.SegmentCache.Counts
use ionian_rust.ChunkPool.SegmentCache.Counts.{remove_cached-IsValid}
use ionian_rust.ChunkPool.MemPool.{
  Inner, PoolError, StoreReply, on_write_cache_succeeded, on_write_cache_failed,
  get_all_cached_segments_to_write, finish_cached, write_all_cached_chunks_and_finalize,
  release_cache,
}

pub record IsValid (i : Inner) : Type 0 where
  pub cache : Counts.IsValid i.segment_cache
  pub control : Writers.IsValid i.write_control

-- The handlers of a finished write want the file in the cache.
release_cache-panic :
    (i : Inner) (root : DataRoot) (n : ℕ)
    → get_cached i.segment_cache root ≡ none
    → release_cache i root n ≡ panic
unfolding release_cache
release_cache-panic i root n e = ground arith

finish_cached-panic :
    (i : Inner) (root : DataRoot) (file : FileId) (n : ℕ) (r : Option PoolError) (b : Bool)
    → get_cached i.segment_cache root ≡ none
    → finish_cached i root file n r b ≡ panic
unfolding finish_cached on_write_cache_failed on_write_cache_succeeded
finish_cached-panic i root file n (some x) b e = rw (release_cache-panic i root n e)
finish_cached-panic i root file n none b e = rw (release_cache-panic i root n e)

-- In a valid pool with room for a writer, writing a cached file to the store panics whatever the
-- store replies: the file has left the cache before the handler of the finished write looks it up
-- there.
pub write_all-panic :
    (i : Inner) (root : DataRoot) (f : MemoryCachedFile) (put : ChunkArray → StoreReply) (b : Bool)
    → IsValid i
    → i.write_control.total_writings < i.config.max_writings
    → get_cached i.segment_cache root ≡ some f
    → write_all_cached_chunks_and_finalize i root put b ≡ panic
unfolding write_all_cached_chunks_and_finalize get_all_cached_segments_to_write
write_all-panic i root f put b v room e =
    let (c, removed, _, gone, _) = remove_cached-IsValid i.segment_cache root f v.cache e in
    let busy : leb i.config.max_writings i.write_control.total_writings ≡ false = ground arith in
    rw (busy, get_all_cached_segments_to_write)
      (rw (removed, get_all_cached_segments_to_write) (finish_cached-panic _ root f.id _ _ b gone))
