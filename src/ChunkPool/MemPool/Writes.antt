-- ===== src/ChunkPool/MemPool/Writes.antt =====
-- `write_chunks` and `cache_chunks` of chunk_pool_inner.rs, around the wait on the store.
use ionian_rust.Base.{
  ℕ, ◌+◌, ◌≡◌, Bool, none, some, arith, inl, inr, ◌⊎◌, Returns, Returns-bind, ◌≢◌,
}
use ionian_rust.ChunkPool.Types.{FileId}
use ionian_rust.ChunkPool.WriteControl.{FileWriteCtrl, get_file, slot, writing}
use ionian_rust.ChunkPool.WriteControl.Writers.{
  on_write_failed-IsValid, on_write_succeeded-IsValid, remove-IsValid, remove_file-gone,
  remove_file-total_writings,
}
use ionian_rust.ChunkPool.SegmentCache.{SegmentInfo, cache_segment}
use ionian_rust.ChunkPool.SegmentCache.Caching.{cache_segment-IsValid}
use ionian_rust.ChunkPool.MemPool.{
  Inner, StoreReply, stored, reverted, failed, write_chunks_end, cache_chunks_begin,
}
use ionian_rust.ChunkPool.MemPool.Release.{IsValid}

-- In a valid pool, any reply of the store to a segment that is being written is handled without a
-- failing assertion: the pool stays valid, the count of writers goes down by one, and after a
-- reverted transaction the file is not tracked.
pub write_chunks_end-IsValid :
    (i : Inner) (s : SegmentInfo) (id : FileId) (f : FileWriteCtrl) (reply : StoreReply) (b : Bool)
    → IsValid i
    → get_file i.write_control s.root ≡ some f
    → slot f.window s.seg_index ≡ some writing
    → Returns
        (λ q.
          IsValid q.0
          × (q.0.write_control.total_writings + 1 ≡ i.write_control.total_writings)
          × ((reply ≢ reverted) ⊎ (get_file q.0.write_control s.root ≡ none)))
        (write_chunks_end i s id reply b)
unfolding write_chunks_end
write_chunks_end-IsValid i s id f stored b v e h =
    let (w, run, valid, less, _) =
      on_write_succeeded-IsValid i.write_control s.root s.seg_index f v.control e h in
    rw run (record { cache = v.cache; control = valid }, less, inl (λ x. cc))
write_chunks_end-IsValid i s id f (failed x) b v e h =
    let (w, run, valid, _, less, _) =
      on_write_failed-IsValid i.write_control s.root s.seg_index f v.control e h in
    rw run (record { cache = v.cache; control = valid }, less, inl (λ x. cc))
write_chunks_end-IsValid i s id f reverted b v e h =
    let (w, run, valid, _, less, _) =
      on_write_failed-IsValid i.write_control s.root s.seg_index f v.control e h in
    rw run (
      record { cache = v.cache; control = remove-IsValid w s.root valid },
      omega (arith, less, remove_file-total_writings w s.root),
      inr (remove_file-gone w s.root),
    )

-- Caching a segment keeps the pool valid.
pub cache_chunks_begin-IsValid :
    (now : ℕ) (i : Inner) (s : SegmentInfo)
    → IsValid i
    → Returns (λ q. IsValid q.0) (cache_chunks_begin now i s)
unfolding cache_chunks_begin
cache_chunks_begin-IsValid now i s v =
    Returns-bind _ _ (cache_segment now i.segment_cache s) _
      (cache_segment-IsValid now i.segment_cache s v.cache)
      (λ (c, r) k. record { cache = k.0; control = v.control })
