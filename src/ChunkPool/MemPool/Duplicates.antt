-- ===== src/ChunkPool/MemPool/Duplicates.antt =====
-- `write_chunks` of chunk_pool_inner.rs on a segment that is already in the store.
use ionian_rust.Base.{
  ℕ, ◌<◌, ◌≡◌, refl, subst, Bool, true, false, some, ◌==◌, ret, panic, ok, arith,
}
use ionian_rust.SharedTypes.{bytes_to_chunks, compute_segment_size}
use ionian_rust.ChunkPool.Types.{FileId, file_id_eq}
use ionian_rust.ChunkPool.WriteControl.{
  FileWriteCtrl, get_file, put_file, write_segment, on_write_succeeded,
}
use ionian_rust.ChunkPool.SegmentCache.{SegmentInfo}
use ionian_rust.ChunkPool.MemPool.{Inner, stored, write_chunks_begin, write_chunks_end}
use ionian_rust.ChunkPool.MemPool.Release.{IsValid}
use ionian_rust.ChunkPool.WriteControl.Duplicates.{
  write_segment-duplicate, on_write_succeeded-panic,
}

-- In a valid pool, a segment that the window of its file has passed is admitted again where the
-- transaction and the size are the same, and when the store has taken it once more, the report of
-- success fails an assertion.
pub write_chunks-duplicate :
    (i : Inner) (s : SegmentInfo) (id : FileId) (size : ℕ) (f : FileWriteCtrl) (b : Bool)
    → IsValid i
    → 0 < s.chunks_per_segment
    → id.root ≡ s.root
    → get_file i.write_control id.root ≡ some f
    → file_id_eq f.id id ≡ true
    → f.total_segments ≡ (compute_segment_size (bytes_to_chunks size) s.chunks_per_segment).0
    → s.seg_index < f.window.left_boundary
    → (i' : Inner) × (write_chunks_begin i s id size ≡ ret (i', ok tt))
      × (write_chunks_end i' s id stored b ≡ panic)
unfolding write_chunks_begin write_chunks_end
write_chunks-duplicate i s id size f b v per same_root e same count lt =
    let n = (compute_segment_size (bytes_to_chunks size) s.chunks_per_segment).0 in
    let c = put_file i.write_control id.root f in
    let run : write_segment i.write_control id s.seg_index n ≡ ret (c, ok tt) =
      write_segment-duplicate i.write_control id s.seg_index n f e same count lt in
    let nonzero : (s.chunks_per_segment == 0) ≡ false = ground arith in
    let fails : on_write_succeeded c s.root s.seg_index ≡ panic =
      subst (λ r. on_write_succeeded c r s.seg_index ≡ panic) same_root
        (on_write_succeeded-panic i.write_control id.root s.seg_index f
          (v.control.windows id.root f e) lt) in
    (
      record i { write_control = c },
      rw (nonzero, write_chunks_begin) (rw (run, write_chunks_begin) refl),
      rw (fails, write_chunks_end) refl,
    )
