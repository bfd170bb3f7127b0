-- ===== src/ChunkPool/MemPool/Admission.antt =====
-- `write_chunks` of chunk_pool_inner.rs on the first segment of a file.
use ionian_rust.Base.{
  ℕ, ◌+◌, ◌*◌, ◌<◌, ◌≤◌, ◌≡◌, refl, false, none, some, arith, ◌==◌, ret, ok, if◌then◌else◌,
}
use ionian_rust.SharedTypes.{bytes_to_chunks, compute_segment_size}
use ionian_rust.SharedTypes.Sizes.{bytes_to_chunks_bounds, compute_segment_size_covers}
use ionian_rust.ChunkPool.Types.{FileId, DataRoot}
use ionian_rust.ChunkPool.WriteControl.{ChunkPoolWriteCtrl, FileWriteCtrl, get_file, slot, writing}
use ionian_rust.ChunkPool.WriteControl.Admission.{
  untouched, started, with_writer, write_segment-with_writer, started-slot, with_writer-file,
}
use ionian_rust.ChunkPool.SegmentCache.{SegmentInfo}
use ionian_rust.ChunkPool.MemPool.{Inner, write_chunks_begin}

-- The segments of a file that is not empty hold its bytes, and less than one segment more.
segments-bounds :
    (size per : ℕ)
    → 0 < size
    → 0 < per
    → let segments = (compute_segment_size (bytes_to_chunks size) per).0 in
      (size ≤ segments * per * 256) × (segments * per * 256 < size + per * 256)
segments-bounds size per h k =
    let chunks = bytes_to_chunks size in
    let (lo, hi) = bytes_to_chunks_bounds size in
    let some_chunks : 0 < chunks = omega (arith, lo, h) in
    let (sum, least, most) = compute_segment_size_covers chunks per some_chunks k in
    let segments = (compute_segment_size chunks per).0 in
    let enough : chunks ≤ segments * per = omega (arith, sum, most) in
    let few : segments * per < chunks + per = omega (arith, sum, least) in
    (omega (arith, enough, lo), omega (arith, few, hi))

-- `write_chunks` up to its wait on the store, where the file is not tracked and not empty, segments
-- are not empty, the index is within the first window, and there is room for a writer. It admits the
-- segment: the file is tracked under the given identity, with the least number of segments that hold
-- its bytes; of its slots just the one of the segment is being written; there is one writer more;
-- the other files are tracked as before, and the cache is as it was.
pub write_chunks_begin-started :
    (i : Inner) (s : SegmentInfo) (id : FileId) (size j : ℕ) (root : DataRoot)
    → get_file i.write_control id.root ≡ none
    → 0 < size
    → 0 < s.chunks_per_segment
    → s.seg_index < i.write_control.config.write_window_size
    → i.write_control.total_writings < i.write_control.config.max_writings
    → (c : ChunkPoolWriteCtrl) × (f : FileWriteCtrl) × (write_chunks_begin i s id size
        ≡ ret (record i { write_control = c }, ok tt))
      × (get_file c root ≡ (if id.root == root then some f else get_file i.write_control root))
      × (f.id ≡ id)
      × (size ≤ f.total_segments * s.chunks_per_segment * 256)
      × (f.total_segments * s.chunks_per_segment * 256 < size + s.chunks_per_segment * 256)
      × (slot f.window j ≡ (if s.seg_index == j then some writing else none))
      × (c.total_writings ≡ i.write_control.total_writings + 1)
unfolding write_chunks_begin
write_chunks_begin-started i s id size j root e h k lo room =
    let c = i.write_control in
    let segments = (compute_segment_size (bytes_to_chunks size) s.chunks_per_segment).0 in
    let nonzero : (s.chunks_per_segment == 0) ≡ false = ground arith in
    let (least, most) = segments-bounds size s.chunks_per_segment h k in
    let f = untouched id segments c.config.write_window_size in
    (
      with_writer c id s.seg_index f,
      started f s.seg_index,
      rw (nonzero, write_segment-with_writer c id s.seg_index segments e lo room) refl,
      with_writer-file c id s.seg_index f root,
      refl,
      least,
      most,
      started-slot id segments c.config.write_window_size s.seg_index j,
      refl,
    )
