-- ===== src/ChunkPool/SegmentCache/Caching.antt =====
-- `cache_segment` of chunk_cache.rs on every branch.
use ionian_rust.Base.{
  ℕ, ◌+◌, ◌/◌, ◌≤◌, ◌<◌, ◌≡◌, refl, Bool, true, false, inl, inr, some, ltb, is_some, Result, ok,
  err, length, ℕ_discrete, arith, Bool-cases, Option-cases, Returns, Returns-bind, ltb→lt,
}
use ionian_rust.Base.Dict
use ionian_rust.Base.Dict.{Dict, total}
use ionian_rust.SharedTypes.{chunk_size}
use ionian_rust.ChunkPool.Types.{DataRoot}
use ionian_rust.ChunkPool.SegmentCache.{
  SegmentInfo, to_chunk_array, MemoryCachedFile, ChunkPoolCache, get_cached, garbage_collect,
  CacheError, cached_or_new, new_cached_file, cache_collected, cache_segment, is_completed,
}
use ionian_rust.ChunkPool.SegmentCache.Counts.{
  cached_num, chunks_of, IsValid, AreCounted-get, AreCounted-insert, garbage_collect-IsValid,
}

-- The file that is worked on is counted, and its entry leaves the sum alone.
cached_or_new-counted :
    (now : ℕ) (c : ChunkPoolCache) (root : DataRoot)
    → IsValid c
    → ((cached_or_new c now root).cached_chunk_num
        ≡ total chunks_of (cached_or_new c now root).segments)
      × (total cached_num (Dict.insert ℕ_discrete root (cached_or_new c now root) c.files)
          ≡ total cached_num c.files)
cached_or_new-counted now c root v = elim (Option-cases (get_cached c root)) [
  | inl e ↦
      rw (e, cached_or_new)
        (
          refl,
          ground (
            arith,
            e,
            Dict.total-insert ℕ_discrete cached_num root
                (new_cached_file root (now + c.config.expiration_time)) c.files,
          ),
        )
  | inr (f, e) ↦
      rw (e, cached_or_new)
        (
          AreCounted-get root c.files f v.counted e,
          ground (arith, e, Dict.total-insert ℕ_discrete cached_num root f c.files),
        )
]

-- Storing a counted file, with the total of the pool adjusted.
put-IsValid :
    (c : ChunkPoolCache) (root : DataRoot) (f : MemoryCachedFile) (n : ℕ)
    → IsValid c
    → f.cached_chunk_num ≡ total chunks_of f.segments
    → n ≡ total cached_num (Dict.insert ℕ_discrete root f c.files)
    → n ≤ c.config.max_cached_chunks_all
    → IsValid (record c { files = Dict.insert ℕ_discrete root f c.files; total_chunks = n })
put-IsValid c root f n v known sum lim = record {
  distinct = Dict.insert-Distinct ℕ_discrete root f c.files v.distinct;
  counted = AreCounted-insert root f c.files v.counted known;
  summed = sum;
  limited = lim;
}

-- The file with a new segment.
abbrev with_segment : ℕ → ChunkPoolCache → MemoryCachedFile → SegmentInfo → MemoryCachedFile
with_segment now c f s = record f {
  cached_chunk_num = f.cached_chunk_num + length s.seg_data / chunk_size;
  expired_at = now + c.config.expiration_time;
  segments = Dict.insert ℕ_discrete s.seg_index (to_chunk_array s) f.segments;
}

with_segment-counted :
    (now : ℕ) (c : ChunkPoolCache) (f : MemoryCachedFile) (s : SegmentInfo)
    → is_some (Dict.get ℕ_discrete s.seg_index f.segments) ≡ false
    → f.cached_chunk_num ≡ total chunks_of f.segments
    → (with_segment now c f s).cached_chunk_num ≡ total chunks_of (with_segment now c f s).segments
with_segment-counted now c f s new known = ground (
  arith,
  new,
  known,
  Dict.total-insert ℕ_discrete chunks_of s.seg_index (to_chunk_array s) f.segments,
)

-- What `cache_segment` answers. An error means that the segment would exceed the limit of the
-- pool; else the segment is in the file, and the answer is whether the file is complete.
abbrev pub Answers : SegmentInfo → ChunkPoolCache × Result CacheError Bool → Type 0
Answers s (c, err e) =
    c.config.max_cached_chunks_all < c.total_chunks + length s.seg_data / chunk_size
Answers s (c, ok b) =
    (f : MemoryCachedFile) × (get_cached c s.root ≡ some f)
    × (is_some (Dict.get ℕ_discrete s.seg_index f.segments) ≡ true)
    × (is_completed f ≡ b)

cache_collected-IsValid :
    (now : ℕ) (c : ChunkPoolCache) (s : SegmentInfo)
    → IsValid c
    → IsValid (cache_collected now c s).0 × Answers s (cache_collected now c s)
unfolding cache_collected
cache_collected-IsValid now c s v =
    let f = cached_or_new c now s.root in
    let (known, same) = cached_or_new-counted now c s.root v in
    let num = length s.seg_data / chunk_size in
    elim (Bool-cases (is_some (Dict.get ℕ_discrete s.seg_index f.segments))) [
      | inl old ↦
          rw (old, cache_collected)
            (
              put-IsValid c s.root f c.total_chunks v known (omega (arith, v.summed)) v.limited,
              (f, ground (arith, Dict.get-insert ℕ_discrete s.root s.root f c.files), old, refl),
            )
      | inr new ↦ elim (Bool-cases (ltb c.config.max_cached_chunks_all (c.total_chunks + num))) [
        | inl full ↦
            rw (new, full, cache_collected)
              (
                put-IsValid c s.root f c.total_chunks v known (omega (arith, v.summed)) v.limited,
                ltb→lt _ _ full,
              )
        | inr fits ↦
            let g = with_segment now c f s in
            rw (new, fits, cache_collected)
              (
                put-IsValid c s.root g (c.total_chunks + num) v
                    (with_segment-counted now c f s new known)
                    (omega (
                      arith,
                      v.summed,
                      same,
                      Dict.total-insert ℕ_discrete cached_num s.root g c.files,
                      Dict.total-insert ℕ_discrete cached_num s.root f c.files,
                    ))
                    (ground arith),
                (
                  g,
                  ground (arith, Dict.get-insert ℕ_discrete s.root s.root g c.files),
                  ground (
                    arith,
                    Dict.get-insert ℕ_discrete s.seg_index s.seg_index (to_chunk_array s)
                        f.segments,
                  ),
                  refl,
                ),
              )
      ]
    ]

-- From a valid pool, caching a segment never hits the assertion on the counts, and leaves a valid
-- pool that holds the segment, or refuses it for the limit.
pub cache_segment-IsValid :
    (now : ℕ) (c : ChunkPoolCache) (s : SegmentInfo)
    → IsValid c
    → Returns (λ q. IsValid q.0 × Answers s q) (cache_segment now c s)
unfolding cache_segment
cache_segment-IsValid now c s v =
    Returns-bind _ _ (garbage_collect now c) _ (garbage_collect-IsValid now c v)
      (λ c' g. cache_collected-IsValid now c' s g.0)
