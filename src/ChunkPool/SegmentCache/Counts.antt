-- ===== src/ChunkPool/SegmentCache/Counts.antt =====
-- The counts of chunk_cache.rs: the chunks of a file, and those of the whole pool.
use ionian_rust.Base.{
  ℕ, ◌+◌, ◌-◌, ◌/◌, ◌≤◌, ◌<◌, ◌≡◌, refl, inl, inr, none, some, [], ◌∷◌, ltb, ret, length,
  ℕ_discrete, arith, Bool-cases, Returns, Returns-mono, Returns-bind, ltb→lt, le→leb,
}
use ionian_rust.Base.Dict
use ionian_rust.Base.Dict.{Dict, total}
use ionian_rust.SharedTypes.{ChunkArray, chunk_size}
use ionian_rust.ChunkPool.Types.{DataRoot}
use ionian_rust.ChunkPool.SegmentCache.{
  MemoryCachedFile, ChunkPoolCache, get_cached, remove_cached, collect, garbage_collect,
}

abbrev pub cached_num : MemoryCachedFile → ℕ
cached_num f = f.cached_chunk_num

abbrev pub chunks_of : ChunkArray → ℕ
chunks_of a = length a.bytes / chunk_size

-- The count of every file is the sum over its segments.
abbrev pub AreCounted : Dict DataRoot MemoryCachedFile → Type 0
AreCounted [] = Unit {0}
AreCounted ((r, f) ∷ files) = (f.cached_chunk_num ≡ total chunks_of f.segments) × AreCounted files

-- The total of the pool is the sum over its files, within the limit.
pub record IsValid (c : ChunkPoolCache) : Type 0 where
  pub distinct : Dict.Distinct ℕ_discrete c.files
  pub counted : AreCounted c.files
  pub summed : c.total_chunks ≡ total cached_num c.files
  pub limited : c.total_chunks ≤ c.config.max_cached_chunks_all

pub AreCounted-get :
    (root : DataRoot) (m : Dict DataRoot MemoryCachedFile) (f : MemoryCachedFile)
    → AreCounted m
    → Dict.get ℕ_discrete root m ≡ some f
    → f.cached_chunk_num ≡ total chunks_of f.segments
unfolding Dict.get
AreCounted-get root [] f a e = cc
AreCounted-get root ((r, g) ∷ m) f a e = ground (arith, AreCounted-get root m f a.1)

pub AreCounted-insert :
    (root : DataRoot) (f : MemoryCachedFile) (m : Dict DataRoot MemoryCachedFile)
    → AreCounted m
    → f.cached_chunk_num ≡ total chunks_of f.segments
    → AreCounted (Dict.insert ℕ_discrete root f m)
unfolding Dict.insert
AreCounted-insert root f [] a e = (e, tt)
AreCounted-insert root f ((r, g) ∷ m) a e = ground (arith, AreCounted-insert root f m a.1 e)

AreCounted-remove :
    (root : DataRoot) (m : Dict DataRoot MemoryCachedFile)
    → AreCounted m
    → AreCounted (Dict.remove ℕ_discrete root m)
unfolding Dict.remove
AreCounted-remove root [] a = tt
AreCounted-remove root ((r, g) ∷ m) a = ground (arith, AreCounted-remove root m a.1)

-- Taking a file out gives its chunks back, and never hits the assertion.
pub remove_cached-IsValid :
    (c : ChunkPoolCache) (root : DataRoot) (f : MemoryCachedFile)
    → IsValid c
    → get_cached c root ≡ some f
    → (c' : ChunkPoolCache) × (remove_cached c root ≡ ret (c', some f))
      × IsValid c'
      × (get_cached c' root ≡ none)
      × (c'.total_chunks + f.cached_chunk_num ≡ c.total_chunks)
unfolding remove_cached
remove_cached-IsValid c root f v e = (
  record c {
    files = Dict.remove ℕ_discrete root c.files;
    total_chunks = c.total_chunks - f.cached_chunk_num;
  },
  ground (arith, counts),
  record {
    distinct = Dict.remove-Distinct ℕ_discrete root c.files v.distinct;
    counted = AreCounted-remove root c.files v.counted;
    summed = ground (arith, counts, v.summed);
    limited = ground (arith, v.limited);
  },
  ground (arith, Dict.get-remove ℕ_discrete root root c.files),
  ground (arith, counts),
)
  where
    counts :
        total cached_num (Dict.remove ℕ_discrete root c.files) + f.cached_chunk_num ≡ c.total_chunks
    counts =
        ground (arith, e, v.summed, Dict.total-remove ℕ_discrete cached_num root c.files v.distinct)

-- The oldest file has not expired.
abbrev pub FrontIsLive : ℕ → Dict DataRoot MemoryCachedFile → Type 0
FrontIsLive now [] = Unit {0}
FrontIsLive now ((r, f) ∷ files) = now < f.expired_at

-- What the collector leaves of the files `m` that count `n` chunks.
abbrev pub Collected :
    ℕ → Dict DataRoot MemoryCachedFile → ℕ → Dict DataRoot MemoryCachedFile × ℕ → Type 0
Collected now m n (m', n') =
    Dict.Distinct ℕ_discrete m'
    × AreCounted m'
    × FrontIsLive now m'
    × (n' ≤ n)
    × (n' + total cached_num m ≡ n + total cached_num m')

collect_lem :
    (now : ℕ) (m : Dict DataRoot MemoryCachedFile) (n : ℕ)
    → Dict.Distinct ℕ_discrete m
    → AreCounted m
    → total cached_num m ≤ n
    → Returns (Collected now m n) (collect now m n)
unfolding collect
collect_lem now [] n d a h = (tt, tt, tt, omega arith, refl)
collect_lem now ((r, f) ∷ m) n d a h = elim (Bool-cases (ltb now f.expired_at)) [
  | inl live ↦ rw (live, collect) (d, a, ltb→lt now f.expired_at live, omega arith, refl)
  | inr old ↦
      rw (old, collect)
        (rw (le→leb f.cached_chunk_num n (omega arith)) (
          Returns-mono (Collected now m (n - f.cached_chunk_num)) (Collected now ((r, f) ∷ m) n) _
            (λ (m', n') (d', a', l, le, e). (d', a', l, omega arith, omega arith))
            (collect_lem now m (n - f.cached_chunk_num) d.1 a.1 (omega arith))))
]

pub garbage_collect-IsValid :
    (now : ℕ) (c : ChunkPoolCache)
    → IsValid c
    → Returns
        (λ c'. IsValid c' × FrontIsLive now c'.files × (c'.config ≡ c.config))
        (garbage_collect now c)
unfolding garbage_collect
garbage_collect-IsValid now c v =
    Returns-bind (Collected now c.files c.total_chunks) _ (collect now c.files c.total_chunks) _
      (collect_lem now c.files c.total_chunks v.distinct v.counted (omega (arith, v.summed)))
      (λ (m', n') (d, a, l, le, e). (
        record {
          distinct = d;
          counted = a;
          summed = omega (arith, v.summed);
          limited = omega (arith, v.limited);
        },
        l,
        refl,
      ))
