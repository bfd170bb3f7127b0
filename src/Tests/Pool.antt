-- ===== src/Tests/Pool.antt =====
-- The chunk pool of node/chunk_pool at small states.
use ionian_rust.Base.{ok}
use ionian_rust.SharedTypes.{compute_segment_size, bytes_to_chunks}
use ionian_rust.ChunkPool.MemPool.Duplicates
use ionian_rust.Base.{
  ℕ, ◌+◌, ◌<◌, ◌≤◌, ◌≡◌, ◌≢◌, refl, ◌⊎◌, true, false, ◌||◌, List, [], ◌∷◌, some, none, ret, panic,
  err, arith, ℕ_discrete, subst, length, Returns, replicate, leb, ◌==◌,
}
use ionian_rust.Base.Dict
use ionian_rust.ChunkPool.Types.{Config, TxId, file_id_eq}
use ionian_rust.ChunkPool.WriteControl.{
  CtrlWindow, writing, finished, slot, FileWriteCtrl, ChunkPoolWriteCtrl, finish_writing,
  write_segment, on_write_succeeded, on_write_failed, tx_reverted, get_file,
}
use ionian_rust.ChunkPool.WriteControl.Window
use ionian_rust.ChunkPool.WriteControl.Window.{completed, freed}
use ionian_rust.ChunkPool.WriteControl.Uploaded
use ionian_rust.ChunkPool.WriteControl.Uploaded.{uploaded}
use ionian_rust.ChunkPool.WriteControl.Writers
use ionian_rust.ChunkPool.WriteControl.Writers.{in_flight, writers}
use ionian_rust.ChunkPool.WriteControl.Segment
use ionian_rust.ChunkPool.WriteControl.Segment.{Leaves}
use ionian_rust.ChunkPool.SegmentCache.{
  ChunkPoolCache, MemoryCachedFile, SegmentInfo, cache_segment, get_cached,
}
use ionian_rust.ChunkPool.SegmentCache.Counts
use ionian_rust.ChunkPool.SegmentCache.Caching
use ionian_rust.ChunkPool.SegmentCache.Caching.{Answers}
use ionian_rust.ChunkPool.MemPool.{
  Inner, stored, reverted, write_all_cached_chunks_and_finalize, write_chunks_begin,
  write_chunks_end,
}
use ionian_rust.ChunkPool.MemPool.Release
use ionian_rust.ChunkPool.MemPool.Writes
use ionian_rust.ChunkPool.MemPool.Admission
use ionian_rust.Base.{if◌then◌else◌, ◌*◌, ok, ◌==◌, none}

abbrev config : Config
config = record {
  write_window_size = 4;
  max_cached_chunks_all = 100;
  max_writings = 8;
  expiration_time = 30;
}

-- Segment 0 is being written and segment 1 is finished.
abbrev window : CtrlWindow
window = record { size = 4; left_boundary = 0; slots = (0, writing) ∷ (1, finished) ∷ [] }

slot_bounds : (i : ℕ) (s : _) → slot window i ≡ some s → (0 ≤ i) × (i < 4)
unfolding Dict.get
slot_bounds i s h = ground arith

window-IsValid : Window.IsValid window
unfolding Dict.get ℕ_discrete
window-IsValid = record {
  bounded = record {
    distinct = (refl, (refl, tt));
    above = λ i s h. (slot_bounds i s h).0;
    below = λ i s h. (slot_bounds i s h).1;
  };
  moved = λ h. cc;
}

held : slot window 0 ≡ some writing
unfolding Dict.get ℕ_discrete
held = refl

finish_writing-uploaded_example :
    (w' : CtrlWindow) × (finish_writing window 0 ≡ ret w')
    × Window.IsValid w'
    × ((i : ℕ) → uploaded w' i ≡ (0 == i || uploaded window i))
    × ((i : ℕ) → i < w'.left_boundary → uploaded w' i ≡ true)
    × (uploaded w' w'.left_boundary ≡ false)
finish_writing-uploaded_example = Uploaded.finish_writing-uploaded window 0 held window-IsValid

abbrev tx : ℕ → TxId
tx n = record { seq = n; hash = 40 + n }

abbrev upload : FileWriteCtrl
upload = record { id = record { root = 7; tx_id = tx 1 }; total_segments = 3; window = window }

abbrev ctrl : ChunkPoolWriteCtrl
ctrl = record { config = config; files = (7, upload) ∷ []; total_writings = 1 }

upload_of : (root : ℕ) (f : FileWriteCtrl) → get_file ctrl root ≡ some f → upload ≡ f
unfolding Dict.get get_file ℕ_discrete
upload_of root f h = ground arith

ctrl-IsValid : Writers.IsValid ctrl
unfolding Dict.get get_file ℕ_discrete
ctrl-IsValid = record {
  distinct = (refl, tt);
  windows = λ root f h. subst (λ g. Window.IsValid g.window) (upload_of root f h) window-IsValid;
  counted = omega arith;
  limited = omega arith;
}

tracked : get_file ctrl 7 ≡ some upload
unfolding Dict.get get_file ℕ_discrete
tracked = refl

write_segment-Leaves_example :
    Leaves ctrl (write_segment ctrl (record { root = 7; tx_id = tx 1 }) 2 3)
write_segment-Leaves_example =
    Segment.write_segment-Leaves ctrl (record { root = 7; tx_id = tx 1 }) 2 3 ctrl-IsValid

other_tx : file_id_eq upload.id (record { root = 7; tx_id = tx 2 }) ≡ false
other_tx = refl

write_segment-reverted_example :
    (c' : ChunkPoolWriteCtrl) × (write_segment ctrl (record { root = 7; tx_id = tx 2 }) 2 3
      ≡ ret (c', err tx_reverted))
    × (get_file c' 7 ≡ none)
    × (c'.total_writings ≡ 1)
    × (in_flight c' + writers upload ≡ in_flight ctrl)
    × (on_write_succeeded c' 7 0 ≡ ret (c', false))
    × (on_write_failed c' 7 0 ≡ ret c')
write_segment-reverted_example =
    Segment.write_segment-reverted ctrl (record { root = 7; tx_id = tx 2 }) 2 3 0 upload
      ctrl-IsValid tracked other_tx

on_write_succeeded-IsValid_example :
    (c' : ChunkPoolWriteCtrl) × (on_write_succeeded ctrl 7 0
      ≡ ret (c', leb 3 (completed window 0).left_boundary))
    × Writers.IsValid c'
    × (c'.total_writings + 1 ≡ 1)
    × (in_flight c' + 1 ≡ in_flight ctrl)
on_write_succeeded-IsValid_example =
    Writers.on_write_succeeded-IsValid ctrl 7 0 upload ctrl-IsValid tracked held

on_write_failed-IsValid_example :
    (c' : ChunkPoolWriteCtrl) × (on_write_failed ctrl 7 0 ≡ ret c')
    × Writers.IsValid c'
    × (get_file c' 7 ≡ some (record upload { window = freed window 0 }))
    × (c'.total_writings + 1 ≡ 1)
    × (in_flight c' + 1 ≡ in_flight ctrl)
on_write_failed-IsValid_example =
    Writers.on_write_failed-IsValid ctrl 7 0 upload ctrl-IsValid tracked held

-- One chunk of 256 bytes, and the file that holds it.
abbrev chunk : List ℕ
chunk = replicate 256 0

chunk-length : length chunk ≡ 256
chunk-length = refl

abbrev segment : SegmentInfo
segment = record { root = 9; seg_data = chunk; seg_index = 1; chunks_per_segment = 4 }

abbrev cached : MemoryCachedFile
cached = record {
  id = record { root = 5; tx_id = tx 3 };
  segments = (0, record { bytes = chunk; start_index = 0 }) ∷ [];
  total_chunks = 2;
  expired_at = 50;
  cached_chunk_num = 1;
}

abbrev pool_cache : ChunkPoolCache
pool_cache = record { config = config; files = (5, cached) ∷ []; total_chunks = 1 }

pool_cache-IsValid : Counts.IsValid pool_cache
unfolding Dict.get
pool_cache-IsValid = record {
  distinct = (refl, tt);
  counted = (ground (arith, chunk-length), tt);
  summed = ground (arith, chunk-length);
  limited = omega arith;
}

cache_segment-IsValid_example :
    Returns (λ q. Counts.IsValid q.0 × Answers segment q) (cache_segment 40 pool_cache segment)
cache_segment-IsValid_example =
    Caching.cache_segment-IsValid 40 pool_cache segment pool_cache-IsValid

abbrev inner : Inner
inner = record { config = config; segment_cache = pool_cache; write_control = ctrl }

inner-IsValid : Release.IsValid inner
inner-IsValid = record { cache = pool_cache-IsValid; control = ctrl-IsValid }

in_cache : get_cached pool_cache 5 ≡ some cached
unfolding Dict.get ℕ_discrete
in_cache = refl

write_all-panic_example : write_all_cached_chunks_and_finalize inner 5 (λ s. stored) true ≡ panic
write_all-panic_example =
    Release.write_all-panic inner 5 cached (λ s. stored) true inner-IsValid (omega arith) in_cache

not_tracked : get_file ctrl 9 ≡ none
unfolding get_file Dict.get ℕ_discrete
not_tracked = refl

-- Segment 1 of a file of 2000 bytes, which has two segments of four chunks.
write_chunks_begin-started_example :
    (c : ChunkPoolWriteCtrl) × (f : FileWriteCtrl) × (write_chunks_begin inner segment
        (record { root = 9; tx_id = tx 4 })
        2000
      ≡ ret (record inner { write_control = c }, ok tt))
    × (get_file c 9 ≡ (if 9 == 9 then some f else get_file ctrl 9))
    × (f.id ≡ record { root = 9; tx_id = tx 4 })
    × (2000 ≤ f.total_segments * 4 * 256)
    × (f.total_segments * 4 * 256 < 2000 + 4 * 256)
    × (slot f.window 1 ≡ (if 1 == 1 then some writing else none))
    × (c.total_writings ≡ 1 + 1)
write_chunks_begin-started_example =
    Admission.write_chunks_begin-started inner segment (record { root = 9; tx_id = tx 4 }) 2000 1 9
      not_tracked (omega arith) (omega arith) (omega arith) (omega arith)

abbrev first : SegmentInfo
first = record { root = 7; seg_data = chunk; seg_index = 0; chunks_per_segment = 4 }

write_chunks_end-IsValid_example :
    Returns
      (λ q.
        Release.IsValid q.0
        × (q.0.write_control.total_writings + 1 ≡ 1)
        × ((reverted ≢ reverted) ⊎ (get_file q.0.write_control 7 ≡ none)))
      (write_chunks_end inner first (record { root = 7; tx_id = tx 1 }) reverted true)
write_chunks_end-IsValid_example =
    Writes.write_chunks_end-IsValid inner first (record { root = 7; tx_id = tx 1 }) upload reverted
      true inner-IsValid tracked held

-- Segment 0 is in the store, and segment 1 is being written.
abbrev passed_window : CtrlWindow
passed_window = record { size = 4; left_boundary = 1; slots = (1, writing) ∷ [] }

passed_bounds : (i : ℕ) (s : _) → slot passed_window i ≡ some s → (1 ≤ i) × (i < 5)
unfolding Dict.get
passed_bounds i s h = ground arith

passed_window-IsValid : Window.IsValid passed_window
unfolding Dict.get ℕ_discrete
passed_window-IsValid = record {
  bounded = record {
    distinct = (refl, tt);
    above = λ i s h. (passed_bounds i s h).0;
    below = λ i s h. (passed_bounds i s h).1;
  };
  moved = λ h. cc;
}

abbrev passed : FileWriteCtrl
passed = record {
  id = record { root = 7; tx_id = tx 1 };
  total_segments = 3;
  window = passed_window;
}

abbrev passed_inner : Inner
passed_inner = record {
  config = config;
  segment_cache = pool_cache;
  write_control = record { config = config; files = (7, passed) ∷ []; total_writings = 1 };
}

passed_of :
    (root : ℕ) (f : FileWriteCtrl) → get_file passed_inner.write_control root ≡ some f → passed ≡ f
unfolding Dict.get get_file
passed_of root f h = ground arith

passed_inner-IsValid : Release.IsValid passed_inner
unfolding Dict.get get_file ℕ_discrete
passed_inner-IsValid = record {
  cache = pool_cache-IsValid;
  control = record {
    distinct = (refl, tt);
    windows =
        λ root f h. subst (λ g. Window.IsValid g.window) (passed_of root f h) passed_window-IsValid;
    counted = omega arith;
    limited = omega arith;
  };
}

tracked_passed : get_file passed_inner.write_control 7 ≡ some passed
unfolding Dict.get get_file ℕ_discrete
tracked_passed = refl

three_segments : 3 ≡ (compute_segment_size (bytes_to_chunks 3000) 4).0
unfolding compute_segment_size bytes_to_chunks
three_segments = refl

write_chunks-duplicate_example :
    (i' : Inner) × (write_chunks_begin passed_inner first (record { root = 7; tx_id = tx 1 }) 3000
      ≡ ret (i', ok tt))
    × (write_chunks_end i' first (record { root = 7; tx_id = tx 1 }) stored true ≡ panic)
write_chunks-duplicate_example =
    Duplicates.write_chunks-duplicate passed_inner first (record { root = 7; tx_id = tx 1 }) 3000
      passed true passed_inner-IsValid (omega arith) refl tracked_passed refl three_segments
      (omega arith)
