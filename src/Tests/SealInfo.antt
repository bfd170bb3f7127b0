-- ===== src/Tests/SealInfo.antt =====
-- The seals of a load of node/storage/src/log_store/load_chunk, at two contexts.
use ionian_rust.Base.{
  ℕ, ◌+◌, ◌*◌, ◌^◌, ◌≤◌, ◌≡◌, refl, min, if◌then◌else◌, ◌&&◌, none, some, [], ◌∷◌, ltb, leb, ret,
  arith, inr,
}
use ionian_rust.Storage.SealInfo.{
  SealInfo, is_sealed, get_seal_context_digest, set_seal_context, truncated_seal_index,
  truncate_info, seals_per_load,
}
use ionian_rust.Storage.SealInfo.Contexts.{lookup, last_end, get_seal_context_digest-lookup}
use ionian_rust.Seal
use ionian_rust.Storage.SealInfo.RoundTrip
use ionian_rust.Storage.SealInfo.Validity
use ionian_rust.Storage.SealInfo.Validity.{IsValid}

-- The seals 0 and 1 are sealed under the context that ends at 2.
abbrev info : SealInfo
info = record {
  bitmap = λ i. ltb i 2;
  load_index = 3;
  miner_id = 9 ∷ [];
  seal_contexts =
      record { context_digest = 1 ∷ []; end_seal_index = 2 }
      ∷ record { context_digest = 2 ∷ []; end_seal_index = 5 }
      ∷ [];
}

info-IsValid : IsValid info
unfolding lookup
info-IsValid = record {
  ordered = (omega arith, omega arith, (omega arith, omega arith, tt));
  known = λ i g. ground (arith, g, get_seal_context_digest-lookup info i);
}

truncate_info-IsValid_example :
    (s' : SealInfo) × (truncate_info info 3 ≡ ret s')
    × IsValid s'
    × (k : ℕ) × (truncated_seal_index info 3 ≡ ret k)
    × (k ≤ 3)
    × (is_sealed s' 1 ≡ (is_sealed info 1 && ltb 1 k))
    × (get_seal_context_digest s' 1 ≡ (if ltb 1 k then get_seal_context_digest info 1 else none))
truncate_info-IsValid_example = Validity.truncate_info-IsValid info 3 1 info-IsValid (omega arith)

set_seal_context-IsValid_example :
    (s' : SealInfo) × (set_seal_context info (7 ∷ []) (3 * seals_per_load + 9) (9 ∷ []) ≡ ret s')
    × IsValid s'
    × (get_seal_context_digest s' 6 ≡ (
        if leb (last_end 0 info.seal_contexts (min 9 seals_per_load)) 6
          && ltb 6 (min 9 seals_per_load)
        then some (7 ∷ [])
        else get_seal_context_digest info 6))
set_seal_context-IsValid_example =
    Validity.set_seal_context-IsValid info (7 ∷ []) 9 (9 ∷ []) 6 info-IsValid (omega arith)
      (omega arith) (inr refl)
      ((λ e. absurd (omega (arith, e))), ((λ e. absurd (omega (arith, e))), tt))

set_seal_context-wraps_example :
    (s' : SealInfo) × (set_seal_context info
        (7 ∷ [])
        (3 * seals_per_load + (1 * 2 ^ 16 + 9))
        (9 ∷ [])
      ≡ ret s')
    × (get_seal_context_digest s' 20 ≡ get_seal_context_digest info 20)
set_seal_context-wraps_example =
    Validity.set_seal_context-wraps info (7 ∷ []) 1 9 (9 ∷ []) 20 info-IsValid (omega arith)
      (omega arith) (omega arith) (inr refl)
