-- ===== src/Storage/SealInfo/Validity.antt =====
-- The invariant of seal.rs: the contexts of a load are in order, and a sealed seal has one.
use ionian_rust.Base.{
  ℕ, zero, suc, ◌+◌, ◌-◌, ◌*◌, ◌%◌, ◌^◌, ◌≤◌, ◌<◌, ◌≡◌, refl, ap, sym, ◌∙◌, ◌⊎◌, inl, inr, min,
  Bool, true, false, if◌then◌else◌, ◌&&◌, Option, none, some, List, [], ◌∷◌, ltb, leb, get_elem?,
  take, ret, arith, Bool-cases, is_some, All,
}
use ionian_rust.Storage.SealInfo.{
  SealContextInfo, SealInfo, seals_per_load, is_sealed, ends_before, context_index,
  get_seal_context_digest, is_same, is_zero, set_seal_context, end_of_context, truncated_seal_index,
  truncate_info,
}
use ionian_rust.Storage.SealInfo.Contexts.{
  Sorted, last_end, put, get_seal_context_digest-lookup, update_contexts-put, put-lookup,
  put-Sorted, lookup-take, take-Sorted, is_same_refl, last_end_below,
}

-- The contexts are in order, and every seal that is sealed has one.
pub record IsValid (s : SealInfo) : Type 0 where
  pub ordered : Sorted 0 s.seal_contexts
  pub known : (i : ℕ) → is_sealed s i ≡ true → is_some (get_seal_context_digest s i) ≡ true

-- `truncated_seal_index` is the end of the last context that is kept.
end_of_kept :
    (cs : List SealContextInfo) (low k : ℕ)
    → elim (ends_before k cs) [ zero ↦ ret low | suc i ↦ end_of_context (get_elem? cs i) ]
      ≡ ret (last_end low cs k)
unfolding last_end
end_of_kept [] low k = refl
end_of_kept (c ∷ cs) low k = elim (Bool-cases (ltb c.end_seal_index k)) [
  | inr e ↦ rw e refl
  | inl e ↦ rw e (later (ends_before k cs) ∙ end_of_kept cs c.end_seal_index k)
]
  where
    later :
        (n : ℕ)
        → end_of_context (get_elem? (c ∷ cs) n)
          ≡ elim n [ zero ↦ ret c.end_seal_index | suc i ↦ end_of_context (get_elem? cs i) ]
    later zero = refl
    later (suc i) = refl

truncated_seal_index-last_end :
    (s : SealInfo) (r : ℕ) → truncated_seal_index s r ≡ ret (last_end 0 s.seal_contexts (r + 1))
unfolding truncated_seal_index context_index
truncated_seal_index-last_end s r = end_of_kept s.seal_contexts 0 (r + 1)

and_left : (a b : Bool) → (a && b) ≡ true → a ≡ true
and_left true b h = refl
and_left false b h = h

and_right : (a b : Bool) → (a && b) ≡ true → b ≡ true
and_right true b h = h
and_right false b h = absurd (cc h)

-- Truncating a valid information at a seal of the load does not panic. It cuts at a seal that is not
-- behind the given one: before the cut, seals and digests are as they were, and from it on there are
-- none. The information stays valid.
pub truncate_info-IsValid :
    (s : SealInfo) (r i : ℕ)
    → IsValid s
    → r < seals_per_load
    → (s' : SealInfo) × (truncate_info s r ≡ ret s')
      × IsValid s'
      × (k : ℕ) × (truncated_seal_index s r ≡ ret k)
      × (k ≤ r)
      × (is_sealed s' i ≡ (is_sealed s i && ltb i k))
      × (get_seal_context_digest s' i ≡ (if ltb i k then get_seal_context_digest s i else none))
unfolding truncate_info context_index
truncate_info-IsValid s r i v h = (
  s',
  rw run (
      ap
        (λ j. ret (record s {
          bitmap = λ b. s.bitmap b && ltb b j;
          seal_contexts = take (ends_before (r + 1) s.seal_contexts) s.seal_contexts;
        }))
        small),
  record {
    ordered = take-Sorted s.seal_contexts 0 (r + 1) v.ordered;
    known = λ j g.
        rw (digest j, and_right (s.bitmap j) (ltb j k) g)
          (v.known j (and_left (s.bitmap j) (ltb j k) g));
  },
  k,
  run,
  below,
  refl,
  digest i,
)
  where
    k : ℕ
    k = last_end 0 s.seal_contexts (r + 1)

    s' : SealInfo
    s' = record s {
      bitmap = λ j. s.bitmap j && ltb j k;
      seal_contexts = take (ends_before (r + 1) s.seal_contexts) s.seal_contexts;
    }

    run : truncated_seal_index s r ≡ ret k
    run = truncated_seal_index-last_end s r

    below : k ≤ r
    below = omega (arith, last_end_below s.seal_contexts 0 (r + 1) (omega arith))

    small : k % 64 ≡ k
    small = omega (arith, below, h)

    digest :
        (j : ℕ)
        → get_seal_context_digest s' j ≡ (if ltb j k then get_seal_context_digest s j else none)
    digest j =
        get_seal_context_digest-lookup s' j
        ∙ lookup-take s.seal_contexts 0 j (r + 1) v.ordered (omega arith)
        ∙ ap (λ d. if ltb j k then d else none) (sym (get_seal_context_digest-lookup s j))

is_zero-or_same :
    (s : SealInfo) (miner : List ℕ)
    → (is_zero s.miner_id ≡ true) ⊎ (s.miner_id ≡ miner)
    → is_same (if is_zero s.miner_id then miner else s.miner_id) miner ≡ true
is_zero-or_same s miner (inl z) = rw z (is_same_refl miner)
is_zero-or_same s miner (inr e) = elim (Bool-cases (is_zero s.miner_id)) [
  | inl z ↦ rw z (is_same_refl miner)
  | inr z ↦ rw (z, e) (is_same_refl miner)
]

-- The end of a context that is `n` seals behind the start of the load, as it is computed.
local_end :
    (s : SealInfo) (n : ℕ)
    → (s.load_index * seals_per_load + n + 2 ^ 64 - s.load_index * seals_per_load % 2 ^ 64)
        % 2 ^ 64
        % 2 ^ 16
      ≡ n % 2 ^ 16
local_end s n = omega arith

-- The information with a context that ends at a seal put at its place.
abbrev pub with_context : SealInfo → List ℕ → ℕ → List ℕ → SealInfo
with_context s digest end_seal_index miner = record s {
  miner_id = if is_zero s.miner_id then miner else s.miner_id;
  seal_contexts =
      put (record { context_digest = digest; end_seal_index = end_seal_index }) s.seal_contexts;
}

pub set_seal_context-with_context :
    (s : SealInfo) (digest : List ℕ) (n : ℕ) (miner : List ℕ)
    → (is_zero s.miner_id ≡ true) ⊎ (s.miner_id ≡ miner)
    → set_seal_context s digest (s.load_index * seals_per_load + n) miner
      ≡ ret (with_context s digest (min (n % 2 ^ 16) seals_per_load) miner)
unfolding set_seal_context
set_seal_context-with_context s digest n miner m =
    rw (local_end s n, is_zero-or_same s miner m, key)
      (ap
        (λ l. ret (record s {
          miner_id = if is_zero s.miner_id then miner else s.miner_id;
          seal_contexts = l;
        }))
        (update_contexts-put
          (record { context_digest = digest; end_seal_index = min (n % 2 ^ 16) seals_per_load })
          s.seal_contexts))
  where
    key :
        ((min (n % 2 ^ 16) seals_per_load + 2 ^ 16 - 1) % 2 ^ 16 + 1) % 2 ^ 16
        ≡ min (n % 2 ^ 16) seals_per_load
    key = omega arith

-- Where the end of the context is not cut to 16 bits.
pub set_seal_context-near :
    (s : SealInfo) (digest : List ℕ) (n : ℕ) (miner : List ℕ)
    → n < 2 ^ 16
    → (is_zero s.miner_id ≡ true) ⊎ (s.miner_id ≡ miner)
    → set_seal_context s digest (s.load_index * seals_per_load + n) miner
      ≡ ret (with_context s digest (min n seals_per_load) miner)
set_seal_context-near s digest n miner h m =
    let fits : n % 2 ^ 16 ≡ n = omega (arith, h) in
    set_seal_context-with_context s digest n miner m
    ∙ ap (λ q. ret (with_context s digest (min q seals_per_load) miner)) fits

pub with_context-digest :
    (s : SealInfo) (digest : List ℕ) (k : ℕ) (miner : List ℕ) (i : ℕ)
    → Sorted 0 s.seal_contexts
    → get_seal_context_digest (with_context s digest k miner) i ≡ (
        if leb (last_end 0 s.seal_contexts k) i && ltb i k
        then some digest
        else get_seal_context_digest s i)
with_context-digest s digest k miner i v =
    get_seal_context_digest-lookup (with_context s digest k miner) i
    ∙ put-lookup (record { context_digest = digest; end_seal_index = k }) s.seal_contexts 0 i v
        (omega arith)
    ∙ ap (λ d. if leb (last_end 0 s.seal_contexts k) i && ltb i k then some digest else d)
        (sym (get_seal_context_digest-lookup s i))

is_some-or :
    {A : Type 0} (b : Bool) (a : A) (o : Option A)
    → is_some o ≡ true
    → is_some (if b then some a else o) ≡ true
is_some-or true a o h = refl
is_some-or false a o h = h

-- Setting a context that ends `n` seals behind the start of the load, for the same miner or the
-- first one, does not panic where `n` is from 1 to below 2^16 and no context of another digest ends
-- at that seal. The seals from the end of the context before it up to its own end, or to that of the
-- load, have its digest then, and the others the digest that they had. The information stays valid.
pub set_seal_context-IsValid :
    (s : SealInfo) (digest : List ℕ) (n : ℕ) (miner : List ℕ) (i : ℕ)
    → IsValid s
    → 0 < n
    → n < 2 ^ 16
    → (is_zero s.miner_id ≡ true) ⊎ (s.miner_id ≡ miner)
    → All (λ c. c.end_seal_index ≡ min n seals_per_load → c.context_digest ≡ digest) s.seal_contexts
    → (s' : SealInfo) × (set_seal_context s digest (s.load_index * seals_per_load + n) miner
        ≡ ret s')
      × IsValid s'
      × (get_seal_context_digest s' i ≡ (
          if leb (last_end 0 s.seal_contexts (min n seals_per_load)) i
            && ltb i (min n seals_per_load)
          then some digest
          else get_seal_context_digest s i))
set_seal_context-IsValid s digest n miner i v lo hi m f =
    let k = min n seals_per_load in
    (
      with_context s digest k miner,
      set_seal_context-near s digest n miner hi m,
      record {
        ordered =
            put-Sorted (record { context_digest = digest; end_seal_index = k }) s.seal_contexts 0
              v.ordered (omega (arith, lo)) (omega arith) f;
        known = λ j g.
            rw (with_context-digest s digest k miner j v.ordered)
              (is_some-or _ digest (get_seal_context_digest s j) (v.known j g));
      },
      with_context-digest s digest k miner i v.ordered,
    )

-- A context that ends behind the load, a multiple of 2^16 and `m` more seals from the start of the
-- load with `m` below 64, is set in a valid information without a panic for the same miner or the
-- first one, but the seals of the load from `m` on, which it is for, keep what they had: those
-- without a context stay without one.
pub set_seal_context-wraps :
    (s : SealInfo) (digest : List ℕ) (n m : ℕ) (miner : List ℕ) (i : ℕ)
    → IsValid s
    → 0 < n
    → m ≤ i
    → i < seals_per_load
    → (is_zero s.miner_id ≡ true) ⊎ (s.miner_id ≡ miner)
    → (s' : SealInfo) × (set_seal_context s digest
          (s.load_index * seals_per_load + (n * 2 ^ 16 + m))
          miner
        ≡ ret s')
      × (get_seal_context_digest s' i ≡ get_seal_context_digest s i)
set_seal_context-wraps s digest n m miner i v behind lo hi same =
    let far = n * 2 ^ 16 + m in
    let cast : min (far % 2 ^ 16) seals_per_load ≡ m = omega (arith, lo, hi) in
    (
      with_context s digest m miner,
      set_seal_context-with_context s digest far miner same
          ∙ ap (λ k. ret (with_context s digest k miner)) cast,
      with_context-digest s digest m miner i v.ordered ∙ ground (arith, lo),
    )
