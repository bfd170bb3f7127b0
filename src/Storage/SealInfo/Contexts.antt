-- ===== src/Storage/SealInfo/Contexts.antt =====
-- The contexts of seal.rs, as a map of the seals of a load.
use ionian_rust.Base.{
  ℕ, suc, ◌+◌, ◌≤◌, ◌<◌, ◌≡◌, refl, ap, subst, ◌∙◌, inl, inr, true, if◌then◌else◌, ◌&&◌, Option,
  none, some, List, [], ◌∷◌, ltb, leb, get_elem?, take, arith, Bool-cases, All, Option-cases,
  ℕ_discrete,
}
use ionian_rust.Storage.SealInfo.{
  SealContextInfo, SealInfo, ends_before, context_index, digest_of, get_seal_context_digest,
  is_same, update_contexts,
}

-- The contexts end one behind the other, from a seal on and within the load.
abbrev pub Sorted : ℕ → List SealContextInfo → Type 0
Sorted low [] = Unit {0}
Sorted low (c ∷ cs) =
    (low < c.end_seal_index) × (c.end_seal_index ≤ 64) × Sorted c.end_seal_index cs

-- The digest of the first context that ends behind a seal.
unfoldable pub lookup : List SealContextInfo → ℕ → Option (List ℕ)
lookup [] i = none
lookup (c ∷ cs) i =
    let rest = lookup cs i in if ltb i c.end_seal_index then some c.context_digest else rest

-- The end of the last context that ends before a seal.
unfoldable pub last_end : ℕ → List SealContextInfo → ℕ → ℕ
last_end low [] k = low
last_end low (c ∷ cs) k =
    let rest = last_end c.end_seal_index cs k in if ltb c.end_seal_index k then rest else low

-- A new context put at its place.
unfoldable pub put : SealContextInfo → List SealContextInfo → List SealContextInfo
put new [] = new ∷ []
put new (c ∷ cs) =
    let rest = put new cs in
    if ltb c.end_seal_index new.end_seal_index
    then c ∷ rest
    else if is_same c.context_digest new.context_digest
    then c ∷ cs
    else new ∷ c ∷ cs

ends-lookup :
    (cs : List SealContextInfo) (i : ℕ)
    → digest_of (get_elem? cs (ends_before (i + 1) cs)) ≡ lookup cs i
unfolding lookup
ends-lookup [] i = refl
ends-lookup (c ∷ cs) i = elim (Bool-cases (ltb i c.end_seal_index)) [
  | inl e ↦ ground (arith, e)
  | inr e ↦ ground (arith, e, ends-lookup cs i)
]

pub get_seal_context_digest-lookup :
    (s : SealInfo) (i : ℕ) → get_seal_context_digest s i ≡ lookup s.seal_contexts i
unfolding get_seal_context_digest context_index
get_seal_context_digest-lookup s i = ends-lookup s.seal_contexts i

update-later :
    (new c : SealContextInfo) (cs : List SealContextInfo) (i : ℕ)
    → update_contexts (suc i) new (c ∷ cs) ≡ c ∷ update_contexts i new cs
update-later new c cs i = elim (Option-cases (get_elem? cs i)) [
  | inl e ↦ rw (e, update_contexts) refl
  | inr (x, e) ↦ elim (Bool-cases (is_same x.context_digest new.context_digest)) [
    | inl g ↦ rw (e, g, update_contexts) refl
    | inr g ↦ rw (e, g, update_contexts) refl
  ]
]

pub update_contexts-put :
    (new : SealContextInfo) (cs : List SealContextInfo)
    → update_contexts (ends_before new.end_seal_index cs) new cs ≡ put new cs
unfolding put
update_contexts-put new [] = refl
update_contexts-put new (c ∷ cs) = elim (Bool-cases (ltb c.end_seal_index new.end_seal_index)) [
  | inl e ↦ rw e (
      update-later new c cs (ends_before new.end_seal_index cs)
      ∙ ap (◌∷◌ c) (update_contexts-put new cs))
  | inr e ↦ rw e refl
]

pub last_end_above :
    (low k : ℕ) (cs : List SealContextInfo) → Sorted low cs → low ≤ last_end low cs k
unfolding last_end
last_end_above low k [] v = omega arith
last_end_above low k (c ∷ cs) (a, b, v) = ground (arith, last_end_above c.end_seal_index k cs v, a)

pub is_same-eq : (xs ys : List ℕ) → is_same xs ys ≡ true → xs ≡ ys
is_same-eq [] [] h = refl
is_same-eq [] (y ∷ ys) h = absurd (cc h)
is_same-eq (x ∷ xs) [] h = absurd (cc h)
is_same-eq (x ∷ xs) (y ∷ ys) h =
    let e : x ≡ y = ground (arith, h) in rw (e, is_same-eq xs ys (ground (arith, h)))

pub is_same_refl : (xs : List ℕ) → is_same xs xs ≡ true
is_same_refl [] = refl
is_same_refl (x ∷ xs) = ground (arith, is_same_refl xs)

pub put-lookup :
    (new : SealContextInfo) (cs : List SealContextInfo) (low i : ℕ)
    → Sorted low cs
    → low ≤ i
    → lookup (put new cs) i ≡ (
        if leb (last_end low cs new.end_seal_index) i && ltb i new.end_seal_index
        then some new.context_digest
        else lookup cs i)
unfolding put lookup last_end
put-lookup new [] low i v h = ground (arith, h)
put-lookup new (c ∷ cs) low i (a, b, v) h =
    elim (Bool-cases (ltb c.end_seal_index new.end_seal_index)) [
      | inl e ↦ rw e (elim (Bool-cases (ltb i c.end_seal_index)) [
        | inl g ↦ ground (arith, g, last_end_above c.end_seal_index new.end_seal_index cs v)
        | inr g ↦ rw (g, put-lookup new cs c.end_seal_index i v (ground (arith, g)))
      ])
      | inr e ↦ elim (Bool-cases (is_same c.context_digest new.context_digest)) [
        | inl g ↦ rw (e, g) (ground (arith, e, h, is_same-eq c.context_digest new.context_digest g))
        | inr g ↦ rw (e, g) (ground (arith, e, h))
      ]
    ]

pub put-Sorted :
    (new : SealContextInfo) (cs : List SealContextInfo) (low : ℕ)
    → Sorted low cs
    → low < new.end_seal_index
    → new.end_seal_index ≤ 64
    → All (λ c. c.end_seal_index ≡ new.end_seal_index → c.context_digest ≡ new.context_digest) cs
    → Sorted low (put new cs)
unfolding put
put-Sorted new [] low v h u f = (h, u, tt)
put-Sorted new (c ∷ cs) low (a, b, v) h u (f, fs) =
    elim (Bool-cases (ltb c.end_seal_index new.end_seal_index)) [
      | inl e ↦ rw e (a, b, put-Sorted new cs c.end_seal_index v (ground (arith, e)) u fs)
      | inr e ↦ elim (Bool-cases (is_same c.context_digest new.context_digest)) [
        | inl g ↦ rw (e, g) (a, b, v)
        | inr g ↦
            rw (e, g)
              (
                h,
                u,
                (
                  elim (ℕ_discrete c.end_seal_index new.end_seal_index) [
                    | no q ↦ ground (arith, e, q)
                    | yes q ↦ absurd (
                        cc (
                          g,
                          subst (λ d. is_same c.context_digest d ≡ true) (f q)
                              (is_same_refl c.context_digest),
                        ))
                  ],
                  b,
                  v,
                ),
              )
      ]
    ]

pub lookup-take :
    (cs : List SealContextInfo) (low i k : ℕ)
    → Sorted low cs
    → low ≤ i
    → lookup (take (ends_before k cs) cs) i
      ≡ (if ltb i (last_end low cs k) then lookup cs i else none)
unfolding lookup last_end
lookup-take [] low i k v h = ground (arith, h)
lookup-take (c ∷ cs) low i k (a, b, v) h = elim (Bool-cases (ltb c.end_seal_index k)) [
  | inl e ↦ rw e (elim (Bool-cases (ltb i c.end_seal_index)) [
    | inl g ↦ ground (arith, g, last_end_above c.end_seal_index k cs v)
    | inr g ↦ rw (g, lookup-take cs c.end_seal_index i k v (ground (arith, g)))
  ])
  | inr e ↦ rw e (ground (arith, h))
]

pub take-Sorted :
    (cs : List SealContextInfo) (low k : ℕ)
    → Sorted low cs
    → Sorted low (take (ends_before k cs) cs)
take-Sorted [] low k v = v
take-Sorted (c ∷ cs) low k (a, b, v) = elim (Bool-cases (ltb c.end_seal_index k)) [
  | inl e ↦ rw e (a, b, take-Sorted cs c.end_seal_index k v)
  | inr e ↦ rw e tt
]

pub last_end_below : (cs : List SealContextInfo) (low k : ℕ) → low < k → last_end low cs k < k
unfolding last_end
last_end_below [] low k h = h
last_end_below (c ∷ cs) low k h = ground (arith, h, last_end_below cs c.end_seal_index k)
