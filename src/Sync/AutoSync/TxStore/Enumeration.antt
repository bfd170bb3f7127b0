-- ===== src/Sync/AutoSync/TxStore/Enumeration.antt =====
-- tx_store.rs keeps its two maps inverse to each other, and is a plain set.
use ionian_rust.Base.{
  ℕ, ◌+◌, ◌-◌, ◌%◌, ◌<◌, ◌≡◌, ◌≢◌, refl, ◌⊎◌, inl, inr, true, not, ◌||◌, ◌&&◌, if◌then◌else◌, none,
  some, ◌==◌, is_some, ret, ℕ_discrete, arith, Bool-cases, Option-cases,
}
use native.Mathlib.Nat.{mod-lt}
use ionian_rust.Base.Dict
use ionian_rust.Sync.AutoSync.TxStore.{
  TxStore, empty, index_of, at, has, add, random, remove_at, remove,
}

-- The indices below the count, and they alone, have an element, and the two maps are inverse.
pub record IsValid (s : TxStore) : Type 0 where
  pub below : (i q : ℕ) → at s i ≡ some q → i < s.num
  pub filled : (i : ℕ) → i < s.num → is_some (at s i) ≡ true
  pub indexed : (i q : ℕ) → at s i ≡ some q → index_of s q ≡ some i
  pub placed : (i q : ℕ) → index_of s q ≡ some i → at s i ≡ some q

pub empty-IsValid : IsValid empty
unfolding Dict.get
empty-IsValid = record {
  below = λ i q h. cc;
  filled = λ i h. absurd (omega arith);
  indexed = λ i q h. cc;
  placed = λ i q h. cc;
}

-- Adding to a valid store leaves a valid one that has the element besides the old ones; the answer
-- is whether it is new.
pub add-IsValid :
    (s : TxStore) (q : ℕ)
    → IsValid s
    → IsValid (add s q).0
      × ((r : ℕ) → has (add s q).0 r ≡ (q == r || has s r))
      × ((add s q).1 ≡ not (has s q))
unfolding add
add-IsValid s q v = elim (Option-cases (index_of s q)) [
  | inr (i, e) ↦ rw (e, add) (v, (λ r. ground (arith, e)), refl)
  | inl e ↦
      rw (e, add)
        (
          record {
            below = λ i r h.
                ground (arith, Dict.get-insert ℕ_discrete s.num i q s.index2seq, v.below i r);
            filled =
                λ i h. ground (arith, Dict.get-insert ℕ_discrete s.num i q s.index2seq, v.filled i);
            indexed = λ i r h. ground (
              arith,
              e,
              Dict.get-insert ℕ_discrete s.num i q s.index2seq,
              Dict.get-insert ℕ_discrete q r s.num s.seq2index,
              v.indexed i r,
              v.below i r,
            );
            placed = λ i r h. ground (
              arith,
              e,
              Dict.get-insert ℕ_discrete s.num i q s.index2seq,
              Dict.get-insert ℕ_discrete q r s.num s.seq2index,
              v.placed i r,
              v.below i r,
            );
          },
          (λ r. ground (arith, Dict.get-insert ℕ_discrete q r s.num s.seq2index)),
          refl,
        )
]

-- The last element leaves.
dropped : TxStore → ℕ → TxStore
dropped s q = record {
  index2seq = Dict.remove ℕ_discrete (s.num - 1) s.index2seq;
  seq2index = Dict.remove ℕ_discrete q s.seq2index;
  num = s.num - 1;
}

-- The last element `l` takes the place `i` of `q`.
swapped : TxStore → (q i l : ℕ) → TxStore
swapped s q i l = record {
  index2seq = Dict.remove ℕ_discrete (s.num - 1) (Dict.insert ℕ_discrete i l s.index2seq);
  seq2index = Dict.insert ℕ_discrete l i (Dict.remove ℕ_discrete q s.seq2index);
  num = s.num - 1;
}

-- A store without an element that it had.
abbrev Lacks : TxStore → ℕ → TxStore → Type 0
Lacks s q s' = IsValid s' × ((r : ℕ) → has s' r ≡ (not (q == r) && has s r)) × (s'.num + 1 ≡ s.num)

dropped-Lacks :
    (s : TxStore) (q : ℕ)
    → IsValid s
    → 0 < s.num
    → index_of s q ≡ some (s.num - 1)
    → Lacks s q (dropped s q)
unfolding dropped
dropped-Lacks s q v lt e = (
  record {
    below =
        λ i r h. ground (arith, Dict.get-remove ℕ_discrete (s.num - 1) i s.index2seq, v.below i r);
    filled =
        λ i h. ground (arith, Dict.get-remove ℕ_discrete (s.num - 1) i s.index2seq, v.filled i);
    indexed = λ i r h. ground (
      arith,
      e,
      Dict.get-remove ℕ_discrete (s.num - 1) i s.index2seq,
      Dict.get-remove ℕ_discrete q r s.seq2index,
      v.indexed i r,
      v.placed i r,
    );
    placed = λ i r h. ground (
      arith,
      e,
      Dict.get-remove ℕ_discrete (s.num - 1) i s.index2seq,
      Dict.get-remove ℕ_discrete q r s.seq2index,
      v.indexed i r,
      v.placed i r,
      v.placed (s.num - 1) q,
    );
  },
  (λ r. ground (arith, Dict.get-remove ℕ_discrete q r s.seq2index)),
  omega arith,
)

swapped-Lacks :
    (s : TxStore) (q i l : ℕ)
    → IsValid s
    → i < s.num - 1
    → index_of s q ≡ some i
    → at s (s.num - 1) ≡ some l
    → Lacks s q (swapped s q i l)
unfolding swapped
swapped-Lacks s q i l v lt e g =
    let q_at : at s i ≡ some q = v.placed i q e in
    let l_at : index_of s l ≡ some (s.num - 1) = v.indexed (s.num - 1) l g in
    let other : q ≢ l = λ h. ground (arith, h, e, l_at) in
    (
      record {
        below = λ j r h. ground (
          arith,
          Dict.get-remove ℕ_discrete (s.num - 1) j (Dict.insert ℕ_discrete i l s.index2seq),
          Dict.get-insert ℕ_discrete i j l s.index2seq,
          v.below j r,
        );
        filled = λ j h. ground (
          arith,
          Dict.get-remove ℕ_discrete (s.num - 1) j (Dict.insert ℕ_discrete i l s.index2seq),
          Dict.get-insert ℕ_discrete i j l s.index2seq,
          v.filled j,
        );
        indexed = λ j r h. ground (
          arith,
          e,
          g,
          q_at,
          l_at,
          other,
          Dict.get-remove ℕ_discrete (s.num - 1) j (Dict.insert ℕ_discrete i l s.index2seq),
          Dict.get-insert ℕ_discrete i j l s.index2seq,
          Dict.get-insert ℕ_discrete l r i (Dict.remove ℕ_discrete q s.seq2index),
          Dict.get-remove ℕ_discrete q r s.seq2index,
          v.indexed j r,
        );
        placed = λ j r h. ground (
          arith,
          e,
          g,
          q_at,
          l_at,
          other,
          Dict.get-remove ℕ_discrete (s.num - 1) j (Dict.insert ℕ_discrete i l s.index2seq),
          Dict.get-insert ℕ_discrete i j l s.index2seq,
          Dict.get-insert ℕ_discrete l r i (Dict.remove ℕ_discrete q s.seq2index),
          Dict.get-remove ℕ_discrete q r s.seq2index,
          v.placed j r,
        );
      },
      (λ r. ground (
        arith,
        l_at,
        other,
        Dict.get-insert ℕ_discrete l r i (Dict.remove ℕ_discrete q s.seq2index),
        Dict.get-remove ℕ_discrete q r s.seq2index,
      )),
      omega arith,
    )

-- Removing from a valid store does not panic. Without the element nothing changes; with it the
-- store that is left is valid, has all other elements and not this one, and counts one less.
pub remove-IsValid :
    (s : TxStore) (q : ℕ)
    → IsValid s
    → (s' : TxStore) × (remove s q ≡ ret (s', has s q))
      × IsValid s'
      × ((r : ℕ) → has s' r ≡ (not (q == r) && has s r))
      × (s'.num + (if has s q then 1 else 0) ≡ s.num)
unfolding remove remove_at dropped swapped
remove-IsValid s q v = elim (Option-cases (index_of s q)) [
  | inl e ↦ rw (e, remove) (s, refl, v, (λ r. ground (arith, e)), omega arith)
  | inr (i, e) ↦
      let lt : i < s.num = v.below i q (v.placed i q e) in
      elim (Bool-cases (i == s.num - 1)) [
        | inl last ↦
            let here : i ≡ s.num - 1 = ground arith in
            let (w, h, n) = dropped-Lacks s q v (omega arith) (ground (arith, e, here)) in
            (dropped s q, ground (arith, e, last, here), w, h, ground (arith, e, n))
        | inr inside ↦ elim (Option-cases (at s (s.num - 1))) [
          | inl none_there ↦ absurd (ground (arith, none_there, v.filled (s.num - 1)))
          | inr (l, g) ↦
              let (w, h, n) = swapped-Lacks s q i l v (ground arith) e g in
              (swapped s q i l, ground (arith, e, inside, g), w, h, ground (arith, e, n))
        ]
      ]
]

-- The random choice from a valid store does not panic; it is an element, if there is one.
pub random-has :
    (pick : ℕ) (s : TxStore)
    → IsValid s
    → ((random pick s ≡ ret none) × (s.num ≡ 0))
      ⊎ ((q : ℕ) × (random pick s ≡ ret (some q)) × (has s q ≡ true))
unfolding random
random-has pick s v = elim (Bool-cases (s.num == 0)) [
  | inl e ↦ inl (rw (e, random) refl, ground arith)
  | inr e ↦
      let nonzero : 0 < s.num = ground arith in
      elim (Option-cases (at s (pick % s.num))) [
        | inl g ↦ absurd (ground (arith, g, mod-lt pick nonzero, v.filled (pick % s.num)))
        | inr (q, g) ↦ inr (q, rw (e, g, random) refl, ground (arith, v.indexed (pick % s.num) q g))
      ]
]
