-- ===== src/Base/Xor.antt =====
-- The exclusive or of native numbers is its own inverse.
use Prim.Native.Nat.{
  ℕ, zero, suc, ◌+◌, ◌*◌, ◌/◌, ◌%◌, ◌≤◌, bit_xor, bit_xor-bitwise, digits, differ,
}
use mathlib.Core.Path.{◌≡◌, refl, sym, subst, ◌∙◌}
use mathlib.Core.Logic.{◌⊎◌, inl, inr}
use native.Mathlib.Omega.{arith}

abbrev xor_digits : ℕ → ℕ → ℕ → ℕ
xor_digits = digits (λ b. b) differ

bit-cases : (n : ℕ) → (n % 2 ≡ 0) ⊎ (n % 2 ≡ 1)
bit-cases n = omega arith

differ-differ : (a b : ℕ) → differ (differ (a % 2) (b % 2)) (b % 2) ≡ a % 2
differ-differ a b = elim (bit-cases a) [
  | inl x ↦ elim (bit-cases b) [ inl y ↦ rw (x, y) refl | inr y ↦ rw (x, y) refl ]
  | inr x ↦ elim (bit-cases b) [ inl y ↦ rw (x, y) refl | inr y ↦ rw (x, y) refl ]
]

differ_lt : (a b : ℕ) → differ (a % 2) (b % 2) ≤ 1
differ_lt a b = elim (bit-cases a) [
  | inl x ↦ elim (bit-cases b) [ inl y ↦ rw (x, y) (omega arith) | inr y ↦ rw (x, y) (omega arith) ]
  | inr x ↦ elim (bit-cases b) [ inl y ↦ rw (x, y) (omega arith) | inr y ↦ rw (x, y) (omega arith) ]
]

differ_self : (a : ℕ) → differ (a % 2) (a % 2) ≡ 0
differ_self a = elim (bit-cases a) [ inl x ↦ rw x refl | inr x ↦ rw x refl ]

xor_digits_self : (m b : ℕ) → b ≤ m → xor_digits m b b ≡ 0
xor_digits_self zero b h = omega arith
xor_digits_self (suc m) zero h = refl
xor_digits_self (suc m) (suc b) h =
    omega (arith, xor_digits_self m (suc b / 2) (omega arith), differ_self (suc b))

-- One digit of the inverse, where the number without it has been dealt with.
step_zero :
    (lo a b : ℕ)
    → 0 ≡ lo * 2 + differ (a % 2) (b % 2)
    → ((m : ℕ) → lo ≤ m → xor_digits m lo (b / 2) ≡ a / 2)
    → b ≡ a
step_zero lo a b e ih =
    let d : differ (a % 2) (b % 2) ≡ 0 = omega arith in
    let low : b % 2 ≡ a % 2 = subst (λ x. differ x (b % 2) ≡ a % 2) d (differ-differ a b) in
    omega (arith, low, ih 0 (omega arith))

step :
    (m v lo a b : ℕ)
    → v ≡ lo * 2 + differ (a % 2) (b % 2)
    → v ≤ m
    → ((m : ℕ) → lo ≤ m → xor_digits m lo (b / 2) ≡ a / 2)
    → xor_digits m v b ≡ a
step zero zero lo a b e h ih = step_zero lo a b e ih
step zero (suc v) lo a b e h ih = absurd (omega arith)
step (suc m) zero lo a b e h ih = step_zero lo a b e ih
step (suc m) (suc v) lo a b e h ih =
    let half : suc v / 2 ≡ lo = omega (arith, differ_lt a b) in
    let digit : suc v % 2 ≡ differ (a % 2) (b % 2) = omega (arith, differ_lt a b) in
    rw (half, digit) (omega (arith, ih m (omega arith), differ-differ a b))

xor_digits_inverse :
    (n m a b : ℕ) → a ≤ n → xor_digits n a b ≤ m → xor_digits m (xor_digits n a b) b ≡ a
xor_digits_inverse zero m zero b h k = xor_digits_self m b k
xor_digits_inverse zero m (suc a) b h k = absurd (omega arith)
xor_digits_inverse (suc n) m zero b h k = xor_digits_self m b k
xor_digits_inverse (suc n) m (suc a) b h k =
    step m (xor_digits (suc n) (suc a) b) (xor_digits n (suc a / 2) (b / 2)) (suc a) b refl k
      (λ m' l. xor_digits_inverse n m' (suc a / 2) (b / 2) (omega arith) l)

digits_of_xor : (a b : ℕ) → bit_xor a b ≡ xor_digits a a b
digits_of_xor a b = λ i. bit_xor-bitwise a b i

pub xor_inverse : (a b : ℕ) → bit_xor (bit_xor a b) b ≡ a
xor_inverse a b =
    digits_of_xor (bit_xor a b) b
    ∙ subst (λ v. xor_digits v v b ≡ a) (sym (digits_of_xor a b))
        (xor_digits_inverse a (xor_digits a a b) a b (omega arith) (omega arith))
