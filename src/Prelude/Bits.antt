-- ===== src/Prelude/Bits.antt =====
-- The binary operations on numbers that a comparison in constant time is built of.
use Prim.Native.Nat.{
  ℕ, zero, suc, ◌+◌, ◌*◌, ◌/◌, ◌%◌, ◌≤◌, max, digits, differ, bit_or, bit_or-bitwise, bit_xor,
  bit_xor-bitwise,
}
use mathlib.Core.Path.{◌≡◌, refl, sym, ap, ◌∙◌}
use mathlib.Core.Logic.{◌↔◌}
use native.Mathlib.Omega.{arith}

differ-eq : (x y : ℕ) → differ x y ≡ 0 → x ≡ y
differ-eq zero y h = omega (arith, h)
differ-eq (suc x) zero h = absurd (omega (arith, h))
differ-eq (suc x) (suc y) h = omega (arith, differ-eq x y h)

differ_self : (x : ℕ) → differ x x ≡ 0
differ_self zero = refl
differ_self (suc x) = differ_self x

sum_zero : (x y : ℕ) → x * 2 + y ≡ 0 → (x ≡ 0) × (y ≡ 0)
sum_zero x y h = (omega (arith, h), omega (arith, h))

xor_digits-eq : (n a b : ℕ) → a ≤ n → digits (λ b. b) differ n a b ≡ 0 → a ≡ b
xor_digits-eq zero a b l h = omega (arith, l, h)
xor_digits-eq (suc n) zero b l h = omega (arith, h)
xor_digits-eq (suc n) (suc a) b l h =
    let high : suc a / 2 ≡ b / 2 =
      xor_digits-eq n (suc a / 2) (b / 2) (omega (arith, l))
        (sum_zero (digits (λ b. b) differ n (suc a / 2) (b / 2)) (differ (suc a % 2) (b % 2))
          h).0 in
    let low : suc a % 2 ≡ b % 2 =
      differ-eq (suc a % 2) (b % 2)
        (sum_zero (digits (λ b. b) differ n (suc a / 2) (b / 2)) (differ (suc a % 2) (b % 2))
          h).1 in
    omega (arith, high, low)

xor_digits_self : (n a : ℕ) → a ≤ n → digits (λ b. b) differ n a a ≡ 0
xor_digits_self zero a l = omega (arith, l)
xor_digits_self (suc n) zero l = refl
xor_digits_self (suc n) (suc a) l =
    omega (arith, xor_digits_self n (suc a / 2) (omega (arith, l)), differ_self (suc a % 2))

or_digits-zero : (n a b : ℕ) → a ≤ n → digits (λ b. b) max n a b ≡ 0 → (a ≡ 0) × (b ≡ 0)
or_digits-zero zero a b l h = (omega (arith, l), h)
or_digits-zero (suc n) zero b l h = (refl, h)
or_digits-zero (suc n) (suc a) b l h =
    let parts = sum_zero (digits (λ b. b) max n (suc a / 2) (b / 2)) (max (suc a % 2) (b % 2)) h in
    let high = or_digits-zero n (suc a / 2) (b / 2) (omega (arith, l)) parts.0 in
    (omega (arith, high.0, parts.1), omega (arith, high.1, parts.1))

pub bit_xor_zero_iff : (a b : ℕ) → (bit_xor a b ≡ 0) ↔ (a ≡ b)
bit_xor_zero_iff a b = (
  λ h. xor_digits-eq a a b (omega arith) (sym (λ i. bit_xor-bitwise a b i) ∙ h),
  λ e.
      (λ i. bit_xor-bitwise a b i)
      ∙ (ap (λ x. digits (λ b. b) differ a a x) (sym e) ∙ xor_digits_self a a (omega arith)),
)

pub bit_or_zero_iff : (a b : ℕ) → (bit_or a b ≡ 0) ↔ ((a ≡ 0) × (b ≡ 0))
bit_or_zero_iff a b = (
  λ h. or_digits-zero a a b (omega arith) (sym (λ i. bit_or-bitwise a b i) ∙ h),
  λ e. ap (λ x. bit_or x b) e.0 ∙ ap (bit_or 0) e.1,
)
