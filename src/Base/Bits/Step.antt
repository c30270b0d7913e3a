-- ===== src/Base/Bits/Step.antt =====
-- One equation for the lowest binary digit of `bit_or` and `bit_and`, from the recursion with fuel
-- for which the native operations stand.
use Prim.Native.Nat.{
  ℕ, zero, suc, ◌+◌, ◌*◌, ◌/◌, ◌%◌, ◌≤◌, min, max, digits, bit_and, bit_or, bit_and-bitwise,
  bit_or-bitwise,
}
use mathlib.Core.Path.{◌≡◌, refl, sym, ◌∙◌}
use native.Mathlib.Omega.{arith}

module _ (rest : ℕ → ℕ) (join : ℕ → ℕ → ℕ) where
  digits_of_zero : (n b : ℕ) → digits rest join n 0 b ≡ digits rest join 0 0 b
  digits_of_zero zero b = refl
  digits_of_zero (suc n) b = refl

  -- The fuel does not matter once it covers the first number.
  covered : (a b n m : ℕ) → a ≤ n → a ≤ m → digits rest join n a b ≡ digits rest join m a b
  covered zero b n m p q = digits_of_zero n b ∙ sym (digits_of_zero m b)
  covered (suc a) b zero m p q = absurd (omega arith)
  covered (suc a) b (suc n) zero p q = absurd (omega arith)
  covered (suc a) b (suc n) (suc m) p q =
      rw (covered (suc a / 2) (b / 2) n m (omega arith) (omega arith))

abbrev or_digits : ℕ → ℕ → ℕ → ℕ
or_digits n a b = digits (λ y. y) max n a b

abbrev and_digits : ℕ → ℕ → ℕ → ℕ
and_digits n a b = digits (λ y. 0) min n a b

pub bit_or_step : (x y : ℕ) → bit_or x y ≡ max (x % 2) (y % 2) + 2 * bit_or (x / 2) (y / 2)
bit_or_step (suc x) y = omega (
  arith,
  bit_or-bitwise (suc x) y,
  bit_or-bitwise (suc x / 2) (y / 2),
  covered (λ d. d) max (suc x / 2) (y / 2) x (suc x / 2) (omega arith) (omega arith),
)
bit_or_step zero y = simp bit_or-bitwise (omega arith)

pub bit_and_step : (x y : ℕ) → bit_and x y ≡ min (x % 2) (y % 2) + 2 * bit_and (x / 2) (y / 2)
bit_and_step (suc x) y = omega (
  arith,
  bit_and-bitwise (suc x) y,
  bit_and-bitwise (suc x / 2) (y / 2),
  covered (λ d. 0) min (suc x / 2) (y / 2) x (suc x / 2) (omega arith) (omega arith),
)
bit_and_step zero y = simp bit_and-bitwise (omega arith)
