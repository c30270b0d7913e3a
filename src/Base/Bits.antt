-- ===== src/Base/Bits.antt =====
-- Bit operations as arithmetic: `|` of disjoint fields is a sum, `&` with a low mask a remainder.
mod Step
use Step.{bit_or_step, bit_and_step}
use Prim.Native.Nat.{ℕ, zero, suc, ◌+◌, ◌*◌, ◌-◌, ◌/◌, ◌%◌, ◌^◌, ◌≤◌, ◌<◌, bit_and, bit_or}
use mathlib.Core.Path.{◌≡◌, refl, sym, ap, ◌∙◌}
use native.Mathlib.Nat.{pow-suc, one-le-pow, le_refl, mod-lt, div-add-mod'}
use native.Mathlib.Omega.{arith}

zero_right : (n a : ℕ) → a ≤ n → (bit_or a 0 ≡ a) × (bit_and a 0 ≡ 0)
zero_right n zero h = (refl, refl)
zero_right zero (suc a) h = absurd (omega arith)
zero_right (suc n) (suc a) h =
    let ih = zero_right n (suc a / 2) (omega arith) in
    (omega (arith, bit_or_step (suc a) 0, ih.0), omega (arith, bit_and_step (suc a) 0, ih.1))

pub bit_or-zero : (a : ℕ) → bit_or a 0 ≡ a
bit_or-zero a = (zero_right a a (omega arith)).0

bit_or_fuel : (n b : ℕ) → b ≤ n → bit_or 0 b ≡ b
bit_or_fuel n zero h = refl
bit_or_fuel zero (suc b) h = absurd (omega arith)
bit_or_fuel (suc n) (suc b) h =
    omega (arith, bit_or_step 0 (suc b), bit_or_fuel n (suc b / 2) (omega arith))

pub zero-bit_or : (b : ℕ) → bit_or 0 b ≡ b
zero-bit_or b = bit_or_fuel b b (omega arith)

twice_power : (q k : ℕ) → q * 2 ^ suc k ≡ 2 * (q * 2 ^ k)
twice_power q k = omega (arith, ap (λ (t : ℕ). q * t) (pow-suc 2 k))

-- `r | (q << k)` is a sum when `r` fits `k` bits.
pub bit_or_high : (k r q : ℕ) → r < 2 ^ k → bit_or r (q * 2 ^ k) ≡ r + q * 2 ^ k
bit_or_high zero r q fits = let e : r ≡ 0 = omega arith in rw e (zero-bit_or (q * 1) ∙ omega arith)
bit_or_high (suc k) r q fits =
    ground
      (arith, bit_or_step r (q * 2 ^ suc k), twice_power q k, bit_or_high k (r / 2) q (omega arith))

-- `(q << k) | r` likewise.
pub bit_or_low : (k q r : ℕ) → r < 2 ^ k → bit_or (q * 2 ^ k) r ≡ q * 2 ^ k + r
bit_or_low zero q r fits = let e : r ≡ 0 = omega arith in rw e (bit_or-zero (q * 1) ∙ omega arith)
bit_or_low (suc k) q r fits =
    ground
      (arith, bit_or_step (q * 2 ^ suc k) r, twice_power q k, bit_or_low k q (r / 2) (omega arith))

bit_and_low : (k q r : ℕ) → r < 2 ^ k → bit_and (q * 2 ^ k + r) (2 ^ k - 1) ≡ r
bit_and_low zero q r fits = (zero_right _ _ (le_refl _)).1 ∙ omega arith
bit_and_low (suc k) q r fits = ground (
  arith,
  bit_and_step (q * 2 ^ suc k + r) (2 ^ suc k - 1),
  twice_power q k,
  pow-suc 2 k,
  one-le-pow k 2,
  bit_and_low k q (r / 2) (omega arith),
)

-- A mask of `k` low ones takes the remainder by `2 ^ k`.
pub bit_and_mask : (k a : ℕ) → bit_and a (2 ^ k - 1) ≡ a % 2 ^ k
bit_and_mask k a =
    let whole : a / 2 ^ k * 2 ^ k + a % 2 ^ k ≡ a = div-add-mod' a (2 ^ k) in
    ap (λ (t : ℕ). bit_and t (2 ^ k - 1)) (sym whole)
    ∙ bit_and_low k (a / 2 ^ k) (a % 2 ^ k) (mod-lt a (one-le-pow k 2 (omega arith)))
