-- ===== src/Vm/Arithmetic/Integers.antt =====
-- The integer instructions against the integers that the operands stand for.
use native.Mathlib.Nat.{div-add-mod', mod-lt, zero-mod}
use simple_virtual_language.Base.{
  ℕ, suc, ◌+◌, ◌-◌, ◌^◌, ◌<◌, ◌≡◌, refl, ◌⊎◌, inl, inr, true, false, ◌&&◌, arith, Bool-cases,
}
use simple_virtual_language.Base.Int.{
  ℤ, pos, negsuc, leb_ℤ, ◌+ℤ◌, ◌-ℤ◌, ◌*ℤ◌, tdiv, tmod, ◌≤ℤ◌, pos_part, neg_part,
}
use simple_virtual_language.Isa.{i32}
use simple_virtual_language.Vm.State.{Value, value, Result, returned, undefined}
use simple_virtual_language.Vm.Float.{FloatOps}
use simple_virtual_language.Vm.Values.{is_zero_ℤ, raw_to_i32, raw_to_i64, i32_to_raw, i64_to_raw}
use simple_virtual_language.Vm.Arithmetic.Numeric.{
  i32_result, i32_quotient, i32_remainder, add, sub, mul, div, rem,
}

-- A 32-bit integer in range is read back from its pattern.
pub raw_to_i32-i32_to_raw :
    (z : ℤ) → negsuc (2 ^ 31 - 1) ≤ℤ z → z ≤ℤ pos (2 ^ 31 - 1) → raw_to_i32 (i32_to_raw z) ≡ z
unfolding raw_to_i32 i32_to_raw
raw_to_i32-i32_to_raw z lo hi = ground arith

i32_to_raw-lt : (z : ℤ) → i32_to_raw z < 2 ^ 32
unfolding i32_to_raw
i32_to_raw-lt z = ground arith

pub raw_to_i64-i64_to_raw :
    (z : ℤ) → negsuc (2 ^ 63 - 1) ≤ℤ z → z ≤ℤ pos (2 ^ 63 - 1) → raw_to_i64 (i64_to_raw z) ≡ z
unfolding raw_to_i64 i64_to_raw
raw_to_i64-i64_to_raw z lo hi = ground arith

-- `v` is the 32-bit signed integer `z`.
pub record IsI32 (z : ℤ) (v : Value) : Type 0 where
  pub has_type : v.type ≡ i32
  pub fits : v.raw_value < 2 ^ 32
  pub means : raw_to_i32 v.raw_value ≡ z

-- A signed operation with the exact result `z`: it returns `z` where 32 bits hold it, and is undefined
-- elsewhere.
pub data Exact (z : ℤ) (r : Result Value) : Type 0 where
  exact : (v : Value) → r ≡ returned v → IsI32 z v → Exact z r
  overflows :
      (leb_ℤ (negsuc (2 ^ 31 - 1)) z && leb_ℤ z (pos (2 ^ 31 - 1))) ≡ false
      → r ≡ undefined
      → Exact z r

i32_value-IsI32 :
    (z : ℤ)
    → (leb_ℤ (negsuc (2 ^ 31 - 1)) z && leb_ℤ z (pos (2 ^ 31 - 1))) ≡ true
    → IsI32 z (value i32 (i32_to_raw z))
i32_value-IsI32 z inside = record {
  has_type = refl;
  fits = i32_to_raw-lt z;
  means = raw_to_i32-i32_to_raw z (ground arith) (ground arith);
}

pub i32_result-Exact : (z : ℤ) → Exact z (i32_result z)
unfolding i32_result
i32_result-Exact z =
    elim (Bool-cases (leb_ℤ (negsuc (2 ^ 31 - 1)) z && leb_ℤ z (pos (2 ^ 31 - 1)))) [
      | inl inside ↦ exact (value i32 (i32_to_raw z)) (rw inside) (i32_value-IsI32 z inside)
      | inr out ↦ overflows out (rw out)
    ]

pub data SignedOp : Type 0 where
  plus minus times : SignedOp

abbrev pub exact_op : SignedOp → ℤ → ℤ → ℤ
exact_op plus = ◌+ℤ◌
exact_op minus = ◌-ℤ◌
exact_op times = ◌*ℤ◌

module _ (fl : FloatOps) where
  abbrev pub machine_op : SignedOp → Value → Value → Result Value
  machine_op plus = add fl
  machine_op minus = sub fl
  machine_op times = mul fl

  -- `add`, `sub` and `mul` on two `i32` values return the exact result where 32 bits hold it, and are
  -- undefined behaviour elsewhere.
  pub i32_op-Exact :
      (op : SignedOp) (a b : ℕ)
      → Exact
          (exact_op op (raw_to_i32 a) (raw_to_i32 b))
          (machine_op op (value i32 a) (value i32 b))
  unfolding add sub mul
  i32_op-Exact plus a b = i32_result-Exact (raw_to_i32 a +ℤ raw_to_i32 b)
  i32_op-Exact minus a b = i32_result-Exact (raw_to_i32 a -ℤ raw_to_i32 b)
  i32_op-Exact times a b = i32_result-Exact (raw_to_i32 a *ℤ raw_to_i32 b)

returned_IsI32 : (z : ℤ) (v : Value) (r : Result Value) → r ≡ returned v → Exact z r → IsI32 z v
returned_IsI32 z v r e (exact w f is) = let same : w ≡ v = cc in rw same at is
returned_IsI32 z v r e (overflows out f) = cc

-- Truncated division: quotient times divisor plus remainder is the dividend.
pub tdiv-tmod : (a b : ℤ) → tdiv a b *ℤ b +ℤ tmod a b ≡ a
unfolding tdiv tmod ◌*ℤ◌ ◌+ℤ◌
tdiv-tmod (pos a) (pos b) =
    let size : b + 0 ≡ b = omega arith in ground (arith, size, div-add-mod' a b)
tdiv-tmod (pos a) (negsuc b) =
    let size : 0 + suc b ≡ suc b = omega arith in ground (arith, size, div-add-mod' a (suc b))
tdiv-tmod (negsuc a) (pos b) =
    let size : b + 0 ≡ b = omega arith in ground (arith, size, div-add-mod' (suc a) b)
tdiv-tmod (negsuc a) (negsuc b) =
    let size : 0 + suc b ≡ suc b = omega arith in ground (arith, size, div-add-mod' (suc a) (suc b))

-- The remainder of a truncated division: smaller than the divisor, and with the sign of the dividend.
abbrev pub IsRemainder : ℤ → ℤ → ℤ → Type 0
IsRemainder a b r =
    (pos_part r + neg_part r < pos_part b + neg_part b)
    × (neg_part a ≡ 0 → neg_part r ≡ 0)
    × (pos_part a ≡ 0 → pos_part r ≡ 0)

tmod-IsRemainder : (a b : ℤ) → is_zero_ℤ b ≡ false → IsRemainder a b (tmod a b)
unfolding tmod
tmod-IsRemainder (pos a) b h =
    let m : ℕ = pos_part b + neg_part b in
    let some_size : 0 < m = ground (arith, h) in
    (omega (arith, mod-lt a some_size), λ e. refl, λ e. ground (arith, e, zero-mod m))
tmod-IsRemainder (negsuc a) b h =
    let m : ℕ = pos_part b + neg_part b in
    let some_size : 0 < m = ground (arith, h) in
    (ground (arith, mod-lt (suc a) some_size), λ e. cc, λ e. ground arith)

quotient_exact : (a b : ℤ) (v : Value) → i32_quotient a b ≡ returned v → IsI32 (tdiv a b) v
unfolding i32_quotient
quotient_exact a b v e = elim (Bool-cases (is_zero_ℤ b)) [
  | inl zero ↦ ground (arith, zero)
  | inr nonzero ↦
      returned_IsI32 (tdiv a b) v (i32_result (tdiv a b)) (ground (arith, nonzero))
        (i32_result-Exact (tdiv a b))
]

quotient_cases :
    (a b : ℤ) → ((q : Value) × (i32_quotient a b ≡ returned q)) ⊎ (i32_quotient a b ≡ undefined)
unfolding i32_quotient i32_result
quotient_cases a b = elim (Bool-cases (is_zero_ℤ b)) [
  | inl zero ↦ inr (rw zero)
  | inr nonzero ↦
      elim (Bool-cases
        (leb_ℤ (negsuc (2 ^ 31 - 1)) (tdiv a b) && leb_ℤ (tdiv a b) (pos (2 ^ 31 - 1)))) [
          | inl inside ↦ inl (value i32 (i32_to_raw (tdiv a b)), rw (nonzero, inside))
          | inr out ↦ inr (rw (nonzero, out))
        ]
]

remainder_exact : (a b : ℤ) (v : Value) → i32_remainder a b ≡ returned v → IsI32 (tmod a b) v
unfolding i32_remainder
remainder_exact a b v e = elim (quotient_cases a b) [
  | inr bad ↦ absurd (overflow bad)
  | inl (q, good) ↦
      returned_IsI32 (tmod a b) v (i32_result (tmod a b)) (rw (← same good) e)
        (i32_result-Exact (tmod a b))
]
  where
    overflow : i32_quotient a b ≡ undefined → ⊥
    overflow bad = ground (arith, bad, e)

    same : {q : Value} → i32_quotient a b ≡ returned q → i32_remainder a b ≡ i32_result (tmod a b)
    same good = rw good

nonzero_divisor : (a b : ℤ) (v : Value) → i32_quotient a b ≡ returned v → is_zero_ℤ b ≡ false
unfolding i32_quotient
nonzero_divisor a b v e = elim (Bool-cases (is_zero_ℤ b)) [
  | inl zero ↦ ground (arith, zero)
  | inr nonzero ↦ nonzero
]

module _ (fl : FloatOps) where
  -- Where `div` and `mod` on two `i32` values give results, those satisfy the division identity, and the
  -- remainder is smaller than the divisor and has the sign of the dividend.
  pub i32_div-rem :
      (a b : ℕ) (q r : Value)
      → div fl (value i32 a) (value i32 b) ≡ returned q
      → rem fl (value i32 a) (value i32 b) ≡ returned r
      → (raw_to_i32 q.raw_value *ℤ raw_to_i32 b +ℤ raw_to_i32 r.raw_value ≡ raw_to_i32 a)
        × IsRemainder (raw_to_i32 a) (raw_to_i32 b) (raw_to_i32 r.raw_value)
  unfolding div rem
  i32_div-rem a b q r dq dr =
      let quotient = quotient_exact (raw_to_i32 a) (raw_to_i32 b) q dq in
      let remainder = remainder_exact (raw_to_i32 a) (raw_to_i32 b) r dr in
      let nonzero = nonzero_divisor (raw_to_i32 a) (raw_to_i32 b) q dq in
      (
        rw (quotient.means, remainder.means) (tdiv-tmod (raw_to_i32 a) (raw_to_i32 b)),
        rw remainder.means (tmod-IsRemainder (raw_to_i32 a) (raw_to_i32 b) nonzero),
      )
