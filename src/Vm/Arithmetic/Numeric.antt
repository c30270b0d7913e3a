-- ===== src/Vm/Arithmetic/Numeric.antt =====
-- src/vm/ArithmeticOps.cpp: addition, subtraction, multiplication, division and remainder. Signed
-- overflow and a zero divisor are undefined behaviour of C++.
use simple_virtual_language.Base.{ℕ, ◌+◌, ◌-◌, ◌*◌, ◌/◌, ◌%◌, ◌^◌, ◌&&◌, ◌==◌, if◌then◌else◌}
use simple_virtual_language.Base.Int.{ℤ, pos, negsuc, leb_ℤ, ◌+ℤ◌, ◌-ℤ◌, ◌*ℤ◌, tdiv, tmod}
use simple_virtual_language.Isa.{ValueType, i32, ui32, i64, ui64, f32, f64, ptr}
use simple_virtual_language.Vm.State.{
  internal, Value, value, Result, returned, raised, undefined, u32, u64,
}
use simple_virtual_language.Vm.Float.{FloatOps}
use simple_virtual_language.Vm.Values.{
  ◌>>=◌, is_zero_ℤ, raw_to_i32, raw_to_ui32, raw_to_i64, raw_to_f32, i32_to_raw, i64_to_raw,
}

-- The result of a signed operation of 32 or 64 bits.
unfoldable pub i32_result : ℤ → Result Value
unfolding i32_to_raw
i32_result z =
    if leb_ℤ (negsuc (2 ^ 31 - 1)) z && leb_ℤ z (pos (2 ^ 31 - 1))
    then returned (value i32 (i32_to_raw z))
    else undefined

unfoldable pub i64_result : ℤ → Result Value
unfolding i64_to_raw
i64_result z =
    if leb_ℤ (negsuc (2 ^ 63 - 1)) z && leb_ℤ z (pos (2 ^ 63 - 1))
    then returned (value i64 (i64_to_raw z))
    else undefined

-- An address from 64-bit arithmetic, cut to 32 bits.
unfoldable pub ptr_result : ℤ → Result Value
unfolding i32_to_raw
ptr_result z = returned (value ptr (i32_to_raw z))

-- The remainder is undefined where the quotient overflows or the divisor is zero.
unfoldable pub i32_quotient : ℤ → ℤ → Result Value
unfolding i32_result tdiv
i32_quotient a b = if is_zero_ℤ b then undefined else i32_result (tdiv a b)

unfoldable pub i64_quotient : ℤ → ℤ → Result Value
unfolding i64_result tdiv
i64_quotient a b = if is_zero_ℤ b then undefined else i64_result (tdiv a b)

unfoldable pub i32_remainder : ℤ → ℤ → Result Value
unfolding i32_quotient i32_result tmod
i32_remainder a b = i32_quotient a b >>= λ _. i32_result (tmod a b)

unfoldable pub i64_remainder : ℤ → ℤ → Result Value
unfolding i64_quotient i64_result tmod
i64_remainder a b = i64_quotient a b >>= λ _. i64_result (tmod a b)

unfoldable pub unsigned_quotient : ValueType → ℕ → ℕ → Result Value
unsigned_quotient t a b = if b == 0 then undefined else returned (value t (a / b))

unfoldable pub unsigned_remainder : ValueType → ℕ → ℕ → Result Value
unsigned_remainder t a b = if b == 0 then undefined else returned (value t (a % b))

module _ (fl : FloatOps) where
  open fl use {
    f32_add, f32_sub, f32_mul, f32_div, f32_rem, f64_add, f64_sub, f64_mul, f64_div, f64_rem,
    f32_lt, f32_le, f64_lt, f64_le,
  }

  unfoldable pub add_raw : ValueType → ValueType → ℕ → ℕ → Result Value
  unfolding i32_result i64_result ptr_result raw_to_i32 raw_to_ui32 raw_to_i64 raw_to_f32 ◌+ℤ◌
  add_raw i32 i32 a b = i32_result (raw_to_i32 a +ℤ raw_to_i32 b)
  add_raw i32 ptr a b = ptr_result (raw_to_i32 a +ℤ pos (raw_to_ui32 b))
  add_raw ui32 ui32 a b = returned (value ui32 (u32 (raw_to_ui32 a + raw_to_ui32 b)))
  add_raw ui32 ptr a b = returned (value ptr (u32 (raw_to_ui32 a + raw_to_ui32 b)))
  add_raw i64 i64 a b = i64_result (raw_to_i64 a +ℤ raw_to_i64 b)
  add_raw ui64 ui64 a b = returned (value ui64 (u64 (a + b)))
  add_raw f32 f32 a b = returned (value f32 (u32 (f32_add (raw_to_f32 a) (raw_to_f32 b))))
  add_raw f64 f64 a b = returned (value f64 (u64 (f64_add a b)))
  add_raw ptr i32 a b = ptr_result (pos (raw_to_ui32 a) +ℤ raw_to_i32 b)
  add_raw ptr ui32 a b = returned (value ptr (u32 (raw_to_ui32 a + raw_to_ui32 b)))
  add_raw t u a b = raised internal

  unfoldable pub add : Value → Value → Result Value
  unfolding add_raw
  add v w = add_raw v.type w.type v.raw_value w.raw_value

  unfoldable pub sub_raw : ValueType → ValueType → ℕ → ℕ → Result Value
  unfolding i32_result i64_result ptr_result raw_to_i32 raw_to_ui32 raw_to_i64 raw_to_f32 ◌-ℤ◌
  sub_raw i32 i32 a b = i32_result (raw_to_i32 a -ℤ raw_to_i32 b)
  sub_raw ui32 ui32 a b = returned (value ui32 (u32 (raw_to_ui32 a + 2 ^ 32 - raw_to_ui32 b)))
  sub_raw i64 i64 a b = i64_result (raw_to_i64 a -ℤ raw_to_i64 b)
  sub_raw ui64 ui64 a b = returned (value ui64 (u64 (a + 2 ^ 64 - b)))
  sub_raw f32 f32 a b = returned (value f32 (u32 (f32_sub (raw_to_f32 a) (raw_to_f32 b))))
  sub_raw f64 f64 a b = returned (value f64 (u64 (f64_sub a b)))
  sub_raw ptr ptr a b = i64_result (pos (raw_to_ui32 a) -ℤ pos (raw_to_ui32 b))
  sub_raw ptr i32 a b = ptr_result (pos (raw_to_ui32 a) -ℤ raw_to_i32 b)
  sub_raw ptr ui32 a b = returned (value ptr (u32 (raw_to_ui32 a + 2 ^ 32 - raw_to_ui32 b)))
  sub_raw t u a b = raised internal

  unfoldable pub sub : Value → Value → Result Value
  unfolding sub_raw
  sub v w = sub_raw v.type w.type v.raw_value w.raw_value

  unfoldable pub mul_raw : ValueType → ValueType → ℕ → ℕ → Result Value
  unfolding i32_result i64_result raw_to_i32 raw_to_ui32 raw_to_i64 raw_to_f32 ◌*ℤ◌
  mul_raw i32 i32 a b = i32_result (raw_to_i32 a *ℤ raw_to_i32 b)
  mul_raw ui32 ui32 a b = returned (value ui32 (u32 (raw_to_ui32 a * raw_to_ui32 b)))
  mul_raw i64 i64 a b = i64_result (raw_to_i64 a *ℤ raw_to_i64 b)
  mul_raw ui64 ui64 a b = returned (value ui64 (u64 (a * b)))
  mul_raw f32 f32 a b = returned (value f32 (u32 (f32_mul (raw_to_f32 a) (raw_to_f32 b))))
  mul_raw f64 f64 a b = returned (value f64 (u64 (f64_mul a b)))
  mul_raw t u a b = raised internal

  unfoldable pub mul : Value → Value → Result Value
  unfolding mul_raw
  mul v w = mul_raw v.type w.type v.raw_value w.raw_value

  unfoldable pub div_raw : ValueType → ValueType → ℕ → ℕ → Result Value
  unfolding i32_quotient i64_quotient unsigned_quotient raw_to_i32 raw_to_ui32 raw_to_i64 raw_to_f32
  div_raw i32 i32 a b = i32_quotient (raw_to_i32 a) (raw_to_i32 b)
  div_raw ui32 ui32 a b = unsigned_quotient ui32 (raw_to_ui32 a) (raw_to_ui32 b)
  div_raw i64 i64 a b = i64_quotient (raw_to_i64 a) (raw_to_i64 b)
  div_raw ui64 ui64 a b = unsigned_quotient ui64 a b
  div_raw f32 f32 a b = returned (value f32 (u32 (f32_div (raw_to_f32 a) (raw_to_f32 b))))
  div_raw f64 f64 a b = returned (value f64 (u64 (f64_div a b)))
  div_raw t u a b = raised internal

  unfoldable pub div : Value → Value → Result Value
  unfolding div_raw
  div v w = div_raw v.type w.type v.raw_value w.raw_value

  unfoldable pub rem_raw : ValueType → ValueType → ℕ → ℕ → Result Value
  unfolding i32_remainder i64_remainder unsigned_remainder raw_to_i32 raw_to_ui32 raw_to_i64
      raw_to_f32
  rem_raw i32 i32 a b = i32_remainder (raw_to_i32 a) (raw_to_i32 b)
  rem_raw ui32 ui32 a b = unsigned_remainder ui32 (raw_to_ui32 a) (raw_to_ui32 b)
  rem_raw i64 i64 a b = i64_remainder (raw_to_i64 a) (raw_to_i64 b)
  rem_raw ui64 ui64 a b = unsigned_remainder ui64 a b
  rem_raw f32 f32 a b = returned (value f32 (u32 (f32_rem (raw_to_f32 a) (raw_to_f32 b))))
  rem_raw f64 f64 a b = returned (value f64 (u64 (f64_rem a b)))
  rem_raw t u a b = raised internal

  unfoldable pub rem : Value → Value → Result Value
  unfolding rem_raw
  rem v w = rem_raw v.type w.type v.raw_value w.raw_value
