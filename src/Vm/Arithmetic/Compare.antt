-- ===== src/Vm/Arithmetic/Compare.antt =====
-- src/vm/ArithmeticOps.cpp: the comparison instructions, which give 1 or 0 of type `ui32`.
use simple_virtual_language.Base.{ℕ, Bool, not, ltb, leb, ◌==◌, if◌then◌else◌}
use simple_virtual_language.Base.Int.{leb_ℤ, ltb_ℤ}
use simple_virtual_language.Isa.{
  ValueType, i32, ui32, i64, ui64, f32, f64, ptr, str, unnamed, same_type,
}
use simple_virtual_language.Vm.State.{internal, Value, value, Result, returned, raised, undefined}
use simple_virtual_language.Vm.Float.{FloatOps}
use simple_virtual_language.Vm.Values.{raw_to_i32, raw_to_i64, raw_to_f32}

-- `result = 1` or `result = 0`, of type `ui32`.
abbrev pub flag : Bool → Value
flag b = value ui32 (if b then 1 else 0)

unfoldable pub ceq : Value → Value → Result Value
unfolding same_type
ceq v w =
    if same_type v.type w.type
    then returned (flag (v.raw_value == w.raw_value))
    else raised internal

unfoldable pub cne : Value → Value → Result Value
unfolding same_type
cne v w =
    if same_type v.type w.type
    then returned (flag (not (v.raw_value == w.raw_value)))
    else raised internal

module _ (fl : FloatOps) where
  open fl use {
    f32_add, f32_sub, f32_mul, f32_div, f32_rem, f64_add, f64_sub, f64_mul, f64_div, f64_rem,
    f32_lt, f32_le, f64_lt, f64_le,
  }

  -- The `switch` leaves the result unset for a type that it does not list. `a > b` is `b < a`.
  unfoldable pub clt_raw : ValueType → ℕ → ℕ → Result Value
  unfolding raw_to_i32 raw_to_i64 raw_to_f32
  clt_raw ui32 a b = returned (flag (ltb a b))
  clt_raw ui64 a b = returned (flag (ltb a b))
  clt_raw ptr a b = returned (flag (ltb a b))
  clt_raw i32 a b = returned (flag (ltb_ℤ (raw_to_i32 a) (raw_to_i32 b)))
  clt_raw i64 a b = returned (flag (ltb_ℤ (raw_to_i64 a) (raw_to_i64 b)))
  clt_raw f32 a b = returned (flag (f32_lt (raw_to_f32 a) (raw_to_f32 b)))
  clt_raw f64 a b = returned (flag (f64_lt a b))
  clt_raw str a b = undefined
  clt_raw (unnamed c) a b = undefined

  unfoldable pub clt : Value → Value → Result Value
  unfolding clt_raw same_type
  clt v w =
      if same_type v.type w.type then clt_raw v.type v.raw_value w.raw_value else raised internal

  unfoldable pub cle_raw : ValueType → ℕ → ℕ → Result Value
  unfolding raw_to_i32 raw_to_i64 raw_to_f32
  cle_raw ui32 a b = returned (flag (leb a b))
  cle_raw ui64 a b = returned (flag (leb a b))
  cle_raw ptr a b = returned (flag (leb a b))
  cle_raw i32 a b = returned (flag (leb_ℤ (raw_to_i32 a) (raw_to_i32 b)))
  cle_raw i64 a b = returned (flag (leb_ℤ (raw_to_i64 a) (raw_to_i64 b)))
  cle_raw f32 a b = returned (flag (f32_le (raw_to_f32 a) (raw_to_f32 b)))
  cle_raw f64 a b = returned (flag (f64_le a b))
  cle_raw str a b = undefined
  cle_raw (unnamed c) a b = undefined

  unfoldable pub cle : Value → Value → Result Value
  unfolding cle_raw same_type
  cle v w =
      if same_type v.type w.type then cle_raw v.type v.raw_value w.raw_value else raised internal

  unfoldable pub cgt_raw : ValueType → ℕ → ℕ → Result Value
  unfolding raw_to_i32 raw_to_i64 raw_to_f32
  cgt_raw ui32 a b = returned (flag (ltb b a))
  cgt_raw ui64 a b = returned (flag (ltb b a))
  cgt_raw ptr a b = returned (flag (ltb b a))
  cgt_raw i32 a b = returned (flag (ltb_ℤ (raw_to_i32 b) (raw_to_i32 a)))
  cgt_raw i64 a b = returned (flag (ltb_ℤ (raw_to_i64 b) (raw_to_i64 a)))
  cgt_raw f32 a b = returned (flag (f32_lt (raw_to_f32 b) (raw_to_f32 a)))
  cgt_raw f64 a b = returned (flag (f64_lt b a))
  cgt_raw str a b = undefined
  cgt_raw (unnamed c) a b = undefined

  unfoldable pub cgt : Value → Value → Result Value
  unfolding cgt_raw same_type
  cgt v w =
      if same_type v.type w.type then cgt_raw v.type v.raw_value w.raw_value else raised internal

  unfoldable pub cge_raw : ValueType → ℕ → ℕ → Result Value
  unfolding raw_to_i32 raw_to_i64 raw_to_f32
  cge_raw ui32 a b = returned (flag (leb b a))
  cge_raw ui64 a b = returned (flag (leb b a))
  cge_raw ptr a b = returned (flag (leb b a))
  cge_raw i32 a b = returned (flag (leb_ℤ (raw_to_i32 b) (raw_to_i32 a)))
  cge_raw i64 a b = returned (flag (leb_ℤ (raw_to_i64 b) (raw_to_i64 a)))
  cge_raw f32 a b = returned (flag (f32_le (raw_to_f32 b) (raw_to_f32 a)))
  cge_raw f64 a b = returned (flag (f64_le b a))
  cge_raw str a b = undefined
  cge_raw (unnamed c) a b = undefined

  unfoldable pub cge : Value → Value → Result Value
  unfolding cge_raw same_type
  cge v w =
      if same_type v.type w.type then cge_raw v.type v.raw_value w.raw_value else raised internal
