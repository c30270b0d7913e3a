-- ===== src/Vm/Values.antt =====
-- src/vm/TypeConversions.cpp and the struct `Value` of src/vm/OperandStack.h: reading a 64-bit pattern
-- by its type, the zero test, and conversion between types.
-- A cast of a float to an integer type that cannot hold it is undefined behaviour of C++.
use simple_virtual_language.Base.{
  ℕ, ◌-◌, ◌^◌, Bool, false, ◌&&◌, ◌||◌, Option, none, some, ltb, ◌==◌, if◌then◌else◌,
}
use simple_virtual_language.Base.Int.{ℤ, pos, negsuc, pos_part, neg_part, leb_ℤ, ltb_ℤ, mod_floor}
use simple_virtual_language.Isa.{
  ValueType, i32, ui32, i64, ui64, f32, f64, ptr, str, unnamed, same_type,
}
use simple_virtual_language.Vm.State.{
  ErrorContext, language_context, internal_context, RuntimeErrorType, internal, out_of_range, Value,
  value, Result, returned, raised, undefined, u32, u64,
}
use simple_virtual_language.Vm.Float.{FloatOps}

infixl 5 ◌>>=◌ ◌>>◌
abbrev pub ◌>>=◌ : {A B : Type 0} → Result A → (A → Result B) → Result B
returned a >>= f = f a
raised e >>= f = raised e
undefined >>= f = undefined

abbrev pub ◌>>◌ : {B : Type 0} → Result (Unit {0}) → Result B → Result B
m >> k = m >>= λ _. k

-- The number that a two's complement pattern of a width stands for.
abbrev pub signed32 : ℕ → ℤ
signed32 w = if ltb w (2 ^ 31) then pos w else negsuc (2 ^ 32 - 1 - w)

abbrev pub signed64 : ℕ → ℤ
signed64 w = if ltb w (2 ^ 63) then pos w else negsuc (2 ^ 64 - 1 - w)

unfoldable pub raw_to_i32 : ℕ → ℤ
raw_to_i32 raw = signed32 (u32 raw)

unfoldable pub raw_to_ui32 : ℕ → ℕ
raw_to_ui32 raw = u32 raw

unfoldable pub raw_to_i64 : ℕ → ℤ
raw_to_i64 raw = signed64 raw

-- The bit pattern, of a `float` here, is its representation in the model.
unfoldable pub raw_to_f32 : ℕ → ℕ
raw_to_f32 raw = u32 raw

-- Also `static_cast` of a wider signed integer to 32 bits, which keeps the low bits.
unfoldable pub i32_to_raw : ℤ → ℕ
unfolding mod_floor
i32_to_raw z = mod_floor z (2 ^ 32)

unfoldable pub i64_to_raw : ℤ → ℕ
unfolding mod_floor
i64_to_raw z = mod_floor z (2 ^ 64)

pub data TypedValue : Type 0 where
  int32 int64 : ℤ → TypedValue
  uint32 uint64 : ℕ → TypedValue
  float32 float64 : ℕ → TypedValue

unfoldable pub typed : ValueType → ℕ → Result TypedValue
unfolding raw_to_i32 raw_to_i64 raw_to_f32
typed i32 raw = returned (int32 (raw_to_i32 raw))
typed i64 raw = returned (int64 (raw_to_i64 raw))
typed ui32 raw = returned (uint32 (u32 raw))
typed ptr raw = returned (uint32 (u32 raw))
typed ui64 raw = returned (uint64 raw)
typed f32 raw = returned (float32 (raw_to_f32 raw))
typed f64 raw = returned (float64 raw)
typed str raw = raised internal
typed (unnamed b) raw = raised internal

unfoldable pub to_typed : Value → Result TypedValue
unfolding typed
to_typed v = typed v.type v.raw_value

abbrev pub is_zero_ℤ : ℤ → Bool
is_zero_ℤ z = (pos_part z == 0) && (neg_part z == 0)

unfoldable pub out_of_range_conversion : ErrorContext → RuntimeErrorType
out_of_range_conversion language_context = out_of_range
out_of_range_conversion internal_context = internal

unfoldable pub is_float : ValueType → Bool
unfolding same_type
is_float t = same_type t f32 || same_type t f64

-- `handleOutOfRangeConversionError` where a test holds.
abbrev fail_if : Bool → ErrorContext → Result (Unit {0})
unfolding out_of_range_conversion
fail_if bad context = if bad then raised (out_of_range_conversion context) else returned tt

-- `static_cast<int64_t>(value)` and the test against the range of `uint32_t`.
unfoldable pub outside_pointer_range : TypedValue → Bool
outside_pointer_range (int32 z) = ltb_ℤ z (pos 0) || ltb_ℤ (pos (2 ^ 32 - 1)) z
outside_pointer_range (int64 z) = ltb_ℤ z (pos 0) || ltb_ℤ (pos (2 ^ 32 - 1)) z
outside_pointer_range (uint32 n) = ltb (2 ^ 32 - 1) n
outside_pointer_range (uint64 n) = ltb (2 ^ 32 - 1) n
outside_pointer_range (float32 b) = false
outside_pointer_range (float64 b) = false

-- The `switch` for a value that becomes a pointer.
unfoldable pub check_to_pointer : ErrorContext → ValueType → TypedValue → Result (Unit {0})
unfolding outside_pointer_range fail_if
check_to_pointer context ui32 v = returned tt
check_to_pointer context i32 v = fail_if (outside_pointer_range v) context
check_to_pointer context i64 v = fail_if (outside_pointer_range v) context
check_to_pointer context ui64 v = fail_if (outside_pointer_range v) context
check_to_pointer context other v = raised internal

-- The block for a conversion from or to a pointer.
unfoldable pub check_pointer : ErrorContext → ValueType → ValueType → TypedValue → Result (Unit {0})
unfolding check_to_pointer is_float same_type
check_pointer context old new v =
    if same_type old ptr || same_type new ptr
    then if is_float (if same_type old ptr then new else old)
      then raised internal
      else if same_type old ptr
      then returned tt
      else check_to_pointer context old v
    else returned tt

-- A `static_cast` of the truncated value of a float to an integer type between two bounds.
unfoldable pub cast_trunc : ℤ → ℤ → (ℤ → ℕ) → Option ℤ → Result ℕ
cast_trunc lo hi to_raw none = undefined
cast_trunc lo hi to_raw (some z) =
    if leb_ℤ lo z && leb_ℤ z hi then returned (to_raw z) else undefined

module _ (fl : FloatOps) where
  open fl use {
    f32_is_zero, f64_is_zero, f64_lt, f64_of_f32, f32_of_f64, f32_of_ℤ, f64_of_ℤ, f64_trunc,
  }

  unfoldable pub is_zero_raw : ValueType → ℕ → Result Bool
  unfolding raw_to_i32 raw_to_i64 raw_to_f32
  is_zero_raw ui32 raw = returned (raw == 0)
  is_zero_raw ui64 raw = returned (raw == 0)
  is_zero_raw ptr raw = returned (raw == 0)
  is_zero_raw i32 raw = returned (is_zero_ℤ (raw_to_i32 raw))
  is_zero_raw i64 raw = returned (is_zero_ℤ (raw_to_i64 raw))
  is_zero_raw f32 raw = returned (f32_is_zero (raw_to_f32 raw))
  is_zero_raw f64 raw = returned (f64_is_zero raw)
  is_zero_raw str raw = undefined
  is_zero_raw (unnamed b) raw = undefined

  unfoldable pub is_zero : Value → Result Bool
  unfolding is_zero_raw
  is_zero v = is_zero_raw v.type v.raw_value

  -- The bounds that a `double` is held to before it becomes an integer of the new type.
  unfoldable pub float_outside : ValueType → ℕ → Bool
  float_outside i32 d =
      f64_lt d (f64_of_ℤ (negsuc (2 ^ 31 - 1))) || f64_lt (f64_of_ℤ (pos (2 ^ 31 - 1))) d
  float_outside ui32 d = f64_lt d (f64_of_ℤ (pos 0)) || f64_lt (f64_of_ℤ (pos (2 ^ 32 - 1))) d
  float_outside i64 d =
      f64_lt d (f64_of_ℤ (negsuc (2 ^ 63 - 1))) || f64_lt (f64_of_ℤ (pos (2 ^ 63 - 1))) d
  float_outside ui64 d = f64_lt d (f64_of_ℤ (pos 0)) || f64_lt (f64_of_ℤ (pos (2 ^ 64 - 1))) d
  float_outside other d = false

  unfoldable pub check_float_range : ErrorContext → ValueType → TypedValue → Result (Unit {0})
  unfolding float_outside fail_if
  check_float_range context new (float32 b) = fail_if (float_outside new (f64_of_f32 b)) context
  check_float_range context new (float64 b) = fail_if (float_outside new b) context
  check_float_range context new other = returned tt

  unfoldable pub cast_double : ValueType → ℕ → Result ℕ
  unfolding cast_trunc i32_to_raw i64_to_raw
  cast_double i32 d = cast_trunc (negsuc (2 ^ 31 - 1)) (pos (2 ^ 31 - 1)) i32_to_raw (f64_trunc d)
  cast_double ui32 d = cast_trunc (pos 0) (pos (2 ^ 32 - 1)) i32_to_raw (f64_trunc d)
  cast_double ptr d = cast_trunc (pos 0) (pos (2 ^ 32 - 1)) i32_to_raw (f64_trunc d)
  cast_double i64 d = cast_trunc (negsuc (2 ^ 63 - 1)) (pos (2 ^ 63 - 1)) i64_to_raw (f64_trunc d)
  cast_double ui64 d = cast_trunc (pos 0) (pos (2 ^ 64 - 1)) i64_to_raw (f64_trunc d)
  cast_double f32 d = returned (u32 (f32_of_f64 d))
  cast_double f64 d = returned d
  cast_double str d = raised internal
  cast_double (unnamed b) d = raised internal

  unfoldable pub cast_integer : ValueType → ℤ → Result ℕ
  unfolding i32_to_raw i64_to_raw
  cast_integer i32 z = returned (i32_to_raw z)
  cast_integer ui32 z = returned (i32_to_raw z)
  cast_integer ptr z = returned (i32_to_raw z)
  cast_integer i64 z = returned (i64_to_raw z)
  cast_integer ui64 z = returned (i64_to_raw z)
  cast_integer f32 z = returned (u32 (f32_of_ℤ z))
  cast_integer f64 z = returned (u64 (f64_of_ℤ z))
  cast_integer str z = raised internal
  cast_integer (unnamed b) z = raised internal

  -- A `float` that stays a `float` is returned early, so its cast to itself is never made.
  unfoldable pub cast_float : ValueType → ℕ → Result ℕ
  unfolding cast_double
  cast_float f32 b = returned b
  cast_float f64 b = returned (u64 (f64_of_f32 b))
  cast_float new b = cast_double new (f64_of_f32 b)

  -- The `switch` over the new type.
  unfoldable pub cast_to : ValueType → TypedValue → Result ℕ
  unfolding cast_integer cast_float cast_double
  cast_to new (int32 z) = cast_integer new z
  cast_to new (int64 z) = cast_integer new z
  cast_to new (uint32 n) = cast_integer new (pos n)
  cast_to new (uint64 n) = cast_integer new (pos n)
  cast_to new (float32 b) = cast_float new b
  cast_to new (float64 b) = cast_double new b

  unfoldable pub convert_to_type : ErrorContext → Value → ValueType → Result Value
  unfolding to_typed check_pointer check_float_range cast_to
  convert_to_type context v new = if same_type v.type new then returned v else do
    t ← to_typed v
    check_pointer context v.type new t
    check_float_range context new t
    raw ← cast_to new t
    returned (value new raw)
