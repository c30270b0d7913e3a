-- ===== src/Vm/Arithmetic/Bitwise.antt =====
-- src/vm/ArithmeticOps.cpp: the bitwise and shift instructions. A shift by 64 or more is undefined
-- behaviour of C++.
use simple_virtual_language.Base.{
  ℕ, ◌+◌, ◌-◌, ◌*◌, ◌/◌, ◌^◌, bit_and, bit_or, bit_xor, Bool, ◌&&◌, ◌||◌, not, ltb, if◌then◌else◌,
}
use simple_virtual_language.Base.Int.{div_floor}
use simple_virtual_language.Isa.{ValueType, i32, ui32, i64, ui64, f32, f64, ptr, same_type}
use simple_virtual_language.Vm.State.{
  internal, Value, value, Result, returned, raised, undefined, u32, u64,
}
use simple_virtual_language.Vm.Values.{raw_to_i32, raw_to_i64, i32_to_raw, i64_to_raw, is_float}

-- The operands of the bitwise instructions.
unfoldable pub bitwise_type : ValueType → Bool
unfolding is_float same_type
bitwise_type t = not (is_float t || same_type t ptr)

unfoldable pub bitwise_not : Value → Result Value
unfolding bitwise_type
bitwise_not v =
    if bitwise_type v.type
    then returned (value v.type (2 ^ 64 - 1 - v.raw_value))
    else raised internal

unfoldable pub bitwise : (ℕ → ℕ → ℕ) → Value → Value → Result Value
unfolding bitwise_type same_type
bitwise op v w =
    if same_type v.type w.type && bitwise_type v.type
    then returned (value v.type (op v.raw_value w.raw_value))
    else raised internal

unfoldable pub bitwise_and : Value → Value → Result Value
unfolding bitwise
bitwise_and = bitwise bit_and

unfoldable pub bitwise_or : Value → Value → Result Value
unfolding bitwise
bitwise_or = bitwise bit_or

unfoldable pub bitwise_xor : Value → Value → Result Value
unfolding bitwise
bitwise_xor = bitwise bit_xor

unfoldable pub get_bit_width : ValueType → ℕ
get_bit_width i32 = 32
get_bit_width ui32 = 32
get_bit_width f32 = 32
get_bit_width i64 = 64
get_bit_width ui64 = 64
get_bit_width f64 = 64
get_bit_width other = 0

-- `static_cast<uint32_t>(value2.rawValue) & (getBitWidth(value1.type) - 1)`.
unfoldable pub shift_amount : ValueType → ℕ → ℕ
unfolding get_bit_width
shift_amount t raw = bit_and (u32 raw) (u32 (get_bit_width t + 2 ^ 32 - 1))

unfoldable pub is_32_bit_integer : ValueType → Bool
unfolding same_type
is_32_bit_integer t = same_type t i32 || same_type t ui32

-- `result &= 0xFFFFFFFF` for the 32-bit integers.
unfoldable pub truncate : ValueType → ℕ → ℕ
unfolding is_32_bit_integer
truncate t raw = if is_32_bit_integer t then bit_and raw 0xffff_ffff else raw

unfoldable pub shl_raw : ValueType → ℕ → ℕ → Result Value
unfolding truncate
shl_raw t raw shift =
    if ltb shift 64 then returned (value t (truncate t (u64 (raw * 2 ^ shift)))) else undefined

unfoldable pub shl : Value → Value → Result Value
unfolding shl_raw shift_amount bitwise_type
shl v w =
    if bitwise_type w.type && bitwise_type v.type
    then shl_raw v.type v.raw_value (shift_amount v.type w.raw_value)
    else raised internal

unfoldable pub shr_logical : ValueType → ℕ → ℕ → ℕ
unfolding truncate
shr_logical t raw shift = truncate t (raw / 2 ^ shift)

unfoldable pub shr_arithmetic : ValueType → ℕ → ℕ → ℕ
unfolding raw_to_i32 raw_to_i64 i32_to_raw i64_to_raw div_floor
shr_arithmetic i32 raw shift = i32_to_raw (div_floor (raw_to_i32 raw) (2 ^ shift))
shr_arithmetic t raw shift = i64_to_raw (div_floor (raw_to_i64 raw) (2 ^ shift))

unfoldable pub shr_raw : Bool → ValueType → ℕ → ℕ → Result Value
unfolding shr_logical shr_arithmetic
shr_raw is_arithmetic t raw shift =
    if ltb shift 64
    then returned
        (value t (if is_arithmetic then shr_arithmetic t raw shift else shr_logical t raw shift))
    else undefined

unfoldable pub shr : Bool → Value → Value → Result Value
unfolding shr_raw shift_amount bitwise_type
shr is_arithmetic v w =
    if bitwise_type w.type && bitwise_type v.type
    then shr_raw is_arithmetic v.type v.raw_value (shift_amount v.type w.raw_value)
    else raised internal
