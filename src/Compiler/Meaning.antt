-- ===== src/Compiler/Meaning.antt =====
-- What the operators and conversions of the language make of values, by the types of the operands, and
-- without the folder. Integers have 32 bits, and what does not fit them is undefined; characters are
-- unsigned numbers of 32 bits; a float is its bit pattern.
use simple_virtual_language.Base.{
  ℕ, ◌*◌, ◌/◌, ◌^◌, bit_and, bit_or, bit_xor, Bool, not, ◌&&◌, ◌||◌, none, some, if◌then◌else◌, leb,
  ltb, ◌==◌,
}
use simple_virtual_language.Base.Int.{
  ℤ, pos, negsuc, pos_part, ◌+ℤ◌, ◌-ℤ◌, ◌*ℤ◌, ltb_ℤ, leb_ℤ, tdiv, tmod, div_floor,
}
use simple_virtual_language.Vm.Float.{FloatOps}
use simple_virtual_language.Vm.Values.{raw_to_i32, i32_to_raw, is_zero_ℤ}
use simple_virtual_language.Compiler.Ast.{
  int_type_id, float_type_id, char_type_id, ConstantValue, int_value, float_value, bool_value,
  char_value, BinaryOperator, plus, minus, multiply, divide, integer_divide, modulo, bitwise_or,
  bitwise_xor, bitwise_and, left_shift, arithmetic_right_shift, logical_right_shift, equal_equal,
  not_equal, less_than, less_than_or_equal, greater_than, greater_than_or_equal, UnaryOperator,
  unary_plus, unary_minus, bitwise_not,
}
use simple_virtual_language.Compiler.Constants.{
  Folded, folded, refused, division_by_zero, invalid_const_fold, undefined_behaviour, ◌>>=◌,
}

abbrev pub an_int : ℤ → Folded ConstantValue
an_int z =
    if leb_ℤ (negsuc 0x7fff_ffff) z && leb_ℤ z (pos 0x7fff_ffff)
    then folded (int_value z)
    else refused undefined_behaviour

abbrev pub a_char : ℤ → Folded ConstantValue
a_char z =
    if leb_ℤ (pos 0) z && leb_ℤ z (pos 0xffff_ffff)
    then folded (char_value (pos_part z))
    else refused undefined_behaviour

-- The sign of a float is its highest bit.
unfoldable pub unary_value : UnaryOperator → ConstantValue → Folded ConstantValue
unfolding raw_to_i32 ◌-ℤ◌
unary_value unary_plus v = folded v
unary_value unary_minus (int_value z) = an_int (pos 0 -ℤ z)
unary_value unary_minus (char_value c) = an_int (pos 0 -ℤ raw_to_i32 c)
unary_value bitwise_not (int_value z) = folded (int_value (negsuc 0 -ℤ z))
unary_value bitwise_not (char_value c) = folded (int_value (negsuc 0 -ℤ raw_to_i32 c))
unary_value op (float_value raw) = folded (float_value (bit_xor raw (2 ^ 31)))
unary_value op (bool_value b) = folded (bool_value (not b))
unary_value op other = refused invalid_const_fold

-- A shift by less than 32 bits.
abbrev pub shifted : ℤ → (ℕ → Folded ConstantValue) → Folded ConstantValue
shifted y f =
    if ltb_ℤ y (pos 0) || leb_ℤ (pos 32) y then refused undefined_behaviour else f (pos_part y)

-- An operation on the bits of two integers.
abbrev pub on_bits : (ℕ → ℕ → ℕ) → ℤ → ℤ → Folded ConstantValue
on_bits f x y = folded (int_value (raw_to_i32 (f (i32_to_raw x) (i32_to_raw y))))

-- A number that is not negative is moved up by `n` bits, to the sign at most.
abbrev pub moved_up : ℤ → ℕ → Folded ConstantValue
moved_up x n =
    if ltb_ℤ x (pos 0) || leb (2 ^ 32) (pos_part x * 2 ^ n)
    then refused undefined_behaviour
    else folded (int_value (raw_to_i32 (pos_part x * 2 ^ n)))

unfoldable pub on_ints : BinaryOperator → ℤ → ℤ → Folded ConstantValue
unfolding raw_to_i32 i32_to_raw ◌+ℤ◌ ◌-ℤ◌ ◌*ℤ◌ tdiv tmod div_floor
on_ints plus x y = an_int (x +ℤ y)
on_ints minus x y = an_int (x -ℤ y)
on_ints multiply x y = an_int (x *ℤ y)
on_ints modulo x y =
    if is_zero_ℤ y
    then refused division_by_zero
    else do quotient ← an_int (tdiv x y); folded (int_value (tmod x y))
on_ints bitwise_and x y = on_bits bit_and x y
on_ints bitwise_or x y = on_bits bit_or x y
on_ints bitwise_xor x y = on_bits bit_xor x y
on_ints left_shift x y = shifted y (λ n. moved_up x n)
on_ints arithmetic_right_shift x y = shifted y (λ n. folded (int_value (div_floor x (2 ^ n))))
on_ints logical_right_shift x y =
    shifted y (λ n. folded (int_value (raw_to_i32 (i32_to_raw x / 2 ^ n))))
on_ints other x y = refused invalid_const_fold

module _ (fl : FloatOps) where
  open fl use {
    f32_add, f32_sub, f32_mul, f32_div, f32_rem, f32_is_zero, f32_lt, f32_le, f64_of_f32, f32_of_ℤ,
    f64_trunc,
  }

  -- The whole number of a float, as a value of another type.
  abbrev pub truncated : (ℤ → Folded ConstantValue) → ℕ → Folded ConstantValue
  truncated as_value raw = elim (f64_trunc (f64_of_f32 raw)) [
    | none ↦ refused undefined_behaviour
    | some z ↦ as_value z
  ]

  abbrev pub to_int : ConstantValue → Folded ConstantValue
  to_int (int_value z) = folded (int_value z)
  to_int (float_value raw) = truncated an_int raw
  to_int (bool_value b) = folded (bool_value b)
  to_int (char_value c) = folded (int_value (raw_to_i32 c))

  abbrev pub float_of : ConstantValue → ℕ
  float_of (int_value z) = f32_of_ℤ z
  float_of (float_value raw) = raw
  float_of (bool_value b) = f32_of_ℤ (pos (if b then 1 else 0))
  float_of (char_value c) = f32_of_ℤ (pos c)

  abbrev pub to_float : ConstantValue → Folded ConstantValue
  to_float (bool_value b) = folded (bool_value b)
  to_float v = folded (float_value (float_of v))

  abbrev pub to_char : ConstantValue → Folded ConstantValue
  to_char (int_value z) = folded (char_value (i32_to_raw z))
  to_char (float_value raw) = truncated a_char raw
  to_char (bool_value b) = folded (bool_value b)
  to_char (char_value c) = folded (char_value c)

  abbrev pub to_other : ConstantValue → Folded ConstantValue
  to_other (bool_value b) = folded (bool_value b)
  to_other v = refused undefined_behaviour

  -- A value as one of the type with the number `t`. Nothing else is made of a `bool`.
  unfoldable pub conversion : ℕ → ConstantValue → Folded ConstantValue
  unfolding raw_to_i32 i32_to_raw
  conversion t v =
      if t == int_type_id
      then to_int v
      else if t == float_type_id
      then to_float v
      else if t == char_type_id
      then to_char v
      else to_other v

  abbrev unless_zero : ℕ → Folded ConstantValue → Folded ConstantValue
  unless_zero y r = if f32_is_zero y then refused division_by_zero else r

  unfoldable pub on_floats : BinaryOperator → ℕ → ℕ → Folded ConstantValue
  on_floats plus x y = folded (float_value (f32_add x y))
  on_floats minus x y = folded (float_value (f32_sub x y))
  on_floats multiply x y = folded (float_value (f32_mul x y))
  on_floats divide x y = unless_zero y (folded (float_value (f32_div x y)))
  on_floats integer_divide x y = unless_zero y (truncated an_int (f32_div x y))
  on_floats modulo x y = unless_zero y (folded (float_value (f32_rem x y)))
  on_floats other x y = refused invalid_const_fold

  unfoldable pub arithmetic_value :
      BinaryOperator → ConstantValue → ConstantValue → Folded ConstantValue
  unfolding on_ints on_floats
  arithmetic_value op (int_value x) (int_value y) = on_ints op x y
  arithmetic_value op (float_value x) (float_value y) = on_floats op x y
  arithmetic_value op a b = refused invalid_const_fold

  -- The bits of a value as an unsigned number, and its number.
  abbrev number : ConstantValue → ℤ
  number (int_value z) = z
  number (float_value raw) = pos 0
  number (bool_value b) = pos (if b then 1 else 0)
  number (char_value c) = pos c

  abbrev unsigned : ConstantValue → ℕ
  unsigned v = i32_to_raw (number v)

  -- Whether the left value is less, and whether it is at most the right one: among floats if one is a
  -- float, among unsigned numbers if one is a character, and otherwise among signed ones.
  abbrev pub below : ConstantValue → ConstantValue → Bool
  below (float_value x) b = f32_lt x (float_of b)
  below a (float_value y) = f32_lt (float_of a) y
  below (char_value c) b = ltb (i32_to_raw (pos c)) (unsigned b)
  below a (char_value d) = ltb (unsigned a) (i32_to_raw (pos d))
  below a b = ltb_ℤ (number a) (number b)

  abbrev pub at_most : ConstantValue → ConstantValue → Bool
  at_most (float_value x) b = f32_le x (float_of b)
  at_most a (float_value y) = f32_le (float_of a) y
  at_most (char_value c) b = leb (i32_to_raw (pos c)) (unsigned b)
  at_most a (char_value d) = leb (unsigned a) (i32_to_raw (pos d))
  at_most a b = leb_ℤ (number a) (number b)

  abbrev converted_first : ℕ → BinaryOperator → ConstantValue → ConstantValue → Folded ConstantValue
  converted_first t op a b = do x ← conversion t a; y ← conversion t b; arithmetic_value op x y

  -- The operators but `&&` and `||`. The operands of the integer division are converted to floats, the
  -- others to the type `t` of the result, and those of a comparison not at all.
  unfoldable pub binary_value :
      ℕ → BinaryOperator → ConstantValue → ConstantValue → Folded ConstantValue
  unfolding conversion arithmetic_value i32_to_raw
  binary_value t equal_equal a b = folded (bool_value (at_most a b && at_most b a))
  binary_value t not_equal a b = folded (bool_value (not (at_most a b && at_most b a)))
  binary_value t less_than a b = folded (bool_value (below a b))
  binary_value t less_than_or_equal a b = folded (bool_value (at_most a b))
  binary_value t greater_than a b = folded (bool_value (below b a))
  binary_value t greater_than_or_equal a b = folded (bool_value (at_most b a))
  binary_value t integer_divide a b = converted_first float_type_id integer_divide a b
  binary_value t op a b = converted_first t op a b
