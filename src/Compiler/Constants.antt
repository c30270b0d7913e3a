-- ===== src/Compiler/Constants.antt =====
-- src/compiler/optimiser/ConstantFolder.cpp: the values of constants, their conversions and operators.
-- Signed overflow, shifts by 32 bits or more, casts of floats out of range, and the end of a function
-- without a result are undefined behaviour of C++.
use simple_virtual_language.Base.{
  ℕ, ◌-◌, ◌^◌, bit_xor, Bool, true, false, not, ◌&&◌, ◌||◌, none, some, if◌then◌else◌, ltb, leb,
  ◌==◌,
}
use simple_virtual_language.Base.Int.{ℤ, pos, negsuc, pos_part, ◌-ℤ◌, leb_ℤ, ltb_ℤ}
use simple_virtual_language.Vm.Float.{FloatOps}
use simple_virtual_language.Vm.Values.{raw_to_i32, i32_to_raw}
use simple_virtual_language.Compiler.Ast.{
  int_type_id, float_type_id, bool_type_id, char_type_id, ConstantValue, int_value, float_value,
  bool_value, char_value, BinaryOperator, equal_equal, not_equal, less_than, less_than_or_equal,
  greater_than, greater_than_or_equal, UnaryOperator, unary_plus, unary_minus, bitwise_not,
}

pub data FoldError : Type 0 where
  division_by_zero invalid_const_fold bad_variant_access undefined_behaviour : FoldError

pub data Folded (A : Type 0) : Type 0 where
  folded : A → Folded A
  refused : FoldError → Folded A

infixl 5 ◌>>=◌
abbrev pub ◌>>=◌ : {A B : Type 0} → Folded A → (A → Folded B) → Folded B
folded a >>= f = f a
refused e >>= f = refused e

-- `std::get`.
abbrev pub get_int : ConstantValue → Folded ℤ
get_int (int_value z) = folded z
get_int other = refused bad_variant_access

abbrev pub get_float : ConstantValue → Folded ℕ
get_float (float_value raw) = folded raw
get_float other = refused bad_variant_access

abbrev pub get_bool : ConstantValue → Folded Bool
get_bool (bool_value b) = folded b
get_bool other = refused bad_variant_access

unfoldable pub type_of_value : ConstantValue → ℕ
type_of_value (int_value z) = int_type_id
type_of_value (float_value raw) = float_type_id
type_of_value (bool_value b) = bool_type_id
type_of_value (char_value c) = char_type_id

-- An `int`, where there is one.
unfoldable pub int_result : ℤ → Folded ConstantValue
int_result z =
    if leb_ℤ (negsuc (2 ^ 31 - 1)) z && leb_ℤ z (pos (2 ^ 31 - 1))
    then folded (int_value z)
    else refused undefined_behaviour

abbrev pub fold_int_unary : UnaryOperator → ℤ → Folded ConstantValue
fold_int_unary unary_minus z = int_result (pos 0 -ℤ z)
fold_int_unary bitwise_not z = folded (int_value (negsuc 0 -ℤ z))
fold_int_unary other z = refused invalid_const_fold

-- The operators on a constant. The sign of a float is its highest bit.
unfoldable pub fold_unary : UnaryOperator → ConstantValue → Folded ConstantValue
unfolding int_result raw_to_i32 ◌-ℤ◌
fold_unary unary_plus v = folded v
fold_unary op (int_value z) = fold_int_unary op z
fold_unary op (float_value raw) = folded (float_value (bit_xor raw (2 ^ 31)))
fold_unary op (bool_value b) = folded (bool_value (not b))
fold_unary op (char_value c) = fold_int_unary op (raw_to_i32 c)

abbrev pub as_int : ConstantValue → ℤ
as_int (int_value z) = z
as_int (float_value raw) = pos 0
as_int (bool_value b) = pos (if b then 1 else 0)
as_int (char_value c) = pos c

abbrev pub is_float : ConstantValue → Bool
is_float (float_value raw) = true
is_float other = false

abbrev pub is_char : ConstantValue → Bool
is_char (char_value c) = true
is_char other = false

module _ (fl : FloatOps) where
  open fl use {f32_lt, f32_le, f64_of_f32, f32_of_ℤ, f64_trunc}

  -- `static_cast<int>` and `static_cast<uint32_t>` of a float.
  unfoldable pub int_of_float : ℕ → Folded ConstantValue
  unfolding int_result
  int_of_float raw = elim (f64_trunc (f64_of_f32 raw)) [
    | none ↦ refused undefined_behaviour
    | some z ↦ int_result z
  ]

  unfoldable pub char_of_float : ℕ → Folded ConstantValue
  char_of_float raw = elim (f64_trunc (f64_of_f32 raw)) [
    | none ↦ refused undefined_behaviour
    | some z ↦
        if leb_ℤ (pos 0) z && leb_ℤ z (pos (2 ^ 32 - 1))
        then folded (char_value (pos_part z))
        else refused undefined_behaviour
  ]

  unfoldable pub convert_constant_value_to_type : ℕ → ConstantValue → Folded ConstantValue
  unfolding int_of_float char_of_float raw_to_i32 i32_to_raw
  convert_constant_value_to_type t (int_value z) =
      if t == int_type_id
      then folded (int_value z)
      else if t == float_type_id
      then folded (float_value (f32_of_ℤ z))
      else if t == char_type_id
      then folded (char_value (i32_to_raw z))
      else refused undefined_behaviour
  convert_constant_value_to_type t (float_value raw) =
      if t == int_type_id
      then int_of_float raw
      else if t == float_type_id
      then folded (float_value raw)
      else if t == char_type_id
      then char_of_float raw
      else refused undefined_behaviour
  convert_constant_value_to_type t (bool_value b) = folded (bool_value b)
  convert_constant_value_to_type t (char_value c) =
      if t == int_type_id
      then folded (int_value (raw_to_i32 c))
      else if t == float_type_id
      then folded (float_value (f32_of_ℤ (pos c)))
      else if t == char_type_id
      then folded (char_value c)
      else refused undefined_behaviour

  -- The operands of a comparison after the conversions of C++: floats, unsigned or signed numbers.
  abbrev pub as_float : ConstantValue → ℕ
  as_float (int_value z) = f32_of_ℤ z
  as_float (float_value raw) = raw
  as_float (bool_value b) = f32_of_ℤ (pos (if b then 1 else 0))
  as_float (char_value c) = f32_of_ℤ (pos c)

  -- Whether the left one is less, and whether it is not greater.
  abbrev pub less : ConstantValue → ConstantValue → Bool
  less a b =
      if is_float a || is_float b
      then f32_lt (as_float a) (as_float b)
      else if is_char a || is_char b
      then ltb (i32_to_raw (as_int a)) (i32_to_raw (as_int b))
      else ltb_ℤ (as_int a) (as_int b)

  abbrev pub not_greater : ConstantValue → ConstantValue → Bool
  not_greater a b =
      if is_float a || is_float b
      then f32_le (as_float a) (as_float b)
      else if is_char a || is_char b
      then leb (i32_to_raw (as_int a)) (i32_to_raw (as_int b))
      else leb_ℤ (as_int a) (as_int b)

  unfoldable pub fold_equality_or_comparison_operator :
      ConstantValue → ConstantValue → BinaryOperator → Folded Bool
  unfolding i32_to_raw
  fold_equality_or_comparison_operator a b equal_equal = folded (not_greater a b && not_greater b a)
  fold_equality_or_comparison_operator a b not_equal =
      folded (not (not_greater a b && not_greater b a))
  fold_equality_or_comparison_operator a b less_than = folded (less a b)
  fold_equality_or_comparison_operator a b less_than_or_equal = folded (not_greater a b)
  fold_equality_or_comparison_operator a b greater_than = folded (less b a)
  fold_equality_or_comparison_operator a b greater_than_or_equal = folded (not_greater b a)
  fold_equality_or_comparison_operator a b other = refused invalid_const_fold
