-- ===== src/Compiler/Operators.antt =====
-- src/compiler/optimiser/ConstantFolder.cpp: `foldExprBinary` on two constants.
use simple_virtual_language.Base.{
  ℕ, ◌*◌, ◌/◌, ◌^◌, bit_and, bit_or, bit_xor, Bool, ◌||◌, if◌then◌else◌, leb,
}
use simple_virtual_language.Base.Int.{
  ℤ, pos, pos_part, ◌+ℤ◌, ◌-ℤ◌, ◌*ℤ◌, ltb_ℤ, leb_ℤ, tdiv, tmod, div_floor,
}
use simple_virtual_language.Vm.Float.{FloatOps}
use simple_virtual_language.Vm.Values.{raw_to_i32, i32_to_raw, is_zero_ℤ}
use simple_virtual_language.Compiler.Ast.{
  float_type_id, ConstantValue, int_value, float_value, bool_value, BinaryOperator, plus, minus,
  multiply, divide, integer_divide, modulo, bitwise_or, bitwise_xor, bitwise_and, left_shift,
  arithmetic_right_shift, logical_right_shift, equal_equal, not_equal, less_than,
  less_than_or_equal, greater_than, greater_than_or_equal,
}
use simple_virtual_language.Compiler.Constants.{
  Folded, folded, refused, division_by_zero, invalid_const_fold, undefined_behaviour, ◌>>=◌,
  get_int, get_float, int_result, int_of_float, convert_constant_value_to_type,
  fold_equality_or_comparison_operator,
}

-- Bitwise operators on `int`, in two's complement.
unfoldable pub bitwise : (ℕ → ℕ → ℕ) → ConstantValue → ConstantValue → Folded ConstantValue
unfolding raw_to_i32 i32_to_raw
bitwise f a b = do
  x ← get_int a
  y ← get_int b
  folded (int_value (raw_to_i32 (f (i32_to_raw x) (i32_to_raw y))))

-- A shift by a negative number or by 32 or more is undefined.
unfoldable pub shift_by :
    (ℤ → ℕ → Folded ConstantValue) → ConstantValue → ConstantValue → Folded ConstantValue
shift_by f a b = do
  x ← get_int a
  y ← get_int b
  (if ltb_ℤ y (pos 0) || leb_ℤ (pos 32) y then refused undefined_behaviour else f x (pos_part y))

-- In C++17 a bit may be shifted into the sign, but not beyond it, and no negative number to the left.
unfoldable pub shift_left : ℤ → ℕ → Folded ConstantValue
unfolding raw_to_i32
shift_left x n =
    if ltb_ℤ x (pos 0) || leb (2 ^ 32) (pos_part x * 2 ^ n)
    then refused undefined_behaviour
    else folded (int_value (raw_to_i32 (pos_part x * 2 ^ n)))

-- The remainder is undefined where the quotient overflows.
unfoldable pub int_remainder : ℤ → ℤ → Folded ConstantValue
unfolding int_result tdiv tmod
int_remainder x y =
    if is_zero_ℤ y
    then refused division_by_zero
    else do quotient ← int_result (tdiv x y); folded (int_value (tmod x y))

module _ (fl : FloatOps) where
  open fl use {f32_add, f32_sub, f32_mul, f32_div, f32_rem, f32_is_zero}

  -- The quotient of two floats, which the cases of `+`, `-` and `*` also reach, without a `break`, where
  -- the operands are neither floats nor integers.
  unfoldable pub float_quotient : ConstantValue → ConstantValue → Folded ℕ
  float_quotient a b = do
    y ← get_float b
    (if f32_is_zero y then refused division_by_zero else do x ← get_float a; folded (f32_div x y))

  abbrev pub fold_divide : ConstantValue → ConstantValue → Folded ConstantValue
  fold_divide a b = do q ← float_quotient a b; folded (float_value q)

  abbrev pub fold_sum :
      (ℕ → ℕ → ℕ) → (ℤ → ℤ → ℤ) → ConstantValue → ConstantValue → Folded ConstantValue
  fold_sum on_float on_int (float_value x) b = do
    y ← get_float b
    folded (float_value (on_float x y))
  fold_sum on_float on_int (int_value x) b = do y ← get_int b; int_result (on_int x y)
  fold_sum on_float on_int a b = fold_divide a b

  abbrev pub fold_modulo : ConstantValue → ConstantValue → Folded ConstantValue
  fold_modulo (float_value x) b = do
    y ← get_float b
    (if f32_is_zero y then refused division_by_zero else folded (float_value (f32_rem x y)))
  fold_modulo (int_value x) b = do y ← get_int b; int_remainder x y
  fold_modulo a b = bitwise bit_and a b

  -- The second `switch`, on converted operands.
  unfoldable pub fold_arithmetic :
      BinaryOperator → ConstantValue → ConstantValue → Folded ConstantValue
  unfolding float_quotient int_result int_of_float int_remainder bitwise shift_by shift_left
      div_floor raw_to_i32 i32_to_raw ◌+ℤ◌ ◌-ℤ◌ ◌*ℤ◌
  fold_arithmetic plus a b = fold_sum f32_add (λ x y. x +ℤ y) a b
  fold_arithmetic minus a b = fold_sum f32_sub (λ x y. x -ℤ y) a b
  fold_arithmetic multiply a b = fold_sum f32_mul (λ x y. x *ℤ y) a b
  fold_arithmetic divide a b = fold_divide a b
  fold_arithmetic integer_divide a b = do q ← float_quotient a b; int_of_float fl q
  fold_arithmetic modulo a b = fold_modulo a b
  fold_arithmetic bitwise_and a b = bitwise bit_and a b
  fold_arithmetic bitwise_or a b = bitwise bit_or a b
  fold_arithmetic bitwise_xor a b = bitwise bit_xor a b
  fold_arithmetic left_shift a b = shift_by shift_left a b
  fold_arithmetic arithmetic_right_shift a b =
      shift_by (λ x n. folded (int_value (div_floor x (2 ^ n)))) a b
  fold_arithmetic logical_right_shift a b =
      shift_by (λ x n. folded (int_value (raw_to_i32 (i32_to_raw x / 2 ^ n)))) a b
  fold_arithmetic other a b = refused invalid_const_fold

  abbrev pub is_comparison : BinaryOperator → Bool
  is_comparison equal_equal = Bool.true
  is_comparison not_equal = Bool.true
  is_comparison less_than = Bool.true
  is_comparison less_than_or_equal = Bool.true
  is_comparison greater_than = Bool.true
  is_comparison greater_than_or_equal = Bool.true
  is_comparison other = Bool.false

  -- The type that the operands are converted to.
  abbrev pub operand_type : ℕ → BinaryOperator → ℕ
  operand_type t integer_divide = float_type_id
  operand_type t other = t

  unfoldable pub fold_constants :
      ℕ → BinaryOperator → ConstantValue → ConstantValue → Folded ConstantValue
  unfolding convert_constant_value_to_type fold_arithmetic fold_equality_or_comparison_operator
  fold_constants t op a b =
      if is_comparison op
      then (do result ← fold_equality_or_comparison_operator fl a b op; folded (bool_value result))
      else do
        x ← convert_constant_value_to_type fl (operand_type t op) a
        y ← convert_constant_value_to_type fl (operand_type t op) b
        fold_arithmetic op x y
