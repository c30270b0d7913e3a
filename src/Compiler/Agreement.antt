-- ===== src/Compiler/Agreement.antt =====
-- src/compiler/optimiser/ConstantFolder.cpp: what the folder makes of constants, if it makes something of
-- them, is what the language makes of them.
use simple_virtual_language.Base.{ℕ, ◌≡◌, refl, ap, Bool, true, false, if◌then◌else◌, ◌==◌}
use simple_virtual_language.Base.Int.{ℤ, ◌+ℤ◌, ◌-ℤ◌, ◌*ℤ◌}
use simple_virtual_language.Vm.Float.{FloatOps}
use simple_virtual_language.Compiler.Ast.{
  int_type_id, float_type_id, char_type_id, ConstantValue, int_value, float_value, bool_value,
  char_value, BinaryOperator, plus, minus, multiply, divide, integer_divide, modulo, bitwise_or,
  bitwise_xor, bitwise_and, left_shift, arithmetic_right_shift, logical_right_shift, logical_or,
  logical_and, equal_equal, not_equal, less_than, less_than_or_equal, greater_than,
  greater_than_or_equal, UnaryOperator, unary_plus, unary_minus, logical_not, bitwise_not,
  increment, decrement,
}
use simple_virtual_language.Compiler.Constants.{
  Folded, folded, refused, FoldError, division_by_zero, bad_variant_access, ◌>>=◌, get_int,
  get_float, int_result, int_of_float, char_of_float, less, not_greater, fold_unary,
  convert_constant_value_to_type, fold_equality_or_comparison_operator,
}
use simple_virtual_language.Compiler.Operators.{
  bitwise, shift_by, shift_left, int_remainder, float_quotient, fold_sum, fold_modulo,
  fold_arithmetic, fold_constants,
}
use simple_virtual_language.Compiler.Meaning.{
  unary_value, on_ints, on_floats, conversion, arithmetic_value, below, at_most, binary_value,
}
use simple_virtual_language.Compiler.Gives.{Gives, Gives-any}

pub fold_unary_lem : (op : UnaryOperator) (v : ConstantValue) → unary_value op v ≡ fold_unary op v
unfolding unary_value fold_unary int_result
fold_unary_lem unary_plus v = refl
fold_unary_lem unary_minus (int_value z) = refl
fold_unary_lem unary_minus (float_value raw) = refl
fold_unary_lem unary_minus (bool_value b) = refl
fold_unary_lem unary_minus (char_value c) = refl
fold_unary_lem logical_not (int_value z) = refl
fold_unary_lem logical_not (float_value raw) = refl
fold_unary_lem logical_not (bool_value b) = refl
fold_unary_lem logical_not (char_value c) = refl
fold_unary_lem bitwise_not (int_value z) = refl
fold_unary_lem bitwise_not (float_value raw) = refl
fold_unary_lem bitwise_not (bool_value b) = refl
fold_unary_lem bitwise_not (char_value c) = refl
fold_unary_lem increment (int_value z) = refl
fold_unary_lem increment (float_value raw) = refl
fold_unary_lem increment (bool_value b) = refl
fold_unary_lem increment (char_value c) = refl
fold_unary_lem decrement (int_value z) = refl
fold_unary_lem decrement (float_value raw) = refl
fold_unary_lem decrement (bool_value b) = refl
fold_unary_lem decrement (char_value c) = refl

Gives-same : {A : Type 0} (m r : Folded A) → m ≡ r → Gives (λ (x : A). m ≡ folded x) r
Gives-same m (folded x) h = h
Gives-same m (refused e) h = tt

-- A test on the divisor, in front of the rest.
guarded :
    (m : Folded ConstantValue) (zero : Bool) (q : ℕ) (g : ℕ → Folded ConstantValue)
    → m ≡ (if zero then refused division_by_zero else g q)
    → Gives (λ r. m ≡ folded r) ((if zero then refused division_by_zero else folded q) >>= g)
guarded m true q g h = tt
guarded m false q g h = Gives-same m (g q) h

refused_both :
    {A B : Type 0} (Q : B → Type 0) (b : Bool) (e e' : FoldError) (g : A → Folded B)
    → Gives Q ((if b then refused e else refused e') >>= g)
refused_both Q true e e' g = tt
refused_both Q false e e' g = tt

module _ (fl : FloatOps) where
  open fl use {f32_div, f32_is_zero}

  pub conversion_lem :
      (t : ℕ) (v : ConstantValue) → conversion fl t v ≡ convert_constant_value_to_type fl t v
  unfolding conversion convert_constant_value_to_type int_of_float char_of_float int_result
  conversion_lem t (int_value z) = refl
  conversion_lem t (float_value raw) = refl
  conversion_lem t (char_value c) = refl
  conversion_lem t (bool_value b) =
      by_type (t == int_type_id) (t == float_type_id) (t == char_type_id)
    where
      by_type :
          (i f c : Bool)
          → (if i
              then folded (bool_value b)
              else if f
              then folded (bool_value b)
              else if c
              then folded (bool_value b)
              else folded (bool_value b))
            ≡ folded (bool_value b)
      by_type true f c = refl
      by_type false true c = refl
      by_type false false true = refl
      by_type false false false = refl

  below_lem : (a b : ConstantValue) → below fl a b ≡ less fl a b
  below_lem (int_value x) (int_value y) = refl
  below_lem (int_value x) (float_value y) = refl
  below_lem (int_value x) (bool_value y) = refl
  below_lem (int_value x) (char_value y) = refl
  below_lem (float_value x) (int_value y) = refl
  below_lem (float_value x) (float_value y) = refl
  below_lem (float_value x) (bool_value y) = refl
  below_lem (float_value x) (char_value y) = refl
  below_lem (bool_value x) (int_value y) = refl
  below_lem (bool_value x) (float_value y) = refl
  below_lem (bool_value x) (bool_value y) = refl
  below_lem (bool_value x) (char_value y) = refl
  below_lem (char_value x) (int_value y) = refl
  below_lem (char_value x) (float_value y) = refl
  below_lem (char_value x) (bool_value y) = refl
  below_lem (char_value x) (char_value y) = refl

  at_most_lem : (a b : ConstantValue) → at_most fl a b ≡ not_greater fl a b
  at_most_lem (int_value x) (int_value y) = refl
  at_most_lem (int_value x) (float_value y) = refl
  at_most_lem (int_value x) (bool_value y) = refl
  at_most_lem (int_value x) (char_value y) = refl
  at_most_lem (float_value x) (int_value y) = refl
  at_most_lem (float_value x) (float_value y) = refl
  at_most_lem (float_value x) (bool_value y) = refl
  at_most_lem (float_value x) (char_value y) = refl
  at_most_lem (bool_value x) (int_value y) = refl
  at_most_lem (bool_value x) (float_value y) = refl
  at_most_lem (bool_value x) (bool_value y) = refl
  at_most_lem (bool_value x) (char_value y) = refl
  at_most_lem (char_value x) (int_value y) = refl
  at_most_lem (char_value x) (float_value y) = refl
  at_most_lem (char_value x) (bool_value y) = refl
  at_most_lem (char_value x) (char_value y) = refl

  abbrev Agrees : BinaryOperator → ConstantValue → ConstantValue → Folded ConstantValue → Type 0
  Agrees op a b r = Gives (λ x. arithmetic_value fl op a b ≡ folded x) r

  -- An operation on integers alone.
  ints-Agrees :
      (op : BinaryOperator) (g : ℤ → ℤ → Folded ConstantValue) (a b : ConstantValue)
      → ((x y : ℤ) → on_ints op x y ≡ g x y)
      → Agrees op a b (do x ← get_int a; y ← get_int b; g x y)
  unfolding arithmetic_value
  ints-Agrees op g (int_value x) (int_value y) h = Gives-same (on_ints op x y) (g x y) (h x y)
  ints-Agrees op g (int_value x) (float_value y) h = tt
  ints-Agrees op g (int_value x) (bool_value y) h = tt
  ints-Agrees op g (int_value x) (char_value y) h = tt
  ints-Agrees op g (float_value x) b h = tt
  ints-Agrees op g (bool_value x) b h = tt
  ints-Agrees op g (char_value x) b h = tt

  -- An operation on the quotient of two floats.
  quotient-Agrees :
      (op : BinaryOperator) (g : ℕ → Folded ConstantValue) (a b : ConstantValue)
      → ((x y : ℕ)
          → on_floats fl op x y
            ≡ (if f32_is_zero y then refused division_by_zero else g (f32_div x y)))
      → Agrees op a b (do q ← float_quotient fl a b; g q)
  unfolding arithmetic_value float_quotient
  quotient-Agrees op g a (int_value y) h = tt
  quotient-Agrees op g a (bool_value y) h = tt
  quotient-Agrees op g a (char_value y) h = tt
  quotient-Agrees op g (int_value x) (float_value y) h =
      refused_both _ (f32_is_zero y) division_by_zero bad_variant_access g
  quotient-Agrees op g (float_value x) (float_value y) h =
      guarded (on_floats fl op x y) (f32_is_zero y) (f32_div x y) g (h x y)
  quotient-Agrees op g (bool_value x) (float_value y) h =
      refused_both _ (f32_is_zero y) division_by_zero bad_variant_access g
  quotient-Agrees op g (char_value x) (float_value y) h =
      refused_both _ (f32_is_zero y) division_by_zero bad_variant_access g

  -- A quotient of what is no float.
  no_quotient :
      (Q : ConstantValue → Type 0) (a b : ConstantValue) (g : ℕ → Folded ConstantValue)
      → get_float a ≡ refused bad_variant_access
      → Gives Q (do q ← float_quotient fl a b; g q)
  unfolding float_quotient
  no_quotient Q a (int_value y) g h = tt
  no_quotient Q a (bool_value y) g h = tt
  no_quotient Q a (char_value y) g h = tt
  no_quotient Q a (float_value y) g h =
      rw h (refused_both Q (f32_is_zero y) division_by_zero bad_variant_access g)

  sum-Agrees :
      (op : BinaryOperator) (f : ℕ → ℕ → ℕ) (i : ℤ → ℤ → ℤ) (a b : ConstantValue)
      → ((x y : ℕ) → on_floats fl op x y ≡ folded (float_value (f x y)))
      → ((x y : ℤ) → on_ints op x y ≡ int_result (i x y))
      → Agrees op a b (fold_sum fl f i a b)
  unfolding arithmetic_value
  sum-Agrees op f i (int_value x) (int_value y) hf hi =
      Gives-same (on_ints op x y) (int_result (i x y)) (hi x y)
  sum-Agrees op f i (int_value x) (float_value y) hf hi = tt
  sum-Agrees op f i (int_value x) (bool_value y) hf hi = tt
  sum-Agrees op f i (int_value x) (char_value y) hf hi = tt
  sum-Agrees op f i (float_value x) (int_value y) hf hi = tt
  sum-Agrees op f i (float_value x) (float_value y) hf hi = hf x y
  sum-Agrees op f i (float_value x) (bool_value y) hf hi = tt
  sum-Agrees op f i (float_value x) (char_value y) hf hi = tt
  sum-Agrees op f i (bool_value x) b hf hi = no_quotient _ (bool_value x) b _ refl
  sum-Agrees op f i (char_value x) b hf hi = no_quotient _ (char_value x) b _ refl

  modulo-Agrees : (a b : ConstantValue) → Agrees modulo a b (fold_modulo fl a b)
  unfolding arithmetic_value on_ints on_floats int_remainder int_result bitwise
  modulo-Agrees (int_value x) (int_value y) =
      Gives-same (on_ints modulo x y) (int_remainder x y) refl
  modulo-Agrees (int_value x) (float_value y) = tt
  modulo-Agrees (int_value x) (bool_value y) = tt
  modulo-Agrees (int_value x) (char_value y) = tt
  modulo-Agrees (float_value x) (int_value y) = tt
  modulo-Agrees (float_value x) (float_value y) = Gives-same (on_floats fl modulo x y) _ refl
  modulo-Agrees (float_value x) (bool_value y) = tt
  modulo-Agrees (float_value x) (char_value y) = tt
  modulo-Agrees (bool_value x) b = tt
  modulo-Agrees (char_value x) b = tt

  fold_arithmetic-Agrees :
      (op : BinaryOperator) (a b : ConstantValue) → Agrees op a b (fold_arithmetic fl op a b)
  unfolding fold_arithmetic on_ints on_floats int_result int_of_float bitwise shift_by shift_left
  fold_arithmetic-Agrees plus a b =
      sum-Agrees plus _ (λ x y. x +ℤ y) a b (λ x y. refl) (λ x y. refl)
  fold_arithmetic-Agrees minus a b =
      sum-Agrees minus _ (λ x y. x -ℤ y) a b (λ x y. refl) (λ x y. refl)
  fold_arithmetic-Agrees multiply a b =
      sum-Agrees multiply _ (λ x y. x *ℤ y) a b (λ x y. refl) (λ x y. refl)
  fold_arithmetic-Agrees divide a b = quotient-Agrees divide _ a b (λ x y. refl)
  fold_arithmetic-Agrees integer_divide a b = quotient-Agrees integer_divide _ a b (λ x y. refl)
  fold_arithmetic-Agrees modulo a b = modulo-Agrees a b
  fold_arithmetic-Agrees bitwise_or a b = ints-Agrees bitwise_or _ a b (λ x y. refl)
  fold_arithmetic-Agrees bitwise_xor a b = ints-Agrees bitwise_xor _ a b (λ x y. refl)
  fold_arithmetic-Agrees bitwise_and a b = ints-Agrees bitwise_and _ a b (λ x y. refl)
  fold_arithmetic-Agrees left_shift a b = ints-Agrees left_shift _ a b (λ x y. refl)
  fold_arithmetic-Agrees arithmetic_right_shift a b =
      ints-Agrees arithmetic_right_shift _ a b (λ x y. refl)
  fold_arithmetic-Agrees logical_right_shift a b =
      ints-Agrees logical_right_shift _ a b (λ x y. refl)
  fold_arithmetic-Agrees logical_or a b = tt
  fold_arithmetic-Agrees logical_and a b = tt
  fold_arithmetic-Agrees equal_equal a b = tt
  fold_arithmetic-Agrees not_equal a b = tt
  fold_arithmetic-Agrees less_than a b = tt
  fold_arithmetic-Agrees less_than_or_equal a b = tt
  fold_arithmetic-Agrees greater_than a b = tt
  fold_arithmetic-Agrees greater_than_or_equal a b = tt

  abbrev converted_value : ℕ → BinaryOperator → ConstantValue → ConstantValue → Folded ConstantValue
  converted_value t op a b = do
    x ← conversion fl t a
    y ← conversion fl t b
    arithmetic_value fl op x y

  converted-Agrees :
      (t : ℕ) (op : BinaryOperator) (a b : ConstantValue)
      → Gives
          (λ r. converted_value t op a b ≡ folded r)
          (do
            x ← convert_constant_value_to_type fl t a
            y ← convert_constant_value_to_type fl t b
            fold_arithmetic fl op x y)
  converted-Agrees t op a b = Gives-any _ (convert_constant_value_to_type fl t a) _ (λ x is_x.
      Gives-any _ (convert_constant_value_to_type fl t b) _ (λ y is_y.
        rw (conversion_lem t a, is_x, conversion_lem t b, is_y) (fold_arithmetic-Agrees op x y)))

  -- Where the folder makes a constant of an operator and two others, the language does.
  pub fold_constants-Agrees :
      (t : ℕ) (op : BinaryOperator) (a b : ConstantValue)
      → Gives (λ r. binary_value fl t op a b ≡ folded r) (fold_constants fl t op a b)
  unfolding binary_value fold_constants fold_equality_or_comparison_operator
  fold_constants-Agrees t plus a b = converted-Agrees t plus a b
  fold_constants-Agrees t minus a b = converted-Agrees t minus a b
  fold_constants-Agrees t multiply a b = converted-Agrees t multiply a b
  fold_constants-Agrees t divide a b = converted-Agrees t divide a b
  fold_constants-Agrees t integer_divide a b = converted-Agrees float_type_id integer_divide a b
  fold_constants-Agrees t modulo a b = converted-Agrees t modulo a b
  fold_constants-Agrees t bitwise_or a b = converted-Agrees t bitwise_or a b
  fold_constants-Agrees t bitwise_xor a b = converted-Agrees t bitwise_xor a b
  fold_constants-Agrees t bitwise_and a b = converted-Agrees t bitwise_and a b
  fold_constants-Agrees t left_shift a b = converted-Agrees t left_shift a b
  fold_constants-Agrees t arithmetic_right_shift a b = converted-Agrees t arithmetic_right_shift a b
  fold_constants-Agrees t logical_right_shift a b = converted-Agrees t logical_right_shift a b
  fold_constants-Agrees t logical_or a b = converted-Agrees t logical_or a b
  fold_constants-Agrees t logical_and a b = converted-Agrees t logical_and a b
  fold_constants-Agrees t equal_equal a b = rw (at_most_lem a b, at_most_lem b a) refl
  fold_constants-Agrees t not_equal a b = rw (at_most_lem a b, at_most_lem b a) refl
  fold_constants-Agrees t less_than a b = ap (λ (r : Bool). folded (bool_value r)) (below_lem a b)
  fold_constants-Agrees t less_than_or_equal a b =
      ap (λ (r : Bool). folded (bool_value r)) (at_most_lem a b)
  fold_constants-Agrees t greater_than a b =
      ap (λ (r : Bool). folded (bool_value r)) (below_lem b a)
  fold_constants-Agrees t greater_than_or_equal a b =
      ap (λ (r : Bool). folded (bool_value r)) (at_most_lem b a)
