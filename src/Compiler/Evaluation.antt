-- ===== src/Compiler/Evaluation.antt =====
-- What expressions stand for: an evaluation by operand, in the order of the language, with the operators of
-- Meaning and nothing of the folder. Calls, indexing and `new` have no value here. Last, the expressions on
-- which the folder keeps the left operands of `&&` and `||`, which is told by what it folds.
use simple_virtual_language.Base.{ℕ, Bool, true, false, not, ◌&&◌, ◌||◌, if◌then◌else◌}
use simple_virtual_language.Base.Text.{Text}
use simple_virtual_language.Vm.Float.{FloatOps}
use simple_virtual_language.Compiler.Ast.{
  ConstantValue, bool_value, BinaryOperator, logical_and, logical_or, Expr, literal, identifier,
  unary, binary, ternary, cast,
}
use simple_virtual_language.Compiler.Constants.{
  Folded, folded, refused, invalid_const_fold, ◌>>=◌, get_bool,
}
use simple_virtual_language.Compiler.Meaning.{unary_value, conversion, binary_value}
use simple_virtual_language.Compiler.Folder.{Folding, is_logical, fold_expr}

abbrev pub as_bool : Folded ConstantValue → Folded ConstantValue
as_bool r = do v ← r; y ← get_bool v; folded (bool_value y)

abbrev pub choose :
    Folded ConstantValue → Folded ConstantValue → Folded ConstantValue → Folded ConstantValue
choose condition on_true on_false = do
  c ← condition
  b ← get_bool c
  (if b then on_true else on_false)

-- A binary operator on the values of its operands. `&&` and `||` look at the right one only where the left
-- one does not decide.
unfoldable pub operator_value :
    FloatOps
    → ℕ
    → BinaryOperator
    → Folded ConstantValue
    → Folded ConstantValue
    → Folded ConstantValue
unfolding binary_value
operator_value fl t logical_and left right = do
  a ← left
  x ← get_bool a
  (if x then as_bool right else folded (bool_value false))
operator_value fl t logical_or left right = do
  a ← left
  x ← get_bool a
  (if x then folded (bool_value true) else as_bool right)
operator_value fl t op left right = do a ← left; b ← right; binary_value fl t op a b

module _ (fl : FloatOps) (variables : Text → Folded ConstantValue) where
  unfoldable pub evaluate : Expr → Folded ConstantValue
  unfolding unary_value conversion operator_value
  evaluate (literal v) = folded v
  evaluate (identifier x) = variables x
  evaluate (unary op e) = do v ← evaluate e; unary_value op v
  evaluate (binary t op left right) = operator_value fl t op (evaluate left) (evaluate right)
  evaluate (ternary condition on_true on_false) =
      choose (evaluate condition) (evaluate on_true) (evaluate on_false)
  evaluate (cast t e) = do v ← evaluate e; conversion fl t v
  evaluate other = refused invalid_const_fold

module _ (fl : FloatOps) where
  abbrev pub is_constant : Folded Folding → Bool
  is_constant (folded f) = f.constant
  is_constant (refused e) = false

  -- No `&&` or `||` whose right operand folds to a constant while its left one does not.
  unfoldable pub keeps_left : Expr → Bool
  unfolding fold_expr
  keeps_left (unary op e) = keeps_left e
  keeps_left (binary t op left right) =
      keeps_left left
      && (keeps_left right
          && (not (is_logical op)
              || (is_constant (fold_expr fl left) || not (is_constant (fold_expr fl right)))))
  keeps_left (ternary condition on_true on_false) =
      keeps_left condition && (keeps_left on_true && keeps_left on_false)
  keeps_left (cast t e) = keeps_left e
  keeps_left other = true
