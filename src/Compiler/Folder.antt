-- ===== src/Compiler/Folder.antt =====
-- src/compiler/optimiser/ConstantFolder.cpp: the folding of expressions and statements. The source folds a
-- tree in place; here folding returns the new tree, with what `foldExpr` returns.
use simple_virtual_language.Base.{ℕ, Bool, true, false, not, if◌then◌else◌, ◌==◌}
use simple_virtual_language.Vm.Float.{FloatOps}
use simple_virtual_language.Compiler.Ast.{
  ConstantValue, bool_value, UnaryOperator, BinaryOperator, logical_or, logical_and, Expr, literal,
  identifier, unary, binary, ternary, postfix, cast, call, new_array, Postfixes, no_postfix, index,
  field_access, Arguments, no_argument, argument, Elements, no_element, element, nested,
}
use simple_virtual_language.Compiler.Constants.{
  Folded, folded, refused, invalid_const_fold, ◌>>=◌, get_bool, type_of_value,
  convert_constant_value_to_type, fold_unary,
}
use simple_virtual_language.Compiler.Operators.{fold_constants}

-- The tree after `foldExpr`, and whether it is a constant.
pub record Folding : Type 0 where
  pub constant : Bool
  pub expr : Expr

abbrev pub to_constant : ConstantValue → Folding
to_constant v = record { constant = true; expr = literal v }

abbrev pub to_tree : Expr → Folding
to_tree e = record { constant = false; expr = e }

unfoldable pub extract_constant_value : Expr → Folded ConstantValue
extract_constant_value (literal v) = folded v
extract_constant_value other = refused invalid_const_fold

-- The constant that decides `&&` and `||` on the left.
abbrev pub decides : BinaryOperator → Bool → Bool
decides logical_and b = not b
decides other b = b

abbrev pub is_logical : BinaryOperator → Bool
is_logical logical_and = true
is_logical logical_or = true
is_logical other = false

-- `foldExprUnary` on the folded operand.
abbrev pub fold_expr_unary : UnaryOperator → Folding → Folded Folding
fold_expr_unary op f =
    if f.constant
    then (do
      v ← extract_constant_value f.expr
      result ← fold_unary op v
      folded (to_constant result))
    else folded (to_tree (unary op f.expr))

-- `foldExprBinary` for `&&` and `||`, behind the folding of the right operand.
abbrev pub fold_logical : ℕ → BinaryOperator → Expr → Folding → Folded Folding
fold_logical t op left f =
    if f.constant
    then (do v ← extract_constant_value f.expr; b ← get_bool v; folded (to_constant (bool_value b)))
    else folded (to_tree (binary t op left f.expr))

-- The test on the left operand of `&&` and `||`: whether it is a constant that decides.
abbrev pub left_decides : BinaryOperator → Folding → Folded Bool
left_decides op f =
    if f.constant
    then (do v ← extract_constant_value f.expr; b ← get_bool v; folded (decides op b))
    else folded false

module _ (fl : FloatOps) where
  unfoldable pub convert_literal_to_type : ℕ → Expr → Folded Expr
  unfolding extract_constant_value type_of_value convert_constant_value_to_type
  convert_literal_to_type t e = do
    v ← extract_constant_value e
    (if type_of_value v == t
        then folded e
        else do converted ← convert_constant_value_to_type fl t v; folded (literal converted))

  -- `foldExpr` where a constant is converted to a type.
  abbrev pub convert_if_constant : ℕ → Folding → Folded Expr
  convert_if_constant t f = if f.constant then convert_literal_to_type t f.expr else folded f.expr

  -- `foldExprCast` on the folded operand.
  abbrev pub fold_expr_cast : ℕ → Folding → Folded Folding
  fold_expr_cast t f =
      if f.constant
      then (do e ← convert_literal_to_type t f.expr; folded (record { constant = true; expr = e }))
      else folded (to_tree (cast t f.expr))

  -- `foldExprBinary` for the other operators, behind the folding of the right operand.
  abbrev pub fold_operands : ℕ → BinaryOperator → Expr → Folding → Folded Folding
  fold_operands t op left f =
      if f.constant
      then (do
        a ← extract_constant_value left
        b ← extract_constant_value f.expr
        result ← fold_constants fl t op a b
        folded (to_constant result))
      else folded (to_tree (binary t op left f.expr))

  unfoldable mutual
    unfolding extract_constant_value fold_unary fold_constants convert_literal_to_type

    pub fold_expr : Expr → Folded Folding
    fold_expr (literal v) = folded (to_constant v)
    fold_expr (identifier x) = folded (to_tree (identifier x))
    fold_expr (unary op e) = do f ← fold_expr e; fold_expr_unary op f
    fold_expr (binary t op left right) =
        if is_logical op
        then (do
          l ← fold_expr left
          decided ← left_decides op l
          (if decided
              then folded (to_constant (bool_value (decides op true)))
              else do r ← fold_expr right; fold_logical t op l.expr r))
        else do
          l ← fold_expr left
          (if l.constant
              then (do r ← fold_expr right; fold_operands t op l.expr r)
              else folded (to_tree (binary t op l.expr right)))
    fold_expr (ternary condition on_true on_false) = do
      c ← fold_expr condition
      (if c.constant
          then (do
            v ← extract_constant_value c.expr
            b ← get_bool v
            (if b then fold_expr on_true else fold_expr on_false))
          else folded (to_tree (ternary c.expr on_true on_false)))
    fold_expr (postfix e ps) = do
      folded_ps ← fold_postfixes ps
      folded (to_tree (postfix e folded_ps))
    fold_expr (cast t e) = do f ← fold_expr e; fold_expr_cast t f
    fold_expr (call name args) = do
      folded_args ← fold_arguments args
      folded (to_tree (call name folded_args))
    fold_expr (new_array t dimensions elements) = do
      folded_dimensions ← fold_postfixes dimensions
      folded_elements ← fold_elements t elements
      folded (to_tree (new_array t folded_dimensions folded_elements))

    pub fold_postfixes : Postfixes → Folded Postfixes
    fold_postfixes no_postfix = folded no_postfix
    fold_postfixes (index e ps) = do
      f ← fold_expr e
      rest ← fold_postfixes ps
      folded (index f.expr rest)
    fold_postfixes (field_access name ps) = do
      rest ← fold_postfixes ps
      folded (field_access name rest)

    pub fold_arguments : Arguments → Folded Arguments
    fold_arguments no_argument = folded no_argument
    fold_arguments (argument t e args) = do
      f ← fold_expr e
      converted ← convert_if_constant t f
      rest ← fold_arguments args
      folded (argument t converted rest)

    -- `foldArrayInitialiserElement` on each element.
    pub fold_elements : ℕ → Elements → Folded Elements
    fold_elements t no_element = folded no_element
    fold_elements t (element e es) = do
      f ← fold_expr e
      converted ← convert_if_constant t f
      rest ← fold_elements t es
      folded (element converted rest)
    fold_elements t (nested inner es) = do
      folded_inner ← fold_elements t inner
      rest ← fold_elements t es
      folded (nested folded_inner rest)
