-- ===== src/Compiler/Preserved.antt =====
-- src/compiler/optimiser/ConstantFolder.cpp: what folding keeps of an expression, and what it does not.
use simple_virtual_language.Base.{◌≡◌, refl, sym, false}
use simple_virtual_language.Base.Text.{Text}
use simple_virtual_language.Vm.Float.{FloatOps}
use simple_virtual_language.Compiler.Ast.{
  ConstantValue, Expr, literal, identifier, unary, binary, ternary, postfix, cast, call, new_array,
  range, for_stm, Block,
}
use simple_virtual_language.Compiler.Constants.{Folded, folded, refused, invalid_const_fold}
use simple_virtual_language.Compiler.Folder.{
  Folding, extract_constant_value, to_tree, is_logical, convert_literal_to_type, fold_expr,
  fold_postfixes, fold_arguments, fold_elements,
}
use simple_virtual_language.Compiler.Statements.{fold_bound, fold_iterable, fold_stm}
use simple_virtual_language.Compiler.Evaluation.{evaluate}
use simple_virtual_language.Compiler.Gives.{
  Gives, Gives-bind, Gives-any, Gives-mono, Gives-if, Gives-folded,
}
use simple_virtual_language.Compiler.Sound.{
  Sound, value_of, tree_of, is_literal, unary-Sound, cast-Sound, ternary-Sound,
}
use simple_virtual_language.Compiler.SoundBinary.{arithmetic-Sound, logical-Sound}

module _ (fl : FloatOps) (variables : Text → Folded ConstantValue) where
  fold_expr-Sound : (e : Expr) → Gives (Sound fl variables e) (fold_expr fl e)
  unfolding fold_expr evaluate
  fold_expr-Sound (literal v) = value_of v (λ k. refl)
  fold_expr-Sound (identifier x) = tree_of (identifier x) refl (λ k. refl)
  fold_expr-Sound (unary op e) =
      Gives-bind (Sound fl variables e) (Sound fl variables (unary op e)) (fold_expr fl e) _
        (fold_expr-Sound e) (λ f _ s. unary-Sound fl variables op e f s)
  fold_expr-Sound (binary t op left right) =
      let whole = binary t op left right in
      Gives-if (Sound fl variables whole) (is_logical op) _ _
        (λ h.
          Gives-bind (Sound fl variables left) (Sound fl variables whole) (fold_expr fl left) _
            (fold_expr-Sound left)
            (λ l is s. logical-Sound fl variables t op left right h l is s (fold_expr-Sound right)))
        (λ h.
          Gives-bind (Sound fl variables left) (Sound fl variables whole) (fold_expr fl left) _
            (fold_expr-Sound left)
            (λ l is s. arithmetic-Sound fl variables t op left right h l s (fold_expr-Sound right)))
  fold_expr-Sound (ternary c a b) =
      Gives-bind (Sound fl variables c) (Sound fl variables (ternary c a b)) (fold_expr fl c) _
        (fold_expr-Sound c)
        (λ f _ s. ternary-Sound fl variables c a b f s (fold_expr-Sound a) (fold_expr-Sound b))
  fold_expr-Sound (postfix e ps) =
      Gives-any (Sound fl variables (postfix e ps)) (fold_postfixes fl ps) _
        (λ qs _. tree_of (postfix e qs) refl (λ k. refl))
  fold_expr-Sound (cast t e) =
      Gives-bind (Sound fl variables e) (Sound fl variables (cast t e)) (fold_expr fl e) _
        (fold_expr-Sound e) (λ f _ s. cast-Sound fl variables t e f s)
  fold_expr-Sound (call name args) =
      Gives-any (Sound fl variables (call name args)) (fold_arguments fl args) _
        (λ others _. tree_of (call name others) refl (λ k. refl))
  fold_expr-Sound (new_array t ds es) =
      Gives-any (Sound fl variables (new_array t ds es)) (fold_postfixes fl ds) _ (λ others _.
        Gives-any (Sound fl variables (new_array t ds es)) (fold_elements fl t es) _
          (λ more _. tree_of (new_array t others more) refl (λ k. refl)))

told :
    (fl : FloatOps) (variables : Text → Folded ConstantValue) (e : Expr) (f : Folding)
    → Sound fl variables e f
    → f.constant ≡ is_literal f.expr
told fl variables e f (value_of v same) = refl
told fl variables e f (tree_of e' tree same) = sym tree

-- When folding succeeds, it tells whether the new expression is a literal.
pub fold_expr-is_literal :
    (fl : FloatOps) (e : Expr) (f : Folding)
    → fold_expr fl e ≡ folded f
    → f.constant ≡ is_literal f.expr
fold_expr-is_literal fl e f h =
    let nothing : Text → Folded ConstantValue = λ x. refused invalid_const_fold in
    Gives-folded (λ g. g.constant ≡ is_literal g.expr) (fold_expr fl e) f
      (Gives-mono (Sound fl nothing e) (λ g. g.constant ≡ is_literal g.expr) (fold_expr fl e)
        (λ g s. told fl nothing e g s) (fold_expr-Sound fl nothing e))
      h

extract-refused :
    (e : Expr) → is_literal e ≡ false → extract_constant_value e ≡ refused invalid_const_fold
unfolding extract_constant_value
extract-refused (literal v) h = cc
extract-refused (identifier x) h = refl
extract-refused (unary op e) h = refl
extract-refused (binary t op a b) h = refl
extract-refused (ternary a b c) h = refl
extract-refused (postfix e ps) h = refl
extract-refused (cast t e) h = refl
extract-refused (call name args) h = refl
extract-refused (new_array t ds es) h = refl

-- A `for` statement over a range whose first bound does not fold to a constant is refused with the error
-- for an expression that is no literal.
pub range_refused :
    (fl : FloatOps) (start end start' : Expr) (body : Block)
    → fold_expr fl start ≡ folded (to_tree start')
    → fold_stm fl (for_stm (range start end) body) ≡ refused invalid_const_fold
unfolding fold_stm fold_iterable fold_bound convert_literal_to_type
range_refused fl start end start' body h =
    let tree : is_literal start' ≡ false = sym (fold_expr-is_literal fl start (to_tree start') h) in
    let extracted = extract-refused start' tree in
    rw (h, fold_stm, fold_iterable, fold_bound, convert_literal_to_type, extracted) refl
