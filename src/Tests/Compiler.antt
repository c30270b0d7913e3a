-- ===== src/Tests/Compiler.antt =====
-- The theorems about the constant folder at small expressions, and about declarations of functions.
use simple_virtual_language.Base.{
  ℕ, zero, suc, ◌≡◌, refl, false, List, [], ◌∷◌, arith, if◌then◌else◌,
}
use simple_virtual_language.Base.Int.{pos}
use simple_virtual_language.Base.Text.{Text, codes, find_text}
use simple_virtual_language.Compiler.Ast.{
  int_type_id, ConstantValue, int_value, bool_value, plus, multiply, Expr, literal, identifier,
  binary, range, for_stm, no_stm,
}
use simple_virtual_language.Compiler.Constants.{Folded, folded, refused, invalid_const_fold}
use simple_virtual_language.Compiler.Folder.{Folding, to_tree, fold_expr}
use simple_virtual_language.Compiler.Statements.{fold_stm}
use simple_virtual_language.Compiler.Sound.{is_literal}
use simple_virtual_language.Compiler.Preserved.{fold_expr-is_literal, range_refused}
use simple_virtual_language.Compiler.Functions.{
  ValueKind, FunctionSymbol, FunctionTable, declared, already_declared, parameter_out_of_range,
  push_symbol, declare_function,
}
use simple_virtual_language.Compiler.Signatures.{
  has_signature, none_shorter, declare_function-exact, declare_function-out_of_range,
}
use simple_virtual_language.Tests.{integer_floats}

abbrev number : ℕ → Expr
number n = literal (int_value (pos n))

abbrev x : Expr
x = identifier (codes "x")

-- `x * (2 + 3)`.
abbrev scaled : Expr
scaled = binary int_type_id multiply (binary int_type_id plus (number 2) (number 3)) x

abbrev folded_scaled : Folding
folded_scaled = to_tree (binary int_type_id multiply (number 5) x)

scaled_folds : fold_expr integer_floats scaled ≡ folded folded_scaled
unfolding fold_expr
scaled_folds = refl

abbrev all_seven : Text → Folded ConstantValue
all_seven name = folded (int_value (pos 7))

abbrev all_false : Text → Folded ConstantValue
all_false name = folded (bool_value false)

fold_expr-is_literal_example : folded_scaled.constant ≡ is_literal folded_scaled.expr
fold_expr-is_literal_example = fold_expr-is_literal integer_floats scaled folded_scaled scaled_folds

range_refused_example :
    fold_stm integer_floats (for_stm (range x (number 9)) no_stm) ≡ refused invalid_const_fold
unfolding fold_expr
range_refused_example = range_refused integer_floats x (number 9) x no_stm refl

abbrev int_kind : ValueKind
int_kind = record { type_id = 1; dimension = 0 }

-- A function with `n` parameters of type `int`.
abbrev ints : ℕ → List ValueKind
ints zero = []
ints (suc n) = int_kind ∷ ints n

abbrev taking : ℕ → FunctionSymbol
taking n = record {
  label = codes "f";
  return_type = int_kind;
  parameter_types = ints n;
  builtin_id = 0;
}

abbrev table : FunctionTable
table = (codes "f", taking 2 ∷ []) ∷ []

declare_function-exact_example : declare_function (codes "f") (taking 1) table ≡ (
    if has_signature (ints 1) (taking 2 ∷ [])
    then already_declared
    else declared (push_symbol (codes "f") (taking 1) table))
unfolding find_text none_shorter
declare_function-exact_example =
    declare_function-exact (codes "f") (taking 1) table (taking 2 ∷ []) refl refl

declare_function-out_of_range_example :
    declare_function (codes "f") (taking 3) table ≡ parameter_out_of_range
unfolding find_text
declare_function-out_of_range_example =
    declare_function-out_of_range (codes "f") (taking 3) (taking 2) table [] refl (omega arith)
