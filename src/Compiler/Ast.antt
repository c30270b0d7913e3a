-- ===== src/Compiler/Ast.antt =====
-- src/compiler/AST.h and LanguageTypes.h: expressions and statements, with what the constant folder reads
-- of them: the types that the analyser has found, but no positions and no symbols. The type of a literal
-- is that of its value.
use simple_virtual_language.Base.{ℕ, Bool}
use simple_virtual_language.Base.Int.{ℤ}
use simple_virtual_language.Base.Text.{Text}

abbrev pub int_type_id : ℕ
int_type_id = 1

abbrev pub float_type_id : ℕ
float_type_id = 2

abbrev pub bool_type_id : ℕ
bool_type_id = 3

abbrev pub char_type_id : ℕ
char_type_id = 4

-- `std::variant<int, float, bool, uint32_t>`; a float is its bit pattern.
pub data ConstantValue : Type 0 where
  int_value : ℤ → ConstantValue
  float_value : ℕ → ConstantValue
  bool_value : Bool → ConstantValue
  char_value : ℕ → ConstantValue

pub data BinaryOperator : Type 0 where
  plus minus multiply divide integer_divide modulo : BinaryOperator
  bitwise_or bitwise_xor bitwise_and : BinaryOperator
  left_shift arithmetic_right_shift logical_right_shift : BinaryOperator
  logical_or logical_and : BinaryOperator
  equal_equal not_equal less_than less_than_or_equal greater_than greater_than_or_equal :
      BinaryOperator

pub data UnaryOperator : Type 0 where
  unary_plus unary_minus logical_not bitwise_not increment decrement : UnaryOperator

-- A call has the type of each parameter with its argument. The dimensions of `new` are a list of indices,
-- and its elements may be lists again.
mutual
  pub data Expr : Type 0 where
    literal : ConstantValue → Expr
    identifier : Text → Expr
    unary : UnaryOperator → Expr → Expr
    binary : ℕ → BinaryOperator → Expr → Expr → Expr
    ternary : Expr → Expr → Expr → Expr
    postfix : Expr → Postfixes → Expr
    cast : ℕ → Expr → Expr
    call : Text → Arguments → Expr
    new_array : ℕ → Postfixes → Elements → Expr

  pub data Postfixes : Type 0 where
    no_postfix : Postfixes
    index : Expr → Postfixes → Postfixes
    field_access : Text → Postfixes → Postfixes

  pub data Arguments : Type 0 where
    no_argument : Arguments
    argument : ℕ → Expr → Arguments → Arguments

  pub data Elements : Type 0 where
    no_element : Elements
    element : Expr → Elements → Elements
    nested : Elements → Elements → Elements

-- What a `for` statement runs over: a range, or anything else.
pub data Iterable : Type 0 where
  range : Expr → Expr → Iterable
  range_step : Expr → Expr → Expr → Iterable
  sequence : Expr → Iterable

mutual
  pub data Stm : Type 0 where
    var_decl : Text → ℕ → Stm
    var_init : Text → ℕ → Expr → Stm
    assignment : Text → ℕ → Postfixes → Expr → Stm
    block_stm : Block → Stm
    if_then : Expr → Block → Stm
    if_else : Expr → Block → Stm → Stm
    while_stm : Expr → Block → Stm
    for_stm : Iterable → Block → Stm
    return_stm : Stm
    return_value : ℕ → Expr → Stm
    expr_stm : Expr → Stm
    break_stm continue_stm : Stm

  pub data Block : Type 0 where
    no_stm : Block
    stm : Stm → Block → Block
