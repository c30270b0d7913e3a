-- ===== src/Compiler/Tokeniser/Tokens.antt =====
-- src/compiler/Token.h and Tokeniser.h: tokens, the place in the source, and the outcomes of a reading.
use mathlib.Core.HLevel.{Discrete}
use simple_virtual_language.Base.{ℕ, ◌+◌, drop}
use simple_virtual_language.Base.Text.{Text}

pub data TokenKind : Type 0 where
  semi colon question_mark comma dot dot_dot lbr rbr lcbr rcbr lsqbr rsqbr : TokenKind
  equal plus increment minus decrement multiply divide integer_divide modulo : TokenKind
  bitwise_or bitwise_xor bitwise_and bitwise_not : TokenKind
  left_shift arithmetic_right_shift logical_right_shift : TokenKind
  logical_or logical_and logical_not : TokenKind
  equal_equal not_equal less_than less_than_or_equal greater_than greater_than_or_equal : TokenKind
  plus_equal minus_equal multiply_equal divide_equal integer_divide_equal modulo_equal : TokenKind
  bitwise_or_equal bitwise_xor_equal bitwise_and_equal left_shift_equal : TokenKind
  arithmetic_right_shift_equal logical_right_shift_equal logical_or_equal logical_and_equal :
      TokenKind
  if_keyword else_keyword while_keyword for_keyword : TokenKind
  continue_keyword break_keyword return_keyword new_keyword : TokenKind
  void_type int_type float_type bool_type char_type : TokenKind
  int_literal float_literal bool_literal char_literal identifier end_of_file : TokenKind

unfoldable pub TokenKind-discrete : Discrete TokenKind
TokenKind-discrete = hlevel

pub record Token : Type 0 where
  pub kind : TokenKind
  pub image : Text
  pub line : ℕ
  pub column : ℕ

-- `current` is given by the text that is left of the source.
pub record Place : Type 0 where
  pub left : Text
  pub line : ℕ
  pub column : ℕ

-- `advance(n)`.
abbrev pub advance : ℕ → Place → Place
advance n p = record { left = drop n p.left; line = p.line; column = p.column + n }

-- A `SyntaxError` has a line and a column. Behaviour is undefined where the source is read beyond its end,
-- and where `std::isalpha` and its relatives are given a negative `char`. `exhausted` is the model's own:
-- the bound on the rounds of the loop in `readToken` is used up.
pub data Scan (A : Type 0) : Type 0 where
  done : A → Scan A
  syntax_error : ℕ → ℕ → Scan A
  undefined_behaviour : Scan A
  exhausted : Scan A

infixl 5 ◌>>=◌
abbrev pub ◌>>=◌ : {A B : Type 0} → Scan A → (A → Scan B) → Scan B
done a >>= f = f a
syntax_error line column >>= f = syntax_error line column
undefined_behaviour >>= f = undefined_behaviour
exhausted >>= f = exhausted

abbrev pub token : TokenKind → Text → ℕ → ℕ → Token
token kind image line column = record { kind = kind; image = image; line = line; column = column }
