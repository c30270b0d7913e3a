-- ===== src/Compiler/Tokeniser/Symbols.antt =====
-- src/compiler/Tokeniser.cpp: the cases of `readToken` for punctuation and operators. A text `s` stands
-- behind the first character.
use simple_virtual_language.Base.{ℕ, Bool, Option, none, some, if◌then◌else◌, ◌==◌, get_elem?}
use simple_virtual_language.Base.Text.{Text, codes}
use simple_virtual_language.Compiler.Tokeniser.Tokens.{
  TokenKind, semi, colon, question_mark, comma, dot, dot_dot, lbr, rbr, lcbr, rcbr, lsqbr, rsqbr,
  equal, plus, increment, minus, decrement, multiply, divide, integer_divide, modulo, bitwise_or,
  bitwise_xor, bitwise_and, bitwise_not, left_shift, arithmetic_right_shift, logical_right_shift,
  logical_or, logical_and, logical_not, equal_equal, not_equal, less_than, less_than_or_equal,
  greater_than, greater_than_or_equal, plus_equal, minus_equal, multiply_equal, divide_equal,
  integer_divide_equal, modulo_equal, bitwise_or_equal, bitwise_xor_equal, bitwise_and_equal,
  left_shift_equal, arithmetic_right_shift_equal, logical_right_shift_equal, logical_or_equal,
  logical_and_equal,
}

abbrev pub Symbol : Type 0
Symbol = Text × TokenKind

-- `current + k + 1 < size && source[current + k + 1] == c`.
abbrev pub next_is : ℕ → ℕ → Text → Bool
next_is k c s = elim (get_elem? s k) [ none ↦ Bool.false | some d ↦ d == c ]

abbrev after_dot : Text → Symbol
after_dot s = if next_is 0 b'.' s then (codes "..", dot_dot) else (codes ".", dot)

abbrev after_equal : Text → Symbol
after_equal s = if next_is 0 b'=' s then (codes "==", equal_equal) else (codes "=", equal)

abbrev after_plus : Text → Symbol
after_plus s =
    if next_is 0 b'+' s
    then (codes "++", increment)
    else if next_is 0 b'=' s
    then (codes "+=", plus_equal)
    else (codes "+", plus)

abbrev after_minus : Text → Symbol
after_minus s =
    if next_is 0 b'-' s
    then (codes "--", decrement)
    else if next_is 0 b'=' s
    then (codes "-=", minus_equal)
    else (codes "-", minus)

abbrev after_star : Text → Symbol
after_star s = if next_is 0 b'=' s then (codes "*=", multiply_equal) else (codes "*", multiply)

abbrev after_slash : Text → Symbol
after_slash s =
    if next_is 0 b'/' s
    then (if next_is 1 b'=' s
        then (codes "//=", integer_divide_equal)
        else (codes "//", integer_divide))
    else if next_is 0 b'=' s
    then (codes "/=", divide_equal)
    else (codes "/", divide)

abbrev after_percent : Text → Symbol
after_percent s = if next_is 0 b'=' s then (codes "%=", modulo_equal) else (codes "%", modulo)

abbrev after_caret : Text → Symbol
after_caret s =
    if next_is 0 b'=' s then (codes "^=", bitwise_xor_equal) else (codes "^", bitwise_xor)

abbrev after_bar : Text → Symbol
after_bar s =
    if next_is 0 b'|' s
    then (if next_is 1 b'=' s then (codes "||=", logical_or_equal) else (codes "||", logical_or))
    else if next_is 0 b'=' s
    then (codes "|=", bitwise_or_equal)
    else (codes "|", bitwise_or)

abbrev after_ampersand : Text → Symbol
after_ampersand s =
    if next_is 0 b'&' s
    then (if next_is 1 b'=' s then (codes "&&=", logical_and_equal) else (codes "&&", logical_and))
    else if next_is 0 b'=' s
    then (codes "&=", bitwise_and_equal)
    else (codes "&", bitwise_and)

abbrev after_exclamation : Text → Symbol
after_exclamation s = if next_is 0 b'=' s then (codes "!=", not_equal) else (codes "!", logical_not)

abbrev after_less : Text → Symbol
after_less s =
    if next_is 0 b'=' s
    then (codes "<=", less_than_or_equal)
    else if next_is 0 b'<' s
    then (if next_is 1 b'=' s then (codes "<<=", left_shift_equal) else (codes "<<", left_shift))
    else (codes "<", less_than)

abbrev after_greater : Text → Symbol
after_greater s =
    if next_is 0 b'=' s
    then (codes ">=", greater_than_or_equal)
    else if next_is 0 b'>' s
    then (if next_is 1 b'>' s
        then (if next_is 2 b'=' s
            then (codes ">>>=", logical_right_shift_equal)
            else (codes ">>>", logical_right_shift))
        else if next_is 1 b'=' s
        then (codes ">>=", arithmetic_right_shift_equal)
        else (codes ">>", arithmetic_right_shift))
    else (codes ">", greater_than)

-- The cases of the `switch` that stand for symbols.
unfoldable pub read_symbol : ℕ → Text → Option Symbol
read_symbol c s =
    if c == b';'
    then some (codes ";", semi)
    else if c == b':'
    then some (codes ":", colon)
    else if c == b'?'
    then some (codes "?", question_mark)
    else if c == b','
    then some (codes ",", comma)
    else if c == b'.'
    then some (after_dot s)
    else if c == b'('
    then some (codes "(", lbr)
    else if c == b')'
    then some (codes ")", rbr)
    else if c == b'{'
    then some (codes "{", lcbr)
    else if c == b'}'
    then some (codes "}", rcbr)
    else if c == b'['
    then some (codes "[", lsqbr)
    else if c == b']'
    then some (codes "]", rsqbr)
    else if c == b'='
    then some (after_equal s)
    else if c == b'+'
    then some (after_plus s)
    else if c == b'-'
    then some (after_minus s)
    else if c == b'*'
    then some (after_star s)
    else if c == b'/'
    then some (after_slash s)
    else if c == b'%'
    then some (after_percent s)
    else if c == b'^'
    then some (after_caret s)
    else if c == b'~'
    then some (codes "~", bitwise_not)
    else if c == b'|'
    then some (after_bar s)
    else if c == b'&'
    then some (after_ampersand s)
    else if c == b'!'
    then some (after_exclamation s)
    else if c == b'<'
    then some (after_less s)
    else if c == b'>'
    then some (after_greater s)
    else none
