-- ===== src/Compiler/Tokeniser/Words.antt =====
-- src/compiler/Tokeniser.cpp: the cases of `readToken` for words, numbers and character literals. A place
-- stands at the first character of the token.
use simple_virtual_language.Base.{
  ℕ, zero, suc, ◌+◌, ◌-◌, Bool, ◌||◌, bit_and, List, [], ◌∷◌, ◌++◌, Option, none, some,
  if◌then◌else◌, leb, ◌==◌, length, take,
}
use simple_virtual_language.Base.Text.{Text, codes, find_text, same_text}
use simple_virtual_language.Compiler.Tokeniser.Tokens.{
  TokenKind, if_keyword, else_keyword, while_keyword, for_keyword, continue_keyword, break_keyword,
  return_keyword, new_keyword, void_type, int_type, float_type, bool_type, char_type, int_literal,
  float_literal, bool_literal, char_literal, identifier, Token, token, Place, advance, Scan, done,
  syntax_error, undefined_behaviour, ◌>>=◌,
}
use simple_virtual_language.Compiler.Tokeniser.Characters.{is_digit, in_word, classified, span}

abbrev pub keywords : List (Text × TokenKind)
keywords =
    (codes "if", if_keyword)
    ∷ (codes "else", else_keyword)
    ∷ (codes "while", while_keyword)
    ∷ (codes "for", for_keyword)
    ∷ (codes "continue", continue_keyword)
    ∷ (codes "break", break_keyword)
    ∷ (codes "return", return_keyword)
    ∷ (codes "new", new_keyword)
    ∷ (codes "void", void_type)
    ∷ (codes "int", int_type)
    ∷ (codes "float", float_type)
    ∷ (codes "bool", bool_type)
    ∷ (codes "char", char_type)
    ∷ (codes "true", bool_literal)
    ∷ (codes "false", bool_literal)
    ∷ []

-- A keyword, or an identifier.
unfoldable pub word_token : Text → Place → Scan Token
unfolding find_text same_text
word_token image p = elim (find_text image keywords) [
  | some kind ↦ done (token kind image p.line (p.column - length image))
  | none ↦
      if same_text (take 2 image) (codes "__")
      then syntax_error p.line (p.column - 1)
      else done (token identifier image p.line (p.column - length image))
]

unfoldable pub read_word : Place → Scan (Token × Place)
unfolding span in_word classified word_token
read_word p = do
  let parts = span in_word p.left
  let behind = advance (length parts.0) p
  u ← classified behind.left
  t ← word_token parts.0 behind
  done (t, behind)

-- A point that no second point follows.
abbrev pub starts_fraction : Text → Bool
starts_fraction (c ∷ d ∷ s) =
    if c == b'.' then (if d == b'.' then Bool.false else Bool.true) else Bool.false
starts_fraction other = Bool.false

-- `current >= size || !isdigit(source[current])`, and the same for the letter `f`.
abbrev pub digit_next : Text → Scan Bool
digit_next [] = done Bool.false
digit_next (c ∷ s) = if leb 128 c then undefined_behaviour else done (is_digit c)

abbrev pub suffix_next : Text → Bool
suffix_next [] = Bool.false
suffix_next (c ∷ s) = c == b'f'

-- The part of a float literal from the point on; `whole` is the part in front of it. The image is without
-- the suffix.
unfoldable pub read_fraction : Text → Place → Scan (Token × Place)
unfolding span is_digit classified
read_fraction whole p = do
  let point = advance 1 p
  is_next ← digit_next point.left
  (if is_next
      then (do
        let parts = span is_digit point.left
        let behind = advance (length parts.0) point
        u ← classified behind.left
        (if suffix_next behind.left
            then done (
              token float_literal (whole ++ b'.' ∷ parts.0) p.line
                  (behind.column + 1 - (length (whole ++ b'.' ∷ parts.0) + 1)),
              advance 1 behind,
            )
            else syntax_error behind.line (behind.column - 1)))
      else syntax_error point.line (point.column - 1))

unfoldable pub read_number : Place → Scan (Token × Place)
unfolding span is_digit classified read_fraction
read_number p = do
  let parts = span is_digit p.left
  let behind = advance (length parts.0) p
  u ← classified behind.left
  (if starts_fraction behind.left
      then read_fraction parts.0 behind
      else done (token int_literal parts.0 p.line (behind.column - length parts.0), behind))

abbrev pub is_escape : ℕ → Bool
is_escape c = c == b'n' || c == b't' || c == b'r' || c == b'0' || c == 92 || c == 39

-- The number of bytes that the first byte of a code point announces.
unfoldable pub utf8_length : ℕ → Option ℕ
utf8_length first =
    if leb first 0x7F
    then some 1
    else if bit_and first 0xE0 == 0xC0
    then some 2
    else if bit_and first 0xF0 == 0xE0
    then some 3
    else if bit_and first 0xF8 == 0xF0
    then some 4
    else none

-- The bytes behind the first one.
unfoldable pub check_continuation : ℕ → Text → Scan Bool
check_continuation zero s = done Bool.true
check_continuation (suc n) [] = undefined_behaviour
check_continuation (suc n) (b ∷ s) = elim (bit_and b 0xC0 == 0x80) [
  | Bool.true ↦ check_continuation n s
  | Bool.false ↦ done Bool.false
]

-- `advanceUtf8CodePoint`, with the bytes that are passed.
unfoldable pub advance_utf8_code_point : Place → Scan (Text × Place)
unfolding utf8_length check_continuation
advance_utf8_code_point p = elim p.left [
  | [] ↦ undefined_behaviour
  | first ∷ s ↦ elim (utf8_length first) [
    | none ↦ syntax_error p.line p.column
    | some n ↦ do
      valid ← check_continuation (n - 1) s
      (if valid then done (take n p.left, advance n p) else syntax_error p.line p.column)
  ]
]

-- The character between the quotation marks, as it is written.
unfoldable pub read_character : Place → Scan (Text × Place)
unfolding advance_utf8_code_point
read_character p = elim p.left [
  | [] ↦ undefined_behaviour
  | c ∷ s ↦
      if c == 92
      then elim s [
        | [] ↦ undefined_behaviour
        | e ∷ r ↦
            if is_escape e
            then done (92 ∷ e ∷ [], advance 2 p)
            else syntax_error p.line (p.column + 1)
      ]
      else advance_utf8_code_point p
]

abbrev pub closing_quote : Place → Scan Place
closing_quote p = elim p.left [
  | [] ↦ undefined_behaviour
  | c ∷ s ↦ if c == 39 then done (advance 1 p) else syntax_error p.line p.column
]

unfoldable pub read_char_literal : Place → Scan (Token × Place)
unfolding read_character
read_char_literal p = do
  (image, inner) ← read_character (advance 1 p)
  behind ← closing_quote inner
  done (token char_literal (39 ∷ image ++ 39 ∷ []) p.line p.column, behind)
