-- ===== src/Compiler/Tokeniser/Reader.antt =====
-- src/compiler/Tokeniser.cpp: `readToken`. Its loop goes round once for each comment; the model bounds the
-- number of rounds.
use simple_virtual_language.Base.{
  ℕ, zero, suc, Bool, [], ◌∷◌, none, some, if◌then◌else◌, ◌==◌, leb, length,
}
use simple_virtual_language.Base.Text.{Text, codes}
use simple_virtual_language.Compiler.Tokeniser.Tokens.{
  end_of_file, Token, token, Place, advance, Scan, done, syntax_error, undefined_behaviour,
  exhausted,
}
use simple_virtual_language.Compiler.Tokeniser.Characters.{
  starts_word, is_digit, skip_whitespace, skip_comment,
}
use simple_virtual_language.Compiler.Tokeniser.Symbols.{read_symbol}
use simple_virtual_language.Compiler.Tokeniser.Words.{read_word, read_number, read_char_literal}

-- The `default` case.
unfoldable pub read_other : ℕ → Place → Scan (Token × Place)
unfolding starts_word is_digit read_word read_number
read_other c p =
    if leb 128 c
    then undefined_behaviour
    else if starts_word c
    then read_word p
    else if is_digit c
    then read_number p
    else syntax_error p.line p.column

-- The `switch`, on the character `c` at the place `p`, with the text `s` behind it.
unfoldable pub read_at : ℕ → Text → Place → Scan (Token × Place)
unfolding read_symbol read_char_literal read_other
read_at c s p = elim (read_symbol c s) [
  | some (image, kind) ↦ done (token kind image p.line p.column, advance (length image) p)
  | none ↦ if c == 39 then read_char_literal p else read_other c p
]

unfoldable pub read_rounds : ℕ → Place → Scan (Token × Place)
unfolding skip_whitespace skip_comment read_at
read_rounds zero p = exhausted
read_rounds (suc rounds) p =
    let q = skip_whitespace p.left p.line p.column in
    elim q.left [
      | [] ↦ done (token end_of_file (codes "End of File") q.line q.column, q)
      | c ∷ s ↦ elim (c == b'#') [
        | Bool.true ↦ read_rounds rounds (skip_comment q.left q.line q.column)
        | Bool.false ↦ read_at c s q
      ]
    ]

-- As many rounds as the source has characters left, and one more.
unfoldable pub read_token : Place → Scan (Token × Place)
unfolding read_rounds
read_token p = read_rounds (suc (length p.left)) p
