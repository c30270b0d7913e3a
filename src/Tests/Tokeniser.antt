-- ===== src/Tests/Tokeniser.antt =====
-- The tokeniser on small sources.
use simple_virtual_language.Base.{ℕ, ◌≡◌, ◌≢◌, refl, false, [], ◌∷◌}
use simple_virtual_language.Base.Text.{Text, codes}
use simple_virtual_language.Compiler.Tokeniser.Tokens.{
  semi, plus_equal, int_literal, float_literal, identifier, token, done, syntax_error,
  undefined_behaviour, exhausted, ◌>>=◌,
}
use simple_virtual_language.Compiler.Tokeniser.Symbols.{read_symbol}
use simple_virtual_language.Compiler.Tokeniser.Reader.{read_token}
use simple_virtual_language.Compiler.Tokeniser.Buffer.{
  Tokeniser, at_start, make_tokeniser, look_ahead, tok, next, eat,
}
use simple_virtual_language.Compiler.Tokeniser.Blanks.{skip_blanks}
use simple_virtual_language.Compiler.Tokeniser.Longest.{symbols, Longest}
use simple_virtual_language.Compiler.Tokeniser.Munch.{read_symbol-Longest}
use simple_virtual_language.Compiler.Tokeniser.Outcomes.{Ends}
use simple_virtual_language.Compiler.Tokeniser.Located.{Takes, read_token-Takes}
use simple_virtual_language.Compiler.Tokeniser.Stream.{upcoming, token_of}
use simple_virtual_language.Compiler.Tokeniser.Buffered.{
  eaten, look_ahead-upcoming, eat-upcoming, tokeniser_ends,
}

-- A comment, a blank line, and a statement.
abbrev assignment : Text
assignment = codes "# add\n\n  total += 2;"

abbrev assigning : Tokeniser
assigning = record {
  token_buffer = token identifier (codes "x") 1 1 ∷ [];
  place = at_start assignment;
}

second_token :
    (make_tokeniser assignment >>= look_ahead 1 >>= token_of)
    ≡ done (token plus_equal (codes "+=") 3 9)
unfolding make_tokeniser look_ahead
second_token = refl

float_read :
    (read_token (at_start (codes "1.5f")) >>= (λ r. done r.0))
    ≡ done (token float_literal (codes "1.5") 1 1)
unfolding read_token
float_read = refl

range_read :
    (read_token (at_start (codes "1..5")) >>= (λ r. done r.0))
    ≡ done (token int_literal (codes "1") 1 1)
unfolding read_token
range_read = refl

reserved_name : read_token (at_start (codes "__x;")) ≡ syntax_error 1 3
unfolding read_token
reserved_name = refl

-- A byte from 128 on, outside of a literal.
accent_read : read_token (at_start (0xC3 ∷ 0xA9 ∷ [])) ≡ undefined_behaviour
unfolding read_token
accent_read = refl

-- A line feed between quotation marks does not count as a line.
line_feed_quoted :
    (read_token (at_start (39 ∷ 10 ∷ 39 ∷ b';' ∷ [])) >>= (λ r. read_token r.1) >>= (λ r. done r.0))
    ≡ done (token semi (codes ";") 1 4)
unfolding read_token
line_feed_quoted = refl

wrong_kind : (make_tokeniser assignment >>= eat semi) ≡ syntax_error 3 3
unfolding make_tokeniser eat
wrong_kind = refl

read_token-Takes_example :
    Ends (Takes (skip_blanks false assignment 1 1)) (read_token (at_start assignment))
read_token-Takes_example = read_token-Takes (at_start assignment)

read_symbol-Longest_example : Longest symbols (codes "<<=1") (read_symbol b'<' (codes "<=1"))
read_symbol-Longest_example = read_symbol-Longest b'<' (codes "<=1")

look_ahead-upcoming_example :
    ((look_ahead 2 assigning >>= token_of) ≡ upcoming 2 assigning)
    × Ends (λ r. (k : ℕ) → upcoming k r.1 ≡ upcoming k assigning) (look_ahead 2 assigning)
look_ahead-upcoming_example = look_ahead-upcoming 2 assigning

eat-upcoming_example :
    (tok assigning ≡ look_ahead 0 assigning)
    × ((next assigning >>= upcoming 0) ≡ upcoming 1 assigning)
    × ((eat identifier assigning >>= (λ r. done r.0)) ≡ (upcoming 0 assigning >>= eaten identifier))
    × ((eat identifier assigning >>= (λ r. upcoming 0 r.1))
        ≡ (upcoming 0 assigning >>= (λ t. eaten identifier t >>= (λ image. upcoming 1 assigning))))
eat-upcoming_example = eat-upcoming identifier 0 assigning

tokeniser_ends_example :
    (make_tokeniser assignment ≢ exhausted)
    × (look_ahead 2 assigning ≢ exhausted)
    × (tok assigning ≢ exhausted)
    × (next assigning ≢ exhausted)
    × (eat identifier assigning ≢ exhausted)
tokeniser_ends_example = tokeniser_ends assignment 2 identifier assigning
