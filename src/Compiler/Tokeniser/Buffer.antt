-- ===== src/Compiler/Tokeniser/Buffer.antt =====
-- src/compiler/Tokeniser.cpp: the buffer of tokens that are read and not yet taken.
use simple_virtual_language.Base.{ℕ, zero, suc, ◌+◌, ◌-◌, List, [], ◌∷◌, ◌++◌, length}
use simple_virtual_language.Base.Text.{Text}
use simple_virtual_language.Compiler.Tokeniser.Tokens.{
  TokenKind, TokenKind-discrete, Token, Place, Scan, done, syntax_error, undefined_behaviour, ◌>>=◌,
}
use simple_virtual_language.Compiler.Tokeniser.Reader.{read_token}

pub record Tokeniser : Type 0 where
  pub token_buffer : List Token
  pub place : Place

-- `tokenBuffer.push_back(readToken())`.
unfoldable pub fill_one : Tokeniser → Scan Tokeniser
unfolding read_token
fill_one s = do
  (t, p) ← read_token s.place
  done (record { token_buffer = s.token_buffer ++ t ∷ []; place = p })

abbrev pub at_start : Text → Place
at_start source = record { left = source; line = 1; column = 1 }

-- The constructor.
unfoldable pub make_tokeniser : Text → Scan Tokeniser
unfolding fill_one
make_tokeniser source = fill_one (record { token_buffer = []; place = at_start source })

-- `n` more tokens.
unfoldable pub fill : ℕ → Tokeniser → Scan Tokeniser
unfolding fill_one
fill zero s = done s
fill (suc n) s = do s' ← fill_one s; fill n s'

-- `tokenBuffer[n]`, which is there when it is asked for.
unfoldable pub nth_of : ℕ → List Token → Scan Token
nth_of n [] = undefined_behaviour
nth_of zero (t ∷ ts) = done t
nth_of (suc n) (t ∷ ts) = nth_of n ts

unfoldable pub look_ahead : ℕ → Tokeniser → Scan (Token × Tokeniser)
unfolding fill nth_of
look_ahead n s = do
  s' ← fill (n + 1 - length s.token_buffer) s
  t ← nth_of n s'.token_buffer
  done (t, s')

unfoldable pub tok : Tokeniser → Scan (Token × Tokeniser)
unfolding fill_one nth_of
tok s = do
  s' ← elim s.token_buffer [ [] ↦ fill_one s | _ ↦ done s ]
  t ← nth_of 0 s'.token_buffer
  done (t, s')

-- On an empty buffer a token is read and dropped.
unfoldable pub next : Tokeniser → Scan Tokeniser
unfolding read_token
next s = elim s.token_buffer [
  | [] ↦ do (t, p) ← read_token s.place; done (record { token_buffer = []; place = p })
  | t ∷ ts ↦ done (record { token_buffer = ts; place = s.place })
]

unfoldable pub eat : TokenKind → Tokeniser → Scan (Text × Tokeniser)
unfolding tok next TokenKind-discrete
eat kind s = do
  (t, s') ← tok s
  elim (TokenKind-discrete t.kind kind) [
    | no other ↦ syntax_error t.line t.column
    | yes same ↦ do s'' ← next s'; done (t.image, s'')
  ]
