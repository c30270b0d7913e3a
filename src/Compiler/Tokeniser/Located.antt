-- ===== src/Compiler/Tokeniser/Located.antt =====
-- src/compiler/Tokeniser.cpp: `readToken`, the tokens that it returns and the part of the source that they take.
use simple_virtual_language.Base.{
  ℕ, ◌≡◌, refl, subst, sym, ◌∙◌, arith, Bool, true, false, ◌&&◌, Bool-cases, Option-cases, inl, inr,
  and-true, ◌⊎◌, leb, ◌==◌, List, [], ◌∷◌, some, length, leb→le,
}
use simple_virtual_language.Base.Text.{Text, codes}
use simple_virtual_language.Compiler.Tokeniser.Tokens.{end_of_file, Token, token, Place, advance}
use simple_virtual_language.Compiler.Tokeniser.Symbols.{Symbol, read_symbol}
use simple_virtual_language.Compiler.Tokeniser.Reader.{read_at, read_token}
use simple_virtual_language.Compiler.Tokeniser.Blanks.{skip_blanks, read_front, read_token-front}
use simple_virtual_language.Compiler.Tokeniser.Longest.{starts, symbols, Longest, first_match}
use simple_virtual_language.Compiler.Tokeniser.Munch.{read_symbol-first_match, read_symbol-Longest}
use simple_virtual_language.Compiler.Tokeniser.Outcomes.{Ends, Ends-mono}
use simple_virtual_language.Compiler.Tokeniser.Passing.{starts-Passes}
use simple_virtual_language.Compiler.Tokeniser.Consumed.{
  Consumes, ordinary, Consumes-ordinary, found_or_later,
}
use simple_virtual_language.Compiler.Tokeniser.Cases.{
  read_other-Consumes, read_char_literal-Consumes,
}

-- The symbols have images, and kinds whose image is in the source as it is.
abbrev usable : Symbol → Bool
usable (image, kind) = leb 1 (length image) && ordinary kind

abbrev all_usable : List Symbol → Bool
all_usable [] = true
all_usable (e ∷ table) = usable e && all_usable table

first_match-usable :
    (table : List Symbol) (s : Text) (found : Symbol)
    → all_usable table ≡ true
    → first_match table s ≡ some found
    → usable found ≡ true
unfolding first_match
first_match-usable [] s found h e = cc
first_match-usable ((image, kind) ∷ table) s found h e =
    elim (found_or_later (starts image s) (image, kind) found (first_match table s) e) [
      | inl here ↦
          subst (λ e. usable e ≡ true) here (and-true (usable (image, kind)) (all_usable table) h).0
      | inr later ↦
          first_match-usable table s found (and-true (usable (image, kind)) (all_usable table) h).1
            later
    ]

symbol-Consumes :
    (c : ℕ) (s : Text) (p : Place) (found : Symbol)
    → p.left ≡ c ∷ s
    → read_symbol c s ≡ some found
    → Consumes p (token found.1 found.0 p.line p.column, advance (length found.0) p)
symbol-Consumes c s p (image, kind) h e =
    let longest : Longest symbols (c ∷ s) (some (image, kind)) =
      subst (Longest symbols (c ∷ s)) e (read_symbol-Longest c s) in
    let good : (leb 1 (length image) && ordinary kind) ≡ true =
      first_match-usable symbols (c ∷ s) (image, kind) refl
        (sym (read_symbol-first_match c s) ∙ e) in
    let both : (leb 1 (length image) ≡ true) × (ordinary kind ≡ true) =
      and-true (leb 1 (length image)) (ordinary kind) good in
    Consumes-ordinary p _ (token kind image p.line p.column) both.1 (leb→le 1 (length image) both.0)
      (starts-Passes image p (rw h longest.1)) refl refl

read_at-Consumes :
    (c : ℕ) (s : Text) (p : Place) → p.left ≡ c ∷ s → Ends (Consumes p) (read_at c s p)
unfolding read_at
read_at-Consumes c s p h = elim (Option-cases (read_symbol c s)) [
  | inr (found, e) ↦ rw (e, read_at) (symbol-Consumes c s p found h e)
  | inl e ↦ elim (Bool-cases (c == 39)) [
    | inl q ↦ rw (e, q, read_at) (read_char_literal-Consumes p (rw h (ground (arith, q))))
    | inr q ↦ rw (e, q, read_at) (read_other-Consumes c s p h)
  ]
]

-- A token behind what is skipped, or the end of the source.
abbrev pub Takes : Place → Token × Place → Type 0
Takes b (t, q) =
    Consumes b (t, q)
    ⊎ ((b.left ≡ []) × (t ≡ token end_of_file (codes "End of File") b.line b.column) × (q ≡ b))

front-Takes :
    (s : Text) (line column : ℕ)
    → Ends
        (Takes (record { left = s; line = line; column = column }))
        (read_front (record { left = s; line = line; column = column }))
unfolding read_front
front-Takes [] line column = inr (refl, refl, refl)
front-Takes (c ∷ s) line column =
    let b : Place = record { left = c ∷ s; line = line; column = column } in
    Ends-mono (Consumes b) (Takes b) (read_at c s b) (λ r k. inl k) (read_at-Consumes c s b refl)

-- The loop of `readToken` does not run out, and where it returns a token, the source in front of it is
-- white space and comments, then come the characters of the token, at least one, and then what is left;
-- the token has the line and the column where it starts, and the place behind it is moved on by its
-- length. At the end of the source the token says so, and nothing is taken.
pub read_token-Takes :
    (p : Place) → Ends (Takes (skip_blanks false p.left p.line p.column)) (read_token p)
read_token-Takes p =
    let b : Place = skip_blanks false p.left p.line p.column in
    rw (read_token-front p) (front-Takes b.left b.line b.column)
