-- ===== src/Compiler/Tokeniser/Munch.antt =====
-- src/compiler/Tokeniser.cpp: the `switch` of `readToken` finds the longest symbol.
use simple_virtual_language.Base.{
  ℕ, ◌≡◌, refl, sym, subst, ◌⊎◌, inl, inr, Bool-cases, true, false, List, [], ◌∷◌, ◌==◌, arith,
}
use simple_virtual_language.Base.Text.{Text, codes}
use simple_virtual_language.Compiler.Tokeniser.Symbols.{read_symbol}
use simple_virtual_language.Compiler.Tokeniser.Longest.{
  symbols, first_match, Every, end, ◌&◌, Longest, first_match-Longest,
}

abbrev Matches : ℕ → Type 0
Matches c = (s : Text) → read_symbol c s ≡ first_match symbols (c ∷ s)

dot-Matches : Matches b'.'
unfolding read_symbol first_match
dot-Matches [] = refl
dot-Matches (a ∷ s) = ground arith

equal-Matches : Matches b'='
unfolding read_symbol first_match
equal-Matches [] = refl
equal-Matches (a ∷ s) = ground arith

plus-Matches : Matches b'+'
unfolding read_symbol first_match
plus-Matches [] = refl
plus-Matches (a ∷ s) = ground arith

minus-Matches : Matches b'-'
unfolding read_symbol first_match
minus-Matches [] = refl
minus-Matches (a ∷ s) = ground arith

star-Matches : Matches b'*'
unfolding read_symbol first_match
star-Matches [] = refl
star-Matches (a ∷ s) = ground arith

percent-Matches : Matches b'%'
unfolding read_symbol first_match
percent-Matches [] = refl
percent-Matches (a ∷ s) = ground arith

caret-Matches : Matches b'^'
unfolding read_symbol first_match
caret-Matches [] = refl
caret-Matches (a ∷ s) = ground arith

exclamation-Matches : Matches b'!'
unfolding read_symbol first_match
exclamation-Matches [] = refl
exclamation-Matches (a ∷ s) = ground arith

slash-Matches : Matches b'/'
unfolding read_symbol first_match
slash-Matches [] = refl
slash-Matches (a ∷ []) = ground arith
slash-Matches (a ∷ b ∷ s) = ground arith

bar-Matches : Matches b'|'
unfolding read_symbol first_match
bar-Matches [] = refl
bar-Matches (a ∷ []) = ground arith
bar-Matches (a ∷ b ∷ s) = ground arith

ampersand-Matches : Matches b'&'
unfolding read_symbol first_match
ampersand-Matches [] = refl
ampersand-Matches (a ∷ []) = ground arith
ampersand-Matches (a ∷ b ∷ s) = ground arith

less-Matches : Matches b'<'
unfolding read_symbol first_match
less-Matches [] = refl
less-Matches (a ∷ []) = ground arith
less-Matches (a ∷ b ∷ s) = ground arith

greater-Matches : Matches b'>'
unfolding read_symbol first_match
greater-Matches [] = refl
greater-Matches (a ∷ []) = ground arith
greater-Matches (a ∷ b ∷ []) = ground arith
greater-Matches (a ∷ b ∷ c ∷ s) = ground arith

==→≡ : (a b : ℕ) → (a == b) ≡ true → a ≡ b
==→≡ a b h = ground arith

-- A number that is one of a list, or none of it.
one_of :
    (P : ℕ → Type 0) (c : ℕ) (ks : List ℕ) → Every P ks → P c ⊎ Every (λ k. (c == k) ≡ false) ks
one_of P c [] end = inr end
one_of P c (k ∷ ks) (p & ps) = elim (Bool-cases (c == k)) [
  | inl e ↦ inl (subst P (sym (==→≡ c k e)) p)
  | inr e ↦ elim (one_of P c ks ps) [ inl q ↦ inl q | inr other ↦ inr (e & other) ]
]

abbrev first_characters : List ℕ
first_characters = codes ";:?,.(){}[]=+-*/%^~|&!<>"

first_characters-Matches : Every Matches first_characters
unfolding read_symbol first_match
first_characters-Matches =
    (λ s. refl)
    & (λ s. refl)
    & (λ s. refl)
    & (λ s. refl)
    & dot-Matches
    & (λ s. refl)
    & (λ s. refl)
    & (λ s. refl)
    & (λ s. refl)
    & (λ s. refl)
    & (λ s. refl)
    & equal-Matches
    & plus-Matches
    & minus-Matches
    & star-Matches
    & slash-Matches
    & percent-Matches
    & caret-Matches
    & (λ s. refl)
    & bar-Matches
    & ampersand-Matches
    & exclamation-Matches
    & less-Matches
    & greater-Matches
    & end

no_symbol :
    (c : ℕ) (s : Text)
    → Every (λ k. (c == k) ≡ false) first_characters
    → read_symbol c s ≡ first_match symbols (c ∷ s)
unfolding read_symbol first_match
no_symbol c s
      (h0 & h1 & h2 & h3 & h4 & h5 & h6 & h7 & h8 & h9 & h10 & h11 & h12 & h13 & h14 & h15 & h16
        & h17 & h18 & h19 & h20 & h21 & h22 & h23 & end) =
    rw
      (
        h0, h1, h2, h3, h4, h5, h6, h7, h8, h9, h10, h11, h12, h13, h14, h15, h16, h17, h18, h19,
        h20, h21, h22, h23, read_symbol, first_match,
      )
      refl

pub read_symbol-first_match : (c : ℕ) (s : Text) → read_symbol c s ≡ first_match symbols (c ∷ s)
read_symbol-first_match c s = elim (one_of Matches c first_characters first_characters-Matches) [
  | inl matches ↦ matches s
  | inr other ↦ no_symbol c s other
]

-- Among all symbols of the language the `switch` of `readToken` takes the longest that the source goes on
-- with, and none only where the source goes on with none.
pub read_symbol-Longest : (c : ℕ) (s : Text) → Longest symbols (c ∷ s) (read_symbol c s)
read_symbol-Longest c s =
    subst (Longest symbols (c ∷ s)) (sym (read_symbol-first_match c s))
      (first_match-Longest symbols (c ∷ s) refl)
