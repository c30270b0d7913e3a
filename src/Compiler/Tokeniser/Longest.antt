-- ===== src/Compiler/Tokeniser/Longest.antt =====
-- src/compiler/Tokeniser.cpp: the symbols that `readToken` knows, and the first of a list that a text starts with.
use mathlib.Core.List.{Mem, mem-cons_self, mem-cons_of_mem}
use simple_virtual_language.Base.{
  ◌≤◌, ◌≡◌, Bool, true, false, not, ◌&&◌, List, [], ◌∷◌, Option, none, some, if◌then◌else◌, ◌==◌,
  length, arith, inl, inr, Bool-cases,
}
use simple_virtual_language.Base.Text.{Text, codes}
use simple_virtual_language.Compiler.Tokeniser.Tokens.{
  semi, colon, question_mark, comma, dot, dot_dot, lbr, rbr, lcbr, rcbr, lsqbr, rsqbr, equal, plus,
  increment, minus, decrement, multiply, divide, integer_divide, modulo, bitwise_or, bitwise_xor,
  bitwise_and, bitwise_not, left_shift, arithmetic_right_shift, logical_right_shift, logical_or,
  logical_and, logical_not, equal_equal, not_equal, less_than, less_than_or_equal, greater_than,
  greater_than_or_equal, plus_equal, minus_equal, multiply_equal, divide_equal,
  integer_divide_equal, modulo_equal, bitwise_or_equal, bitwise_xor_equal, bitwise_and_equal,
  left_shift_equal, arithmetic_right_shift_equal, logical_right_shift_equal, logical_or_equal,
  logical_and_equal,
}
use simple_virtual_language.Compiler.Tokeniser.Symbols.{Symbol}

-- A text starts with another one.
abbrev pub starts : Text → Text → Bool
starts [] s = true
starts (a ∷ image) [] = false
starts (a ∷ image) (b ∷ s) = b == a && starts image s

abbrev pub symbols : List Symbol
symbols =
    (codes ";", semi)
    ∷ (codes ":", colon)
    ∷ (codes "?", question_mark)
    ∷ (codes ",", comma)
    ∷ (codes "..", dot_dot)
    ∷ (codes ".", dot)
    ∷ (codes "(", lbr)
    ∷ (codes ")", rbr)
    ∷ (codes "{", lcbr)
    ∷ (codes "}", rcbr)
    ∷ (codes "[", lsqbr)
    ∷ (codes "]", rsqbr)
    ∷ (codes "==", equal_equal)
    ∷ (codes "=", equal)
    ∷ (codes "++", increment)
    ∷ (codes "+=", plus_equal)
    ∷ (codes "+", plus)
    ∷ (codes "--", decrement)
    ∷ (codes "-=", minus_equal)
    ∷ (codes "-", minus)
    ∷ (codes "*=", multiply_equal)
    ∷ (codes "*", multiply)
    ∷ (codes "//=", integer_divide_equal)
    ∷ (codes "//", integer_divide)
    ∷ (codes "/=", divide_equal)
    ∷ (codes "/", divide)
    ∷ (codes "%=", modulo_equal)
    ∷ (codes "%", modulo)
    ∷ (codes "^=", bitwise_xor_equal)
    ∷ (codes "^", bitwise_xor)
    ∷ (codes "~", bitwise_not)
    ∷ (codes "||=", logical_or_equal)
    ∷ (codes "||", logical_or)
    ∷ (codes "|=", bitwise_or_equal)
    ∷ (codes "|", bitwise_or)
    ∷ (codes "&&=", logical_and_equal)
    ∷ (codes "&&", logical_and)
    ∷ (codes "&=", bitwise_and_equal)
    ∷ (codes "&", bitwise_and)
    ∷ (codes "!=", not_equal)
    ∷ (codes "!", logical_not)
    ∷ (codes "<<=", left_shift_equal)
    ∷ (codes "<<", left_shift)
    ∷ (codes "<=", less_than_or_equal)
    ∷ (codes "<", less_than)
    ∷ (codes ">>>=", logical_right_shift_equal)
    ∷ (codes ">>>", logical_right_shift)
    ∷ (codes ">>=", arithmetic_right_shift_equal)
    ∷ (codes ">>", arithmetic_right_shift)
    ∷ (codes ">=", greater_than_or_equal)
    ∷ (codes ">", greater_than)
    ∷ []

unfoldable pub first_match : List Symbol → Text → Option Symbol
first_match [] s = none
first_match ((image, kind) ∷ table) s =
    if starts image s then some (image, kind) else first_match table s

-- A property of every element of a list.
infixr 67 ◌&◌
pub data Every {ℓ} {A : Type ℓ} (P : A → Type 0) : List A → Type ℓ where
  end : Every P []
  ◌&◌ : {x : A} {xs : List A} → P x → Every P xs → Every P (x ∷ xs)

-- The longest symbol that a text starts with, if it starts with one.
abbrev pub Longest : List Symbol → Text → Option Symbol → Type 0
Longest table s none = Every (λ (e : Symbol). starts e.0 s ≡ false) table
Longest table s (some (image, kind)) =
    Mem (image, kind) table
    × (starts image s ≡ true)
    × Every (λ (e : Symbol). starts e.0 s ≡ true → length e.0 ≤ length image) table

-- No symbol of the table starts with one that stands in front of it.
abbrev none_extends : Text → List Symbol → Bool
none_extends image [] = true
none_extends image ((other, kind) ∷ table) = not (starts image other) && none_extends image table

abbrev none_hidden : List Symbol → Bool
none_hidden [] = true
none_hidden ((image, kind) ∷ table) = none_extends image table && none_hidden table

prefix_longer :
    (i j s : Text)
    → starts i s ≡ true
    → starts j s ≡ true
    → starts i j ≡ false
    → length j ≤ length i
prefix_longer [] j s hi hj n = cc
prefix_longer (a ∷ i) [] s hi hj n = ground arith
prefix_longer (a ∷ i) (b ∷ j) [] hi hj n = cc
prefix_longer (a ∷ i) (b ∷ j) (c ∷ s) hi hj n = ground (arith, prefix_longer i j s)

none_extends-longest :
    (image s : Text) (table : List Symbol)
    → starts image s ≡ true
    → none_extends image table ≡ true
    → Every (λ (e : Symbol). starts e.0 s ≡ true → length e.0 ≤ length image) table
none_extends-longest image s [] h n = end
none_extends-longest image s ((other, kind) ∷ table) h n =
    (λ o. prefix_longer image other s h o (ground (arith, n)))
    & none_extends-longest image s table h (ground (arith, n))

Longest-cons :
    (e : Symbol) (s : Text) (table : List Symbol) (o : Option Symbol)
    → starts e.0 s ≡ false
    → Longest table s o
    → Longest (e ∷ table) s o
Longest-cons e s table none n h = n & h
Longest-cons e s table (some found) n (m, h, hs) = (mem-cons_of_mem e m, h, (λ o. cc) & hs)

-- Where no symbol is hidden by one in front of it, the first match is the longest.
pub first_match-Longest :
    (table : List Symbol) (s : Text)
    → none_hidden table ≡ true
    → Longest table s (first_match table s)
unfolding first_match
first_match-Longest [] s h = end
first_match-Longest ((image, kind) ∷ table) s h = elim (Bool-cases (starts image s)) [
  | inl e ↦
      rw (e, first_match)
        (
          mem-cons_self,
          e,
          (λ o. omega arith) & none_extends-longest image s table e (ground (arith, h)),
        )
  | inr e ↦
      rw (e, first_match)
        (Longest-cons (image, kind) s table (first_match table s) e
          (first_match-Longest table s (ground (arith, h))))
]
