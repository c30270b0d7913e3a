-- ===== src/Compiler/Tokeniser/Characters.antt =====
-- src/compiler/Tokeniser.cpp: classes of characters, white space and comments. A `char` is a byte.
use simple_virtual_language.Base.{ℕ, ◌+◌, Bool, ◌&&◌, ◌||◌, [], ◌∷◌, if◌then◌else◌, leb, ◌==◌}
use simple_virtual_language.Base.Text.{Text}
use simple_virtual_language.Compiler.Tokeniser.Tokens.{Place, Scan, done, undefined_behaviour}

unfoldable pub is_space : ℕ → Bool
is_space c = c == 32 || leb 9 c && leb c 13

unfoldable pub is_digit : ℕ → Bool
is_digit c = leb b'0' c && leb c b'9'

unfoldable pub is_alpha : ℕ → Bool
is_alpha c = leb b'a' c && leb c b'z' || leb b'A' c && leb c b'Z'

-- `std::isalpha(c) || c == '_'`, and the test for the characters behind the first one.
unfoldable pub starts_word : ℕ → Bool
unfolding is_alpha
starts_word c = is_alpha c || c == b'_'

unfoldable pub in_word : ℕ → Bool
unfolding is_alpha is_digit
in_word c = is_alpha c || is_digit c || c == b'_'

-- The classes of the first character are asked for: a byte from 128 on is a negative `char`.
unfoldable pub classified : Text → Scan (Unit {0})
classified [] = done tt
classified (c ∷ s) = if leb 128 c then undefined_behaviour else done tt

-- The characters at the front that a test accepts, and the others.
unfoldable pub span : (ℕ → Bool) → Text → Text × Text
span test [] = ([], [])
span test (c ∷ s) = elim (test c) [
  | Bool.true ↦ (let (front, behind) = span test s in (c ∷ front, behind))
  | Bool.false ↦ ([], c ∷ s)
]

unfoldable pub skip_whitespace : Text → ℕ → ℕ → Place
unfolding is_space
skip_whitespace [] line column = record { left = []; line = line; column = column }
skip_whitespace (c ∷ s) line column = elim (is_space c) [
  | Bool.true ↦
      skip_whitespace s (if c == 10 then line + 1 else line) (if c == 10 then 1 else column + 1)
  | Bool.false ↦ record { left = c ∷ s; line = line; column = column }
]

-- A comment ends in front of a line feed or a carriage return.
unfoldable pub ends_comment : ℕ → Bool
ends_comment c = c == 10 || c == 13

unfoldable pub skip_comment : Text → ℕ → ℕ → Place
unfolding ends_comment
skip_comment [] line column = record { left = []; line = line; column = column }
skip_comment (c ∷ s) line column = elim (ends_comment c) [
  | Bool.true ↦ record { left = c ∷ s; line = line; column = column }
  | Bool.false ↦ skip_comment s line (column + 1)
]
