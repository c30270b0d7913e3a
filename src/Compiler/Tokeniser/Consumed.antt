-- ===== src/Compiler/Tokeniser/Consumed.antt =====
-- src/compiler/Tokeniser.cpp: what a token takes from the source, and where it says that it stands.
use simple_virtual_language.Base.{
  ◌+◌, ◌-◌, ◌≤◌, ◌≡◌, refl, sym, subst, Bool, true, false, not, ◌&&◌, Bool-cases, Option-cases, inl,
  inr, and-true, ◌⊎◌, leb, List, [], ◌∷◌, ◌++◌, length-append, Option, some, if◌then◌else◌, length,
  take, arith,
}
use simple_virtual_language.Base.Text.{Text, codes, same_text, find_text}
use simple_virtual_language.Compiler.Tokeniser.Tokens.{
  TokenKind, end_of_file, float_literal, int_literal, identifier, Token, token, Place, advance,
}
use simple_virtual_language.Compiler.Tokeniser.Characters.{in_word, is_digit, span, classified}
use simple_virtual_language.Compiler.Tokeniser.Words.{
  keywords, word_token, read_word, read_fraction, read_number, digit_next, suffix_next,
  starts_fraction,
}
use simple_virtual_language.Compiler.Tokeniser.Longest.{starts}
use simple_virtual_language.Compiler.Tokeniser.Outcomes.{Ends, Ends-bind, Ends-any, Ends-if}
use simple_virtual_language.Compiler.Tokeniser.Passing.{
  Passes, Passes-trans, span-Passes, starts-Passes,
}

abbrev is_float : TokenKind → Bool
is_float float_literal = true
is_float other = false

abbrev is_end : TokenKind → Bool
is_end end_of_file = true
is_end other = false

-- The characters of a token in the source: its image, but a float literal ends with an `f`, and the end of
-- the source has none.
abbrev pub lexeme : Token → Text
lexeme t = if is_end t.kind then [] else if is_float t.kind then t.image ++ b'f' ∷ [] else t.image

-- A token at a place takes its characters, at least one, and has the line and the column of the place.
abbrev pub Consumes : Place → Token × Place → Type 0
Consumes p (t, q) =
    Passes p (lexeme t) q × (t.line ≡ p.line) × (t.column ≡ p.column) × (1 ≤ length (lexeme t))

-- A kind whose image is in the source as it is.
abbrev pub ordinary : TokenKind → Bool
ordinary kind = not (is_end kind) && not (is_float kind)

choice_left :
    (e f : Bool) (s r : Text) → (not e && not f) ≡ true → (if e then [] else if f then r else s) ≡ s
choice_left true f s r h = cc
choice_left false true s r h = cc
choice_left false false s r h = refl

pub Consumes-ordinary :
    (p q : Place) (t : Token)
    → ordinary t.kind ≡ true
    → 1 ≤ length t.image
    → Passes p t.image q
    → t.line ≡ p.line
    → t.column ≡ p.column
    → Consumes p (t, q)
Consumes-ordinary p q t h l passes line column =
    let e : lexeme t ≡ t.image =
      choice_left (is_end t.kind) (is_float t.kind) t.image (t.image ++ b'f' ∷ []) h in
    subst (λ (s : Text). Passes p s q × (t.line ≡ p.line) × (t.column ≡ p.column) × (1 ≤ length s))
      (sym e) (passes, line, column, l)

-- A token behind its characters, whose column is counted back.
Consumes-back :
    (p q : Place) (kind : TokenKind) (image : Text)
    → ordinary kind ≡ true
    → 1 ≤ length image
    → Passes p image q
    → Consumes p (token kind image q.line (q.column - length image), q)
Consumes-back p q kind image h l passes =
    Consumes-ordinary p q (token kind image q.line (q.column - length image)) h l passes passes.1
      (ground (arith, passes.2))

abbrev all_ordinary : List (Text × TokenKind) → Bool
all_ordinary [] = true
all_ordinary ((image, kind) ∷ table) = ordinary kind && all_ordinary table

pub found_or_later :
    {A : Type 0} (b : Bool) (k found : A) (rest : Option A)
    → (if b then some k else rest) ≡ some found
    → (k ≡ found) ⊎ (rest ≡ some found)
found_or_later true k found rest e = inl cc
found_or_later false k found rest e = inr e

find_text-ordinary :
    (key : Text) (table : List (Text × TokenKind)) (kind : TokenKind)
    → all_ordinary table ≡ true
    → find_text key table ≡ some kind
    → ordinary kind ≡ true
unfolding find_text
find_text-ordinary key [] kind h e = cc
find_text-ordinary key ((image, k) ∷ table) kind h e =
    elim (found_or_later (same_text image key) k kind (find_text key table) e) [
      | inl here ↦
          subst (λ k. ordinary k ≡ true) here (and-true (ordinary k) (all_ordinary table) h).0
      | inr later ↦
          find_text-ordinary key table kind (and-true (ordinary k) (all_ordinary table) h).1 later
    ]

word_token-Consumes :
    (p q : Place) (image : Text)
    → 1 ≤ length image
    → Passes p image q
    → Ends (λ t. Consumes p (t, q)) (word_token image q)
unfolding word_token
word_token-Consumes p q image l passes = elim (Option-cases (find_text image keywords)) [
  | inl e ↦
      rw (e, word_token)
        (Ends-if (λ t. Consumes p (t, q)) (same_text (take 2 image) (codes "__")) _ _ (λ _. tt)
          (λ _. Consumes-back p q identifier image refl l passes))
  | inr (kind, e) ↦
      rw (e, word_token)
        (Consumes-back p q kind image (find_text-ordinary image keywords kind refl e) l passes)
]

classified-Ends : (s : Text) → Ends (λ u. Unit) (classified s)
unfolding classified
classified-Ends [] = tt
classified-Ends (c ∷ s) = elim (Bool-cases (leb 128 c)) [
  | inl e ↦ rw (e, classified) tt
  | inr e ↦ rw (e, classified) tt
]

pub read_word-Consumes :
    (p : Place) → 1 ≤ length (span in_word p.left).0 → Ends (Consumes p) (read_word p)
unfolding read_word
read_word-Consumes p l =
    let image : Text = (span in_word p.left).0 in
    let q : Place = advance (length image) p in
    Ends-bind (λ u. Unit) (Consumes p) (classified q.left) _ (classified-Ends q.left)
      (λ u e k.
        Ends-bind (λ t. Consumes p (t, q)) (Consumes p) (word_token image q) _
          (word_token-Consumes p q image l (span-Passes in_word p)) (λ t e c. c))

digit_next-Ends : (s : Text) → Ends (λ b. Unit) (digit_next s)
digit_next-Ends [] = tt
digit_next-Ends (c ∷ s) = elim (Bool-cases (leb 128 c)) [
  | inl e ↦ rw (e, digit_next) tt
  | inr e ↦ rw (e, digit_next) tt
]

suffix_next-starts : (s : Text) → suffix_next s ≡ true → starts (b'f' ∷ []) s ≡ true
suffix_next-starts [] h = cc
suffix_next-starts (c ∷ s) h = ground (arith, h)

starts_fraction-starts : (s : Text) → starts_fraction s ≡ true → starts (b'.' ∷ []) s ≡ true
starts_fraction-starts [] h = cc
starts_fraction-starts (c ∷ []) h = cc
starts_fraction-starts (c ∷ d ∷ s) h = ground (arith, h)

-- The end of a float literal.
suffix-Consumes :
    (p q : Place) (image : Text)
    → Passes p image q
    → starts (b'f' ∷ []) q.left ≡ true
    → Consumes p (token float_literal image q.line (q.column + 1 - (length image + 1)), advance 1 q)
suffix-Consumes p q image passes h = (
  Passes-trans p q (advance 1 q) image (b'f' ∷ []) passes (starts-Passes (b'f' ∷ []) q h),
  passes.1,
  ground (arith, passes.2),
  ground (arith, length-append image (b'f' ∷ [])),
)

read_fraction-Consumes :
    (p q : Place) (whole : Text)
    → Passes p whole q
    → starts_fraction q.left ≡ true
    → Ends (Consumes p) (read_fraction whole q)
unfolding read_fraction
read_fraction-Consumes p q whole passes h =
    let point : Place = advance 1 q in
    let digits : Text = (span is_digit point.left).0 in
    let r : Place = advance (length digits) point in
    let image : Text = whole ++ b'.' ∷ digits in
    let reached : Passes p image r = Passes-trans p q r whole (b'.' ∷ digits) passes (
      Passes-trans q point r (b'.' ∷ []) digits
        (starts-Passes (b'.' ∷ []) q (starts_fraction-starts q.left h))
        (span-Passes is_digit point)) in
    Ends-any (Consumes p) (digit_next point.left) _ (digit_next-Ends point.left) (λ b.
      Ends-if (Consumes p) b _ _
        (λ d. Ends-any (Consumes p) (classified r.left) _ (classified-Ends r.left) (λ u.
          Ends-if (Consumes p) (suffix_next r.left) _ _
            (λ f. suffix-Consumes p r image reached (suffix_next-starts r.left f)) (λ f. tt)))
        (λ d. tt))

pub read_number-Consumes :
    (p : Place) → 1 ≤ length (span is_digit p.left).0 → Ends (Consumes p) (read_number p)
unfolding read_number
read_number-Consumes p l =
    let image : Text = (span is_digit p.left).0 in
    let q : Place = advance (length image) p in
    Ends-any (Consumes p) (classified q.left) _ (classified-Ends q.left) (λ u.
      Ends-if (Consumes p) (starts_fraction q.left) _ _
        (λ h. read_fraction-Consumes p q image (span-Passes is_digit p) h)
        (λ h. Consumes-back p q int_literal image refl l (span-Passes is_digit p)))
