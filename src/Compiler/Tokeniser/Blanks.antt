-- ===== src/Compiler/Tokeniser/Blanks.antt =====
-- src/compiler/Tokeniser.cpp: the loop of `readToken`, against one pass over what stands in front of a token.
use simple_virtual_language.Base.{
  ℕ, zero, suc, ◌+◌, ◌<◌, ◌≤◌, ◌≡◌, refl, ◌∙◌, sym, ap, Bool, true, false, not, [], ◌∷◌,
  if◌then◌else◌, ◌==◌, length, arith, Bool-cases, inl, inr,
}
use simple_virtual_language.Base.Text.{Text, codes}
use simple_virtual_language.Compiler.Tokeniser.Tokens.{end_of_file, Token, token, Place, Scan, done}
use simple_virtual_language.Compiler.Tokeniser.Characters.{
  is_space, skip_whitespace, ends_comment, skip_comment,
}
use simple_virtual_language.Compiler.Tokeniser.Reader.{read_at, read_rounds, read_token}

-- One character at a time, with a note whether it stands in a comment.
unfoldable pub skip_blanks : Bool → Text → ℕ → ℕ → Place
unfolding is_space ends_comment
skip_blanks inside [] line column = record { left = []; line = line; column = column }
skip_blanks true (c ∷ s) line column =
    skip_blanks (not (ends_comment c)) s (if c == 10 then line + 1 else line)
      (if c == 10 then 1 else column + 1)
skip_blanks false (c ∷ s) line column = elim (c == b'#') [
  | Bool.true ↦ skip_blanks true s line (column + 1)
  | Bool.false ↦ elim (is_space c) [
    | Bool.true ↦
        skip_blanks false s (if c == 10 then line + 1 else line) (if c == 10 then 1 else column + 1)
    | Bool.false ↦ record { left = c ∷ s; line = line; column = column }
  ]
]

unfoldable pub read_front : Place → Scan (Token × Place)
unfolding read_at
read_front q = elim q.left [
  | [] ↦ done (token end_of_file (codes "End of File") q.line q.column, q)
  | c ∷ s ↦ read_at c s q
]

abbrev blanks_at : Bool → Place → Place
blanks_at inside p = skip_blanks inside p.left p.line p.column

-- White space is no comment.
space_not_hash : (c : ℕ) → is_space c ≡ true → (c == b'#') ≡ false
unfolding is_space
space_not_hash c h = ground arith

-- Where the pass stands still.
stays :
    (c : ℕ) (s : Text) (line column : ℕ)
    → (c == b'#') ≡ false
    → is_space c ≡ false
    → skip_blanks false (c ∷ s) line column ≡ record { left = c ∷ s; line = line; column = column }
unfolding skip_blanks
stays c s line column h e = rw (h, e, skip_blanks) refl

passes_space :
    (c : ℕ) (s : Text) (line column : ℕ)
    → is_space c ≡ true
    → skip_blanks false (c ∷ s) line column
      ≡ skip_blanks false s (if c == 10 then line + 1 else line) (if c == 10 then 1 else column + 1)
unfolding skip_blanks
passes_space c s line column h = rw (space_not_hash c h, h, skip_blanks) refl

skip_whitespace-blanks :
    (s : Text) (l c : ℕ) → blanks_at false (skip_whitespace s l c) ≡ skip_blanks false s l c
unfolding skip_blanks skip_whitespace
skip_whitespace-blanks [] l c = refl
skip_whitespace-blanks (x ∷ s) l c = elim (Bool-cases (is_space x)) [
  | inl e ↦ rw (passes_space x s l c e, e, skip_whitespace) (skip_whitespace-blanks s _ _)
  | inr e ↦ rw (e, skip_whitespace) refl
]

-- The end of a comment is white space.
ends_comment-space : (c : ℕ) → ends_comment c ≡ true → is_space c ≡ true
unfolding ends_comment is_space
ends_comment-space c h = ground arith

not_line_feed : (c : ℕ) → ends_comment c ≡ false → (c == 10) ≡ false
unfolding ends_comment
not_line_feed c h = ground arith

skip_comment-blanks :
    (s : Text) (l c : ℕ) → blanks_at false (skip_comment s l c) ≡ skip_blanks true s l c
unfolding skip_blanks skip_comment
skip_comment-blanks [] l c = refl
skip_comment-blanks (x ∷ s) l c = elim (Bool-cases (ends_comment x)) [
  | inl e ↦ rw (e, skip_comment, passes_space x s l c (ends_comment-space x e)) refl
  | inr e ↦ rw (e, not_line_feed x e, skip_comment, skip_blanks) (skip_comment-blanks s _ _)
]

skip_whitespace-shorter : (s : Text) (l c : ℕ) → length (skip_whitespace s l c).left ≤ length s
unfolding skip_whitespace
skip_whitespace-shorter [] l c = omega arith
skip_whitespace-shorter (x ∷ s) l c = elim (Bool-cases (is_space x)) [
  | inl e ↦
      rw (e, skip_whitespace) ground
        (
          arith,
          skip_whitespace-shorter s (if x == 10 then l + 1 else l) (if x == 10 then 1 else c + 1),
        )
  | inr e ↦ rw (e, skip_whitespace) ground arith
]

skip_comment-shorter : (s : Text) (l c : ℕ) → length (skip_comment s l c).left ≤ length s
unfolding skip_comment
skip_comment-shorter [] l c = omega arith
skip_comment-shorter (x ∷ s) l c = elim (Bool-cases (ends_comment x)) [
  | inl e ↦ rw (e, skip_comment) ground arith
  | inr e ↦ rw (e, skip_comment) ground (arith, skip_comment-shorter s l (c + 1))
]

abbrev NoSpaceFirst : Text → Type 0
NoSpaceFirst [] = Unit
NoSpaceFirst (c ∷ s) = is_space c ≡ false

skip_whitespace-NoSpaceFirst : (s : Text) (l c : ℕ) → NoSpaceFirst (skip_whitespace s l c).left
unfolding skip_whitespace
skip_whitespace-NoSpaceFirst [] l c = tt
skip_whitespace-NoSpaceFirst (x ∷ s) l c = elim (Bool-cases (is_space x)) [
  | inl e ↦ rw (e, skip_whitespace) (skip_whitespace-NoSpaceFirst s _ _)
  | inr e ↦ rw (e, skip_whitespace) e
]

-- A round, on what the white space leaves.
abbrev round : ℕ → Place → Scan (Token × Place)
round rounds q = elim q.left [
  | [] ↦ done (token end_of_file (codes "End of File") q.line q.column, q)
  | c ∷ s ↦ elim (c == b'#') [
    | Bool.true ↦ read_rounds rounds (skip_comment q.left q.line q.column)
    | Bool.false ↦ read_at c s q
  ]
]

hash_starts : (c : ℕ) → (c == b'#') ≡ true → ends_comment c ≡ false
unfolding ends_comment
hash_starts c h = ground arith

passes_hash :
    (c : ℕ) (s : Text) (line column : ℕ)
    → (c == b'#') ≡ true
    → skip_blanks false (c ∷ s) line column ≡ skip_blanks true s line (column + 1)
unfolding skip_blanks
passes_hash c s line column h = rw (h, skip_blanks) refl

hash_passed :
    (c : ℕ) (s : Text) (line column : ℕ)
    → (c == b'#') ≡ true
    → skip_comment (c ∷ s) line column ≡ skip_comment s line (column + 1)
unfolding skip_comment
hash_passed c s line column h = rw (hash_starts c h, skip_comment) refl

comment_shorter :
    (c : ℕ) (s : Text) (line column : ℕ)
    → (c == b'#') ≡ true
    → length (skip_comment (c ∷ s) line column).left < length (c ∷ s)
comment_shorter c s line column h =
    rw (hash_passed c s line column h) ground (arith, skip_comment-shorter s line (column + 1))

round-front :
    (rounds : ℕ) (s : Text) (line column : ℕ)
    → NoSpaceFirst s
    → length s < suc rounds
    → ((p : Place) → length p.left < rounds → read_rounds rounds p ≡ read_front (blanks_at false p))
    → round rounds (record { left = s; line = line; column = column })
      ≡ read_front (skip_blanks false s line column)
unfolding read_front skip_blanks
round-front rounds [] line column n h next = refl
round-front rounds (c ∷ s) line column n h next = elim (Bool-cases (c == b'#')) [
  | inl e ↦
      rw
        (
          round,
          e,
          passes_hash c s line column e,
          sym (skip_comment-blanks s line (column + 1)),
          sym (hash_passed c s line column e),
        )
        (next (skip_comment (c ∷ s) line column)
          (ground (arith, comment_shorter c s line column e)))
  | inr e ↦ rw (round, e, stays c s line column e n) refl
]

-- With a round for each character that is left, and one more, the loop ends.
read_rounds-front :
    (rounds : ℕ) (p : Place)
    → length p.left < rounds
    → read_rounds rounds p ≡ read_front (blanks_at false p)
unfolding read_rounds
read_rounds-front zero p h = ground arith
read_rounds-front (suc rounds) p h =
    let q : Place = skip_whitespace p.left p.line p.column in
    round-front rounds q.left q.line q.column (skip_whitespace-NoSpaceFirst p.left p.line p.column)
      (ground (arith, skip_whitespace-shorter p.left p.line p.column)) (read_rounds-front rounds)
    ∙ ap read_front (skip_whitespace-blanks p.left p.line p.column)

-- `readToken` skips white space and comments as one pass over them does, each comment to the end of its
-- line, keeps the line and the column on the way, and then reads one token: its loop does not run out.
pub read_token-front :
    (p : Place) → read_token p ≡ read_front (skip_blanks false p.left p.line p.column)
unfolding read_token
read_token-front p = read_rounds-front (suc (length p.left)) p (ground arith)
