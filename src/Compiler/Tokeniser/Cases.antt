-- ===== src/Compiler/Tokeniser/Cases.antt =====
-- src/compiler/Tokeniser.cpp: what the cases of `readToken` for literals, words and numbers take from the source.
use simple_virtual_language.Base.{
  ℕ, zero, suc, ◌+◌, ◌-◌, ◌≤◌, ◌≡◌, refl, ap, Bool, true, Bool-cases, Option-cases, inl, inr, leb,
  ◌==◌, [], ◌∷◌, ◌++◌, if◌then◌else◌, length, arith, bit_and,
}
use simple_virtual_language.Base.Text.{Text}
use simple_virtual_language.Compiler.Tokeniser.Tokens.{
  char_literal, token, Place, advance, done, syntax_error,
}
use simple_virtual_language.Compiler.Tokeniser.Characters.{in_word, starts_word, is_digit, span}
use simple_virtual_language.Compiler.Tokeniser.Words.{
  is_escape, utf8_length, check_continuation, advance_utf8_code_point, read_character,
  closing_quote, read_char_literal,
}
use simple_virtual_language.Compiler.Tokeniser.Reader.{read_other}
use simple_virtual_language.Compiler.Tokeniser.Longest.{starts}
use simple_virtual_language.Compiler.Tokeniser.Outcomes.{Ends, Ends-bind, Ends-if, Ends-mono}
use simple_virtual_language.Compiler.Tokeniser.Passing.{
  Passes, Passes-trans, take-Passes, starts-Passes,
}
use simple_virtual_language.Compiler.Tokeniser.Consumed.{
  Consumes, Consumes-ordinary, read_word-Consumes, read_number-Consumes,
}

-- The bytes behind the first one are there.
check_continuation-Ends :
    (n : ℕ) (s : Text)
    → Ends (λ (valid : Bool). valid ≡ true → n ≤ length s) (check_continuation n s)
unfolding check_continuation
check_continuation-Ends zero s = λ e. omega arith
check_continuation-Ends (suc n) [] = tt
check_continuation-Ends (suc n) (b ∷ s) = elim (Bool-cases (bit_and b 0xC0 == 0x80)) [
  | inl e ↦
      rw (e, check_continuation)
        (Ends-mono _ _ (check_continuation n s) (λ v h e. omega (arith, h e))
          (check_continuation-Ends n s))
  | inr e ↦ rw (e, check_continuation) (λ h. cc)
]

abbrev Reads : Place → Text × Place → Type 0
Reads p (image, q) = Passes p image q

advance_utf8_code_point-Reads :
    (s : Text) (l c : ℕ)
    → Ends
        (Reads (record { left = s; line = l; column = c }))
        (advance_utf8_code_point (record { left = s; line = l; column = c }))
unfolding advance_utf8_code_point
advance_utf8_code_point-Reads [] l c = tt
advance_utf8_code_point-Reads (first ∷ s) l c = elim (Option-cases (utf8_length first)) [
  | inl e ↦ rw (e, advance_utf8_code_point) tt
  | inr (n, e) ↦
      rw (e, advance_utf8_code_point)
        (let p : Place = record { left = first ∷ s; line = l; column = c } in
          Ends-bind _ (Reads p) (check_continuation (n - 1) s) _ (check_continuation-Ends (n - 1) s)
            (λ valid e k.
              Ends-if (Reads p) valid _ _ (λ v. take-Passes n p (omega (arith, k v))) (λ v. tt)))
]

escape-Reads :
    (e : ℕ) (r : Text) (l c : ℕ) (p : Place)
    → p.left ≡ 92 ∷ e ∷ r
    → Ends (Reads p) (if is_escape e then done (92 ∷ e ∷ [], advance 2 p) else syntax_error l c)
escape-Reads e r l c p h =
    Ends-if (Reads p) (is_escape e) _ _ (λ i. starts-Passes (92 ∷ e ∷ []) p (rw h ground arith))
      (λ i. tt)

read_character-Reads :
    (s : Text) (l c : ℕ)
    → Ends
        (Reads (record { left = s; line = l; column = c }))
        (read_character (record { left = s; line = l; column = c }))
unfolding read_character
read_character-Reads [] l c = tt
read_character-Reads (x ∷ []) l c = elim (Bool-cases (x == 92)) [
  | inl e ↦ rw (e, read_character) tt
  | inr e ↦ rw (e, read_character) (advance_utf8_code_point-Reads (x ∷ []) l c)
]
read_character-Reads (x ∷ e ∷ r) l c = elim (Bool-cases (x == 92)) [
  | inl h ↦
      let back : x ≡ 92 = ground (arith, h) in
      rw (h, read_character) (escape-Reads e r l (c + 1) _ (ap (λ y. y ∷ e ∷ r) back))
  | inr h ↦ rw (h, read_character) (advance_utf8_code_point-Reads (x ∷ e ∷ r) l c)
]

closing_quote-Passes :
    (s : Text) (l c : ℕ)
    → Ends
        (Passes (record { left = s; line = l; column = c }) (39 ∷ []))
        (closing_quote (record { left = s; line = l; column = c }))
closing_quote-Passes [] l c = tt
closing_quote-Passes (x ∷ s) l c =
    let p : Place = record { left = x ∷ s; line = l; column = c } in
    Ends-if (Passes p (39 ∷ [])) (x == 39) _ _ (λ e. starts-Passes (39 ∷ []) p (ground (arith, e)))
      (λ e. tt)

pub read_char_literal-Consumes :
    (p : Place) → starts (39 ∷ []) p.left ≡ true → Ends (Consumes p) (read_char_literal p)
unfolding read_char_literal
read_char_literal-Consumes p h =
    let o : Place = advance 1 p in
    Ends-bind (Reads o) (Consumes p) (read_character o) _
      (read_character-Reads o.left o.line o.column)
      (λ (image, i) e passed.
        Ends-bind (Passes i (39 ∷ [])) (Consumes p) (closing_quote i) _
          (closing_quote-Passes i.left i.line i.column)
          (λ q e closed.
            Consumes-ordinary p q (token char_literal (39 ∷ image ++ 39 ∷ []) p.line p.column) refl
              (omega arith)
              (Passes-trans p o q (39 ∷ []) (image ++ 39 ∷ []) (starts-Passes (39 ∷ []) p h)
                (Passes-trans o i q image (39 ∷ []) passed closed))
              refl refl))

-- The front that a test accepts has the first character, where it accepts that.
span_front : (test : ℕ → Bool) (c : ℕ) (s : Text) → test c ≡ true → 1 ≤ length (span test (c ∷ s)).0
unfolding span
span_front test c s h = rw (h, span) (omega arith)

starts_word-in_word : (c : ℕ) → starts_word c ≡ true → in_word c ≡ true
unfolding starts_word in_word
starts_word-in_word c h = ground arith

pub read_other-Consumes :
    (c : ℕ) (s : Text) (p : Place) → p.left ≡ c ∷ s → Ends (Consumes p) (read_other c p)
unfolding read_other
read_other-Consumes c s p h =
    Ends-if (Consumes p) (leb 128 c) _ _ (λ _. tt)
      (λ _.
        Ends-if (Consumes p) (starts_word c) _ _
          (λ w. read_word-Consumes p (rw h (span_front in_word c s (starts_word-in_word c w))))
          (λ _.
            Ends-if (Consumes p) (is_digit c) _ _
              (λ d. read_number-Consumes p (rw h (span_front is_digit c s d))) (λ _. tt)))
