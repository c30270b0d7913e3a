-- ===== src/Compiler/Tokeniser/Passing.antt =====
-- src/compiler/Tokeniser.cpp: the part of the source that a reading passes.
use simple_virtual_language.Base.{
  ℕ, zero, suc, ◌+◌, ◌≤◌, ◌≡◌, refl, sym, ap, ◌∙◌, Bool, true, Bool-cases, inl, inr, [], ◌∷◌, ◌++◌,
  append_assoc, length, length-append, length-take, take, drop, arith,
}
use simple_virtual_language.Base.Text.{Text}
use simple_virtual_language.Compiler.Tokeniser.Tokens.{Place, advance}
use simple_virtual_language.Compiler.Tokeniser.Characters.{span}
use simple_virtual_language.Compiler.Tokeniser.Longest.{starts}

-- A text without line feeds is passed from one place to the other.
abbrev pub Passes : Place → Text → Place → Type 0
Passes p passed q =
    (p.left ≡ passed ++ q.left) × (q.line ≡ p.line) × (q.column ≡ p.column + length passed)

pub Passes-trans : (p q r : Place) (s t : Text) → Passes p s q → Passes q t r → Passes p (s ++ t) r
Passes-trans p q r s t (a, b, c) (d, e, f) = (
  a ∙ ap (λ x. s ++ x) d ∙ sym (append_assoc s t r.left),
  e ∙ b,
  ground (arith, length-append s t),
)

pub starts-splits : (image s : Text) → starts image s ≡ true → s ≡ image ++ drop (length image) s
starts-splits [] s h = refl
starts-splits (a ∷ image) [] h = cc
starts-splits (a ∷ image) (b ∷ s) h =
    let e : b ≡ a = ground (arith, h) in
    rw e (ap (λ r. a ∷ r) (starts-splits image s (ground (arith, h))))

pub span-splits :
    (test : ℕ → Bool) (s : Text) → s ≡ (span test s).0 ++ drop (length (span test s).0) s
unfolding span
span-splits test [] = refl
span-splits test (c ∷ s) = elim (Bool-cases (test c)) [
  | inl e ↦ rw (e, span) (ap (λ r. c ∷ r) (span-splits test s))
  | inr e ↦ rw (e, span) refl
]

pub take-splits : (n : ℕ) (s : Text) → s ≡ take n s ++ drop n s
take-splits zero s = refl
take-splits (suc n) [] = refl
take-splits (suc n) (c ∷ s) = ap (λ r. c ∷ r) (take-splits n s)

pub span-Passes :
    (test : ℕ → Bool) (p : Place)
    → Passes p (span test p.left).0 (advance (length (span test p.left).0) p)
span-Passes test p = (span-splits test p.left, refl, refl)

pub take-Passes : (n : ℕ) (p : Place) → n ≤ length p.left → Passes p (take n p.left) (advance n p)
take-Passes n p h = (take-splits n p.left, refl, ground (arith, length-take n p.left))

pub starts-Passes :
    (image : Text) (p : Place)
    → starts image p.left ≡ true
    → Passes p image (advance (length image) p)
starts-Passes image p h = (starts-splits image p.left h, refl, refl)
