-- ===== src/Base/Text.antt =====
-- Texts as lists of bytes, their equality test, and dictionaries keyed by texts.
use Prim.Native.Char.{code}
use Prim.Native.Nat.{ℕ}
use Prim.Native.String.{String}
use mathlib.Core.Path.{◌≡◌, refl}
use mathlib.Core.Bool.{Bool, true, false, ◌&&◌}
use mathlib.Core.List.{List, [], ◌∷◌}
use mathlib.Core.Option.{Option, none, some}
use native.Mathlib.Omega.{arith}
use simple_virtual_language.Base.Tests.{◌==◌, if◌then◌else◌}

abbrev pub Text : Type 0
Text = List ℕ

-- The bytes of an ASCII literal.
abbrev pub codes : String → Text
codes String.[] = []
codes (String.◌∷◌ c s) = code c ∷ codes s

unfoldable pub same_text : Text → Text → Bool
same_text [] [] = true
same_text (a ∷ s) (b ∷ t) = a == b && same_text s t
same_text s t = false

pub same_text→≡ : (s t : Text) → same_text s t ≡ true → s ≡ t
unfolding same_text
same_text→≡ [] [] h = refl
same_text→≡ [] (b ∷ t) h = cc
same_text→≡ (a ∷ s) [] h = cc
same_text→≡ (a ∷ s) (b ∷ t) h = ground (arith, h, same_text→≡ s t)

pub same_text_refl : (s : Text) → same_text s s ≡ true
unfolding same_text
same_text_refl [] = refl
same_text_refl (a ∷ s) = ground (arith, same_text_refl s)

-- `std::map::find`, and `count`.
unfoldable pub find_text {ℓ} : {A : Type ℓ} → Text → List (Text × A) → Option A
unfolding same_text
find_text key [] = none
find_text key ((k, v) ∷ rest) = if same_text k key then some v else find_text key rest

unfoldable pub has_text {ℓ} : {A : Type ℓ} → Text → List (Text × A) → Bool
unfolding same_text
has_text key [] = false
has_text key ((k, v) ∷ rest) = if same_text k key then true else has_text key rest
