-- ===== src/Compiler/Tokeniser/Outcomes.antt =====
-- Facts about the results of readings: what holds of one, if there is one, where the model's bound on the
-- rounds is not used up.
use simple_virtual_language.Base.{◌≡◌, refl, subst, Bool, true, false, if◌then◌else◌}
use simple_virtual_language.Compiler.Tokeniser.Tokens.{
  Scan, done, syntax_error, undefined_behaviour, exhausted, ◌>>=◌,
}

abbrev pub Ends : {A : Type 0} → (A → Type 0) → Scan A → Type 0
Ends P (done a) = P a
Ends P (syntax_error line column) = Unit
Ends P undefined_behaviour = Unit
Ends P exhausted = ⊥

pub Ends-bind :
    {A B : Type 0} (P : A → Type 0) (Q : B → Type 0) (r : Scan A) (f : A → Scan B)
    → Ends P r
    → ((a : A) → r ≡ done a → P a → Ends Q (f a))
    → Ends Q (r >>= f)
Ends-bind P Q (done a) f p next = next a refl p
Ends-bind P Q (syntax_error line column) f p next = tt
Ends-bind P Q undefined_behaviour f p next = tt
Ends-bind P Q exhausted f p next = p

pub Ends-done : {A : Type 0} (P : A → Type 0) (r : Scan A) (a : A) → Ends P r → r ≡ done a → P a
Ends-done P r a p e = subst (λ (x : Scan _). Ends P x) e p

pub Ends-mono :
    {A : Type 0} (P Q : A → Type 0) (r : Scan A) → ((a : A) → P a → Q a) → Ends P r → Ends Q r
Ends-mono P Q (done a) weaken p = weaken a p
Ends-mono P Q (syntax_error line column) weaken p = tt
Ends-mono P Q undefined_behaviour weaken p = tt
Ends-mono P Q exhausted weaken p = p

pub Ends-if :
    {A : Type 0} (P : A → Type 0) (b : Bool) (r k : Scan A)
    → (b ≡ true → Ends P r)
    → (b ≡ false → Ends P k)
    → Ends P (if b then r else k)
Ends-if P true r k hr hk = hr refl
Ends-if P false r k hr hk = hk refl

-- A step that fails or returns a value of which nothing is asked.
pub Ends-any :
    {A B : Type 0} (Q : B → Type 0) (r : Scan A) (f : A → Scan B)
    → Ends (λ a. Unit) r
    → ((a : A) → Ends Q (f a))
    → Ends Q (r >>= f)
Ends-any Q r f h next = Ends-bind (λ a. Unit) Q r f h (λ a e u. next a)
