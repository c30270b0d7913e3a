-- ===== src/Assembler/Yields.antt =====
-- Facts about the results of the assembler's functions, where they return one.
use simple_virtual_language.Base.{◌≡◌, refl, subst, Bool, true, false, if◌then◌else◌}
use simple_virtual_language.Assembler.Numbers.{Result, done, failed, ◌>>=◌}

-- What holds of a result, if there is one.
abbrev pub Yields : {A : Type 0} → (A → Type 0) → Result A → Type 0
Yields P (done a) = P a
Yields P (failed e) = Unit {0}

pub Yields-bind :
    {A B : Type 0} (P : A → Type 0) (Q : B → Type 0) (r : Result A) (f : A → Result B)
    → Yields P r
    → ((a : A) → P a → Yields Q (f a))
    → Yields Q (r >>= f)
Yields-bind P Q (done a) f p next = next a p
Yields-bind P Q (failed e) f p next = tt

pub Yields-any :
    {A B : Type 0} (Q : B → Type 0) (r : Result A) (f : A → Result B)
    → ((a : A) → Yields Q (f a))
    → Yields Q (r >>= f)
Yields-any Q (done a) f next = next a
Yields-any Q (failed e) f next = tt

pub Yields-mono :
    {A : Type 0} (P Q : A → Type 0) (r : Result A) → ((a : A) → P a → Q a) → Yields P r → Yields Q r
Yields-mono P Q (done a) weaken p = weaken a p
Yields-mono P Q (failed e) weaken p = tt

pub Yields-done :
    {A : Type 0} (P : A → Type 0) (r : Result A) (a : A) → Yields P r → r ≡ done a → P a
Yields-done P r a p e = subst (λ (x : Result _). Yields P x) e p

pub if-Yields :
    {A : Type 0} (P : A → Type 0) (b : Bool) (r k : Result A)
    → Yields P r
    → Yields P k
    → Yields P (if b then r else k)
if-Yields P true r k hr hk = hr
if-Yields P false r k hr hk = hk

-- A sequence that returns: both parts do.
pub bind-done :
    {A B : Type 0} (r : Result A) (f : A → Result B) (b : B)
    → r >>= f ≡ done b
    → (a : A) × (r ≡ done a) × (f a ≡ done b)
bind-done (done a) f b h = (a, refl, h)
bind-done (failed e) f b h = cc
