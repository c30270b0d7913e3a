-- ===== src/Compiler/Gives.antt =====
-- Facts about the results of folding, where there is one.
use simple_virtual_language.Base.{◌≡◌, refl, subst, Bool, true, false, if◌then◌else◌}
use simple_virtual_language.Compiler.Constants.{Folded, folded, refused, ◌>>=◌}

abbrev pub Gives : {A : Type 0} → (A → Type 0) → Folded A → Type 0
Gives P (folded a) = P a
Gives P (refused e) = Unit {0}

-- A step, with the equation for its result.
pub Gives-bind :
    {A B : Type 0} (P : A → Type 0) (Q : B → Type 0) (r : Folded A) (f : A → Folded B)
    → Gives P r
    → ((a : A) → r ≡ folded a → P a → Gives Q (f a))
    → Gives Q (r >>= f)
Gives-bind P Q (folded a) f p next = next a refl p
Gives-bind P Q (refused e) f p next = tt

pub Gives-any :
    {A B : Type 0} (Q : B → Type 0) (r : Folded A) (f : A → Folded B)
    → ((a : A) → r ≡ folded a → Gives Q (f a))
    → Gives Q (r >>= f)
Gives-any Q (folded a) f next = next a refl
Gives-any Q (refused e) f next = tt

pub Gives-folded :
    {A : Type 0} (P : A → Type 0) (r : Folded A) (a : A) → Gives P r → r ≡ folded a → P a
Gives-folded P r a p e = subst (λ (x : Folded _). Gives P x) e p

pub Gives-mono :
    {A : Type 0} (P Q : A → Type 0) (r : Folded A) → ((a : A) → P a → Q a) → Gives P r → Gives Q r
Gives-mono P Q (folded a) weaken p = weaken a p
Gives-mono P Q (refused e) weaken p = tt

pub Gives-if :
    {A : Type 0} (P : A → Type 0) (b : Bool) (r k : Folded A)
    → (b ≡ true → Gives P r)
    → (b ≡ false → Gives P k)
    → Gives P (if b then r else k)
Gives-if P true r k hr hk = hr refl
Gives-if P false r k hr hk = hk refl
