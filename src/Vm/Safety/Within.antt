-- ===== src/Vm/Safety/Within.antt =====
-- Relations that every run of a method keeps between its first and its last state, whether it returns
-- or throws, with one rule for each building block of the methods.
use simple_virtual_language.Base.{Bool, true, false, if◌then◌else◌, ◌≡◌, refl}
use simple_virtual_language.Vm.State.{
  RuntimeErrorType, Vm, Result, returned, raised, undefined, Outcome, ok, thrown,
  undefined_behaviour, M, and_then, lift,
}

pub data Within (R : Vm → Vm → Type 0) {A : Type 0} (s : Vm) : Outcome A → Type 0 where
  by_ok : {a : A} {s' : Vm} → R s s' → Within R s (ok a s')
  by_throw : {e : RuntimeErrorType} {s' : Vm} → R s s' → Within R s (thrown e s')
  by_undefined : Within R s undefined_behaviour

abbrev pub Respects : (Vm → Vm → Type 0) → {A : Type 0} → M A → Type 0
Respects R m = (s : Vm) → Within R s (m s)

module _ (R : Vm → Vm → Type 0) (trans : (s t u : Vm) → R s t → R t u → R s u) where
  extend : {A : Type 0} (s t : Vm) (r : Outcome A) → R s t → Within R t r → Within R s r
  extend s t r st (by_ok {s' = u} tu) = by_ok (trans s t u st tu)
  extend s t r st (by_throw {s' = u} tu) = by_throw (trans s t u st tu)
  extend s t r st by_undefined = by_undefined

  -- Sequencing, from a given state.
  pub after-Within :
      {A B : Type 0} (s : Vm) (r : Outcome A) (f : A → M B)
      → Within R s r
      → ((a : A) (t : Vm) → R s t → Within R t (f a t))
      → Within R s (and_then r f)
  after-Within s r f (by_ok {a = a} {s' = t} st) next = extend s t (f a t) st (next a t st)
  after-Within s r f (by_throw st) next = by_throw st
  after-Within s r f by_undefined next = by_undefined

  pub seq :
      {A B : Type 0} (m : M A) (f : A → M B)
      → Respects R m
      → ((a : A) → Respects R (f a))
      → Respects R (λ s. and_then (m s) f)
  seq m f first next s = after-Within s (m s) f (first s) (λ a t st. next a t)

-- Sequencing where the two parts keep different relations.
pub chain :
    (R Q : Vm → Vm → Type 0) {A B : Type 0} (s t : Vm) (r : Outcome A) (f : A → M B)
    → Within R t r
    → ((u : Vm) → R t u → Q s u)
    → ((a : A) (u : Vm) → R t u → Within Q s (f a u))
    → Within Q s (and_then r f)
chain R Q s t r f (by_ok {a = a} {s' = u} tu) stop next = next a u tu
chain R Q s t r f (by_throw {s' = u} tu) stop next = by_throw (stop u tu)
chain R Q s t r f by_undefined stop next = by_undefined

pub within_lift :
    (R : Vm → Vm → Type 0) (reflexive : (s : Vm) → R s s) {A : Type 0} (r : Result A)
    → Respects R (lift r)
within_lift R reflexive (returned a) s = by_ok (reflexive s)
within_lift R reflexive (raised e) s = by_throw (reflexive s)
within_lift R reflexive undefined s = by_undefined

pub if-Within :
    (R : Vm → Vm → Type 0) {A : Type 0} (b : Bool) (m k : M A) (s : Vm)
    → Within R s (m s)
    → Within R s (k s)
    → Within R s ((if b then m else k) s)
if-Within R true m k s hm hk = hm
if-Within R false m k s hm hk = hk

pub mono-Within :
    (R Q : Vm → Vm → Type 0) {A : Type 0} (s : Vm) (r : Outcome A)
    → ((t : Vm) → R s t → Q s t)
    → Within R s r
    → Within Q s r
mono-Within R Q s r weaken (by_ok {s' = t} st) = by_ok (weaken t st)
mono-Within R Q s r weaken (by_throw {s' = t} st) = by_throw (weaken t st)
mono-Within R Q s r weaken by_undefined = by_undefined

-- A sequence that returns: both parts do.
pub both_return :
    {A B : Type 0} (r : Outcome A) (f : A → M B) (b : B) (t : Vm)
    → and_then r f ≡ ok b t
    → (a : A) × (u : Vm) × (r ≡ ok a u) × (f a u ≡ ok b t)
both_return (ok a u) f b t e = (a, u, refl, e)
both_return (thrown x u) f b t e = cc
both_return undefined_behaviour f b t e = cc
