-- ===== src/Compiler/Tokeniser/Stream.antt =====
-- src/compiler/Tokeniser.cpp: the token buffer, against the sequence of the tokens to come.
use simple_virtual_language.Base.{
  ℕ, zero, suc, ◌+◌, ◌-◌, ◌≤◌, ◌<◌, ◌≡◌, refl, ◌∙◌, List, [], ◌∷◌, ◌++◌, length, length-append,
  arith,
}
use simple_virtual_language.Compiler.Tokeniser.Tokens.{
  Token, Place, Scan, done, syntax_error, undefined_behaviour, exhausted, ◌>>=◌,
}
use simple_virtual_language.Compiler.Tokeniser.Reader.{read_token}
use simple_virtual_language.Compiler.Tokeniser.Buffer.{
  Tokeniser, fill_one, fill, nth_of, look_ahead,
}
use simple_virtual_language.Compiler.Tokeniser.Outcomes.{Ends, Ends-bind, Ends-mono, Ends-done}
use simple_virtual_language.Compiler.Tokeniser.Located.{read_token-Takes}

-- The token that is read behind `n` others.
abbrev pub nth_read : ℕ → Place → Scan Token
nth_read zero p = do (t, q) ← read_token p; done t
nth_read (suc n) p = do (t, q) ← read_token p; nth_read n q

-- The tokens to come: those of a buffer, then those that are read.
abbrev pub ahead : ℕ → List Token → Place → Scan Token
ahead n [] p = nth_read n p
ahead zero (t ∷ ts) p = done t
ahead (suc n) (t ∷ ts) p = ahead n ts p

abbrev pub upcoming : ℕ → Tokeniser → Scan Token
upcoming n s = ahead n s.token_buffer s.place

pub bind_assoc :
    {A B C : Type 0} (r : Scan A) (f : A → Scan B) (g : B → Scan C)
    → (r >>= f >>= g) ≡ (r >>= (λ a. f a >>= g))
bind_assoc (done a) f g = refl
bind_assoc (syntax_error line column) f g = refl
bind_assoc undefined_behaviour f g = refl
bind_assoc exhausted f g = refl

bind_cong :
    {A B : Type 0} (r : Scan A) (f g : A → Scan B)
    → ((a : A) → r ≡ done a → f a ≡ g a)
    → (r >>= f) ≡ (r >>= g)
bind_cong (done a) f g h = h a refl
bind_cong (syntax_error line column) f g h = refl
bind_cong undefined_behaviour f g h = refl
bind_cong exhausted f g h = refl

done_bind : {A : Type 0} (r : Scan A) → (r >>= (λ a. done a)) ≡ r
done_bind (done a) = refl
done_bind (syntax_error line column) = refl
done_bind undefined_behaviour = refl
done_bind exhausted = refl

-- A token that the buffer does not have is looked for behind one that is read.
ahead-read :
    (k : ℕ) (ts : List Token) (p : Place)
    → length ts ≤ k
    → (read_token p >>= (λ r. ahead k (ts ++ r.0 ∷ []) r.1)) ≡ ahead k ts p
ahead-read zero [] p h = refl
ahead-read (suc k) [] p h = refl
ahead-read zero (t ∷ ts) p h = ground arith
ahead-read (suc k) (t ∷ ts) p h = ahead-read k ts p (ground arith)

fill_one-upcoming :
    (k : ℕ) (s : Tokeniser) → length s.token_buffer ≤ k → (fill_one s >>= upcoming k) ≡ upcoming k s
unfolding fill_one
fill_one-upcoming k s h =
    bind_assoc (read_token s.place) _ _ ∙ ahead-read k s.token_buffer s.place h

-- Every result of a reading has it that the loop did not run out.
pub read_token-Ends : (p : Place) → Ends (λ r. Unit {0}) (read_token p)
read_token-Ends p = Ends-mono _ _ (read_token p) (λ r k. tt) (read_token-Takes p)

-- A token that is added at the end changes nothing of what is to come.
ahead_added :
    (k : ℕ) (ts : List Token) (t : Token) (p q : Place)
    → read_token p ≡ done (t, q)
    → ahead k (ts ++ t ∷ []) q ≡ ahead k ts p
ahead_added zero [] t p q e = rw e refl
ahead_added (suc k) [] t p q e = rw e refl
ahead_added zero (u ∷ ts) t p q e = refl
ahead_added (suc k) (u ∷ ts) t p q e = ahead_added k ts t p q e

-- The same tokens to come, with `n` more of them in the buffer.
abbrev pub Longer : ℕ → Tokeniser → Tokeniser → Type 0
Longer n s s' =
    (length s'.token_buffer ≡ length s.token_buffer + n) × ((k : ℕ) → upcoming k s' ≡ upcoming k s)

pub fill_one-Longer : (s : Tokeniser) → Ends (Longer 1 s) (fill_one s)
unfolding fill_one
fill_one-Longer s =
    Ends-bind (λ r. Unit {0}) (Longer 1 s) (read_token s.place) _ (read_token-Ends s.place)
      (λ (t, q) e u.
        (length-append s.token_buffer (t ∷ []), λ k. ahead_added k s.token_buffer t s.place q e))

pub fill-Longer : (n : ℕ) (s : Tokeniser) → Ends (Longer n s) (fill n s)
unfolding fill
fill-Longer zero s = (omega arith, λ k. refl)
fill-Longer (suc n) s =
    Ends-bind (Longer 1 s) (Longer (suc n) s) (fill_one s) _ (fill_one-Longer s) (λ s' e one.
      Ends-mono (Longer n s') (Longer (suc n) s) (fill n s')
        (λ r more. (omega (arith, one.0, more.0), λ k. more.1 k ∙ one.1 k)) (fill-Longer n s'))

fill-upcoming :
    (n k : ℕ) (s : Tokeniser)
    → n ≤ suc k - length s.token_buffer
    → (fill n s >>= upcoming k) ≡ upcoming k s
unfolding fill
fill-upcoming zero k s h = refl
fill-upcoming (suc n) k s h =
    bind_assoc (fill_one s) (fill n) (upcoming k)
    ∙ bind_cong (fill_one s) _ (upcoming k) (λ s' e.
      fill-upcoming n k s'
        (omega (arith, (Ends-done (Longer 1 s) (fill_one s) s' (fill_one-Longer s) e).0)))
    ∙ fill_one-upcoming k s (omega arith)

nth_of-ahead : (n : ℕ) (ts : List Token) (p : Place) → n < length ts → nth_of n ts ≡ ahead n ts p
unfolding nth_of
nth_of-ahead n [] p h = ground arith
nth_of-ahead zero (t ∷ ts) p h = refl
nth_of-ahead (suc n) (t ∷ ts) p h = nth_of-ahead n ts p (ground arith)

abbrev pub token_of : Token × Tokeniser → Scan Token
token_of r = done r.0

pub look_ahead-token : (n : ℕ) (s : Tokeniser) → (look_ahead n s >>= token_of) ≡ upcoming n s
unfolding look_ahead
look_ahead-token n s =
    let m : ℕ = n + 1 - length s.token_buffer in
    bind_assoc (fill m s) _ token_of
    ∙ bind_cong (fill m s) _ (upcoming n) (λ s' e.
      bind_assoc (nth_of n s'.token_buffer) _ token_of
      ∙ done_bind _
      ∙ nth_of-ahead n s'.token_buffer s'.place
          (omega (arith, (Ends-done (Longer m s) (fill m s) s' (fill-Longer m s) e).0)))
    ∙ fill-upcoming m n s (omega arith)
