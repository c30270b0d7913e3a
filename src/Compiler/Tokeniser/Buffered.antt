-- ===== src/Compiler/Tokeniser/Buffered.antt =====
-- src/compiler/Tokeniser.cpp: `lookAhead`, `tok`, `next` and `eat` on the sequence of the tokens to come.
use simple_virtual_language.Base.{
  ℕ, zero, suc, ◌+◌, ◌-◌, ◌≡◌, ◌≢◌, refl, sym, subst, ◌∙◌, List, [], ◌∷◌, length, arith,
}
use simple_virtual_language.Base.Text.{Text}
use simple_virtual_language.Compiler.Tokeniser.Tokens.{
  TokenKind, TokenKind-discrete, Token, Place, Scan, done, syntax_error, undefined_behaviour,
  exhausted, ◌>>=◌,
}
use simple_virtual_language.Compiler.Tokeniser.Reader.{read_token}
use simple_virtual_language.Compiler.Tokeniser.Buffer.{
  Tokeniser, at_start, make_tokeniser, fill_one, fill, nth_of, look_ahead, tok, next, eat,
}
use simple_virtual_language.Compiler.Tokeniser.Outcomes.{Ends, Ends-bind, Ends-any, Ends-mono}
use simple_virtual_language.Compiler.Tokeniser.Stream.{
  ahead, upcoming, token_of, fill_one-Longer, fill-Longer, Longer, look_ahead-token,
  read_token-Ends, bind_assoc,
}

nth_of-Ends : (n : ℕ) (ts : List Token) → Ends (λ t. Unit {0}) (nth_of n ts)
unfolding nth_of
nth_of-Ends n [] = tt
nth_of-Ends zero (t ∷ ts) = tt
nth_of-Ends (suc n) (t ∷ ts) = nth_of-Ends n ts

look_ahead-Ends :
    (n : ℕ) (s : Tokeniser) → Ends (λ r. (k : ℕ) → upcoming k r.1 ≡ upcoming k s) (look_ahead n s)
unfolding look_ahead
look_ahead-Ends n s =
    let m : ℕ = n + 1 - length s.token_buffer in
    Ends-bind (Longer m s) _ (fill m s) _ (fill-Longer m s) (λ s' e more.
      Ends-bind (λ t. Unit {0}) _ (nth_of n s'.token_buffer) _ (nth_of-Ends n s'.token_buffer)
        (λ t e u. more.1))

-- `lookAhead(n)` returns the token number `n` of those to come, or the failure of reading up to it; its
-- reading ends, and it leaves the tokens to come as they are.
pub look_ahead-upcoming :
    (n : ℕ) (s : Tokeniser)
    → ((look_ahead n s >>= token_of) ≡ upcoming n s)
      × Ends (λ r. (k : ℕ) → upcoming k r.1 ≡ upcoming k s) (look_ahead n s)
look_ahead-upcoming n s = (look_ahead-token n s, look_ahead-Ends n s)

next-ahead :
    (k : ℕ) (ts : List Token) (p : Place)
    → (next (record { token_buffer = ts; place = p }) >>= upcoming k) ≡ ahead (suc k) ts p
unfolding next
next-ahead k [] p = bind_assoc (read_token p) _ (upcoming k)
next-ahead k (t ∷ ts) p = refl

-- What `eat(kind)` does with the token that is first.
abbrev pub eaten : TokenKind → Token → Scan Text
eaten kind t = elim (TokenKind-discrete t.kind kind) [
  | no other ↦ syntax_error t.line t.column
  | yes same ↦ done t.image
]

decided :
    {P A B : Type 0} (d : Dec P) (x y : Scan A) (f : A → Scan B)
    → (elim d [ no n ↦ x | yes p ↦ y ] >>= f) ≡ elim d [ no n ↦ x >>= f | yes p ↦ y >>= f ]
decided (no n) x y f = refl
decided (yes p) x y f = refl

abbrev Eats : TokenKind → ℕ → Tokeniser → Type 0
Eats kind k s =
    ((eat kind s >>= (λ r. done r.0)) ≡ (upcoming 0 s >>= eaten kind))
    × ((eat kind s >>= (λ r. upcoming k r.1))
        ≡ (upcoming 0 s >>= (λ t. eaten kind t >>= (λ image. upcoming (suc k) s))))

eat-full :
    (kind : TokenKind) (k : ℕ) (t : Token) (ts : List Token) (p : Place)
    → Eats kind k (record { token_buffer = t ∷ ts; place = p })
unfolding eat tok next nth_of
eat-full kind k t ts p = (
  decided (TokenKind-discrete t.kind kind) _ _ _,
  decided (TokenKind-discrete t.kind kind) _ _ _
      ∙ sym (decided (TokenKind-discrete t.kind kind) _ _ _),
)

eat-empty :
    (kind : TokenKind) (k : ℕ) (p : Place) (r : Scan (Token × Place))
    → read_token p ≡ r
    → Eats kind k (record { token_buffer = []; place = p })
unfolding eat tok next nth_of fill_one
eat-empty kind k p (done (t, q)) e =
    rw (e, eat, tok, fill_one)
      (
        decided (TokenKind-discrete t.kind kind) _ _ _,
        decided (TokenKind-discrete t.kind kind) _ _ _
            ∙ sym (decided (TokenKind-discrete t.kind kind) _ _ _),
      )
eat-empty kind k p (syntax_error line column) e = rw (e, eat, tok, fill_one) (refl, refl)
eat-empty kind k p undefined_behaviour e = rw (e, eat, tok, fill_one) (refl, refl)
eat-empty kind k p exhausted e = rw (e, eat, tok, fill_one) (refl, refl)

eat-Eats :
    (kind : TokenKind) (k : ℕ) (ts : List Token) (p : Place)
    → Eats kind k (record { token_buffer = ts; place = p })
eat-Eats kind k [] p = eat-empty kind k p (read_token p) refl
eat-Eats kind k (t ∷ ts) p = eat-full kind k t ts p

tok-look_ahead_at :
    (ts : List Token) (p : Place)
    → tok (record { token_buffer = ts; place = p })
      ≡ look_ahead 0 (record { token_buffer = ts; place = p })
unfolding tok look_ahead fill nth_of
tok-look_ahead_at [] p =
    sym (bind_assoc (fill_one (record { token_buffer = []; place = p })) (λ s. done s) _)
tok-look_ahead_at (t ∷ ts) p =
    let none_missing : 0 + 1 - suc (length ts) ≡ 0 = omega arith in rw (none_missing, fill) refl

-- `tok` is `lookAhead(0)`; `next` passes one of the tokens to come, also one that is not read yet; `eat`
-- returns the image of the first of them and passes it, if it is of the kind asked for, and otherwise is a
-- syntax error at its line and column. Where reading fails, each of them fails in the same way.
pub eat-upcoming :
    (kind : TokenKind) (k : ℕ) (s : Tokeniser)
    → (tok s ≡ look_ahead 0 s)
      × ((next s >>= upcoming k) ≡ upcoming (suc k) s)
      × ((eat kind s >>= (λ r. done r.0)) ≡ (upcoming 0 s >>= eaten kind))
      × ((eat kind s >>= (λ r. upcoming k r.1))
          ≡ (upcoming 0 s >>= (λ t. eaten kind t >>= (λ image. upcoming (suc k) s))))
eat-upcoming kind k s =
    let eats : Eats kind k s = eat-Eats kind k s.token_buffer s.place in
    (tok-look_ahead_at s.token_buffer s.place, next-ahead k s.token_buffer s.place, eats.0, eats.1)

never_exhausted : {A : Type 0} (P : A → Type 0) (r : Scan A) → Ends P r → r ≢ exhausted
never_exhausted P r h e = subst (λ (x : Scan _). Ends P x) e h

tok-Ends : (s : Tokeniser) → Ends (λ r. Unit {0}) (tok s)
tok-Ends s =
    rw (tok-look_ahead_at s.token_buffer s.place)
      (Ends-mono _ _ (look_ahead 0 s) (λ r k. tt) (look_ahead-Ends 0 s))

next-Ends :
    (ts : List Token) (p : Place)
    → Ends (λ r. Unit {0}) (next (record { token_buffer = ts; place = p }))
unfolding next
next-Ends [] p = Ends-bind _ _ (read_token p) _ (read_token-Ends p) (λ r e u. tt)
next-Ends (t ∷ ts) p = tt

decided-Ends :
    {P A : Type 0} (d : Dec P) (x y : Scan A)
    → Ends (λ a. Unit {0}) x
    → Ends (λ a. Unit {0}) y
    → Ends (λ a. Unit {0}) (elim d [ no n ↦ x | yes p ↦ y ])
decided-Ends (no n) x y hx hy = hx
decided-Ends (yes p) x y hx hy = hy

eat-Ends : (kind : TokenKind) (s : Tokeniser) → Ends (λ r. Unit {0}) (eat kind s)
unfolding eat
eat-Ends kind s = Ends-any _ (tok s) _ (tok-Ends s) (λ (t, s').
    decided-Ends (TokenKind-discrete t.kind kind) _ _ tt
      (Ends-any _ (next s') _ (next-Ends s'.token_buffer s'.place) (λ r. tt)))

made-Ends : (source : Text) → Ends (λ s. Unit {0}) (make_tokeniser source)
unfolding make_tokeniser
made-Ends source =
    let s : Tokeniser = record { token_buffer = []; place = at_start source } in
    Ends-mono (Longer 1 s) (λ r. Unit {0}) (fill_one s) (λ r more. tt) (fill_one-Longer s)

-- Tokenising ends, on every source and whatever the buffer holds: no call reads on without end.
pub tokeniser_ends :
    (source : Text) (n : ℕ) (kind : TokenKind) (s : Tokeniser)
    → (make_tokeniser source ≢ exhausted)
      × (look_ahead n s ≢ exhausted)
      × (tok s ≢ exhausted)
      × (next s ≢ exhausted)
      × (eat kind s ≢ exhausted)
tokeniser_ends source n kind s = (
  never_exhausted _ (make_tokeniser source) (made-Ends source),
  never_exhausted _ (look_ahead n s) (look_ahead-Ends n s),
  never_exhausted _ (tok s) (tok-Ends s),
  never_exhausted _ (next s) (next-Ends s.token_buffer s.place),
  never_exhausted _ (eat kind s) (eat-Ends kind s),
)
