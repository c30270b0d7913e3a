-- ===== src/Compiler/Sound.antt =====
-- src/compiler/optimiser/ConstantFolder.cpp: the value of a folded expression.
use simple_virtual_language.Base.{
  ℕ, ◌≡◌, refl, sym, ap, ◌∙◌, subst, Bool, true, false, ◌&&◌, if◌then◌else◌, and-true, arith, ◌==◌,
  Bool-cases, inl, inr,
}
use simple_virtual_language.Base.Text.{Text}
use simple_virtual_language.Vm.Float.{FloatOps}
use simple_virtual_language.Compiler.Ast.{
  int_type_id, float_type_id, char_type_id, ConstantValue, int_value, float_value, bool_value,
  char_value, UnaryOperator, Expr, literal, unary, ternary, cast,
}
use simple_virtual_language.Compiler.Constants.{
  Folded, folded, refused, ◌>>=◌, get_bool, type_of_value, convert_constant_value_to_type,
  fold_unary,
}
use simple_virtual_language.Compiler.Folder.{
  Folding, extract_constant_value, to_constant, to_tree, convert_literal_to_type, fold_expr,
  fold_expr_unary, fold_expr_cast,
}
use simple_virtual_language.Compiler.Meaning.{unary_value, conversion}
use simple_virtual_language.Compiler.Agreement.{fold_unary_lem, conversion_lem}
use simple_virtual_language.Compiler.Evaluation.{evaluate, keeps_left, choose}
use simple_virtual_language.Compiler.Gives.{Gives, Gives-any, Gives-mono}

abbrev pub is_literal : Expr → Bool
is_literal (literal v) = true
is_literal other = false

module _ (fl : FloatOps) (variables : Text → Folded ConstantValue) where
  -- A constant with the value of the expression, or another tree with its value.
  pub data Sound (e : Expr) : Folding → Type 0 where
    value_of :
        (v : ConstantValue)
        → (keeps_left fl e ≡ true → folded v ≡ evaluate fl variables e)
        → Sound e (to_constant v)
    tree_of :
        (e' : Expr)
        → is_literal e' ≡ false
        → (keeps_left fl e ≡ true → evaluate fl variables e' ≡ evaluate fl variables e)
        → Sound e (to_tree e')

  pub unary-Sound :
      (op : UnaryOperator) (e : Expr) (f : Folding)
      → Sound e f
      → Gives (Sound (unary op e)) (fold_expr_unary op f)
  unfolding evaluate keeps_left
  unary-Sound op e f (value_of v same) =
      Gives-any (Sound (unary op e)) (fold_unary op v) _ (λ result is. value_of result (λ k.
        sym (fold_unary_lem op v ∙ is)
        ∙ ap (λ (r : Folded ConstantValue). r >>= λ a. unary_value op a) (same k)))
  unary-Sound op e f (tree_of e' tree same) =
      tree_of (unary op e') refl
        (λ k. ap (λ (r : Folded ConstantValue). r >>= λ a. unary_value op a) (same k))

  same_type :
      (t : ℕ) (v : ConstantValue)
      → (type_of_value v == t) ≡ true
      → convert_constant_value_to_type fl t v ≡ folded v
  unfolding convert_constant_value_to_type type_of_value
  same_type t (int_value z) h =
      let is : int_type_id ≡ t = ground (arith, h) in
      subst (λ (n : ℕ). convert_constant_value_to_type fl n (int_value z) ≡ folded (int_value z)) is
        refl
  same_type t (float_value raw) h =
      let is : float_type_id ≡ t = ground (arith, h) in
      subst
        (λ (n : ℕ).
          convert_constant_value_to_type fl n (float_value raw) ≡ folded (float_value raw))
        is refl
  same_type t (bool_value b) h = refl
  same_type t (char_value c) h =
      let is : char_type_id ≡ t = ground (arith, h) in
      subst (λ (n : ℕ). convert_constant_value_to_type fl n (char_value c) ≡ folded (char_value c))
        is refl

  abbrev ConvertedValue : ℕ → ConstantValue → Folding → Type 0
  ConvertedValue t v f =
      (c : ConstantValue) × (f ≡ to_constant c) × (convert_constant_value_to_type fl t v ≡ folded c)

  converted_result :
      (t : ℕ) (v : ConstantValue) (r : Folded ConstantValue)
      → convert_constant_value_to_type fl t v ≡ r
      → Gives (ConvertedValue t v) (do
        e ← (do converted ← r; folded (literal converted))
        folded (record { constant = true; expr = e }))
  converted_result t v (folded c) is = (c, refl, is)
  converted_result t v (refused x) is = tt

  cast_value :
      (t : ℕ) (v : ConstantValue) → Gives (ConvertedValue t v) (fold_expr_cast fl t (to_constant v))
  unfolding convert_literal_to_type
  cast_value t v = elim (Bool-cases (type_of_value v == t)) [
    | inl same ↦ rw same (v, refl, same_type t v same)
    | inr other ↦ rw other (converted_result t v (convert_constant_value_to_type fl t v) refl)
  ]

  abbrev then_convert : ℕ → Folded ConstantValue → Folded ConstantValue
  then_convert t r = r >>= λ v. conversion fl t v

  pub cast-Sound :
      (t : ℕ) (e : Expr) (f : Folding)
      → Sound e f
      → Gives (Sound (cast t e)) (fold_expr_cast fl t f)
  unfolding evaluate keeps_left
  cast-Sound t e f (value_of v same) =
      Gives-mono (ConvertedValue t v) (Sound (cast t e)) (fold_expr_cast fl t (to_constant v))
        (λ g (c, is, converts).
          subst (λ (x : Folding). Sound (cast t e) x) (sym is)
            (value_of c
              (λ k. sym (conversion_lem fl t v ∙ converts) ∙ ap (then_convert t) (same k))))
        (cast_value t v)
  cast-Sound t e f (tree_of e' tree same) =
      tree_of (cast t e') refl (λ k. ap (then_convert t) (same k))

  -- Another expression with the same value.
  pub retarget :
      (e e' : Expr) (f : Folding)
      → (keeps_left fl e' ≡ true
          → (keeps_left fl e ≡ true) × (evaluate fl variables e ≡ evaluate fl variables e'))
      → Sound e f
      → Sound e' f
  retarget e e' f as_e (value_of v same) = value_of v (λ k. let (k', is) = as_e k in same k' ∙ is)
  retarget e e' f as_e (tree_of x tree same) =
      tree_of x tree (λ k. let (k', is) = as_e k in same k' ∙ is)

  abbrev chosen : Expr → Expr → Folded ConstantValue → Folded ConstantValue
  chosen a b r = choose r (evaluate fl variables a) (evaluate fl variables b)

  pub ternary-Sound :
      (c a b : Expr) (f : Folding)
      → Sound c f
      → Gives (Sound a) (fold_expr fl a)
      → Gives (Sound b) (fold_expr fl b)
      → Gives (Sound (ternary c a b)) (
          if f.constant
          then (do
            v ← extract_constant_value f.expr
            x ← get_bool v
            (if x then fold_expr fl a else fold_expr fl b))
          else folded (to_tree (ternary f.expr a b)))
  unfolding evaluate keeps_left extract_constant_value
  ternary-Sound c a b f (value_of (bool_value true) same) sound_a sound_b =
      Gives-mono (Sound a) (Sound (ternary c a b)) (fold_expr fl a)
        (λ g s.
          retarget a (ternary c a b) g
            (λ k.
              let (kc, ks) = and-true (keeps_left fl c) (keeps_left fl a && keeps_left fl b) k in
              ((and-true (keeps_left fl a) (keeps_left fl b) ks).0, ap (chosen a b) (same kc)))
            s)
        sound_a
  ternary-Sound c a b f (value_of (bool_value false) same) sound_a sound_b =
      Gives-mono (Sound b) (Sound (ternary c a b)) (fold_expr fl b)
        (λ g s.
          retarget b (ternary c a b) g
            (λ k.
              let (kc, ks) = and-true (keeps_left fl c) (keeps_left fl a && keeps_left fl b) k in
              ((and-true (keeps_left fl a) (keeps_left fl b) ks).1, ap (chosen a b) (same kc)))
            s)
        sound_b
  ternary-Sound c a b f (value_of (int_value z) same) sound_a sound_b = tt
  ternary-Sound c a b f (value_of (float_value z) same) sound_a sound_b = tt
  ternary-Sound c a b f (value_of (char_value z) same) sound_a sound_b = tt
  ternary-Sound c a b f (tree_of c' tree same) sound_a sound_b =
      tree_of (ternary c' a b) refl (λ k. ap (chosen a b) (same (and-true (keeps_left fl c) _ k).0))
