-- ===== src/Compiler/SoundBinary.antt =====
-- src/compiler/optimiser/ConstantFolder.cpp: the value of a folded binary expression.
use simple_virtual_language.Base.{
  ℕ, ◌≡◌, refl, sym, ap, ◌∙◌, Bool, true, false, not, ◌||◌, if◌then◌else◌, if_true, if_false,
  and-true,
}
use simple_virtual_language.Base.Text.{Text}
use simple_virtual_language.Vm.Float.{FloatOps}
use simple_virtual_language.Compiler.Ast.{
  ConstantValue, int_value, float_value, bool_value, char_value, BinaryOperator, plus, minus,
  multiply, divide, integer_divide, modulo, bitwise_or, bitwise_xor, bitwise_and, left_shift,
  arithmetic_right_shift, logical_right_shift, equal_equal, not_equal, less_than,
  less_than_or_equal, greater_than, greater_than_or_equal, logical_or, logical_and, Expr, literal,
  binary,
}
use simple_virtual_language.Compiler.Constants.{Folded, folded, refused, ◌>>=◌, get_bool}
use simple_virtual_language.Compiler.Operators.{fold_constants}
use simple_virtual_language.Compiler.Folder.{
  Folding, extract_constant_value, to_constant, to_tree, decides, is_logical, fold_expr,
  left_decides, fold_logical, fold_operands,
}
use simple_virtual_language.Compiler.Evaluation.{
  as_bool, operator_value, evaluate, is_constant, keeps_left,
}
use simple_virtual_language.Compiler.Meaning.{binary_value}
use simple_virtual_language.Compiler.Agreement.{fold_constants-Agrees}
use simple_virtual_language.Compiler.Gives.{Gives, Gives-bind, Gives-any, Gives-if, Gives-folded}
use simple_virtual_language.Compiler.Sound.{Sound, value_of, tree_of}

-- The evaluation of `&&` and `||` by the constant that decides.
abbrev short_circuit :
    BinaryOperator → Folded ConstantValue → Folded ConstantValue → Folded ConstantValue
short_circuit op left right = do
  a ← left
  x ← get_bool a
  (if decides op x then folded (bool_value (decides op true)) else as_bool right)

abbrev both_first :
    FloatOps
    → ℕ
    → BinaryOperator
    → Folded ConstantValue
    → Folded ConstantValue
    → Folded ConstantValue
both_first fl t op x y = do a ← x; b ← y; binary_value fl t op a b

operator_value-both_first :
    (fl : FloatOps) (t : ℕ) (op : BinaryOperator) (x y : Folded ConstantValue)
    → is_logical op ≡ false
    → operator_value fl t op x y ≡ both_first fl t op x y
unfolding operator_value
operator_value-both_first fl t plus x y h = refl
operator_value-both_first fl t minus x y h = refl
operator_value-both_first fl t multiply x y h = refl
operator_value-both_first fl t divide x y h = refl
operator_value-both_first fl t integer_divide x y h = refl
operator_value-both_first fl t modulo x y h = refl
operator_value-both_first fl t bitwise_or x y h = refl
operator_value-both_first fl t bitwise_xor x y h = refl
operator_value-both_first fl t bitwise_and x y h = refl
operator_value-both_first fl t left_shift x y h = refl
operator_value-both_first fl t arithmetic_right_shift x y h = refl
operator_value-both_first fl t logical_right_shift x y h = refl
operator_value-both_first fl t equal_equal x y h = refl
operator_value-both_first fl t not_equal x y h = refl
operator_value-both_first fl t less_than x y h = refl
operator_value-both_first fl t less_than_or_equal x y h = refl
operator_value-both_first fl t greater_than x y h = refl
operator_value-both_first fl t greater_than_or_equal x y h = refl
operator_value-both_first fl t logical_and x y h = cc
operator_value-both_first fl t logical_or x y h = cc

operator_value-short_circuit :
    (fl : FloatOps) (t : ℕ) (op : BinaryOperator) (x y : Folded ConstantValue)
    → is_logical op ≡ true
    → operator_value fl t op x y ≡ short_circuit op x y
unfolding operator_value
operator_value-short_circuit fl t logical_and (refused e) y h = refl
operator_value-short_circuit fl t logical_and (folded (bool_value true)) y h = refl
operator_value-short_circuit fl t logical_and (folded (bool_value false)) y h = refl
operator_value-short_circuit fl t logical_and (folded (int_value z)) y h = refl
operator_value-short_circuit fl t logical_and (folded (float_value z)) y h = refl
operator_value-short_circuit fl t logical_and (folded (char_value z)) y h = refl
operator_value-short_circuit fl t logical_or (refused e) y h = refl
operator_value-short_circuit fl t logical_or (folded (bool_value true)) y h = refl
operator_value-short_circuit fl t logical_or (folded (bool_value false)) y h = refl
operator_value-short_circuit fl t logical_or (folded (int_value z)) y h = refl
operator_value-short_circuit fl t logical_or (folded (float_value z)) y h = refl
operator_value-short_circuit fl t logical_or (folded (char_value z)) y h = refl
operator_value-short_circuit fl t plus x y h = cc
operator_value-short_circuit fl t minus x y h = cc
operator_value-short_circuit fl t multiply x y h = cc
operator_value-short_circuit fl t divide x y h = cc
operator_value-short_circuit fl t integer_divide x y h = cc
operator_value-short_circuit fl t modulo x y h = cc
operator_value-short_circuit fl t bitwise_or x y h = cc
operator_value-short_circuit fl t bitwise_xor x y h = cc
operator_value-short_circuit fl t bitwise_and x y h = cc
operator_value-short_circuit fl t left_shift x y h = cc
operator_value-short_circuit fl t arithmetic_right_shift x y h = cc
operator_value-short_circuit fl t logical_right_shift x y h = cc
operator_value-short_circuit fl t equal_equal x y h = cc
operator_value-short_circuit fl t not_equal x y h = cc
operator_value-short_circuit fl t less_than x y h = cc
operator_value-short_circuit fl t less_than_or_equal x y h = cc
operator_value-short_circuit fl t greater_than x y h = cc
operator_value-short_circuit fl t greater_than_or_equal x y h = cc

module _ (fl : FloatOps) (variables : Text → Folded ConstantValue) (t : ℕ) (op : BinaryOperator)
    (left right : Expr) where
  abbrev val : Expr → Folded ConstantValue
  val e = evaluate fl variables e

  abbrev whole : Expr
  whole = binary t op left right

  abbrev apply_both : Folded ConstantValue → Folded ConstantValue → Folded ConstantValue
  apply_both x y = both_first fl t op x y

  evaluate_both :
      is_logical op ≡ false → (l r : Expr) → val (binary t op l r) ≡ apply_both (val l) (val r)
  unfolding evaluate
  evaluate_both h l r = operator_value-both_first fl t op (val l) (val r) h

  evaluate_logical :
      is_logical op ≡ true → (l r : Expr) → val (binary t op l r) ≡ short_circuit op (val l) (val r)
  unfolding evaluate
  evaluate_logical h l r = operator_value-short_circuit fl t op (val l) (val r) h

  kept :
      keeps_left fl whole ≡ true
      → (keeps_left fl left ≡ true)
        × (keeps_left fl right ≡ true)
        × ((not (is_logical op)
              || (is_constant fl (fold_expr fl left) || not (is_constant fl (fold_expr fl right))))
            ≡ true)
  unfolding keeps_left
  kept k =
      let (kl, rest) = and-true (keeps_left fl left) _ k in
      let (kr, kc) = and-true (keeps_left fl right) _ rest in (kl, kr, kc)

  -- Both operands replaced by others with the same values.
  same_both :
      is_logical op ≡ false
      → (x y : Folded ConstantValue) → (keeps_left fl left ≡ true → x ≡ val left)
      → (keeps_left fl right ≡ true → y ≡ val right)
      → keeps_left fl whole ≡ true
      → apply_both x y ≡ val whole
  same_both h x y same_l same_r k =
      let (kl, kr, kc) = kept k in
      ap (λ (r : Folded ConstantValue). apply_both r y) (same_l kl)
      ∙ ap (λ (r : Folded ConstantValue). apply_both (val left) r) (same_r kr)
      ∙ sym (evaluate_both h left right)

  same_logical :
      is_logical op ≡ true
      → (x y : Folded ConstantValue) → (keeps_left fl left ≡ true → x ≡ val left)
      → (keeps_left fl right ≡ true → y ≡ val right)
      → keeps_left fl whole ≡ true
      → short_circuit op x y ≡ val whole
  same_logical h x y same_l same_r k =
      let (kl, kr, kc) = kept k in
      ap (λ (r : Folded ConstantValue). short_circuit op r y) (same_l kl)
      ∙ ap (λ (r : Folded ConstantValue). short_circuit op (val left) r) (same_r kr)
      ∙ sym (evaluate_logical h left right)

  operands-Sound :
      is_logical op ≡ false
      → (v : ConstantValue) → (keeps_left fl left ≡ true → folded v ≡ val left)
      → (r : Folding) → Sound fl variables right r
      → Gives (Sound fl variables whole) (fold_operands fl t op (literal v) r)
  unfolding extract_constant_value evaluate
  operands-Sound h v same r (value_of w same_w) =
      Gives-any (Sound fl variables whole) (fold_constants fl t op v w) _ (λ result is.
        value_of result (λ k.
          sym (
            Gives-folded (λ x. binary_value fl t op v w ≡ folded x) (fold_constants fl t op v w)
              result (fold_constants-Agrees fl t op v w) is)
          ∙ same_both h (folded v) (folded w) same same_w k))
  operands-Sound h v same r (tree_of r' tree same_r) =
      tree_of (binary t op (literal v) r') refl
        (λ k. evaluate_both h (literal v) r' ∙ same_both h (folded v) (val r') same same_r k)

  pub arithmetic-Sound :
      is_logical op ≡ false
      → (l : Folding) → Sound fl variables left l
      → Gives (Sound fl variables right) (fold_expr fl right)
      → Gives (Sound fl variables whole) (
          if l.constant
          then (do r ← fold_expr fl right; fold_operands fl t op l.expr r)
          else folded (to_tree (binary t op l.expr right)))
  arithmetic-Sound h l (value_of v same) sound_r =
      Gives-bind (Sound fl variables right) (Sound fl variables whole) (fold_expr fl right) _
        sound_r (λ r is s. operands-Sound h v same r s)
  arithmetic-Sound h l (tree_of l' tree same) sound_r =
      tree_of (binary t op l' right) refl
        (λ k. evaluate_both h l' right ∙ same_both h (val l') (val right) same (λ kr. refl) k)

  undecided :
      (b : Bool) (y : Folded ConstantValue)
      → decides op b ≡ false
      → short_circuit op (folded (bool_value b)) y
        ≡ (do w ← y; z ← get_bool w; folded (bool_value z))
  undecided b y h = if_false (decides op b) _ _ h

  -- The right operand, behind a left one that is a constant and does not decide.
  logical_behind_constant :
      is_logical op ≡ true
      → (b : Bool) → decides op b ≡ false
      → (keeps_left fl left ≡ true → folded (bool_value b) ≡ val left)
      → (r : Folding) → Sound fl variables right r
      → Gives (Sound fl variables whole) (fold_logical t op (literal (bool_value b)) r)
  unfolding extract_constant_value evaluate
  logical_behind_constant h b goes_on same r (value_of (bool_value y) same_w) =
      value_of (bool_value y) (λ k.
        sym (undecided b (folded (bool_value y)) goes_on)
        ∙ same_logical h (folded (bool_value b)) (folded (bool_value y)) same same_w k)
  logical_behind_constant h b goes_on same r (value_of (int_value z) same_w) = tt
  logical_behind_constant h b goes_on same r (value_of (float_value z) same_w) = tt
  logical_behind_constant h b goes_on same r (value_of (char_value z) same_w) = tt
  logical_behind_constant h b goes_on same r (tree_of r' tree same_r) =
      tree_of (binary t op (literal (bool_value b)) r') refl (λ k.
        evaluate_logical h (literal (bool_value b)) r'
        ∙ same_logical h (folded (bool_value b)) (val r') same same_r k)

  clash :
      {A : Type 0} (a b c : Bool)
      → a ≡ true
      → b ≡ false
      → c ≡ true
      → (not a || (b || not c)) ≡ true
      → A
  clash a b c ha hb hc h = absurd cc

  -- The right operand, behind a left one that is no constant.
  logical_behind_tree :
      is_logical op ≡ true
      → is_constant fl (fold_expr fl left) ≡ false
      → (l' : Expr) → (keeps_left fl left ≡ true → val l' ≡ val left)
      → (r : Folding) → fold_expr fl right ≡ folded r
      → Sound fl variables right r
      → Gives (Sound fl variables whole) (fold_logical t op l' r)
  unfolding extract_constant_value
  logical_behind_tree h not_left l' same r is (value_of w same_w) =
      Gives-any (Sound fl variables whole) (get_bool w) _ (λ y _. value_of (bool_value y) (λ k.
        clash (is_logical op) (is_constant fl (fold_expr fl left))
          (is_constant fl (fold_expr fl right)) h not_left
          (ap (λ (x : Folded Folding). is_constant fl x) is) (kept k).2))
  logical_behind_tree h not_left l' same r is (tree_of r' tree same_r) =
      tree_of (binary t op l' r') refl
        (λ k. evaluate_logical h l' r' ∙ same_logical h (val l') (val r') same same_r k)

  pub logical-Sound :
      is_logical op ≡ true
      → (l : Folding) → fold_expr fl left ≡ folded l
      → Sound fl variables left l
      → Gives (Sound fl variables right) (fold_expr fl right)
      → Gives (Sound fl variables whole) (do
        decided ← left_decides op l
        (if decided
            then folded (to_constant (bool_value (decides op true)))
            else do r ← fold_expr fl right; fold_logical t op l.expr r))
  unfolding extract_constant_value
  logical-Sound h l is (value_of (bool_value b) same) sound_r =
      Gives-if (Sound fl variables whole) (decides op b) _ _
        (λ decided. value_of (bool_value (decides op true)) (λ k.
          sym (if_true (decides op b) _ _ decided)
          ∙ same_logical h (folded (bool_value b)) (val right) same (λ kr. refl) k))
        (λ goes_on.
          Gives-bind (Sound fl variables right) (Sound fl variables whole) (fold_expr fl right) _
            sound_r (λ r _ s. logical_behind_constant h b goes_on same r s))
  logical-Sound h l is (value_of (int_value z) same) sound_r = tt
  logical-Sound h l is (value_of (float_value z) same) sound_r = tt
  logical-Sound h l is (value_of (char_value z) same) sound_r = tt
  logical-Sound h l is (tree_of l' tree same) sound_r =
      Gives-bind (Sound fl variables right) (Sound fl variables whole) (fold_expr fl right) _
        sound_r
        (λ r is_r s.
          logical_behind_tree h (ap (λ (x : Folded Folding). is_constant fl x) is) l' same r is_r s)
