-- ===== src/Compiler/Signatures.antt =====
-- src/compiler/semantic/SymbolTable.cpp: which declarations `declareFunction` accepts.
use simple_virtual_language.Base.{
  ℕ, suc, ◌≤◌, ◌<◌, ◌≡◌, refl, ap, ◌∙◌, Bool, true, false, not, ◌&&◌, ◌||◌, List, [], ◌∷◌, Option,
  none, some, arith, if◌then◌else◌, ◌==◌, leb, leb→le, length, and-true,
}
use simple_virtual_language.Base.Text.{Text, find_text}
use simple_virtual_language.Compiler.Functions.{
  ValueKind, FunctionSymbol, FunctionTable, Declaration, declared, already_declared,
  parameter_out_of_range, same_kind, identical_type_count, valid_signature, push_symbol,
  declare_function,
}

-- Equal lists of parameter types.
unfoldable pub same_kinds : List ValueKind → List ValueKind → Bool
same_kinds [] [] = true
same_kinds (p ∷ ps) (q ∷ qs) = same_kind p q && same_kinds ps qs
same_kinds ps qs = false

unfoldable pub has_signature : List ValueKind → List FunctionSymbol → Bool
has_signature ps [] = false
has_signature ps (f ∷ fs) = same_kinds ps f.parameter_types || has_signature ps fs

-- No function of the list has fewer parameters.
unfoldable pub none_shorter : List ValueKind → List FunctionSymbol → Bool
none_shorter ps [] = true
none_shorter ps (f ∷ fs) = leb (length ps) (length f.parameter_types) && none_shorter ps fs

-- What the count tells.
record Counted (ps qs : List ValueKind) : Type 0 where
  count : ℕ
  counts : identical_type_count ps qs ≡ some count
  bounded : count ≤ length ps
  exact : (count == length qs) ≡ same_kinds ps qs

one_more :
    (b same : Bool) (n m l : ℕ)
    → n ≤ l
    → l ≤ m
    → (n == m) ≡ same
    → ((if b then suc n else n) == suc m) ≡ (b && same)
one_more true same n m l small fits h = ground (arith, h)
one_more false same n m l small fits h = ground arith

at_most : (b : Bool) (n l : ℕ) → n ≤ l → (if b then suc n else n) ≤ suc l
at_most true n l h = omega arith
at_most false n l h = omega arith

count-Counted : (ps qs : List ValueKind) → length ps ≤ length qs → Counted ps qs
unfolding identical_type_count same_kinds
count-Counted [] [] h = record { count = 0; counts = refl; bounded = omega arith; exact = refl }
count-Counted [] (q ∷ qs) h = record {
  count = 0;
  counts = refl;
  bounded = omega arith;
  exact = ground arith;
}
count-Counted (p ∷ ps) [] h = absurd (omega arith)
count-Counted (p ∷ ps) (q ∷ qs) h =
    let c = count-Counted ps qs (omega arith) in
    record {
      count = if same_kind p q then suc c.count else c.count;
      counts = rw (c.counts, identical_type_count) refl;
      bounded = at_most (same_kind p q) c.count (length ps) c.bounded;
      exact =
          one_more (same_kind p q) (same_kinds ps qs) c.count (length qs) (length ps) c.bounded
            (omega arith) c.exact;
    }

valid_here :
    (same has : Bool) (rest : Option Bool)
    → rest ≡ some (not has)
    → (if same then some false else rest) ≡ some (not (same || has))
valid_here true has rest h = refl
valid_here false has rest h = h

valid_signature-exact :
    (ps : List ValueKind) (fs : List FunctionSymbol)
    → none_shorter ps fs ≡ true
    → valid_signature ps fs ≡ some (not (has_signature ps fs))
unfolding valid_signature has_signature none_shorter
valid_signature-exact ps [] h = refl
valid_signature-exact ps (f ∷ fs) h =
    let (long, others) =
      and-true (leb (length ps) (length f.parameter_types)) (none_shorter ps fs) h in
    let c =
      count-Counted ps f.parameter_types (leb→le (length ps) (length f.parameter_types) long) in
    rw (c.counts, valid_signature)
      (ap (λ (b : Bool). if b then some false else valid_signature ps fs) c.exact
        ∙ valid_here (same_kinds ps f.parameter_types) (has_signature ps fs) (valid_signature ps fs)
            (valid_signature-exact ps fs others))

-- Where the identifier is declared and none of its functions has fewer parameters than the new one, the
-- declaration is refused if one of them has the same parameter types, and is added behind them otherwise.
pub declare_function-exact :
    (identifier : Text) (symbol : FunctionSymbol) (table : FunctionTable) (fs : List FunctionSymbol)
    → find_text identifier table ≡ some fs
    → none_shorter symbol.parameter_types fs ≡ true
    → declare_function identifier symbol table ≡ (
        if has_signature symbol.parameter_types fs
        then already_declared
        else declared (push_symbol identifier symbol table))
unfolding declare_function
declare_function-exact identifier symbol table fs found long =
    rw (found, declare_function, valid_signature-exact symbol.parameter_types fs long)
      (by_flag (has_signature symbol.parameter_types fs))
  where
    by_flag :
        (b : Bool)
        → elim (some (not b)) as (λ x. Declaration) [
          | none ↦ parameter_out_of_range
          | some false ↦ already_declared
          | some true ↦ declared (push_symbol identifier symbol table)
        ]
          ≡ (if b then already_declared else declared (push_symbol identifier symbol table))
    by_flag true = refl
    by_flag false = refl

too_many : (ps qs : List ValueKind) → length qs < length ps → identical_type_count ps qs ≡ none
unfolding identical_type_count
too_many [] qs h = absurd (omega arith)
too_many (p ∷ ps) [] h = refl
too_many (p ∷ ps) (q ∷ qs) h = rw (too_many ps qs (omega arith), identical_type_count) refl

-- Where the first function with the identifier has fewer parameters than the new one, the declaration ends
-- with an index out of range.
pub declare_function-out_of_range :
    (identifier : Text) (symbol f : FunctionSymbol) (table : FunctionTable)
    (fs : List FunctionSymbol)
    → find_text identifier table ≡ some (f ∷ fs)
    → length f.parameter_types < length symbol.parameter_types
    → declare_function identifier symbol table ≡ parameter_out_of_range
unfolding declare_function valid_signature
declare_function-out_of_range identifier symbol f table fs found short =
    rw
      (
        found,
        declare_function,
        too_many symbol.parameter_types f.parameter_types short,
        valid_signature,
      )
      refl
