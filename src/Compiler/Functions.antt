-- ===== src/Compiler/Functions.antt =====
-- src/compiler/semantic/SymbolTable.cpp: the functions that a program declares, by their identifiers.
use simple_virtual_language.Base.{
  ℕ, suc, Bool, true, false, ◌&&◌, List, [], ◌∷◌, ◌++◌, Option, none, some, if◌then◌else◌, ◌==◌,
  length,
}
use simple_virtual_language.Base.Text.{Text, same_text, find_text}

-- `Type`: an identifier and a number of array dimensions.
pub record ValueKind : Type 0 where
  pub type_id : ℕ
  pub dimension : ℕ

pub record FunctionSymbol : Type 0 where
  pub label : Text
  pub return_type : ValueKind
  pub parameter_types : List ValueKind
  pub builtin_id : ℕ

-- `std::map<std::string, std::vector<FunctionSymbol>>`.
abbrev pub FunctionTable : Type 0
FunctionTable = List (Text × List FunctionSymbol)

-- What `declareFunction` does: it declares, returns a null pointer, or ends with the `std::out_of_range`
-- of `at`.
pub data Declaration : Type 0 where
  declared : FunctionTable → Declaration
  already_declared : Declaration
  parameter_out_of_range : Declaration

unfoldable pub same_kind : ValueKind → ValueKind → Bool
same_kind p q = (p.type_id == q.type_id) && (p.dimension == q.dimension)

-- The loop over the parameters of the new function, with `at` on those of a function that is there.
unfoldable pub identical_type_count : List ValueKind → List ValueKind → Option ℕ
unfolding same_kind
identical_type_count [] qs = some 0
identical_type_count (p ∷ ps) [] = none
identical_type_count (p ∷ ps) (q ∷ qs) = elim (identical_type_count ps qs) [
  | none ↦ none
  | some n ↦ some (if same_kind p q then suc n else n)
]

-- `validSignature` after the loop over the functions with the same identifier.
unfoldable pub valid_signature : List ValueKind → List FunctionSymbol → Option Bool
unfolding identical_type_count
valid_signature ps [] = some true
valid_signature ps (f ∷ fs) =
    let rest = valid_signature ps fs in
    elim (identical_type_count ps f.parameter_types) [
      | none ↦ none
      | some n ↦ if n == length f.parameter_types then some false else rest
    ]

-- `functions.at(identifier).push_back(symbol)`.
unfoldable pub push_symbol : Text → FunctionSymbol → FunctionTable → FunctionTable
unfolding same_text
push_symbol identifier symbol [] = []
push_symbol identifier symbol ((k, fs) ∷ table) =
    if same_text k identifier
    then (k, fs ++ symbol ∷ []) ∷ table
    else (k, fs) ∷ push_symbol identifier symbol table

unfoldable pub declare_function : Text → FunctionSymbol → FunctionTable → Declaration
unfolding find_text valid_signature push_symbol
declare_function identifier symbol table = elim (find_text identifier table) [
  | none ↦ declared ((identifier, symbol ∷ []) ∷ table)
  | some fs ↦ elim (valid_signature symbol.parameter_types fs) [
    | none ↦ parameter_out_of_range
    | some false ↦ already_declared
    | some true ↦ declared (push_symbol identifier symbol table)
  ]
]
