-- ===== src/Vm/ErrorHandler.antt =====
-- src/vm/RuntimeErrorHandler.h and RuntimeErrorHandler.cpp: the tables of the handler, the lookups in them,
-- and what is reported of an error. A line of the report is its parts; their text is not modelled.
pub mod Lookup
pub mod Report
pub mod Expected
pub mod Complete
use simple_virtual_language.Base.{
  ℕ, zero, suc, ◌+◌, ◌-◌, ◌/◌, ◌^◌, Bool, true, false, ◌&&◌, List, [], ◌∷◌, ◌++◌, Option, none,
  some, if◌then◌else◌, leb, ltb, ◌==◌, length, get_elem?,
}
use simple_virtual_language.Base.Text.{Text, codes}
use simple_virtual_language.Vm.State.{
  RuntimeErrorType, internal, ErrorContext, language_context, internal_context, Vm, Outcome, ok,
  thrown, undefined_behaviour, u32,
}
use simple_virtual_language.Vm.CallStack.{get_stack_trace}

pub record FunctionMetadata : Type 0 where
  pub start_address : ℕ
  pub end_address : ℕ
  pub source_id : ℕ
  pub function_name : Text

pub record LineTableMetadata : Type 0 where
  pub start_address : ℕ
  pub end_address : ℕ
  pub source_id : ℕ
  pub line : ℕ
  pub column : ℕ

pub record RuntimeErrorHandler : Type 0 where
  pub source_metadata : List (ℕ × Text)
  pub function_metadata : List FunctionMetadata
  pub line_table_metadata : List LineTableMetadata

-- `std::map::find`.
unfoldable pub find_source : ℕ → List (ℕ × Text) → Option Text
find_source id [] = none
find_source id ((key, path) ∷ rest) = if key == id then some path else find_source id rest

-- `std::map::insert` leaves an entry that is there.
unfoldable pub insert_source : ℕ → Text → RuntimeErrorHandler → RuntimeErrorHandler
unfolding find_source
insert_source id path h = elim (find_source id h.source_metadata) [
  | some there ↦ h
  | none ↦ record h { source_metadata = h.source_metadata ++ (id, path) ∷ [] }
]

unfoldable pub insert_function_metadata :
    FunctionMetadata → RuntimeErrorHandler → RuntimeErrorHandler
insert_function_metadata e h = record h { function_metadata = h.function_metadata ++ e ∷ [] }

unfoldable pub insert_line_table_metadata :
    LineTableMetadata → RuntimeErrorHandler → RuntimeErrorHandler
insert_line_table_metadata e h = record h { line_table_metadata = h.line_table_metadata ++ e ∷ [] }

-- The halving of `std::upper_bound`, on `length` positions from `first` on; `beyond` tells where the value
-- is less than the element. There are more rounds than positions.
unfoldable pub upper_bound : ℕ → (ℕ → Bool) → ℕ → ℕ → ℕ
upper_bound zero beyond first length = first
upper_bound (suc rounds) beyond first length =
    let half = length / 2 in
    elim (length == 0) [
      | Bool.true ↦ first
      | Bool.false ↦ elim (beyond (first + half)) [
        | Bool.true ↦ upper_bound rounds beyond first half
        | Bool.false ↦ upper_bound rounds beyond (first + half + 1) (length - half - 1)
      ]
    ]

abbrev pub starts_behind : {E : Type 0} → (E → ℕ) → ℕ → List E → ℕ → Bool
starts_behind start_of address table i = elim (get_elem? table i) [
  | none ↦ true
  | some e ↦ ltb address (start_of e)
]

module _ {E : Type 0} (start_of end_of : E → ℕ) where
  -- The entry in front of the bound, where its range has the address.
  abbrev pub in_front_of : ℕ → List E → ℕ → Option E
  in_front_of address table zero = none
  in_front_of address table (suc i) = elim (get_elem? table i) [
    | none ↦ none
    | some e ↦ if leb (start_of e) address && ltb address (end_of e) then some e else none
  ]

  unfoldable pub covering : ℕ → List E → Option E
  unfolding upper_bound
  covering address table =
      in_front_of address table
        (upper_bound (suc (length table)) (starts_behind start_of address table) 0 (length table))

unfoldable pub get_line_table_metadata : ℕ → RuntimeErrorHandler → Option LineTableMetadata
unfolding covering
get_line_table_metadata address h =
    covering (λ (e : LineTableMetadata). e.start_address) (λ (e : LineTableMetadata). e.end_address)
      address h.line_table_metadata

unfoldable pub get_function_metadata : ℕ → RuntimeErrorHandler → Option FunctionMetadata
unfolding covering
get_function_metadata address h =
    covering (λ (e : FunctionMetadata). e.start_address) (λ (e : FunctionMetadata). e.end_address)
      address h.function_metadata
