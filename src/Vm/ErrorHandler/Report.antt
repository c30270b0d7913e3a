-- ===== src/Vm/ErrorHandler/Report.antt =====
-- src/vm/RuntimeErrorHandler.cpp: `raiseRuntimeError`, the lines that it reports for an error.
use simple_virtual_language.Base.{
  ℕ, ◌+◌, ◌-◌, ◌^◌, Bool, true, false, List, [], ◌∷◌, Option, none, some,
}
use simple_virtual_language.Base.Text.{Text}
use simple_virtual_language.Vm.State.{
  RuntimeErrorType, internal, language_context, internal_context, Vm, Outcome, ok, thrown,
  undefined_behaviour, u32,
}
use simple_virtual_language.Vm.CallStack.{get_stack_trace, is_call_stack_empty}
use simple_virtual_language.Vm.ErrorHandler.{
  FunctionMetadata, LineTableMetadata, RuntimeErrorHandler, find_source, get_line_table_metadata,
  get_function_metadata,
}

-- `outputStackTraceLine`; without a function it is `<global>`.
pub record TraceLine : Type 0 where
  pub function_name : Option Text
  pub path : Text
  pub line : ℕ
  pub column : ℕ

-- How the output ends: with all its lines, without the trace, with the `std::out_of_range` of a source that
-- is not in the map, or with undefined behaviour, where a null
-- pointer is read.
pub data Ending : Type 0 where
  complete trace_unavailable unknown_source undefined : Ending

abbrev pub Trace : Type 0
Trace = List TraceLine × Ending

-- Nothing but the message and the dump of the state for internal errors; nothing where no line has the
-- address; otherwise the message with its place, and the trace.
pub data Report : Type 0 where
  internal_report silent : Report
  reported : Text → ℕ → ℕ → Trace → Report
  no_path : Report

abbrev pub then_line : RuntimeErrorHandler → Option Text → ℕ → ℕ → ℕ → Trace → Trace
then_line h name id line column rest = elim (find_source id h.source_metadata) [
  | none ↦ ([], unknown_source)
  | some path ↦
      (record { function_name = name; path = path; line = line; column = column } ∷ rest.0, rest.1)
]

-- `address - 1`.
abbrev pub in_front : ℕ → ℕ
in_front address = u32 (address + 2 ^ 32 - 1)

-- A line of the loop over the return addresses.
unfoldable pub caller_line : RuntimeErrorHandler → ℕ → Trace → Trace
unfolding find_source get_line_table_metadata get_function_metadata
caller_line h address rest = elim (get_line_table_metadata (in_front address) h) [
  | none ↦ ([], undefined)
  | some l ↦ elim (get_function_metadata (in_front address) h) [
    | some f ↦ then_line h (some f.function_name) f.source_id l.line l.column rest
    | none ↦ then_line h none l.source_id l.line l.column rest
  ]
]

-- `errorInsideScopeFunction`.
abbrev pub is_global : RuntimeErrorHandler → ℕ → Bool
is_global h address = elim (get_function_metadata (in_front address) h) [
  | none ↦ true
  | some f ↦ false
]

abbrev pub global_line : RuntimeErrorHandler → ℕ → Trace
global_line h address = elim (get_line_table_metadata (in_front address) h) [
  | none ↦ ([], undefined)
  | some l ↦ then_line h none l.source_id l.line l.column ([], complete)
]

-- The return addresses but the last, then the last, if none of them was in global code. A trace is not
-- empty where the call stack is not.
unfoldable pub callers : RuntimeErrorHandler → Bool → List ℕ → Trace
unfolding caller_line
callers h global [] = ([], undefined)
callers h global (address ∷ rest) = elim rest [
  | [] ↦ elim global [ Bool.true ↦ ([], complete) | Bool.false ↦ global_line h address ]
  | other ∷ others ↦
      caller_line h address
        (callers h (elim global [ Bool.true ↦ true | Bool.false ↦ is_global h address ]) rest)
]

-- The trace below the line of the error, in the function `f`.
abbrev pub function_trace :
    RuntimeErrorHandler → FunctionMetadata → LineTableMetadata → Outcome (List ℕ) → Trace
function_trace h f l (ok addresses s) =
    then_line h (some f.function_name) f.source_id l.line l.column (callers h false addresses)
function_trace h f l (thrown e s) = ([], trace_unavailable)
function_trace h f l undefined_behaviour = ([], undefined)

unfoldable pub trace_of : RuntimeErrorHandler → LineTableMetadata → ℕ → Vm → Trace
unfolding find_source get_function_metadata get_stack_trace callers is_call_stack_empty
trace_of h l fp s = elim (is_call_stack_empty s) [
  | Bool.true ↦ then_line h none l.source_id l.line l.column ([], complete)
  | Bool.false ↦ elim (get_function_metadata (in_front s.pc) h) [
    | none ↦ then_line h none l.source_id l.line l.column ([], complete)
    | some f ↦ function_trace h f l (get_stack_trace fp s)
  ]
]

-- The report of an error of the program.
abbrev pub language_report : RuntimeErrorHandler → ℕ → Vm → Report
language_report h fp s = elim (get_line_table_metadata (in_front s.pc) h) [
  | none ↦ silent
  | some l ↦ elim (find_source l.source_id h.source_metadata) [
    | none ↦ no_path
    | some path ↦ reported path l.line l.column (trace_of h l fp s)
  ]
]

abbrev pub is_internal : RuntimeErrorType → Bool
is_internal internal = true
is_internal other = false

unfoldable pub raise_runtime_error : RuntimeErrorHandler → RuntimeErrorType → ℕ → Vm → Report
unfolding find_source get_line_table_metadata get_function_metadata trace_of
raise_runtime_error h type fp s = elim (is_internal type) [
  | Bool.true ↦ internal_report
  | Bool.false ↦ elim s.error_context [
    | internal_context ↦ internal_report
    | language_context ↦ language_report h fp s
  ]
]

-- `VM::handleRuntimeError`.
unfoldable pub handle_runtime_error : RuntimeErrorHandler → RuntimeErrorType → Vm → Report
unfolding raise_runtime_error
handle_runtime_error h type s = raise_runtime_error h type s.fp s
