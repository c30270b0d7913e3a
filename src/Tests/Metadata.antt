-- ===== src/Tests/Metadata.antt =====
-- The metadata of a small file and the handler that it fills.
use simple_virtual_language.Base.{
  ℕ, ◌^◌, ◌<◌, ◌≡◌, ◌≢◌, ◌↔◌, refl, List, [], ◌∷◌, ◌++◌, none, some, length, arith,
}
use simple_virtual_language.Base.Text.{codes}
use simple_virtual_language.Isa.{i32}
use simple_virtual_language.Vm.State.{
  Vm, value, division_by_zero, language_context, Outcome, ok, thrown, undefined_behaviour,
}
use simple_virtual_language.Vm.CallStack.{push, get_stack_trace, is_call_stack_empty}
use simple_virtual_language.Vm.Start.{initial}
use simple_virtual_language.Vm.ErrorHandler
use simple_virtual_language.Vm.ErrorHandler.{
  RuntimeErrorHandler, get_line_table_metadata, get_function_metadata, insert_source,
  insert_function_metadata, insert_line_table_metadata, find_source,
}
use simple_virtual_language.Vm.ErrorHandler.Lookup.{Covers, lookups-Covers}
use simple_virtual_language.Vm.ErrorHandler.Report.{
  TraceLine, complete, reported, handle_runtime_error,
}
use simple_virtual_language.Vm.ErrorHandler.Expected.{expected_lines, expected_place}
use simple_virtual_language.Vm.ErrorHandler.Complete.{
  ActiveCalls, calls, handle_runtime_error-complete,
}
use simple_virtual_language.Vm.Metadata.{
  walked, undefined, exhausted, read_metadata, read_source, read_function, read_line, empty_handler,
}
use simple_virtual_language.Vm.Metadata.Walks.{read_metadata_ends}
use simple_virtual_language.Assembler.Defs.{SourceMetadata, FunctionMetadata, LineTableMetadata}
use simple_virtual_language.Assembler.Numbers.{Result, done, failed}
use simple_virtual_language.Assembler.Layout.{unquoted}
use simple_virtual_language.Assembler.Bytecode.{
  Emitted, convert_source_metadata, convert_function_metadata, convert_line_table_metadata,
}
use simple_virtual_language.Assembler.Entries.{line_entry, function_entry}
use simple_virtual_language.Assembler.Written.{read_entries-written}
use simple_virtual_language.Tests.{state_after}

-- A header, `halt`, a source, a function and two lines.
abbrev source_bytes : List ℕ
source_bytes = 7 ∷ 0 ∷ 3 ∷ 0 ∷ 0 ∷ 0 ∷ codes "a.s"

abbrev function_bytes : List ℕ
function_bytes = 10 ∷ 0 ∷ 0 ∷ 0 ∷ 30 ∷ 0 ∷ 0 ∷ 0 ∷ 7 ∷ 0 ∷ 1 ∷ 0 ∷ 0 ∷ 0 ∷ codes "f"

abbrev line_bytes : ℕ → ℕ → ℕ → List ℕ
line_bytes start end line =
    start ∷ 0 ∷ 0 ∷ 0 ∷ end ∷ 0 ∷ 0 ∷ 0 ∷ 7 ∷ 0 ∷ line ∷ 0 ∷ 0 ∷ 0 ∷ 5 ∷ 0 ∷ []

abbrev with_tables : List ℕ
with_tables =
    20 ∷ 0 ∷ 0 ∷ 0 ∷ 20 ∷ 0 ∷ 0 ∷ 0 ∷ 29 ∷ 0 ∷ 0 ∷ 0 ∷ 44 ∷ 0 ∷ 0 ∷ 0 ∷ 76 ∷ 0 ∷ 0 ∷ 0 ∷ 1
      ∷ source_bytes
    ++ function_bytes
    ++ line_bytes 0 10 1
    ++ line_bytes 10 30 2

abbrev a_line : ℕ → ℕ → ℕ → ErrorHandler.LineTableMetadata
a_line start end line = record {
  start_address = start;
  end_address = end;
  source_id = 7;
  line = line;
  column = 5;
}

abbrev a_function : ErrorHandler.FunctionMetadata
a_function = record {
  start_address = 10;
  end_address = 30;
  source_id = 7;
  function_name = codes "f";
}

abbrev tables : RuntimeErrorHandler
tables = record {
  source_metadata = (7, codes "a.s") ∷ [];
  function_metadata = a_function ∷ [];
  line_table_metadata = a_line 0 10 1 ∷ a_line 10 30 2 ∷ [];
}

tables_read : read_metadata with_tables ≡ walked tables
unfolding read_metadata
tables_read = refl

cut_off :
    read_metadata (
      20 ∷ 0 ∷ 0 ∷ 0 ∷ 20 ∷ 0 ∷ 0 ∷ 0 ∷ 29 ∷ 0 ∷ 0 ∷ 0 ∷ 29 ∷ 0 ∷ 0 ∷ 0 ∷ 29 ∷ 0 ∷ 0 ∷ 0 ∷ 1 ∷ 7
      ∷ [])
    ≡ undefined
unfolding read_metadata
cut_off = refl

read_metadata_ends_example : read_metadata with_tables ≢ exhausted
read_metadata_ends_example = read_metadata_ends with_tables (omega arith)

lookups-Covers_example :
    (get_line_table_metadata 12 tables ≡ some (a_line 10 30 2)
      ↔ Covers
          (λ (e : ErrorHandler.LineTableMetadata). e.start_address)
          (λ (e : ErrorHandler.LineTableMetadata). e.end_address)
          12
          tables.line_table_metadata
          (a_line 10 30 2))
    × (get_function_metadata 12 tables ≡ some a_function
        ↔ Covers
            (λ (e : ErrorHandler.FunctionMetadata). e.start_address)
            (λ (e : ErrorHandler.FunctionMetadata). e.end_address)
            12
            tables.function_metadata
            a_function)
lookups-Covers_example =
    lookups-Covers 0 12 tables (a_line 10 30 2) a_function
      (omega arith, omega arith, (omega arith, omega arith, tt)) (omega arith, omega arith, tt)

-- One byte is written; then each kind of entry.
abbrev emitted : Emitted
emitted = record {
  bytes = 1 ∷ [];
  source_metadata_length = 0;
  function_metadata_length = 0;
  line_table_metadata_length = 0;
}

abbrev a_source : SourceMetadata
a_source = record { source_id = 7; path = 34 ∷ codes "a.s" ++ 34 ∷ [] }

abbrev named_function : FunctionMetadata
named_function = record {
  start_address = 10;
  end_address = 30;
  source_id = 7;
  name = 34 ∷ codes "f" ++ 34 ∷ [];
}

abbrev numbered_line : LineTableMetadata
numbered_line = record { start_address = 0; end_address = 10; source_id = 7; line = 1; column = 5 }

abbrev written : Result Emitted → Emitted
written (done e) = e
written (failed x) = emitted

path_unquoted : unquoted a_source.path ≡ done (codes "a.s")
unfolding unquoted
path_unquoted = refl

name_unquoted : unquoted named_function.name ≡ done (codes "f")
unfolding unquoted
name_unquoted = refl

source_converted :
    convert_source_metadata a_source emitted
    ≡ done (written (convert_source_metadata a_source emitted))
unfolding convert_source_metadata
source_converted = refl

function_converted :
    convert_function_metadata named_function emitted
    ≡ done (written (convert_function_metadata named_function emitted))
unfolding convert_function_metadata
function_converted = refl

source_short : length (written (convert_source_metadata a_source emitted)).bytes < 2 ^ 32
unfolding convert_source_metadata
source_short = omega arith

function_short : length (written (convert_function_metadata named_function emitted)).bytes < 2 ^ 32
unfolding convert_function_metadata
function_short = omega arith

line_short : length (convert_line_table_metadata numbered_line emitted).bytes < 2 ^ 32
unfolding convert_line_table_metadata
line_short = omega arith

read_entries-written_example :
    (read_source
        ((written (convert_source_metadata a_source emitted)).bytes ++ 9 ∷ [])
        1
        empty_handler
      ≡ walked (
        length (written (convert_source_metadata a_source emitted)).bytes,
        insert_source 7 (codes "a.s") empty_handler,
      ))
    × (read_function
          ((written (convert_function_metadata named_function emitted)).bytes ++ 9 ∷ [])
          1
          empty_handler
        ≡ walked (
          length (written (convert_function_metadata named_function emitted)).bytes,
          insert_function_metadata (function_entry named_function (codes "f")) empty_handler,
        ))
    × (read_line
          ((convert_line_table_metadata numbered_line emitted).bytes ++ 9 ∷ [])
          1
          empty_handler
        ≡ walked (
          length (convert_line_table_metadata numbered_line emitted).bytes,
          insert_line_table_metadata (line_entry numbered_line) empty_handler,
        ))
read_entries-written_example =
    read_entries-written emitted (9 ∷ []) empty_handler a_source named_function numbered_line
      (codes "a.s") (codes "f") (written (convert_source_metadata a_source emitted))
      (written (convert_function_metadata named_function emitted))
      (path_unquoted, omega arith, omega arith)
      (name_unquoted, (omega arith, omega arith, omega arith), omega arith)
      ((omega arith, omega arith, omega arith), omega arith, omega arith) source_converted
      function_converted source_short function_short line_short

-- A division by zero in a function that global code has called.
abbrev in_function : Vm
in_function = record (state_after (push 7 1 1 (value i32 5 ∷ []) initial)) {
  pc = 12;
  error_context = language_context;
}

abbrev trace_state : Outcome (List ℕ) → Vm
trace_state (ok addresses s) = s
trace_state (thrown e s) = s
trace_state undefined_behaviour = initial

traced :
    get_stack_trace in_function.fp in_function
    ≡ ok (7 ∷ []) (trace_state (get_stack_trace in_function.fp in_function))
unfolding initial push get_stack_trace
traced = refl

abbrev division_lines : List TraceLine
division_lines =
    record { function_name = some (codes "f"); path = codes "a.s"; line = 2; column = 5 }
    ∷ record { function_name = none; path = codes "a.s"; line = 1; column = 5 }
    ∷ []

division_place : expected_place tables 12 ≡ some (codes "a.s", 2, 5)
unfolding expected_place
division_place = refl

division_expected : expected_lines tables 12 (7 ∷ []) ≡ some division_lines
unfolding expected_lines
division_expected = refl

division_active : ActiveCalls in_function (7 ∷ [])
unfolding initial push is_call_stack_empty
division_active = calls (trace_state (get_stack_trace in_function.fp in_function)) refl traced

division_reported :
    handle_runtime_error tables division_by_zero in_function
    ≡ reported (codes "a.s") 2 5 (
      record { function_name = some (codes "f"); path = codes "a.s"; line = 2; column = 5 }
          ∷ record { function_name = none; path = codes "a.s"; line = 1; column = 5 }
          ∷ [],
      complete,
    )
unfolding initial push get_stack_trace handle_runtime_error
division_reported = refl

handle_runtime_error-complete_example :
    handle_runtime_error tables division_by_zero in_function
    ≡ reported (codes "a.s") 2 5 (division_lines, complete)
handle_runtime_error-complete_example =
    handle_runtime_error-complete tables division_by_zero in_function (7 ∷ []) (codes "a.s") 2 5
      division_lines refl refl division_active division_place division_expected
