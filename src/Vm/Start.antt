-- ===== src/Vm/Start.antt =====
-- src/vm/VM.cpp: the constructor `VM::VM`, `readBytecode` and `run`. The fields of the header are in
-- FileHeader and the walks over the metadata tables in Metadata.
pub mod Loaded
pub mod Running
use simple_virtual_language.Base.{
  ℕ, zero, suc, ◌+◌, ◌-◌, ◌^◌, true, ◌&&◌, List, [], ◌∷◌, Option, none, some, ◌==◌, if◌then◌else◌,
  drop,
}
use simple_virtual_language.Vm.State.{
  language_context, internal_context, ErrorContext, Vm, Outcome, ok, thrown, undefined_behaviour, M,
  pure, ◌>>=◌, ◌>>◌, modify, undef, u32, max_memory_address,
}
use simple_virtual_language.Vm.Float.{FloatOps}
use simple_virtual_language.Vm.Memory.{load_bytecode}
use simple_virtual_language.Vm.HeapManager.{initialise_heap, with_hp}
use simple_virtual_language.Vm.ErrorHandler.{RuntimeErrorHandler}
use simple_virtual_language.Vm.FileHeader.{header_field}
use simple_virtual_language.Vm.Metadata.{Walk, walked, undefined, exhausted, read_metadata}
use simple_virtual_language.Vm.Run.{RunEnd, failed, crashed, run_program}

-- `BYTECODE_HEADER_SIZE`.
abbrev pub bytecode_header_size : ℕ
bytecode_header_size = 20

-- The state that `VM::VM` leaves. The constructor does not set `errorContext`; `readBytecode` does,
-- before anything reads it.
unfoldable pub initial : Vm
initial = record {
  pc = 0;
  hb = 0;
  hp = 0;
  fp = max_memory_address;
  sp = max_memory_address;
  start_of_data_region = 0;
  page_table = λ _. none;
  frame_info_stack = [];
  free_list = [];
  operand_stack = [];
  error_context = internal_context;
  running = true;
  exit_code = 0;
  output = [];
}

abbrev pub field_or_undef : Option ℕ → M ℕ
field_or_undef none = undef
field_or_undef (some field) = pure field

-- The first `n` elements, or undefined behaviour where there are fewer.
unfoldable pub first_bytes : ℕ → List ℕ → M (List ℕ)
first_bytes zero bytes = pure []
first_bytes (suc n) [] = undef
first_bytes (suc n) (b ∷ bytes) = do rest ← first_bytes n bytes; pure (b ∷ rest)

-- What `errorContext` becomes: no metadata is there where the last addresses agree.
unfoldable pub context_of : ℕ → ℕ → ℕ → ErrorContext
context_of end_of_data end_of_sources end_of_line_table =
    if (end_of_data == end_of_sources) && (end_of_sources == end_of_line_table)
    then internal_context
    else language_context

-- The handler that the walks over the metadata fill. In a file below 4 GiB their rounds are never used up.
abbrev pub walked_or_undef : Walk RuntimeErrorHandler → M RuntimeErrorHandler
walked_or_undef (walked h) = pure h
walked_or_undef undefined = undef
walked_or_undef exhausted = undef

-- The part of `readBytecode` in front of those walks, with the end of the data that it has read.
unfoldable pub read_program : List ℕ → M ℕ
unfolding header_field first_bytes context_of load_bytecode
read_program bytecode = do
  end_of_code ← field_or_undef (header_field bytecode 0)
  end_of_data ← field_or_undef (header_field bytecode 4)
  end_of_sources ← field_or_undef (header_field bytecode 8)
  end_of_functions ← field_or_undef (header_field bytecode 12)
  end_of_line_table ← field_or_undef (header_field bytecode 16)
  modify λ s. record s { error_context = context_of end_of_data end_of_sources end_of_line_table }
  bytes ← first_bytes (end_of_data + 1 - bytecode_header_size) (drop bytecode_header_size bytecode)
  load_bytecode bytes 0
  modify
      λ s. record s { start_of_data_region = u32 (end_of_code + 1 + 2 ^ 32 - bytecode_header_size) }
  pure end_of_data

abbrev pub with_hb : ℕ → Vm → Vm
with_hb end_of_data s = record s { hb = u32 (end_of_data + 1 + 2 ^ 32 - bytecode_header_size) }

unfoldable pub read_bytecode : List ℕ → M RuntimeErrorHandler
unfolding read_program read_metadata
read_bytecode bytecode = do
  end_of_data ← read_program bytecode
  h ← walked_or_undef (read_metadata bytecode)
  modify (λ s. with_hb end_of_data s)
  pure h

-- The part of `run` in front of `runProgram`, with the runtime error handler that it fills.
unfoldable pub start : List ℕ → M RuntimeErrorHandler
unfolding read_bytecode initialise_heap
start bytecode = do
  h ← read_bytecode bytecode
  modify (λ s. with_hp s s.hb)
  initialise_heap
  pure h

-- `run` on a new machine. The handler tells what is printed of an error; it has no part in the run.
unfoldable pub run : FloatOps → ℕ → List ℕ → RunEnd
unfolding initial start run_program
run fl fuel bytecode = elim (start bytecode initial) [
  | ok h s ↦ run_program fl fuel s
  | thrown e s ↦ failed e s
  | undefined_behaviour ↦ crashed
]
