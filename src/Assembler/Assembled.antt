-- ===== src/Assembler/Assembled.antt =====
-- src/assembler/Assembler.cpp and src/vm/VM.cpp: assembled files, and how the machine loads them.
use simple_virtual_language.Base.{
  ℕ, ◌+◌, ◌^◌, ◌≤◌, ◌<◌, ◌≡◌, refl, ap, ◌∙◌, true, List, [], ◌∷◌, some, arith, length,
  length-append, subst, Bool-cases, inl, inr,
}
use simple_virtual_language.Vm.State.{Vm, ok}
use simple_virtual_language.Vm.ErrorHandler.{RuntimeErrorHandler}
use simple_virtual_language.Vm.Metadata.{walked, read_metadata}
use simple_virtual_language.Vm.Start.{initial, start}
use simple_virtual_language.Vm.Start.Loaded.{Header, Started, start-Started}
use simple_virtual_language.Assembler.Numbers.{FloatText, Result, done, failed, assembler_error}
use simple_virtual_language.Assembler.Defs.{Statement}
use simple_virtual_language.Assembler.Labels.{Layout}
use simple_virtual_language.Assembler.Layout.{
  ends_layout, process_statements, all_handled, construct_label_table, code_end_location,
  data_end_location, empty_layout,
}
use simple_virtual_language.Assembler.Bytecode.{
  Emitted, header, emit_statements, generate_bytecode, assemble_statements,
}
use simple_virtual_language.Assembler.Sizes.{
  code_size, data_size, total, program_part, sized, every,
}
use simple_virtual_language.Assembler.FirstPass.{Measured, process_statements-Measured}
use simple_virtual_language.Assembler.Emission.{Appends, statement_size, emit_statements-Appends}
use simple_virtual_language.Assembler.Header.{patched_fields, length-header, length-patch_header}
use simple_virtual_language.Assembler.Yields.{Yields, Yields-bind, Yields-done}

-- The lengths of the code and of the data.
abbrev pub code_total : List Statement → ℕ
code_total ss = total code_size (program_part ss)

abbrev pub data_total : List Statement → ℕ
data_total ss = total data_size (program_part ss)

all_handled-Measured :
    (c d : ℕ) (l : Layout) → Measured c d l → Yields (Measured c d) (all_handled l)
unfolding all_handled
all_handled-Measured c d l m =
    elim l.unhandled_label_refs
      as (λ refs. Yields (Measured c d) (elim refs [ [] ↦ done l | _ ↦ failed assembler_error ])) [
        | [] ↦ m
        | k ∷ ks ↦ tt
      ]

from_zero :
    (ss : List Statement) (r : Result Layout)
    → Yields (Measured (0 + code_total ss) (0 + data_total ss)) r
    → Yields (Measured (code_total ss) (data_total ss)) r
from_zero ss r h =
    let c : 0 + code_total ss ≡ code_total ss = omega arith in
    let d : 0 + data_total ss ≡ data_total ss = omega arith in
    subst (λ (n : ℕ). Yields (Measured n (data_total ss)) r) c
      (subst (λ (n : ℕ). Yields (Measured (0 + code_total ss) n) r) d h)

pub construct_label_table-Measured :
    (ss : List Statement)
    → every sized ss ≡ true
    → Yields (Measured (code_total ss) (data_total ss)) (construct_label_table ss)
unfolding construct_label_table
construct_label_table-Measured ss h =
    Yields-bind (Measured (code_total ss) (data_total ss))
      (Measured (code_total ss) (data_total ss)) (process_statements ss empty_layout) _
      (from_zero ss (process_statements ss empty_layout) (
        process_statements-Measured 0 0 ss empty_layout h
          (record { code_length = refl; data_length = refl })))
      (λ l m. all_handled-Measured (code_total ss) (data_total ss) l m)

-- The statements in front of the metadata take no more than all of them.
program_part-total : (ss : List Statement) → code_total ss + data_total ss ≤ total statement_size ss
unfolding total program_part
program_part-total [] = omega arith
program_part-total (s ∷ ss) = elim (Bool-cases (ends_layout s)) [
  | inl ends ↦ rw (ends, program_part) (omega arith)
  | inr goes_on ↦ rw (goes_on, program_part) (omega (arith, program_part-total ss))
]

-- A file with the regions and the length of its statements.
pub record Assembled (ss : List Statement) (bytecode : List ℕ) : Type 0 where
  pub regions : Header bytecode (19 + code_total ss) (19 + code_total ss + data_total ss)
  pub size : length bytecode ≡ 20 + total statement_size ss

module _ (text : FloatText) (ss : List Statement) (ok_ss : every sized ss ≡ true)
    (some_code : 0 < code_total ss) (fits : 20 + code_total ss + data_total ss < 2 ^ 32) where
  generate_bytecode-Assembled :
      (l : Layout)
      → Measured (code_total ss) (data_total ss) l
      → Yields (Assembled ss) (generate_bytecode text ss l)
  unfolding generate_bytecode code_end_location data_end_location
  generate_bytecode-Assembled l m =
      let c = code_end_location l in
      let d = data_end_location l in
      let e0 : Emitted = record {
        bytes = header c d;
        source_metadata_length = 0;
        function_metadata_length = 0;
        line_table_metadata_length = 0;
      } in
      Yields-bind (Appends (total statement_size ss) e0) (Assembled ss)
        (emit_statements text l.label_table ss e0) _
        (emit_statements-Appends text l.label_table ss e0 ok_ss)
        (λ e a.
          let c_is : c ≡ 19 + code_total ss = omega (arith, m.code_length) in
          let d_is : d ≡ 19 + code_total ss + data_total ss =
            omega (arith, m.code_length, m.data_length) in
          let (first, second) =
            patched_fields d c d e a.more a.behind (omega arith) (omega arith) in
          let many : length e.bytes ≡ 20 + total statement_size ss =
            ap (λ (b : List ℕ). length b) a.behind
            ∙ omega (arith, length-append (header c d) a.more, length-header c d, a.many) in
          let size = length-patch_header d e ∙ many in
          record {
            regions = record {
              code_field = first ∙ ap (λ (n : ℕ). some n) c_is;
              data_field = second ∙ ap (λ (n : ℕ). some n) d_is;
              code_present = omega arith;
              data_behind = omega arith;
              data_present = omega (arith, size, program_part-total ss);
              data_fits = omega arith;
            };
            size = size;
          })

  assemble-Yields : Yields (Assembled ss) (assemble_statements text ss)
  unfolding assemble_statements
  assemble-Yields =
      Yields-bind (Measured (code_total ss) (data_total ss)) (Assembled ss)
        (construct_label_table ss) (λ l. generate_bytecode text ss l)
        (construct_label_table-Measured ss ok_ss) (λ l m. generate_bytecode-Assembled l m)

  -- When statements with operands of known size and texts of data of at most 250 bytes, with some code, and
  -- with code and data that 32 bits can address, assemble to a file, then the header of the file places the two regions with the lengths of
  -- the statements, and the file has the length of all statements behind its 20 bytes of header.
  pub assemble_statements-Assembled :
      (bytecode : List ℕ) → assemble_statements text ss ≡ done bytecode → Assembled ss bytecode
  assemble_statements-Assembled bytecode h =
      Yields-done (Assembled ss) (assemble_statements text ss) bytecode assemble-Yields h

  -- Under the same conditions the machine loads the file without an error, with code and data in memory
  -- and with the metadata that was read, if the metadata tables of the file are read without undefined
  -- behaviour.
  pub start-assembled :
      (bytecode : List ℕ) (m : RuntimeErrorHandler)
      → assemble_statements text ss ≡ done bytecode
      → read_metadata bytecode ≡ walked m
      → (s : Vm) × (start bytecode initial ≡ ok m s)
        × Started bytecode (19 + code_total ss) (19 + code_total ss + data_total ss) s
  start-assembled bytecode m h read =
      start-Started bytecode (19 + code_total ss) (19 + code_total ss + data_total ss) m
        (assemble_statements-Assembled bytecode h).regions read
