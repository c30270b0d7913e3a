-- ===== src/Assembler/Plain.antt =====
-- src/assembler/Assembler.cpp and src/vm/VM.cpp: files that are assembled from statements without metadata.
-- Their tables are empty, and the machine reads them.
use simple_virtual_language.Base.{
  ℕ, suc, ◌+◌, ◌^◌, ◌<◌, ◌≡◌, refl, ap, Bool, true, false, and-true, List, [], ◌∷◌, ◌++◌, some, ltb,
  length, arith,
}
use simple_virtual_language.Base.Text.{Text}
use simple_virtual_language.Vm.State.{Vm, ok, u32}
use simple_virtual_language.Vm.FileHeader.{header_loop, header_field}
use simple_virtual_language.Vm.Metadata.{
  walked, Body, walk, read_source, read_function, read_line, read_metadata, empty_handler,
}
use simple_virtual_language.Vm.ErrorHandler.{RuntimeErrorHandler}
use simple_virtual_language.Vm.Start.{initial, start}
use simple_virtual_language.Vm.Start.Loaded.{Started}
use simple_virtual_language.Assembler.Numbers.{FloatText, Result, done, failed}
use simple_virtual_language.Assembler.Defs.{
  Statement, instruction, label, method_def, data_def, section, source_metadata, function_metadata,
  line_table_metadata,
}
use simple_virtual_language.Assembler.Labels.{Layout}
use simple_virtual_language.Assembler.Layout.{
  construct_label_table, code_end_location, data_end_location,
}
use simple_virtual_language.Assembler.Encode.{
  bytes_loop, bytes_of, convert_instruction_to_bytes, convert_data_statement_to_bytes,
}
use simple_virtual_language.Assembler.Bytecode.{
  Emitted, patch_loop, header, patch_header, emit_statement, emit_statements, generate_bytecode,
  assemble_statements,
}
use simple_virtual_language.Assembler.Sizes.{total, sized, every}
use simple_virtual_language.Assembler.FirstPass.{Measured}
use simple_virtual_language.Assembler.Emission.{Appends, statement_size, emit_statements-Appends}
use simple_virtual_language.Assembler.Header.{four_bytes, patched_fields}
use simple_virtual_language.Assembler.Yields.{Yields, Yields-bind, Yields-any, Yields-done}
use simple_virtual_language.Assembler.Assembled.{
  code_total, data_total, construct_label_table-Measured, start-assembled,
}

unfoldable pub plain : Statement → Bool
plain (source_metadata m) = false
plain (function_metadata m) = false
plain (line_table_metadata m) = false
plain other = true

abbrev NoTables : Emitted → Type 0
NoTables e =
    (e.source_metadata_length ≡ 0)
    × (e.function_metadata_length ≡ 0)
    × (e.line_table_metadata_length ≡ 0)

Yields-both :
    {A : Type 0} (P Q : A → Type 0) (r : Result A)
    → Yields P r
    → Yields Q r
    → Yields (λ a. P a × Q a) r
Yields-both P Q (done a) p q = (p, q)
Yields-both P Q (failed x) p q = tt

-- The fields for the tables are those that were patched.
table_fields :
    (c d e0 e1 e2 : ℕ) (more : List ℕ)
    → e0 < 2 ^ 32
    → e1 < 2 ^ 32
    → e2 < 2 ^ 32
    → let b =
        patch_loop 4 0 16 e2 (patch_loop 4 0 12 e1 (patch_loop 4 0 8 e0 (header c d ++ more))) in
      (header_field b 8 ≡ some e0) × (header_field b 12 ≡ some e1) × (header_field b 16 ≡ some e2)
unfolding patch_loop header bytes_of bytes_loop header_field header_loop
table_fields c d e0 e1 e2 more h0 h1 h2 = (
  ap (λ (v : ℕ). some v) (four_bytes e0 h0),
  ap (λ (v : ℕ). some v) (four_bytes e1 h1),
  ap (λ (v : ℕ). some v) (four_bytes e2 h2),
)

abbrev FieldsAre : ℕ → List ℕ → Type 0
FieldsAre d b =
    (header_field b 4 ≡ some d)
    × (header_field b 8 ≡ some d)
    × (header_field b 12 ≡ some d)
    × (header_field b 16 ≡ some d)

no_walk :
    (body : Body) (rounds end at : ℕ) (b : List ℕ) (h : RuntimeErrorHandler)
    → ltb at end ≡ false
    → walk body (suc rounds) end b at h ≡ walked h
unfolding walk
no_walk body rounds end at b h over = rw (over, walk) refl

no_tables-walked :
    (d : ℕ) (b : List ℕ) → d + 1 < 2 ^ 32 → FieldsAre d b → read_metadata b ≡ walked empty_handler
unfolding read_metadata
no_tables-walked d b h (f4, f8, f12, f16) =
    let over : ltb (u32 (d + 1)) d ≡ false = ground arith in
    let rounds = length b in
    let at = u32 (d + 1) in
    rw (f4, f8, f12, f16)
      (rw (no_walk read_source rounds d at b empty_handler over) (
        rw (no_walk read_function rounds d at b empty_handler over)
          (no_walk read_line rounds d at b empty_handler over)))

patched-FieldsAre :
    (c d : ℕ) (e : Emitted) (more : List ℕ)
    → e.bytes ≡ header c d ++ more
    → c < 2 ^ 32
    → d < 2 ^ 32
    → NoTables e
    → FieldsAre d (patch_header d e)
unfolding patch_header
patched-FieldsAre c d e more is hc hd (n0, n1, n2) =
    let e0 : u32 (e.source_metadata_length + d) ≡ d = omega (arith, n0) in
    let e1 : u32 (e.function_metadata_length + e.source_metadata_length + d) ≡ d =
      omega (arith, n0, n1) in
    let e2 : u32
          (e.line_table_metadata_length + e.function_metadata_length + e.source_metadata_length + d)
        ≡ d =
      omega (arith, n0, n1, n2) in
    let (f8, f12, f16) = table_fields c d d d d more hd hd hd in
    (
      (patched_fields d c d e more is hc hd).1,
      rw (e0, e1, e2, is, patch_header) f8,
      rw (e0, e1, e2, is, patch_header) f12,
      rw (e0, e1, e2, is, patch_header) f16,
    )

module _ (text : FloatText) (label_table : List (Text × ℕ)) where
  emit_statement-NoTables :
      (s : Statement) (e : Emitted)
      → plain s ≡ true
      → NoTables e
      → Yields NoTables (emit_statement text label_table s e)
  unfolding emit_statement plain
  emit_statement-NoTables (label name) e h n = n
  emit_statement-NoTables (method_def m) e h n = n
  emit_statement-NoTables (instruction i) e h n =
      Yields-any NoTables (convert_instruction_to_bytes text label_table i) _ (λ b. n)
  emit_statement-NoTables (data_def d) e h n =
      Yields-any NoTables (convert_data_statement_to_bytes text label_table d) _ (λ b. n)
  emit_statement-NoTables (section s) e h n = n
  emit_statement-NoTables (source_metadata m) e h n = cc
  emit_statement-NoTables (function_metadata m) e h n = cc
  emit_statement-NoTables (line_table_metadata m) e h n = cc

  emit_statements-NoTables :
      (ss : List Statement) (e : Emitted)
      → every plain ss ≡ true
      → NoTables e
      → Yields NoTables (emit_statements text label_table ss e)
  unfolding emit_statements every
  emit_statements-NoTables [] e h n = n
  emit_statements-NoTables (s ∷ ss) e h n =
      let (here, after) = and-true (plain s) (every plain ss) h in
      Yields-bind NoTables NoTables (emit_statement text label_table s e) _
        (emit_statement-NoTables s e here n) (λ f m. emit_statements-NoTables ss f after m)

module _ (text : FloatText) (ss : List Statement) (ok_ss : every sized ss ≡ true)
    (some_code : 0 < code_total ss) (fits : 20 + code_total ss + data_total ss < 2 ^ 32)
    (no_metadata : every plain ss ≡ true) where
  abbrev ReadsNothing : List ℕ → Type 0
  ReadsNothing b = read_metadata b ≡ walked empty_handler

  generate_bytecode-ReadsNothing :
      (l : Layout)
      → Measured (code_total ss) (data_total ss) l
      → Yields ReadsNothing (generate_bytecode text ss l)
  unfolding generate_bytecode code_end_location data_end_location
  generate_bytecode-ReadsNothing l m =
      let c = code_end_location l in
      let d = data_end_location l in
      let e0 : Emitted = record {
        bytes = header c d;
        source_metadata_length = 0;
        function_metadata_length = 0;
        line_table_metadata_length = 0;
      } in
      let r = emit_statements text l.label_table ss e0 in
      Yields-bind (λ e. Appends (total statement_size ss) e0 e × NoTables e) ReadsNothing r _
        (Yields-both (Appends (total statement_size ss) e0) NoTables r
          (emit_statements-Appends text l.label_table ss e0 ok_ss)
          (emit_statements-NoTables text l.label_table ss e0 no_metadata (refl, refl, refl)))
        (λ e (a, n).
          no_tables-walked d (patch_header d e) (omega (arith, m.code_length, m.data_length)) (
            patched-FieldsAre c d e a.more a.behind (omega (arith, m.code_length))
              (omega (arith, m.code_length, m.data_length)) n))

  assemble-ReadsNothing : Yields ReadsNothing (assemble_statements text ss)
  unfolding assemble_statements
  assemble-ReadsNothing =
      Yields-bind (Measured (code_total ss) (data_total ss)) ReadsNothing (construct_label_table ss)
        (λ l. generate_bytecode text ss l) (construct_label_table-Measured ss ok_ss)
        (λ l m. generate_bytecode-ReadsNothing l m)

  -- When statements without metadata, with operands of known size and texts of data of at most 250 bytes,
  -- with some code, and with code and data that 32 bits can address, assemble to a file, the machine
  -- loads the file without an error, with code and data in memory and no metadata.
  pub start-plain :
      (bytecode : List ℕ)
      → assemble_statements text ss ≡ done bytecode
      → (s : Vm) × (start bytecode initial ≡ ok empty_handler s)
        × Started bytecode (19 + code_total ss) (19 + code_total ss + data_total ss) s
  start-plain bytecode h =
      start-assembled text ss ok_ss some_code fits bytecode empty_handler h
        (Yields-done ReadsNothing (assemble_statements text ss) bytecode assemble-ReadsNothing h)
