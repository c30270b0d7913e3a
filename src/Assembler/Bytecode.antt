-- ===== src/Assembler/Bytecode.antt =====
-- src/assembler/Assembler.cpp: the metadata, and `generateBytecode` and `assembleFromTokens` on the
-- statements that the parser returns.
use simple_virtual_language.Base.{
  ℕ, zero, suc, ◌+◌, ◌-◌, ◌*◌, ◌/◌, ◌%◌, ◌^◌, List, [], ◌∷◌, ◌++◌, length, set_elem,
}
use simple_virtual_language.Base.Text.{Text}
use simple_virtual_language.Vm.State.{u32}
use simple_virtual_language.Assembler.Defs.{
  SourceMetadata, FunctionMetadata, LineTableMetadata, Statement, instruction, label, method_def,
  data_def, section, source_metadata, function_metadata, line_table_metadata,
}
use simple_virtual_language.Assembler.Numbers.{Result, done, ◌>>=◌, FloatText}
use simple_virtual_language.Assembler.Labels.{Layout}
use simple_virtual_language.Assembler.Layout.{
  construct_label_table, code_end_location, data_end_location,
}
use simple_virtual_language.Assembler.Encode.{
  bytes_of, convert_string_to_bytes, convert_data_statement_to_bytes, convert_instruction_to_bytes,
  convert_method_def_to_bytes,
}

-- The bytes written so far behind the header, and the lengths of the metadata tables.
pub record Emitted : Type 0 where
  pub bytes : List ℕ
  pub source_metadata_length : ℕ
  pub function_metadata_length : ℕ
  pub line_table_metadata_length : ℕ

abbrev pub push_back : List ℕ → Emitted → Emitted
push_back more e = record e { bytes = e.bytes ++ more }

unfoldable pub convert_source_metadata : SourceMetadata → Emitted → Result Emitted
unfolding bytes_of convert_string_to_bytes
convert_source_metadata m e = do
  path ← convert_string_to_bytes m.path
  done (
      push_back (bytes_of 2 m.source_id ++ path) (record e {
        source_metadata_length =
            u32 (e.source_metadata_length + 2 + 4 + length m.path + 2 ^ 32 - 2);
      }))

unfoldable pub convert_function_metadata : FunctionMetadata → Emitted → Result Emitted
unfolding bytes_of convert_string_to_bytes
convert_function_metadata m e = do
  name ← convert_string_to_bytes m.name
  done (
      push_back
        (bytes_of 4 m.start_address ++ bytes_of 4 m.end_address ++ bytes_of 2 m.source_id ++ name)
        (record e {
          function_metadata_length =
              u32 (e.function_metadata_length + 14 + length m.name + 2 ^ 32 - 2);
        }))

unfoldable pub convert_line_table_metadata : LineTableMetadata → Emitted → Emitted
unfolding bytes_of
convert_line_table_metadata m e =
    push_back
      (bytes_of 4 m.start_address
        ++ bytes_of 4 m.end_address
        ++ bytes_of 2 m.source_id
        ++ bytes_of 4 m.line
        ++ bytes_of 2 m.column)
      (record e { line_table_metadata_length = u32 (e.line_table_metadata_length + 16) })

-- The loops `bytecode.at(at + i) = (value >> (i * 8)) & 0xFF`; the header is there, so `at` is in range.
unfoldable pub patch_loop : ℕ → ℕ → ℕ → ℕ → List ℕ → List ℕ
patch_loop zero i position v bytecode = bytecode
patch_loop (suc left) i position v bytecode =
    patch_loop left (i + 1) position v (set_elem bytecode (position + i) (v / 2 ^ (i * 8) % 256))

-- The header with placeholders for the last three fields.
unfoldable pub header : ℕ → ℕ → List ℕ
unfolding bytes_of
header code_end data_end = bytes_of 4 code_end ++ bytes_of 4 data_end ++ bytes_of 12 0

-- The last three fields of the header.
unfoldable pub patch_header : ℕ → Emitted → List ℕ
unfolding patch_loop
patch_header data_end e =
    patch_loop 4 0 16
      (u32 (
        e.line_table_metadata_length + e.function_metadata_length + e.source_metadata_length
        + data_end))
      (patch_loop 4 0 12 (u32 (e.function_metadata_length + e.source_metadata_length + data_end))
        (patch_loop 4 0 8 (u32 (e.source_metadata_length + data_end)) e.bytes))

module _ (text : FloatText) where
  unfoldable pub emit_statement : List (Text × ℕ) → Statement → Emitted → Result Emitted
  unfolding convert_method_def_to_bytes convert_instruction_to_bytes convert_data_statement_to_bytes
      convert_source_metadata convert_function_metadata convert_line_table_metadata
  emit_statement label_table (label name) e = done e
  emit_statement label_table (method_def m) e = done (push_back (convert_method_def_to_bytes m) e)
  emit_statement label_table (instruction i) e = do
    bytes ← convert_instruction_to_bytes text label_table i
    done (push_back bytes e)
  emit_statement label_table (data_def d) e = do
    bytes ← convert_data_statement_to_bytes text label_table d
    done (push_back bytes e)
  emit_statement label_table (section s) e = done e
  emit_statement label_table (source_metadata m) e = convert_source_metadata m e
  emit_statement label_table (function_metadata m) e = convert_function_metadata m e
  emit_statement label_table (line_table_metadata m) e = done (convert_line_table_metadata m e)

  unfoldable pub emit_statements : List (Text × ℕ) → List Statement → Emitted → Result Emitted
  unfolding emit_statement
  emit_statements label_table [] e = done e
  emit_statements label_table (s ∷ ss) e = do
    next ← emit_statement label_table s e
    emit_statements label_table ss next

  unfoldable pub generate_bytecode : List Statement → Layout → Result (List ℕ)
  unfolding emit_statements header patch_header code_end_location data_end_location
  generate_bytecode statements layout = do
    e ← emit_statements layout.label_table statements (record {
      bytes = header (code_end_location layout) (data_end_location layout);
      source_metadata_length = 0;
      function_metadata_length = 0;
      line_table_metadata_length = 0;
    })
    done (patch_header (data_end_location layout) e)

  -- Steps 3 and 4 of `assembleFromTokens`.
  unfoldable pub assemble_statements : List Statement → Result (List ℕ)
  unfolding construct_label_table generate_bytecode
  assemble_statements statements = do
    layout ← construct_label_table statements
    generate_bytecode statements layout
