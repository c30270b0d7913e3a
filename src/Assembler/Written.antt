-- ===== src/Assembler/Written.antt =====
-- src/assembler/Assembler.cpp and src/vm/VM.cpp: entries of the metadata, written by `generateBytecode` and
-- read by `readBytecode`.
use simple_virtual_language.Base.{
  ℕ, ◌+◌, ◌%◌, ◌^◌, ◌<◌, ◌≡◌, refl, sym, ap, subst, ◌∙◌, List, [], ◌++◌, length, length-append,
  arith,
}
use simple_virtual_language.Base.Text.{Text}
use simple_virtual_language.Vm.ErrorHandler.{
  RuntimeErrorHandler, insert_source, insert_function_metadata, insert_line_table_metadata,
}
use simple_virtual_language.Vm.Metadata.{walked, read_source, read_function, read_line}
use simple_virtual_language.Assembler.Defs.{SourceMetadata, FunctionMetadata, LineTableMetadata}
use simple_virtual_language.Assembler.Numbers.{Result, done, failed}
use simple_virtual_language.Assembler.Layout.{unquoted}
use simple_virtual_language.Assembler.Encode.{bytes_of, convert_string_to_bytes}
use simple_virtual_language.Assembler.Bytecode.{
  Emitted, convert_source_metadata, convert_function_metadata, convert_line_table_metadata,
}
use simple_virtual_language.Assembler.SecondPass.{length-bytes_of}
use simple_virtual_language.Assembler.Decoded.{Holds, Holds-here}
use simple_virtual_language.Assembler.Entries.{
  RangeFits, range_bytes, length-range_bytes, LineFits, line_bytes, length-line_bytes, text_bytes,
  line_entry, function_entry, read_line-Holds, read_function-Holds, read_source-Holds,
}

-- The path without its quotation marks, and numbers that fit their fields.
abbrev pub SourceFits : SourceMetadata → Text → Type 0
SourceFits m path = (unquoted m.path ≡ done path) × (m.source_id < 2 ^ 16) × (length path < 2 ^ 31)

abbrev pub FunctionFits : FunctionMetadata → Text → Type 0
FunctionFits m name =
    (unquoted m.name ≡ done name)
    × RangeFits m.start_address m.end_address m.source_id
    × (length name < 2 ^ 31)

abbrev result_bytes : Result Emitted → List ℕ
result_bytes (done e) = e.bytes
result_bytes (failed x) = []

source_appended :
    (m : SourceMetadata) (path : Text) (e e' : Emitted)
    → unquoted m.path ≡ done path
    → convert_source_metadata m e ≡ done e'
    → e.bytes ++ (bytes_of 2 m.source_id ++ text_bytes path) ≡ e'.bytes
unfolding convert_source_metadata convert_string_to_bytes
source_appended m path e e' u h =
    let is : result_bytes (convert_source_metadata m e)
        ≡ e.bytes ++ (bytes_of 2 m.source_id ++ text_bytes path) =
      rw (u, convert_source_metadata, convert_string_to_bytes) refl in
    sym is ∙ ap result_bytes h

function_appended :
    (m : FunctionMetadata) (name : Text) (e e' : Emitted)
    → unquoted m.name ≡ done name
    → convert_function_metadata m e ≡ done e'
    → e.bytes ++ (range_bytes m.start_address m.end_address m.source_id ++ text_bytes name)
      ≡ e'.bytes
unfolding convert_function_metadata convert_string_to_bytes
function_appended m name e e' u h =
    let is : result_bytes (convert_function_metadata m e)
        ≡ e.bytes ++ (range_bytes m.start_address m.end_address m.source_id ++ text_bytes name) =
      rw (u, convert_function_metadata, convert_string_to_bytes) refl in
    sym is ∙ ap result_bytes h

length-text_bytes : (raw : Text) → length (text_bytes raw) ≡ 4 + length raw
length-text_bytes raw = omega (
  arith,
  length-append (bytes_of 4 (length raw % 2 ^ 32)) raw,
  length-bytes_of 4 (length raw % 2 ^ 32),
)

source_written :
    (m : SourceMetadata) (path : Text) (e e' : Emitted) (back : List ℕ) (h : RuntimeErrorHandler)
    → SourceFits m path
    → convert_source_metadata m e ≡ done e'
    → length e'.bytes < 2 ^ 32
    → read_source (e'.bytes ++ back) (length e.bytes) h
      ≡ walked (length e'.bytes, insert_source m.source_id path h)
source_written m path e e' back h (u, id, short) is low =
    let bytes : List ℕ = bytes_of 2 m.source_id ++ text_bytes path in
    let more : length bytes ≡ 6 + length path = omega (
      arith,
      length-append (bytes_of 2 m.source_id) (text_bytes path),
      length-bytes_of 2 m.source_id,
      length-text_bytes path,
    ) in
    let all : length e'.bytes ≡ length e.bytes + length bytes =
      sym (ap (λ (b : List ℕ). length b) (source_appended m path e e' u is))
      ∙ length-append e.bytes bytes in
    let there : Holds (e'.bytes ++ back) (length e.bytes) bytes =
      subst (λ (b : List ℕ). Holds (b ++ back) (length e.bytes) bytes)
        (source_appended m path e e' u is)
        (Holds-here e.bytes bytes back (omega (arith, all, low))) in
    read_source-Holds (e'.bytes ++ back) (length e.bytes) m.source_id path h id short there
    ∙ ap (λ (n : ℕ). walked (n, insert_source m.source_id path h)) (omega (arith, all, more, low))

function_written :
    (m : FunctionMetadata) (name : Text) (e e' : Emitted) (back : List ℕ) (h : RuntimeErrorHandler)
    → FunctionFits m name
    → convert_function_metadata m e ≡ done e'
    → length e'.bytes < 2 ^ 32
    → read_function (e'.bytes ++ back) (length e.bytes) h
      ≡ walked (length e'.bytes, insert_function_metadata (function_entry m name) h)
function_written m name e e' back h (u, range_fits, short) is low =
    let range : List ℕ = range_bytes m.start_address m.end_address m.source_id in
    let bytes : List ℕ = range ++ text_bytes name in
    let more : length bytes ≡ 14 + length name = omega (
      arith,
      length-append range (text_bytes name),
      length-range_bytes m.start_address m.end_address m.source_id,
      length-text_bytes name,
    ) in
    let all : length e'.bytes ≡ length e.bytes + length bytes =
      sym (ap (λ (b : List ℕ). length b) (function_appended m name e e' u is))
      ∙ length-append e.bytes bytes in
    let there : Holds (e'.bytes ++ back) (length e.bytes) bytes =
      subst (λ (b : List ℕ). Holds (b ++ back) (length e.bytes) bytes)
        (function_appended m name e e' u is)
        (Holds-here e.bytes bytes back (omega (arith, all, low))) in
    read_function-Holds (e'.bytes ++ back) (length e.bytes) m name h range_fits short there
    ∙ ap (λ (n : ℕ). walked (n, insert_function_metadata (function_entry m name) h))
        (omega (arith, all, more, low))

line_written :
    (m : LineTableMetadata) (e : Emitted) (back : List ℕ) (h : RuntimeErrorHandler)
    → LineFits m
    → length (convert_line_table_metadata m e).bytes < 2 ^ 32
    → read_line ((convert_line_table_metadata m e).bytes ++ back) (length e.bytes) h
      ≡ walked (
        length (convert_line_table_metadata m e).bytes,
        insert_line_table_metadata (line_entry m) h,
      )
unfolding convert_line_table_metadata
line_written m e back h fits low =
    let all : length (e.bytes ++ line_bytes m) ≡ length e.bytes + 16 =
      omega (arith, length-append e.bytes (line_bytes m), length-line_bytes m) in
    read_line-Holds _ (length e.bytes) m h fits
      (Holds-here e.bytes (line_bytes m) back (omega (arith, length-line_bytes m, all, low)))
    ∙ ap (λ (n : ℕ). walked (n, insert_line_table_metadata (line_entry m) h))
        (omega (arith, all, low))

-- The entry that the assembler appends for a source, a function or a line is read back by the machine at
-- its place, whatever stands in front of it and behind it, and the index that the machine goes on at is the
-- end of what is written so far; the numbers fit their fields, texts have less than 2 GiB, and the file
-- less than 4 GiB.
pub read_entries-written :
    (e : Emitted) (back : List ℕ) (h : RuntimeErrorHandler) (s : SourceMetadata)
    (f : FunctionMetadata) (l : LineTableMetadata) (path name : Text)
    (with_source with_function : Emitted)
    → SourceFits s path
    → FunctionFits f name
    → LineFits l
    → convert_source_metadata s e ≡ done with_source
    → convert_function_metadata f e ≡ done with_function
    → length with_source.bytes < 2 ^ 32
    → length with_function.bytes < 2 ^ 32
    → length (convert_line_table_metadata l e).bytes < 2 ^ 32
    → (read_source (with_source.bytes ++ back) (length e.bytes) h
        ≡ walked (length with_source.bytes, insert_source s.source_id path h))
      × (read_function (with_function.bytes ++ back) (length e.bytes) h
          ≡ walked (length with_function.bytes, insert_function_metadata (function_entry f name) h))
      × (read_line ((convert_line_table_metadata l e).bytes ++ back) (length e.bytes) h
          ≡ walked (
            length (convert_line_table_metadata l e).bytes,
            insert_line_table_metadata (line_entry l) h,
          ))
read_entries-written e back h s f l path name with_source with_function fs ff fl is_s is_f low_s
      low_f low_l =
    (
      source_written s path e with_source back h fs is_s low_s,
      function_written f name e with_function back h ff is_f low_f,
      line_written l e back h fl low_l,
    )
