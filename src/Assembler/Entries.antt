-- ===== src/Assembler/Entries.antt =====
-- src/assembler/Assembler.cpp and src/vm/VM.cpp: an entry that `generateBytecode` appends is the entry that
-- the walk of `readBytecode` takes from that place of the file.
use simple_virtual_language.Base.{ℕ, ◌+◌, ◌%◌, ◌^◌, ◌<◌, ◌≡◌, refl, List, ◌++◌, length}
use simple_virtual_language.Base.Text.{Text}
use simple_virtual_language.Vm.State.{u32}
use simple_virtual_language.Vm.ErrorHandler
use simple_virtual_language.Vm.ErrorHandler.{
  RuntimeErrorHandler, insert_source, insert_function_metadata, insert_line_table_metadata,
}
use simple_virtual_language.Vm.Metadata.{
  walked, field, sized_text, read_source, read_function, read_line,
}
use simple_virtual_language.Assembler.Defs.{FunctionMetadata, LineTableMetadata}
use simple_virtual_language.Assembler.Encode.{bytes_loop, bytes_of}
use simple_virtual_language.Assembler.SecondPass.{length-bytes_of}
use simple_virtual_language.Assembler.Decoded.{
  Holds, Holds-front, Holds-behind, field_two, field_four, sized_text-text,
}

-- The two addresses and the number of the source, with which functions and lines start.
abbrev pub range_bytes : ℕ → ℕ → ℕ → List ℕ
range_bytes start end id = bytes_of 4 start ++ bytes_of 4 end ++ bytes_of 2 id

abbrev pub RangeFits : ℕ → ℕ → ℕ → Type 0
RangeFits start end id = (start < 2 ^ 32) × (end < 2 ^ 32) × (id < 2 ^ 16)

pub length-range_bytes : (s e i : ℕ) → length (range_bytes s e i) ≡ 10
unfolding bytes_of bytes_loop
length-range_bytes s e i = refl

length-addresses : (s e : ℕ) → length (bytes_of 4 s ++ bytes_of 4 e) ≡ 8
unfolding bytes_of bytes_loop
length-addresses s e = refl

range_read :
    (b : List ℕ) (at s e i : ℕ)
    → RangeFits s e i
    → Holds b at (range_bytes s e i)
    → (field 4 b at ≡ walked s)
      × (field 4 b (u32 (at + 4)) ≡ walked e)
      × (field 2 b (u32 (at + 8)) ≡ walked i)
range_read b at s e i (low_s, low_e, low_i) h =
    let addresses : Holds b at (bytes_of 4 s ++ bytes_of 4 e) =
      Holds-front b at (bytes_of 4 s ++ bytes_of 4 e) (bytes_of 2 i) h in
    (
      field_four b at s low_s (Holds-front b at (bytes_of 4 s) (bytes_of 4 e) addresses),
      field_four b (u32 (at + 4)) e low_e
          (Holds-behind b at 4 (bytes_of 4 s) (bytes_of 4 e) addresses (length-bytes_of 4 s)),
      field_two b (u32 (at + 8)) i low_i (
          Holds-behind b at 8 (bytes_of 4 s ++ bytes_of 4 e) (bytes_of 2 i) h
            (length-addresses s e)),
    )

-- The entries of the machine for those of the assembler.
abbrev pub line_entry : LineTableMetadata → ErrorHandler.LineTableMetadata
line_entry m = record {
  start_address = m.start_address;
  end_address = m.end_address;
  source_id = m.source_id;
  line = m.line;
  column = m.column;
}

abbrev pub function_entry : FunctionMetadata → Text → ErrorHandler.FunctionMetadata
function_entry m name = record {
  start_address = m.start_address;
  end_address = m.end_address;
  source_id = m.source_id;
  function_name = name;
}

abbrev pub LineFits : LineTableMetadata → Type 0
LineFits m =
    RangeFits m.start_address m.end_address m.source_id × (m.line < 2 ^ 32) × (m.column < 2 ^ 16)

abbrev pub line_bytes : LineTableMetadata → List ℕ
line_bytes m =
    range_bytes m.start_address m.end_address m.source_id
    ++ bytes_of 4 m.line
    ++ bytes_of 2 m.column

length-line_front :
    (m : LineTableMetadata)
    → length (range_bytes m.start_address m.end_address m.source_id ++ bytes_of 4 m.line) ≡ 14
unfolding bytes_of bytes_loop
length-line_front m = refl

pub length-line_bytes : (m : LineTableMetadata) → length (line_bytes m) ≡ 16
unfolding bytes_of bytes_loop
length-line_bytes m = refl

pub read_line-Holds :
    (b : List ℕ) (at : ℕ) (m : LineTableMetadata) (h : RuntimeErrorHandler)
    → LineFits m
    → Holds b at (line_bytes m)
    → read_line b at h ≡ walked (u32 (at + 16), insert_line_table_metadata (line_entry m) h)
unfolding read_line
read_line-Holds b at m h (range_fits, low_line, low_column) holds =
    let range : List ℕ = range_bytes m.start_address m.end_address m.source_id in
    let four : Holds b at (range ++ bytes_of 4 m.line) =
      Holds-front b at (range ++ bytes_of 4 m.line) (bytes_of 2 m.column) holds in
    let (start, end_field, id) =
      range_read b at m.start_address m.end_address m.source_id range_fits
        (Holds-front b at range (bytes_of 4 m.line) four) in
    let line_field : field 4 b (u32 (at + 10)) ≡ walked m.line =
      field_four b (u32 (at + 10)) m.line low_line
        (Holds-behind b at 10 range (bytes_of 4 m.line) four (length-range_bytes _ _ _)) in
    let column_field : field 2 b (u32 (at + 14)) ≡ walked m.column =
      field_two b (u32 (at + 14)) m.column low_column (
        Holds-behind b at 14 (range ++ bytes_of 4 m.line) (bytes_of 2 m.column) holds
          (length-line_front m)) in
    rw (start, end_field, id, line_field, column_field, read_line) refl

-- A name as it is stored: its length and its characters.
abbrev pub text_bytes : Text → List ℕ
text_bytes raw = bytes_of 4 (length raw % 2 ^ 32) ++ raw

pub read_function-Holds :
    (b : List ℕ) (at : ℕ) (m : FunctionMetadata) (raw : Text) (h : RuntimeErrorHandler)
    → RangeFits m.start_address m.end_address m.source_id
    → length raw < 2 ^ 31
    → Holds b at (range_bytes m.start_address m.end_address m.source_id ++ text_bytes raw)
    → read_function b at h
      ≡ walked (
        u32 (u32 (u32 (at + 10) + 4) + length raw),
        insert_function_metadata (function_entry m raw) h,
      )
unfolding read_function
read_function-Holds b at m raw h fits short holds =
    let range : List ℕ = range_bytes m.start_address m.end_address m.source_id in
    let (start, end_field, id) =
      range_read b at m.start_address m.end_address m.source_id fits
        (Holds-front b at range (text_bytes raw) holds) in
    let name : sized_text b (u32 (at + 10))
        ≡ walked (raw, u32 (u32 (u32 (at + 10) + 4) + length raw)) =
      sized_text-text b (u32 (at + 10)) raw short
        (Holds-behind b at 10 range (text_bytes raw) holds (length-range_bytes _ _ _)) in
    rw (start, end_field, id, name, read_function) refl

pub read_source-Holds :
    (b : List ℕ) (at id : ℕ) (raw : Text) (h : RuntimeErrorHandler)
    → id < 2 ^ 16
    → length raw < 2 ^ 31
    → Holds b at (bytes_of 2 id ++ text_bytes raw)
    → read_source b at h
      ≡ walked (u32 (u32 (u32 (at + 2) + 4) + length raw), insert_source id raw h)
unfolding read_source
read_source-Holds b at id raw h i short holds =
    let id_field : field 2 b at ≡ walked id =
      field_two b at id i (Holds-front b at (bytes_of 2 id) (text_bytes raw) holds) in
    let path : sized_text b (u32 (at + 2))
        ≡ walked (raw, u32 (u32 (u32 (at + 2) + 4) + length raw)) =
      sized_text-text b (u32 (at + 2)) raw short
        (Holds-behind b at 2 (bytes_of 2 id) (text_bytes raw) holds (length-bytes_of 2 id)) in
    rw (id_field, path, read_source) refl
