-- ===== src/Assembler/Emission.antt =====
-- src/assembler/Assembler.cpp: what `generateBytecode` appends, statement by statement.
use simple_virtual_language.Base.{
  ℕ, ◌+◌, ◌-◌, ◌≡◌, refl, sym, ap, ◌∙◌, true, List, [], ◌∷◌, ◌++◌, arith, and-true, length,
  length-append, append-nil, append_assoc, subst, leb,
}
use simple_virtual_language.Base.Text.{Text}
use simple_virtual_language.Assembler.Defs.{
  Statement, instruction, label, method_def, data_def, section, SourceMetadata, FunctionMetadata,
  LineTableMetadata, source_metadata, function_metadata, line_table_metadata,
}
use simple_virtual_language.Assembler.Numbers.{Result, done, ◌>>=◌, FloatText}
use simple_virtual_language.Assembler.Encode.{
  bytes_loop, bytes_of, convert_string_to_bytes, convert_instruction_to_bytes,
  convert_data_statement_to_bytes, convert_method_def_to_bytes,
}
use simple_virtual_language.Assembler.Bytecode.{
  Emitted, push_back, convert_source_metadata, convert_function_metadata,
  convert_line_table_metadata, emit_statement, emit_statements,
}
use simple_virtual_language.Assembler.Sizes.{
  instruction_size, code_size, datum_size, data_size, metadata_size, total, quoted_datum,
  sized_datum, sized, every,
}
use simple_virtual_language.Assembler.SecondPass.{Bytes, length-bytes_of}
use simple_virtual_language.Assembler.Yields.{Yields, Yields-bind, Yields-mono}
use simple_virtual_language.Assembler.Operands.{
  convert_string_to_bytes-Bytes, convert_instruction_to_bytes-Bytes,
  convert_data_statement_to_bytes-Bytes,
}

-- The bytes so far, and `n` more behind them.
pub record Appends (n : ℕ) (e e' : Emitted) : Type 0 where
  pub more : List ℕ
  pub behind : e'.bytes ≡ e.bytes ++ more
  pub many : length more ≡ n

appended :
    (n : ℕ) (bytes : List ℕ) (e : Emitted) → length bytes ≡ n → Appends n e (push_back bytes e)
appended n bytes e h = record { more = bytes; behind = refl; many = h }

no_more : (e e' : Emitted) → e'.bytes ≡ e.bytes → Appends 0 e e'
no_more e e' same = record { more = []; behind = same ∙ sym (append-nil e.bytes); many = refl }

appended_result :
    (n : ℕ) (r : Result (List ℕ)) (e : Emitted)
    → Bytes n r
    → Yields (Appends n e) (do bytes ← r; done (push_back bytes e))
appended_result n r e h =
    Yields-bind (λ b. length b ≡ n) (Appends n e) r _ h (λ bytes is. appended n bytes e is)

widen : (m n : ℕ) (r : Result (List ℕ)) → m ≡ n → Bytes m r → Bytes n r
widen m n r is h = subst (λ (k : ℕ). Bytes k r) is h

resize :
    (m n : ℕ) (r : Result Emitted) (e : Emitted)
    → m ≡ n
    → Yields (Appends m e) r
    → Yields (Appends n e) r
resize m n r e is h = subst (λ (k : ℕ). Yields (Appends k e) r) is h

pub then_more : (m n : ℕ) (e f g : Emitted) → Appends m e f → Appends n f g → Appends (m + n) e g
then_more m n e f g a b = record {
  more = a.more ++ b.more;
  behind =
      b.behind ∙ ap (λ (x : List ℕ). x ++ b.more) a.behind ∙ append_assoc e.bytes a.more b.more;
  many = omega (arith, length-append a.more b.more, a.many, b.many);
}

source_metadata-Appends :
    (m : SourceMetadata) (e : Emitted)
    → leb 2 (length m.path) ≡ true
    → Yields (Appends (6 + (length m.path - 2)) e) (convert_source_metadata m e)
unfolding convert_source_metadata
source_metadata-Appends m e h =
    Yields-bind (λ b. length b ≡ 4 + (length m.path - 2)) (Appends (6 + (length m.path - 2)) e)
      (convert_string_to_bytes m.path) _ (convert_string_to_bytes-Bytes m.path h)
      (λ path is. record {
        more = bytes_of 2 m.source_id ++ path;
        behind = refl;
        many =
            omega (
              arith,
              length-append (bytes_of 2 m.source_id) path,
              length-bytes_of 2 m.source_id,
              is,
            );
      })

function_metadata-Appends :
    (m : FunctionMetadata) (e : Emitted)
    → leb 2 (length m.name) ≡ true
    → Yields (Appends (14 + (length m.name - 2)) e) (convert_function_metadata m e)
unfolding convert_function_metadata bytes_of bytes_loop
function_metadata-Appends m e h =
    Yields-bind (λ b. length b ≡ 4 + (length m.name - 2)) (Appends (14 + (length m.name - 2)) e)
      (convert_string_to_bytes m.name) _ (convert_string_to_bytes-Bytes m.name h)
      (λ name is. record {
        more =
            bytes_of 4 m.start_address
            ++ bytes_of 4 m.end_address
            ++ bytes_of 2 m.source_id
            ++ name;
        behind = refl;
        many = omega (arith, is);
      })

line_table_metadata-Appends :
    (m : LineTableMetadata) (e : Emitted) → Appends 16 e (convert_line_table_metadata m e)
unfolding convert_line_table_metadata bytes_of bytes_loop
line_table_metadata-Appends m e = record {
  more =
      bytes_of 4 m.start_address
      ++ bytes_of 4 m.end_address
      ++ bytes_of 2 m.source_id
      ++ bytes_of 4 m.line
      ++ bytes_of 2 m.column;
  behind = refl;
  many = refl;
}

abbrev pub statement_size : Statement → ℕ
statement_size s = code_size s + data_size s + metadata_size s

module _ (text : FloatText) (label_table : List (Text × ℕ)) where
  pub emit_statement-Appends :
      (s : Statement) (e : Emitted)
      → sized s ≡ true
      → Yields (Appends (statement_size s) e) (emit_statement text label_table s e)
  unfolding emit_statement sized sized_datum code_size data_size metadata_size
  emit_statement-Appends (label name) e h = no_more e e refl
  emit_statement-Appends (method_def m) e h = appended 5 (convert_method_def_to_bytes m) e refl
  emit_statement-Appends (instruction i) e h =
      let n = instruction_size i in
      appended_result (n + 0 + 0) (convert_instruction_to_bytes text label_table i) e (
        widen n (n + 0 + 0) (convert_instruction_to_bytes text label_table i) (omega arith)
          (convert_instruction_to_bytes-Bytes text label_table i h))
  emit_statement-Appends (data_def d) e h =
      let n = datum_size d in
      appended_result (0 + n + 0) (convert_data_statement_to_bytes text label_table d) e (
        widen n (0 + n + 0) (convert_data_statement_to_bytes text label_table d) (omega arith) (
          convert_data_statement_to_bytes-Bytes text label_table d
            (and-true (quoted_datum d) _ h).0))
  emit_statement-Appends (section s) e h = no_more e e refl
  emit_statement-Appends (source_metadata m) e h =
      resize (6 + (length m.path - 2)) _ (convert_source_metadata m e) e (omega arith)
        (source_metadata-Appends m e h)
  emit_statement-Appends (function_metadata m) e h =
      resize (14 + (length m.name - 2)) _ (convert_function_metadata m e) e (omega arith)
        (function_metadata-Appends m e h)
  emit_statement-Appends (line_table_metadata m) e h = line_table_metadata-Appends m e

  -- The bytes of the statements go behind those that are there, and are as many as their sizes say.
  pub emit_statements-Appends :
      (ss : List Statement) (e : Emitted)
      → every sized ss ≡ true
      → Yields (Appends (total statement_size ss) e) (emit_statements text label_table ss e)
  unfolding emit_statements every total
  emit_statements-Appends [] e h = no_more e e refl
  emit_statements-Appends (s ∷ ss) e h =
      let (here, after) = and-true (sized s) (every sized ss) h in
      let n = statement_size s in
      let rest = total statement_size ss in
      Yields-bind (Appends n e) (Appends (n + rest) e) (emit_statement text label_table s e) _
        (emit_statement-Appends s e here)
        (λ f a.
          Yields-mono (Appends rest f) (Appends (n + rest) e)
            (emit_statements text label_table ss f) (λ g b. then_more n rest e f g a b)
            (emit_statements-Appends ss f after))
