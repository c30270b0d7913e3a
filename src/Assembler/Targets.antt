-- ===== src/Assembler/Targets.antt =====
-- src/assembler/Assembler.cpp: labels of the code section, with the instructions that follow them.
use simple_virtual_language.Base.{
  ℕ, ◌+◌, ◌<◌, ◌≡◌, refl, ap, ◌∙◌, subst, Bool, true, false, not, List, [], ◌∷◌, ◌++◌, arith,
  and-true, length, length-append, get_or, get_or-append, get_or-append_front, append_assoc,
}
use simple_virtual_language.Base.Text.{Text}
use simple_virtual_language.Vm.State.{u32}
use simple_virtual_language.Assembler.Defs.{
  Instruction, Statement, code_section, data_section, metadata_section, metadata_source,
  metadata_function, metadata_line_table, instruction, label, method_def, data_def, section,
  source_metadata, function_metadata, line_table_metadata,
}
use simple_virtual_language.Assembler.Numbers.{done, ◌>>=◌, FloatText}
use simple_virtual_language.Assembler.Labels.{
  code_label, without_last, get_key, Layout, process_label_def,
}
use simple_virtual_language.Assembler.Layout.{process_statement, ends_layout, process_statements}
use simple_virtual_language.Assembler.Encode.{convert_instruction_to_bytes}
use simple_virtual_language.Assembler.Bytecode.{Emitted, push_back, emit_statement, emit_statements}
use simple_virtual_language.Assembler.Sizes.{
  code_size, data_size, metadata_size, total, sized, every,
}
use simple_virtual_language.Assembler.FirstPass.{Measured, process_statement-Measured}
use simple_virtual_language.Assembler.Emission.{
  Appends, statement_size, emit_statement-Appends, emit_statements-Appends,
}
use simple_virtual_language.Assembler.Resolve.{Found, defines, process_statements-Found}
use simple_virtual_language.Assembler.Yields.{Yields, Yields-bind, Yields-done, bind-done}

-- The statements of a code section.
unfoldable pub is_code : Statement → Bool
is_code (data_def d) = false
is_code (source_metadata m) = false
is_code (function_metadata m) = false
is_code (line_table_metadata m) = false
is_code s = not (ends_layout s)

-- Code is in front of the metadata, and takes no data.
code_goes_on : (s : Statement) → is_code s ≡ true → ends_layout s ≡ false
unfolding is_code
code_goes_on (data_def d) h = refl
code_goes_on (source_metadata m) h = refl
code_goes_on (function_metadata m) h = refl
code_goes_on (line_table_metadata m) h = refl
code_goes_on (label name) h = refl
code_goes_on (method_def m) h = refl
code_goes_on (instruction i) h = refl
code_goes_on (section code_section) h = refl
code_goes_on (section data_section) h = refl
code_goes_on (section metadata_section) h = cc
code_goes_on (section metadata_source) h = refl
code_goes_on (section metadata_function) h = refl
code_goes_on (section metadata_line_table) h = refl

code_only : (s : Statement) → is_code s ≡ true → statement_size s ≡ code_size s
unfolding is_code data_size metadata_size
code_only (data_def d) h = cc
code_only (source_metadata m) h = cc
code_only (function_metadata m) h = cc
code_only (line_table_metadata m) h = cc
code_only (label name) h = omega arith
code_only (method_def m) h = omega arith
code_only (instruction i) h = omega arith
code_only (section s) h = omega arith

-- A label behind code gets the length of that code as its address.
pub process_statements-label :
    (c d : ℕ) (before after : List Statement) (name : Text) (l : Layout)
    → every sized before ≡ true
    → every is_code before ≡ true
    → Measured c d l
    → Yields
        (Found (get_key code_label (without_last name)) (u32 (c + total code_size before)))
        (process_statements (before ++ label name ∷ after) l)
unfolding process_statements every total process_statement
process_statements-label c d [] after name l ok code m =
    let key = get_key code_label (without_last name) in
    let here : l.code_section_length ≡ u32 (c + 0) = omega (arith, m.code_length) in
    Yields-bind (Found key (u32 (c + 0))) (Found key (u32 (c + 0)))
      (process_label_def key l.code_section_length l) _
      (subst (λ (a : ℕ). Yields (Found key a) (process_label_def key l.code_section_length l)) here
        (defines key l.code_section_length l))
      (λ k hk. process_statements-Found key (u32 (c + 0)) after k hk)
process_statements-label c d (s ∷ before) after name l ok code m =
    let (ok_s, ok_before) = and-true (sized s) (every sized before) ok in
    let (code_s, code_before) = and-true (is_code s) (every is_code before) code in
    let key = get_key code_label (without_last name) in
    let a = u32 (c + (code_size s + total code_size before)) in
    let same : u32 (c + code_size s + total code_size before) ≡ a = omega arith in
    rw (code_goes_on s code_s, process_statements)
      (Yields-bind (Measured (c + code_size s) (d + data_size s)) (Found key a)
        (process_statement s l) _ (process_statement-Measured c d s l ok_s m)
        (λ k mk.
          subst
            (λ (b : ℕ). Yields (Found key b) (process_statements (before ++ label name ∷ after) k))
            same
            (process_statements-label (c + code_size s) (d + data_size s) before after name k
              ok_before code_before mk)))

-- The bytes of a statement of the file, from a position on.
abbrev pub HoldsAt : List ℕ → ℕ → List ℕ → Type 0
HoldsAt file position bytes =
    (k : ℕ) → k < length bytes → get_or file (position + k) 0 ≡ get_or bytes k 0

middle : (front bytes more : List ℕ) → HoldsAt (front ++ bytes ++ more) (length front) bytes
middle front bytes more k h =
    ap (λ (b : List ℕ). get_or b (length front + k) 0) (append_assoc front bytes more)
    ∙ get_or-append front (bytes ++ more) k 0
    ∙ get_or-append_front bytes more k 0 h

-- An encoded instruction that the file holds.
pub record Placed (text : FloatText) (table : List (Text × ℕ)) (i : Instruction) (file : List ℕ)
    (position : ℕ) : Type 0 where
  pub bytes : List ℕ
  pub encoded : convert_instruction_to_bytes text table i ≡ done bytes
  pub there : HoldsAt file position bytes

module _ (text : FloatText) (table : List (Text × ℕ)) (i : Instruction) (after : List Statement)
    (ok_after : every sized after ≡ true) where
  emit_here :
      (e e' : Emitted)
      → emit_statements text table (instruction i ∷ after) e ≡ done e'
      → Placed text table i e'.bytes (length e.bytes)
  unfolding emit_statements emit_statement
  emit_here e e' h =
      let (next, first, rest) =
        bind-done (do bytes ← convert_instruction_to_bytes text table i; done (push_back bytes e))
          (λ f. emit_statements text table after f) e' h in
      let (bytes, encoded, pushed) =
        bind-done (convert_instruction_to_bytes text table i) (λ bytes. done (push_back bytes e))
          next first in
      let is : next.bytes ≡ e.bytes ++ bytes =
        Yields-done (λ n. n.bytes ≡ e.bytes ++ bytes) (done (push_back bytes e)) next refl pushed in
      let a : Appends (total statement_size after) next e' =
        Yields-done (Appends (total statement_size after) next)
          (emit_statements text table after next) e'
          (emit_statements-Appends text table after next ok_after) rest in
      let all : e'.bytes ≡ e.bytes ++ bytes ++ a.more =
        a.behind ∙ ap (λ (b : List ℕ). b ++ a.more) is in
      record {
        bytes = bytes;
        encoded = encoded;
        there = λ k below.
            ap (λ (b : List ℕ). get_or b (length e.bytes + k) 0) all
            ∙ middle e.bytes bytes a.more k below;
      }

  pub emit_statements-Placed :
      (before : List Statement) (name : Text) (e e' : Emitted)
      → every sized before ≡ true
      → every is_code before ≡ true
      → emit_statements text table (before ++ label name ∷ instruction i ∷ after) e ≡ done e'
      → Placed text table i e'.bytes (length e.bytes + total code_size before)
  unfolding emit_statements emit_statement every total
  emit_statements-Placed [] name e e' ok code h =
      subst (λ (p : ℕ). Placed text table i e'.bytes p) (omega arith) (emit_here e e' h)
  emit_statements-Placed (s ∷ before) name e e' ok code h =
      let (ok_s, ok_before) = and-true (sized s) (every sized before) ok in
      let (code_s, code_before) = and-true (is_code s) (every is_code before) code in
      let (f, first, rest) =
        bind-done (emit_statement text table s e)
          (λ f. emit_statements text table (before ++ label name ∷ instruction i ∷ after) f) e' h in
      let a : Appends (statement_size s) e f =
        Yields-done (Appends (statement_size s) e) (emit_statement text table s e) f
          (emit_statement-Appends text table s e ok_s) first in
      let position : length f.bytes + total code_size before
          ≡ length e.bytes + (code_size s + total code_size before) =
        let size = ap (λ (b : List ℕ). length b) a.behind ∙ length-append e.bytes a.more in
        omega (arith, size, a.many, code_only s code_s) in
      subst (λ (p : ℕ). Placed text table i e'.bytes p) position
        (emit_statements-Placed before name f e' ok_before code_before rest)
