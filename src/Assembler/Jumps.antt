-- ===== src/Assembler/Jumps.antt =====
-- src/assembler/Assembler.cpp: what a jump to a label of the code section reaches.
use simple_virtual_language.Base.{
  ℕ, ◌+◌, ◌%◌, ◌^◌, ◌<◌, ◌≡◌, refl, sym, ap, ◌∙◌, subst, true, List, [], ◌∷◌, ◌++◌, some, arith,
  length, get_or,
}
use simple_virtual_language.Base.Text.{Text, find_text}
use simple_virtual_language.Vm.State.{u32}
use simple_virtual_language.Vm.Start.Loaded.{file_byte}
use simple_virtual_language.Assembler.Defs.{Instruction, Statement, instruction, label}
use simple_virtual_language.Assembler.Numbers.{done, failed, assembler_error, FloatText}
use simple_virtual_language.Assembler.Labels.{code_label, without_last, get_key, Layout}
use simple_virtual_language.Assembler.Layout.{
  process_statements, all_handled, construct_label_table, empty_layout, code_end_location,
  data_end_location,
}
use simple_virtual_language.Assembler.Encode.{convert_instruction_to_bytes}
use simple_virtual_language.Assembler.Bytecode.{
  Emitted, header, patch_header, emit_statements, generate_bytecode, assemble_statements,
}
use simple_virtual_language.Assembler.Sizes.{code_size, total, sized, every}
use simple_virtual_language.Assembler.Header.{length-header, get_or-patch_header}
use simple_virtual_language.Assembler.Resolve.{Found}
use simple_virtual_language.Assembler.Targets.{
  is_code, Placed, process_statements-label, emit_statements-Placed,
}
use simple_virtual_language.Assembler.Yields.{Yields, Yields-bind, Yields-done, bind-done}

all_handled-same : (P : Layout → Type 0) (l : Layout) → P l → Yields P (all_handled l)
unfolding all_handled
all_handled-same P l p =
    elim l.unhandled_label_refs
      as (λ refs. Yields P (elim refs [ [] ↦ done l | _ ↦ failed assembler_error ])) [
        | [] ↦ p
        | k ∷ ks ↦ tt
      ]

-- A label of the table, and the instruction that the file holds at its address.
pub record Resolved (text : FloatText) (name : Text) (address : ℕ) (i : Instruction) (file : List ℕ)
    (l : Layout) : Type 0 where
  pub found : find_text (get_key code_label (without_last name)) l.label_table ≡ some address
  pub bytes : List ℕ
  pub encoded : convert_instruction_to_bytes text l.label_table i ≡ done bytes
  pub same_bytes :
      (k : ℕ) → k < length bytes → file_byte file (address + k) ≡ get_or bytes k 0 % 256

module _ (text : FloatText) (before after : List Statement) (name : Text) (i : Instruction)
    (ok_before : every sized before ≡ true) (ok_after : every sized after ≡ true)
    (code_before : every is_code before ≡ true) (fits : total code_size before < 2 ^ 32) where
  abbrev pub with_label : List Statement
  with_label = before ++ label name ∷ instruction i ∷ after

  in_table :
      Yields
        (Found (get_key code_label (without_last name)) (total code_size before))
        (construct_label_table with_label)
  unfolding construct_label_table
  in_table =
      let key = get_key code_label (without_last name) in
      let a = total code_size before in
      let same : u32 (0 + a) ≡ a = omega arith in
      Yields-bind (Found key a) (Found key a) (process_statements with_label empty_layout) _
        (subst (λ (b : ℕ). Yields (Found key b) (process_statements with_label empty_layout)) same
          (process_statements-label 0 0 before (instruction i ∷ after) name empty_layout ok_before
            code_before (record { code_length = refl; data_length = refl })))
        (λ l hl. all_handled-same (Found key a) l hl)

  in_file :
      (l : Layout) (file : List ℕ)
      → generate_bytecode text with_label l ≡ done file
      → Placed text l.label_table i file (20 + total code_size before)
  unfolding generate_bytecode
  in_file l file h =
      let c = code_end_location l in
      let d = data_end_location l in
      let e0 : Emitted = record {
        bytes = header c d;
        source_metadata_length = 0;
        function_metadata_length = 0;
        line_table_metadata_length = 0;
      } in
      let (e, emitted, patched) =
        bind-done (emit_statements text l.label_table with_label e0) (λ e. done (patch_header d e))
          file h in
      let p =
        emit_statements-Placed text l.label_table i after ok_after before name e0 e ok_before
          code_before emitted in
      let is : file ≡ patch_header d e =
        Yields-done (λ f. f ≡ patch_header d e) (done (patch_header d e)) file refl patched in
      let a = total code_size before in
      let start : length e0.bytes ≡ 20 = length-header c d in
      record {
        bytes = p.bytes;
        encoded = p.encoded;
        there = λ k below.
            ap (λ (f : List ℕ). get_or f (20 + a + k) 0) is
            ∙ get_or-patch_header d (20 + a + k) e (omega arith)
            ∙ ap (λ (n : ℕ). get_or e.bytes (n + a + k) 0) (sym start)
            ∙ p.there k below;
      }

  -- When statements with operands of known size assemble to a file, a label with only code in front of it
  -- is in the table with the length of that code as its address, and from that address on the file holds
  -- the encoding of the instruction behind the label.
  pub label-Resolved :
      (file : List ℕ)
      → assemble_statements text with_label ≡ done file
      → (l : Layout) × (construct_label_table with_label ≡ done l)
        × Resolved text name (total code_size before) i file l
  unfolding assemble_statements
  label-Resolved file h =
      let a = total code_size before in
      let (l, laid_out, generated) =
        bind-done (construct_label_table with_label) (λ l. generate_bytecode text with_label l) file
          h in
      let p = in_file l file generated in
      (
        l,
        laid_out,
        record {
          found =
              Yields-done (Found (get_key code_label (without_last name)) a)
                (construct_label_table with_label) l in_table laid_out;
          bytes = p.bytes;
          encoded = p.encoded;
          same_bytes = λ k below.
              let position : 20 + (a + k) ≡ 20 + a + k = omega arith in
              ap (λ (p : ℕ). get_or file p 0 % 256) position
              ∙ ap (λ (b : ℕ). b % 256) (p.there k below);
        },
      )
