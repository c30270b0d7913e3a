-- ===== src/Assembler/FirstPass.antt =====
-- src/assembler/Assembler.cpp: the lengths that `constructLabelTable` adds up.
use simple_virtual_language.Base.{
  ℕ, ◌+◌, ◌%◌, ◌≡◌, refl, ap, ◌∙◌, Bool, true, false, ◌||◌, List, [], ◌∷◌, if◌then◌else◌, arith,
  inl, inr, Bool-cases, and-true,
}
use simple_virtual_language.Base.Text.{Text, has_text}
use simple_virtual_language.Vm.State.{u32}
use simple_virtual_language.Assembler.Defs.{
  OperandType, immediate_operand, string_operand, type_operand, data_type_operand,
  label_ref_operand, native_ref_operand, error_ref_operand, Operand, Instruction, Data, Statement,
  instruction, label, method_def, data_def, section, source_metadata, function_metadata,
  line_table_metadata,
}
use simple_virtual_language.Assembler.Labels.{
  without_last, data_label, code_label, method_label, get_key, get_operand_label_type, Layout,
  contains, process_label_def, process_label_ref,
}
use simple_virtual_language.Assembler.Layout.{
  calculate_bytes_of_data, operand_length, type_after, grow_code, refer, process_operands,
  process_instruction, names_label, process_data, process_method_def, process_statement,
  process_statements, ends_layout,
}
use simple_virtual_language.Assembler.Sizes.{
  operands_size, instruction_size, code_size, datum_size, data_size, total, program_part,
  quoted_datum, sized_datum, sized, every,
}
use simple_virtual_language.Assembler.Yields.{Yields, Yields-bind, Yields-mono}
use simple_virtual_language.Assembler.DatumSize.{calculate_bytes_of_data-datum_size, small_datum}

-- The two lengths of a layout, modulo 2 ^ 32.
pub record Measured (code_total data_total : ℕ) (layout : Layout) : Type 0 where
  pub code_length : layout.code_section_length ≡ u32 code_total
  pub data_length : layout.data_section_length ≡ u32 data_total

if-Measured :
    (b : Bool) (l k : Layout) (c d : ℕ)
    → Measured c d l
    → Measured c d k
    → Measured c d (if b then l else k)
if-Measured true l k c d ml mk = ml
if-Measured false l k c d ml mk = mk

recount : (c d c' d' : ℕ) (l : Layout) → c ≡ c' → d ≡ d' → Measured c d l → Measured c' d' l
recount c d c' d' l ec ed m = record {
  code_length = m.code_length ∙ ap u32 ec;
  data_length = m.data_length ∙ ap u32 ed;
}

process_label_ref-Measured :
    (c d : ℕ) (key : Text) (l : Layout) → Measured c d l → Measured c d (process_label_ref key l)
unfolding process_label_ref
process_label_ref-Measured c d key l m =
    if-Measured (has_text key l.label_table || contains key l.unhandled_label_refs) l
      (record l { unhandled_label_refs = key ∷ l.unhandled_label_refs }) c d m
      (record { code_length = m.code_length; data_length = m.data_length })

refer-Measured :
    (c d : ℕ) (mnemonic : Text) (t : OperandType) (name : Text) (l : Layout)
    → Measured c d l
    → Measured c d (refer mnemonic t name l)
unfolding refer
refer-Measured c d mnemonic label_ref_operand name l m =
    process_label_ref-Measured c d (get_key (get_operand_label_type mnemonic) name) l m
refer-Measured c d mnemonic immediate_operand name l m = m
refer-Measured c d mnemonic string_operand name l m = m
refer-Measured c d mnemonic type_operand name l m = m
refer-Measured c d mnemonic data_type_operand name l m = m
refer-Measured c d mnemonic native_ref_operand name l m = m
refer-Measured c d mnemonic error_ref_operand name l m = m

grow_code-Measured : (c d n : ℕ) (l : Layout) → Measured c d l → Measured (c + n) d (grow_code n l)
grow_code-Measured c d n l m = record {
  code_length = omega (arith, m.code_length);
  data_length = m.data_length;
}

process_operands-Measured :
    (c d : ℕ) (mnemonic t : Text) (os : List Operand) (l : Layout)
    → Measured c d l
    → Measured (c + operands_size mnemonic t os) d (process_operands mnemonic t os l)
unfolding process_operands operands_size
process_operands-Measured c d mnemonic t [] l m = recount c d (c + 0) d l (omega arith) refl m
process_operands-Measured c d mnemonic t (o ∷ os) l m =
    let n = operand_length mnemonic t o.type in
    let rest = operands_size mnemonic (type_after t o) os in
    let next = grow_code n (refer mnemonic o.type o.value l) in
    recount (c + n + rest) d (c + (n + rest)) d (process_operands mnemonic (type_after t o) os next)
      (omega arith) refl
      (process_operands-Measured (c + n) d mnemonic (type_after t o) os next (
        grow_code-Measured c d n (refer mnemonic o.type o.value l)
          (refer-Measured c d mnemonic o.type o.value l m)))

pub process_instruction-Measured :
    (c d : ℕ) (i : Instruction) (l : Layout)
    → Measured c d l
    → Measured (c + instruction_size i) d (process_instruction i l)
unfolding process_instruction instruction_size
process_instruction-Measured c d i l m =
    let rest = operands_size i.opcode [] i.operands in
    recount (c + 1 + rest) d (c + (1 + rest)) d (process_instruction i l) (omega arith) refl (
      process_operands-Measured (c + 1) d i.opcode [] i.operands (grow_code 1 l)
        (grow_code-Measured c d 1 l m))

process_label_def-Measured :
    (c d a : ℕ) (key : Text) (l : Layout)
    → Measured c d l
    → Yields (Measured c d) (process_label_def key a l)
unfolding process_label_def
process_label_def-Measured c d a key l m = elim (Bool-cases (has_text key l.label_table)) [
  | inl defined ↦ rw (defined, process_label_def) tt
  | inr new ↦
      rw (new, process_label_def)
        (record { code_length = m.code_length; data_length = m.data_length })
]

grow_data-Measured :
    (c d n x : ℕ) (l : Layout)
    → x ≡ n
    → Measured c d l
    → Measured c (d + n) (record l { data_section_length = u32 (l.data_section_length + x) })
grow_data-Measured c d n x l is m = record {
  code_length = m.code_length;
  data_length = omega (arith, m.data_length, is);
}

process_data-Measured :
    (c n a : ℕ) (d : Data) (l : Layout)
    → sized_datum d ≡ true
    → Measured c n l
    → Yields (Measured c (n + datum_size d)) (process_data d a l)
unfolding process_data sized_datum
process_data-Measured c n a d l ok m =
    Yields-bind (Measured c n) (Measured c (n + datum_size d))
      (process_label_def (get_key data_label (without_last d.name)) a l) _
      (process_label_def-Measured c n a (get_key data_label (without_last d.name)) l m)
      (λ k mk.
        Yields-bind (λ x. x ≡ datum_size d % 256) (Measured c (n + datum_size d))
          (calculate_bytes_of_data d) _
          (calculate_bytes_of_data-datum_size d (and-true (quoted_datum d) _ ok).0)
          (λ x is.
            grow_data-Measured c n (datum_size d) x
              (if names_label d then process_label_ref (get_key data_label d.value) k else k)
              (is ∙ small_datum d ok)
              (if-Measured (names_label d) (process_label_ref (get_key data_label d.value) k) k c n
                (process_label_ref-Measured c n (get_key data_label d.value) k mk) mk)))

-- A statement adds its sizes to the two lengths.
pub process_statement-Measured :
    (c d : ℕ) (s : Statement) (l : Layout)
    → sized s ≡ true
    → Measured c d l
    → Yields (Measured (c + code_size s) (d + data_size s)) (process_statement s l)
unfolding process_statement process_method_def sized code_size data_size
process_statement-Measured c d (label name) l ok m =
    Yields-mono (Measured c d) (Measured (c + 0) (d + 0))
      (process_label_def (get_key code_label (without_last name)) l.code_section_length l)
      (λ k mk. recount c d (c + 0) (d + 0) k (omega arith) (omega arith) mk)
      (process_label_def-Measured c d l.code_section_length (get_key code_label (without_last name))
        l m)
process_statement-Measured c d (method_def f) l ok m =
    Yields-bind (Measured c d) (Measured (c + 5) (d + 0))
      (process_label_def (get_key method_label (without_last f.name)) l.code_section_length l) _
      (process_label_def-Measured c d l.code_section_length
        (get_key method_label (without_last f.name)) l m)
      (λ k mk.
        recount (c + 5) d (c + 5) (d + 0) (grow_code 5 k) refl (omega arith)
          (grow_code-Measured c d 5 k mk))
process_statement-Measured c d (instruction i) l ok m =
    recount (c + instruction_size i) d (c + instruction_size i) (d + 0) (process_instruction i l)
      refl (omega arith) (process_instruction-Measured c d i l m)
process_statement-Measured c d (data_def e) l ok m =
    Yields-mono (Measured c (d + datum_size e)) (Measured (c + 0) (d + datum_size e))
      (process_data e (u32 (l.code_section_length + l.data_section_length + 1)) l)
      (λ k mk. recount c (d + datum_size e) (c + 0) (d + datum_size e) k (omega arith) refl mk)
      (process_data-Measured c d (u32 (l.code_section_length + l.data_section_length + 1)) e l ok m)
process_statement-Measured c d (section s) l ok m =
    recount c d (c + 0) (d + 0) l (omega arith) (omega arith) m
process_statement-Measured c d (source_metadata x) l ok m = tt
process_statement-Measured c d (function_metadata x) l ok m = tt
process_statement-Measured c d (line_table_metadata x) l ok m = tt

pub process_statements-Measured :
    (c d : ℕ) (ss : List Statement) (l : Layout)
    → every sized ss ≡ true
    → Measured c d l
    → Yields
        (Measured (c + total code_size (program_part ss)) (d + total data_size (program_part ss)))
        (process_statements ss l)
unfolding process_statements program_part total every
process_statements-Measured c d [] l ok m =
    recount c d (c + 0) (d + 0) l (omega arith) (omega arith) m
process_statements-Measured c d (s ∷ ss) l ok m = elim (Bool-cases (ends_layout s)) [
  | inl ends ↦
      rw (ends, program_part, process_statements)
        (recount c d (c + 0) (d + 0) l (omega arith) (omega arith) m)
  | inr goes_on ↦
      let (ok_s, ok_ss) = and-true (sized s) (every sized ss) ok in
      let c' = c + code_size s in
      let d' = d + data_size s in
      let code_rest = total code_size (program_part ss) in
      let data_rest = total data_size (program_part ss) in
      rw (goes_on, program_part, process_statements)
        (Yields-bind (Measured c' d')
          (Measured (c + (code_size s + code_rest)) (d + (data_size s + data_rest)))
          (process_statement s l) (λ next. process_statements ss next)
          (process_statement-Measured c d s l ok_s m)
          (λ k mk.
            Yields-mono (Measured (c' + code_rest) (d' + data_rest))
              (Measured (c + (code_size s + code_rest)) (d + (data_size s + data_rest)))
              (process_statements ss k)
              (λ j mj.
                recount (c' + code_rest) (d' + data_rest) _ _ j (omega arith) (omega arith) mj)
              (process_statements-Measured c' d' ss k ok_ss mk)))
]
