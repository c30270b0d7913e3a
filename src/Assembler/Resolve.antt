-- ===== src/Assembler/Resolve.antt =====
-- src/assembler/Assembler.cpp: the addresses of labels in the label table.
use simple_virtual_language.Base.{
  ℕ, ◌+◌, ◌≡◌, sym, ap, ◌∙◌, Bool, true, false, ◌||◌, List, [], ◌∷◌, some, Bool-cases, inl, inr,
  if_true, if_false, if◌then◌else◌,
}
use simple_virtual_language.Base.Text.{
  Text, same_text, same_text→≡, same_text_refl, find_text, has_text,
}
use simple_virtual_language.Vm.State.{u32}
use simple_virtual_language.Assembler.Defs.{
  OperandType, immediate_operand, string_operand, type_operand, data_type_operand,
  label_ref_operand, native_ref_operand, error_ref_operand, Operand, Data, Statement, instruction,
  label, method_def, data_def, section, source_metadata, function_metadata, line_table_metadata,
}
use simple_virtual_language.Assembler.Labels.{
  data_label, code_label, method_label, without_last, get_key, get_operand_label_type, Layout,
  contains, process_label_def, process_label_ref,
}
use simple_virtual_language.Assembler.Layout.{
  calculate_bytes_of_data, operand_length, type_after, grow_code, refer, process_operands,
  process_instruction, names_label, process_data, process_method_def, process_statement,
  ends_layout, process_statements,
}
use simple_virtual_language.Assembler.Yields.{Yields, Yields-bind, Yields-any}

-- A label with its address.
abbrev pub Found : Text → ℕ → Layout → Type 0
Found key a l = find_text key l.label_table ≡ some a

has_text-find_text :
    (key : Text) (a : ℕ) (table : List (Text × ℕ))
    → find_text key table ≡ some a
    → has_text key table ≡ true
unfolding find_text has_text
has_text-find_text key a [] h = cc
has_text-find_text key a ((k, v) ∷ table) h = elim (Bool-cases (same_text k key)) [
  | inl same ↦ if_true (same_text k key) true (has_text key table) same
  | inr other ↦
      if_false (same_text k key) true (has_text key table) other
      ∙ has_text-find_text key a table
          (sym (if_false (same_text k key) (some v) (find_text key table) other) ∙ h)
]

-- A new key hides no other one.
find_text-cons :
    (key new : Text) (a b : ℕ) (table : List (Text × ℕ))
    → has_text new table ≡ false
    → find_text key table ≡ some a
    → find_text key ((new, b) ∷ table) ≡ some a
unfolding find_text
find_text-cons key new a b table fresh h = elim (Bool-cases (same_text new key)) [
  | inl same ↦
      let found : has_text new table ≡ true =
        ap (λ (t : Text). has_text t table) (same_text→≡ new key same)
        ∙ has_text-find_text key a table h in
      cc
  | inr other ↦ if_false (same_text new key) (some b) (find_text key table) other ∙ h
]

process_label_def-Found :
    (key new : Text) (a b : ℕ) (l : Layout)
    → Found key a l
    → Yields (Found key a) (process_label_def new b l)
unfolding process_label_def
process_label_def-Found key new a b l h = elim (Bool-cases (has_text new l.label_table)) [
  | inl defined ↦ rw (defined, process_label_def) tt
  | inr fresh ↦ rw (fresh, process_label_def) (find_text-cons key new a b l.label_table fresh h)
]

pub defines : (key : Text) (a : ℕ) (l : Layout) → Yields (Found key a) (process_label_def key a l)
unfolding process_label_def find_text
defines key a l = elim (Bool-cases (has_text key l.label_table)) [
  | inl defined ↦ rw (defined, process_label_def) tt
  | inr fresh ↦
      rw (fresh, process_label_def)
        (if_true (same_text key key) (some a) (find_text key l.label_table) (same_text_refl key))
]

process_label_ref-Found :
    (key new : Text) (a : ℕ) (l : Layout) → Found key a l → Found key a (process_label_ref new l)
unfolding process_label_ref
process_label_ref-Found key new a l h =
    elim (has_text new l.label_table || contains new l.unhandled_label_refs)
      as (λ b.
        Found key a
          (if b then l else record l { unhandled_label_refs = new ∷ l.unhandled_label_refs })) [
            | Bool.true ↦ h
            | Bool.false ↦ h
          ]

refer-Found :
    (key m : Text) (a : ℕ) (t : OperandType) (name : Text) (l : Layout)
    → Found key a l
    → Found key a (refer m t name l)
unfolding refer
refer-Found key m a label_ref_operand name l h =
    process_label_ref-Found key (get_key (get_operand_label_type m) name) a l h
refer-Found key m a immediate_operand name l h = h
refer-Found key m a string_operand name l h = h
refer-Found key m a type_operand name l h = h
refer-Found key m a data_type_operand name l h = h
refer-Found key m a native_ref_operand name l h = h
refer-Found key m a error_ref_operand name l h = h

process_operands-Found :
    (key m t : Text) (a : ℕ) (os : List Operand) (l : Layout)
    → Found key a l
    → Found key a (process_operands m t os l)
unfolding process_operands
process_operands-Found key m t a [] l h = h
process_operands-Found key m t a (o ∷ os) l h =
    process_operands-Found key m (type_after t o) a os
      (grow_code (operand_length m t o.type) (refer m o.type o.value l))
      (refer-Found key m a o.type o.value l h)

if-Found :
    (key : Text) (a : ℕ) (b : Bool) (l k : Layout)
    → Found key a l
    → Found key a k
    → Found key a (if b then l else k)
if-Found key a true l k hl hk = hl
if-Found key a false l k hl hk = hk

process_data-Found :
    (key : Text) (a b : ℕ) (d : Data) (l : Layout)
    → Found key a l
    → Yields (Found key a) (process_data d b l)
unfolding process_data
process_data-Found key a b d l h =
    Yields-bind (Found key a) (Found key a)
      (process_label_def (get_key data_label (without_last d.name)) b l) _
      (process_label_def-Found key (get_key data_label (without_last d.name)) a b l h)
      (λ k hk. Yields-any (Found key a) (calculate_bytes_of_data d) _ (λ n.
        if-Found key a (names_label d) (process_label_ref (get_key data_label d.value) k) k
          (process_label_ref-Found key (get_key data_label d.value) a k hk) hk))

-- A statement changes no address in the table.
process_statement-Found :
    (key : Text) (a : ℕ) (s : Statement) (l : Layout)
    → Found key a l
    → Yields (Found key a) (process_statement s l)
unfolding process_statement process_method_def process_instruction
process_statement-Found key a (label name) l h =
    process_label_def-Found key (get_key code_label (without_last name)) a l.code_section_length l h
process_statement-Found key a (method_def m) l h =
    Yields-bind (Found key a) (Found key a)
      (process_label_def (get_key method_label (without_last m.name)) l.code_section_length l) _
      (process_label_def-Found key (get_key method_label (without_last m.name)) a
        l.code_section_length l h)
      (λ k hk. hk)
process_statement-Found key a (instruction i) l h =
    process_operands-Found key i.opcode [] a i.operands (grow_code 1 l) h
process_statement-Found key a (data_def d) l h =
    process_data-Found key a (u32 (l.code_section_length + l.data_section_length + 1)) d l h
process_statement-Found key a (section s) l h = h
process_statement-Found key a (source_metadata m) l h = tt
process_statement-Found key a (function_metadata m) l h = tt
process_statement-Found key a (line_table_metadata m) l h = tt

pub process_statements-Found :
    (key : Text) (a : ℕ) (ss : List Statement) (l : Layout)
    → Found key a l
    → Yields (Found key a) (process_statements ss l)
unfolding process_statements
process_statements-Found key a [] l h = h
process_statements-Found key a (s ∷ ss) l h = elim (Bool-cases (ends_layout s)) [
  | inl ends ↦ rw (ends, process_statements) h
  | inr goes_on ↦
      rw (goes_on, process_statements)
        (Yields-bind (Found key a) (Found key a) (process_statement s l) _
          (process_statement-Found key a s l h) (λ k hk. process_statements-Found key a ss k hk))
]
