-- ===== src/Assembler/Layout.antt =====
-- src/assembler/Assembler.cpp: the first pass, `constructLabelTable`, which adds up the lengths of the
-- statements and gives every label its address.
use simple_virtual_language.Base.{
  ℕ, ◌+◌, ◌-◌, ◌%◌, ◌^◌, Bool, ◌||◌, ◌&&◌, List, [], ◌∷◌, if◌then◌else◌, length, ◌==◌, get_or,
}
use simple_virtual_language.Base.Text.{Text, codes, same_text}
use simple_virtual_language.Vm.State.{u32}
use simple_virtual_language.Assembler.Defs.{
  metadata_section, OperandType, immediate_operand, string_operand, type_operand, data_type_operand,
  label_ref_operand, native_ref_operand, error_ref_operand, Operand, Instruction, MethodDef, Data,
  Statement, instruction, label, method_def, data_def, section,
}
use simple_virtual_language.Assembler.Numbers.{
  Result, done, failed, assembler_error, out_of_range, bad_variant_access, ◌>>=◌,
}
use simple_virtual_language.Assembler.Labels.{
  code_label, method_label, data_label, get_key, without_last, get_operand_label_type, Layout,
  process_label_def, process_label_ref,
}

abbrev pub bytecode_header_length : ℕ
bytecode_header_length = 20

unfoldable pub calculate_bytes_from_type : Text → ℕ
unfolding same_text
calculate_bytes_from_type t =
    if same_text t (codes "i64") || same_text t (codes "ui64") || same_text t (codes "f64")
    then 8
    else 4

-- `value.substr(1, value.size() - 2)`, without the quotation marks.
unfoldable pub unquoted : Text → Result Text
unfolding without_last
unquoted [] = failed out_of_range
unquoted (c ∷ s) = done (without_last s)

-- The length is a `uint8_t`.
unfoldable pub calculate_bytes_of_data : Data → Result ℕ
unfolding same_text unquoted calculate_bytes_from_type
calculate_bytes_of_data d =
    if same_text d.type (codes "str")
    then (do raw ← unquoted d.value; done ((1 + 4 + length raw) % 256))
    else done (1 + calculate_bytes_from_type d.type)

-- What an immediate operand adds, behind the type that was read before it.
unfoldable pub immediate_length : Text → Text → ℕ
unfolding same_text calculate_bytes_from_type
immediate_length mnemonic t =
    if same_text mnemonic (codes "dup")
      || same_text mnemonic (codes "rotD")
      || same_text mnemonic (codes "rotU")
    then 2
    else if same_text mnemonic (codes "loadL") || same_text mnemonic (codes "storeL")
    then 4
    else calculate_bytes_from_type t

-- What one operand adds to the length of the code.
unfoldable pub operand_length : Text → Text → OperandType → ℕ
unfolding immediate_length
operand_length mnemonic t type_operand = 1
operand_length mnemonic t label_ref_operand = 4
operand_length mnemonic t string_operand = 4
operand_length mnemonic t immediate_operand = immediate_length mnemonic t
operand_length mnemonic t native_ref_operand = 1
operand_length mnemonic t error_ref_operand = 1
operand_length mnemonic t data_type_operand = 0

-- The type after an operand.
abbrev pub type_after : Text → Operand → Text
type_after t o = elim o.type [ type_operand ↦ o.value | _ ↦ t ]

abbrev pub grow_code : ℕ → Layout → Layout
grow_code n layout = record layout { code_section_length = u32 (layout.code_section_length + n) }

-- The label that an operand refers to, if it does.
unfoldable pub refer : Text → OperandType → Text → Layout → Layout
unfolding process_label_ref get_key get_operand_label_type
refer mnemonic label_ref_operand name layout =
    process_label_ref (get_key (get_operand_label_type mnemonic) name) layout
refer mnemonic other name layout = layout

unfoldable pub process_operands : Text → Text → List Operand → Layout → Layout
unfolding refer operand_length
process_operands mnemonic t [] layout = layout
process_operands mnemonic t (o ∷ os) layout =
    process_operands mnemonic (type_after t o) os
      (grow_code (operand_length mnemonic t o.type) (refer mnemonic o.type o.value layout))

unfoldable pub process_instruction : Instruction → Layout → Layout
unfolding process_operands
process_instruction i layout = process_operands i.opcode [] i.operands (grow_code 1 layout)

-- A `ptr` that names a label. `value[0]` of an empty text is a zero byte.
unfoldable pub names_label : Data → Bool
unfolding same_text
names_label d = same_text d.type (codes "ptr") && get_or d.value 0 0 == b'$'

unfoldable pub process_data : Data → ℕ → Layout → Result Layout
unfolding process_label_def process_label_ref get_key without_last names_label
    calculate_bytes_of_data
process_data d location layout = do
  defined ← process_label_def (get_key data_label (without_last d.name)) location layout
  size ← calculate_bytes_of_data d
  done (
      let referred =
        if names_label d then process_label_ref (get_key data_label d.value) defined else defined in
      record referred { data_section_length = u32 (referred.data_section_length + size) })

unfoldable pub process_method_def : MethodDef → Layout → Result Layout
unfolding process_label_def get_key without_last
process_method_def m layout = do
  defined ←
      process_label_def (get_key method_label (without_last m.name)) layout.code_section_length
        layout
  done (grow_code 5 defined)

-- One round of the loop, for a statement other than a section.
unfoldable pub process_statement : Statement → Layout → Result Layout
unfolding process_label_def process_method_def process_instruction process_data get_key without_last
process_statement (label name) layout =
    process_label_def (get_key code_label (without_last name)) layout.code_section_length layout
process_statement (method_def m) layout = process_method_def m layout
process_statement (instruction i) layout = done (process_instruction i layout)
process_statement (data_def d) layout =
    process_data d (u32 (layout.code_section_length + layout.data_section_length + 1)) layout
process_statement (section s) layout = done layout
process_statement other layout = failed bad_variant_access

-- Whether the loop is left at a statement.
abbrev pub ends_layout : Statement → Bool
ends_layout (section metadata_section) = Bool.true
ends_layout other = Bool.false

unfoldable pub process_statements : List Statement → Layout → Result Layout
unfolding process_statement
process_statements [] layout = done layout
process_statements (s ∷ ss) layout = elim (ends_layout s) [
  | Bool.true ↦ done layout
  | Bool.false ↦ do next ← process_statement s layout; process_statements ss next
]

abbrev pub empty_layout : Layout
empty_layout = record {
  label_table = [];
  unhandled_label_refs = [];
  code_section_length = 0;
  data_section_length = 0;
}

unfoldable pub all_handled : Layout → Result Layout
all_handled layout = elim layout.unhandled_label_refs [
  | [] ↦ done layout
  | _ ↦ failed assembler_error
]

unfoldable pub construct_label_table : List Statement → Result Layout
unfolding process_statements all_handled
construct_label_table statements = do
  layout ← process_statements statements empty_layout
  all_handled layout

unfoldable pub code_end_location : Layout → ℕ
code_end_location layout = u32 (bytecode_header_length + layout.code_section_length + 2 ^ 32 - 1)

unfoldable pub data_end_location : Layout → ℕ
data_end_location layout =
    u32 (
      bytecode_header_length + layout.code_section_length + layout.data_section_length + 2 ^ 32 - 1)
