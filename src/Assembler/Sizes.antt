-- ===== src/Assembler/Sizes.antt =====
-- src/assembler: the number of bytes that each statement takes, and the statements whose operands have
-- a size that the assembler can tell from the mnemonic and the type.
use simple_virtual_language.Base.{
  ℕ, ◌+◌, ◌-◌, Bool, true, false, not, ◌&&◌, ◌||◌, List, [], ◌∷◌, if◌then◌else◌, leb, ltb, length,
}
use simple_virtual_language.Base.Text.{Text, codes, same_text}
use simple_virtual_language.Assembler.Defs.{
  OperandType, immediate_operand, string_operand, Operand, Instruction, Data, Statement,
  instruction, method_def, data_def, source_metadata, function_metadata, line_table_metadata,
}
use simple_virtual_language.Assembler.Labels.{contains}
use simple_virtual_language.Assembler.Layout.{
  calculate_bytes_from_type, operand_length, type_after, ends_layout,
}

unfoldable pub operands_size : Text → Text → List Operand → ℕ
unfolding operand_length
operands_size mnemonic t [] = 0
operands_size mnemonic t (o ∷ os) =
    operand_length mnemonic t o.type + operands_size mnemonic (type_after t o) os

unfoldable pub instruction_size : Instruction → ℕ
unfolding operands_size
instruction_size i = 1 + operands_size i.opcode [] i.operands

-- What a statement adds to the code, to the data and to the metadata.
unfoldable pub code_size : Statement → ℕ
unfolding instruction_size
code_size (instruction i) = instruction_size i
code_size (method_def m) = 5
code_size other = 0

-- A text is stored with a length of 4 bytes and without its two quotation marks.
unfoldable pub datum_size : Data → ℕ
unfolding same_text calculate_bytes_from_type
datum_size d =
    1
    + (if same_text d.type (codes "str")
        then 4 + (length d.value - 2)
        else calculate_bytes_from_type d.type)

unfoldable pub data_size : Statement → ℕ
unfolding datum_size
data_size (data_def d) = datum_size d
data_size other = 0

unfoldable pub metadata_size : Statement → ℕ
metadata_size (source_metadata m) = 6 + (length m.path - 2)
metadata_size (function_metadata m) = 14 + (length m.name - 2)
metadata_size (line_table_metadata m) = 16
metadata_size other = 0

unfoldable pub total : (Statement → ℕ) → List Statement → ℕ
total size [] = 0
total size (s ∷ ss) = size s + total size ss

-- The statements in front of the metadata.
unfoldable pub program_part : List Statement → List Statement
program_part [] = []
program_part (s ∷ ss) = elim (ends_layout s) [ Bool.true ↦ [] | Bool.false ↦ s ∷ program_part ss ]

abbrev pub value_types : List Text
value_types =
    []
    ∷ codes "i32"
    ∷ codes "ui32"
    ∷ codes "i64"
    ∷ codes "ui64"
    ∷ codes "f32"
    ∷ codes "f64"
    ∷ codes "ptr"
    ∷ []

-- The type names with a value of a fixed size; without a name the type is `i32`.
unfoldable pub is_value_type : Text → Bool
unfolding contains
is_value_type t = contains t value_types

-- Operands without a text, and with a type that fits the mnemonic.
unfoldable pub sized_operand : Text → Text → OperandType → Bool
unfolding same_text is_value_type calculate_bytes_from_type
sized_operand mnemonic t string_operand = false
sized_operand mnemonic t immediate_operand =
    is_value_type t
    && (not (same_text mnemonic (codes "storeL")) || ltb (calculate_bytes_from_type t) 8)
sized_operand mnemonic t other = true

unfoldable pub sized_operands : Text → Text → List Operand → Bool
unfolding sized_operand
sized_operands mnemonic t [] = true
sized_operands mnemonic t (o ∷ os) =
    sized_operand mnemonic t o.type && sized_operands mnemonic (type_after t o) os

-- A text of data is in quotation marks.
unfoldable pub quoted_datum : Data → Bool
unfolding same_text is_value_type
quoted_datum d =
    if same_text d.type (codes "str") then leb 2 (length d.value) else is_value_type d.type

-- It has at most 250 bytes, since its length is added up as a `uint8_t`.
unfoldable pub sized_datum : Data → Bool
unfolding same_text quoted_datum
sized_datum d = quoted_datum d && (not (same_text d.type (codes "str")) || leb (length d.value) 252)

unfoldable pub sized : Statement → Bool
unfolding sized_operands sized_datum
sized (instruction i) = sized_operands i.opcode [] i.operands
sized (data_def d) = sized_datum d
sized (source_metadata m) = leb 2 (length m.path)
sized (function_metadata m) = leb 2 (length m.name)
sized other = true

unfoldable pub every : (Statement → Bool) → List Statement → Bool
every test [] = true
every test (s ∷ ss) = test s && every test ss
