-- ===== src/Assembler/Defs.antt =====
-- src/assembler/AssemblerDefs.h: the statements of an assembly program and the tables of mnemonics.
-- The lines and columns that the structures carry for error messages are left out.
use simple_virtual_language.Base.{ℕ, List, [], ◌∷◌, Option}
use simple_virtual_language.Base.Text.{Text, codes, find_text}

pub data Section : Type 0 where
  code_section data_section metadata_section : Section
  metadata_source metadata_function metadata_line_table : Section

pub data OperandType : Type 0 where
  immediate_operand string_operand type_operand data_type_operand : OperandType
  label_ref_operand native_ref_operand error_ref_operand : OperandType

pub record Operand : Type 0 where
  pub type : OperandType
  pub value : Text

pub record Instruction : Type 0 where
  pub opcode : Text
  pub operands : List Operand

pub record MethodDef : Type 0 where
  pub name : Text
  pub number_of_arguments : ℕ
  pub number_of_locals : ℕ

pub record Data : Type 0 where
  pub name : Text
  pub type : Text
  pub value : Text

pub record SourceMetadata : Type 0 where
  pub source_id : ℕ
  pub path : Text

pub record FunctionMetadata : Type 0 where
  pub start_address : ℕ
  pub end_address : ℕ
  pub source_id : ℕ
  pub name : Text

pub record LineTableMetadata : Type 0 where
  pub start_address : ℕ
  pub end_address : ℕ
  pub source_id : ℕ
  pub line : ℕ
  pub column : ℕ

-- `std::variant`; a label is its name.
pub data Statement : Type 0 where
  instruction : Instruction → Statement
  label : Text → Statement
  method_def : MethodDef → Statement
  data_def : Data → Statement
  section : Section → Statement
  source_metadata : SourceMetadata → Statement
  function_metadata : FunctionMetadata → Statement
  line_table_metadata : LineTableMetadata → Statement

abbrev opcode_table : List (Text × ℕ)
opcode_table =
    (codes "nop", 0x00)
    ∷ (codes "halt", 0x01)
    ∷ (codes "push", 0x02)
    ∷ (codes "pop", 0x03)
    ∷ (codes "dup", 0x04)
    ∷ (codes "swap", 0x05)
    ∷ (codes "rotD", 0x06)
    ∷ (codes "rotU", 0x07)
    ∷ (codes "load", 0x08)
    ∷ (codes "loadB", 0x09)
    ∷ (codes "loadG", 0x0a)
    ∷ (codes "loadL", 0x0b)
    ∷ (codes "store", 0x0c)
    ∷ (codes "storeB", 0x0d)
    ∷ (codes "storeG", 0x0e)
    ∷ (codes "storeL", 0x0f)
    ∷ (codes "addrL", 0x10)
    ∷ (codes "alloc", 0x11)
    ∷ (codes "free", 0x12)
    ∷ (codes "native", 0x13)
    ∷ (codes "call", 0x14)
    ∷ (codes "ret", 0x15)
    ∷ (codes "jmp", 0x16)
    ∷ (codes "jez", 0x17)
    ∷ (codes "jnz", 0x18)
    ∷ (codes "add", 0x19)
    ∷ (codes "sub", 0x1a)
    ∷ (codes "mul", 0x1b)
    ∷ (codes "div", 0x1c)
    ∷ (codes "mod", 0x1d)
    ∷ (codes "not", 0x1e)
    ∷ (codes "and", 0x1f)
    ∷ (codes "orr", 0x20)
    ∷ (codes "xor", 0x21)
    ∷ (codes "shl", 0x22)
    ∷ (codes "shr", 0x23)
    ∷ (codes "sar", 0x24)
    ∷ (codes "ceq", 0x25)
    ∷ (codes "cne", 0x26)
    ∷ (codes "clt", 0x27)
    ∷ (codes "cle", 0x28)
    ∷ (codes "cgt", 0x29)
    ∷ (codes "cge", 0x2a)
    ∷ (codes "conv", 0x2b)
    ∷ (codes "throw", 0x2c)
    ∷ []

abbrev native_ref_table : List (Text × ℕ)
native_ref_table =
    (codes "exit", 0x00)
    ∷ (codes "print", 0x01)
    ∷ (codes "print_char", 0x02)
    ∷ (codes "print_str", 0x03)
    ∷ []

abbrev error_ref_table : List (Text × ℕ)
error_ref_table =
    (codes "array_index_out_of_range", 0x00)
    ∷ (codes "negative_array_length", 0x01)
    ∷ (codes "array_initialiser_length", 0x02)
    ∷ (codes "zero_range_step", 0x03)
    ∷ []

-- `opcode.at`, `nativeRef.at` and `errorRef.at`; `none` where `at` throws.
unfoldable pub opcode : Text → Option ℕ
unfolding find_text
opcode mnemonic = find_text mnemonic opcode_table

unfoldable pub native_ref : Text → Option ℕ
unfolding find_text
native_ref name = find_text name native_ref_table

unfoldable pub error_ref : Text → Option ℕ
unfolding find_text
error_ref name = find_text name error_ref_table
