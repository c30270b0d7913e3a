-- ===== src/Tests/Assembler.antt =====
-- The theorems about the assembler at a small program, which jumps to a label and has a datum.
use simple_virtual_language.Base.{ℕ, ◌%◌, ◌≡◌, refl, true, List, [], ◌∷◌, ◌++◌, arith, length}
use simple_virtual_language.Base.Text.{Text, codes}
use simple_virtual_language.Vm.State.{Vm, ok}
use simple_virtual_language.Vm.Metadata.{read_metadata, walked, empty_handler}
use simple_virtual_language.Vm.Start.{initial, start}
use simple_virtual_language.Vm.Start.Loaded.{Started}
use simple_virtual_language.Assembler.Defs.{
  code_section, data_section, OperandType, immediate_operand, type_operand, label_ref_operand,
  Operand, Instruction, Data, Statement, instruction, label, method_def, data_def, section,
}
use simple_virtual_language.Assembler.Numbers.{done, failed, invalid_argument, FloatText}
use simple_virtual_language.Assembler.Labels.{Layout}
use simple_virtual_language.Assembler.Layout.{
  calculate_bytes_of_data, construct_label_table, process_instruction,
}
use simple_virtual_language.Assembler.Encode.{
  convert_instruction_to_bytes, convert_data_statement_to_bytes,
}
use simple_virtual_language.Assembler.Bytecode.{assemble_statements}
use simple_virtual_language.Assembler.Sizes.{
  code_size, data_size, total, program_part, quoted_datum, sized_operands, sized, every,
}
use simple_virtual_language.Assembler.Plain.{plain, start-plain}
use simple_virtual_language.Assembler.Assembled.{
  Assembled, assemble_statements-Assembled, start-assembled,
}
use simple_virtual_language.Assembler.Targets.{is_code}
use simple_virtual_language.Assembler.Jumps.{Resolved, label-Resolved}
use simple_virtual_language.Assembler.Passes.{passes_agree, data_passes_agree}

-- A reader that knows no fractions.
abbrev no_fractions : FloatText
no_fractions = record {
  stof = λ s. failed invalid_argument;
  stod = λ s. failed invalid_argument;
  f32_is_finite = λ r. true;
  f64_is_finite = λ r. true;
}

abbrev operand : OperandType → Text → Operand
operand kind s = record { type = kind; value = s }

abbrev push_five : Instruction
push_five = record {
  opcode = codes "push";
  operands = operand type_operand (codes "i32") ∷ operand immediate_operand (codes "#5") ∷ [];
}

abbrev jump : Instruction
jump = record { opcode = codes "jmp"; operands = operand label_ref_operand (codes "loop") ∷ [] }

abbrev greeting : Data
greeting = record { name = codes "hi:"; type = codes "str"; value = 34 ∷ 104 ∷ 105 ∷ 34 ∷ [] }

abbrev greeting_bytes : List ℕ
greeting_bytes = 7 ∷ 2 ∷ 0 ∷ 0 ∷ 0 ∷ 104 ∷ 105 ∷ []

abbrev before : List Statement
before =
    section code_section
    ∷ method_def (record { name = codes "main:"; number_of_arguments = 0; number_of_locals = 0 })
    ∷ instruction push_five
    ∷ []

abbrev after : List Statement
after = section data_section ∷ data_def greeting ∷ []

abbrev program : List Statement
program = before ++ label (codes "loop:") ∷ instruction jump ∷ after

abbrev file : List ℕ
file =
    35 ∷ 0 ∷ 0 ∷ 0 ∷ 42 ∷ 0 ∷ 0 ∷ 0 ∷ 42 ∷ 0 ∷ 0 ∷ 0 ∷ 42 ∷ 0 ∷ 0 ∷ 0 ∷ 42 ∷ 0 ∷ 0 ∷ 0 ∷ 0 ∷ 0 ∷ 0
    ∷ 0 ∷ 0 ∷ 2 ∷ 0 ∷ 5 ∷ 0 ∷ 0 ∷ 0 ∷ 22 ∷ 11 ∷ 0 ∷ 0 ∷ 0 ∷ 7 ∷ 2 ∷ 0 ∷ 0 ∷ 0 ∷ 104 ∷ 105 ∷ []

program_to_file : assemble_statements no_fractions program ≡ done file
unfolding assemble_statements
program_to_file = refl

-- The first pass runs through.
abbrev layout : Layout
layout = record {
  label_table = [];
  unhandled_label_refs = [];
  code_section_length = 5;
  data_section_length = 0;
}

program-sized : every sized program ≡ true
unfolding every sized
program-sized = refl

label-Resolved_example :
    (l : Layout) × (construct_label_table program ≡ done l)
    × Resolved no_fractions (codes "loop:") 11 jump file l
unfolding every sized is_code total code_size
label-Resolved_example =
    label-Resolved no_fractions before after (codes "loop:") jump refl refl refl (omega arith) file
      program_to_file

file_metadata : read_metadata file ≡ walked empty_handler
unfolding read_metadata
file_metadata = refl

start-assembled_example :
    (s : Vm) × (start file initial ≡ ok empty_handler s) × Started file 35 42 s
unfolding total code_size data_size program_part
start-assembled_example =
    start-assembled no_fractions program program-sized (omega arith) (omega arith) file
      empty_handler program_to_file file_metadata

program-plain : every plain program ≡ true
unfolding every plain
program-plain = refl

start-plain_example : (s : Vm) × (start file initial ≡ ok empty_handler s) × Started file 35 42 s
unfolding total code_size data_size program_part
start-plain_example =
    start-plain no_fractions program program-sized (omega arith) (omega arith) program-plain file
      program_to_file

assemble_statements-Assembled_example : Assembled program file
unfolding total code_size data_size program_part
assemble_statements-Assembled_example =
    assemble_statements-Assembled no_fractions program program-sized (omega arith) (omega arith)
      file program_to_file

passes_agree_example : (process_instruction push_five layout).code_section_length ≡ 11
unfolding sized_operands convert_instruction_to_bytes
passes_agree_example =
    passes_agree no_fractions [] push_five layout (2 ∷ 0 ∷ 5 ∷ 0 ∷ 0 ∷ 0 ∷ []) refl (omega arith)
      (omega arith) refl

data_passes_agree_example : 7 ≡ length greeting_bytes % 256
unfolding quoted_datum calculate_bytes_of_data convert_data_statement_to_bytes
data_passes_agree_example =
    data_passes_agree no_fractions [] greeting 7 greeting_bytes refl refl refl
