-- ===== src/Assembler/Passes.antt =====
-- src/assembler/Assembler.cpp: the lengths of the first pass against the bytes of the second one.
use simple_virtual_language.Base.{
  ℕ, ◌+◌, ◌%◌, ◌^◌, ◌<◌, ◌≡◌, sym, ap, ◌∙◌, true, List, [], arith, length,
}
use simple_virtual_language.Base.Text.{Text}
use simple_virtual_language.Vm.State.{u32}
use simple_virtual_language.Assembler.Defs.{Instruction, Data}
use simple_virtual_language.Assembler.Numbers.{done, FloatText}
use simple_virtual_language.Assembler.Labels.{Layout}
use simple_virtual_language.Assembler.Layout.{process_instruction, calculate_bytes_of_data}
use simple_virtual_language.Assembler.Encode.{
  convert_instruction_to_bytes, convert_data_statement_to_bytes,
}
use simple_virtual_language.Assembler.Sizes.{
  datum_size, quoted_datum, instruction_size, sized_operands,
}
use simple_virtual_language.Assembler.FirstPass.{Measured, process_instruction-Measured}
use simple_virtual_language.Assembler.DatumSize.{calculate_bytes_of_data-datum_size}
use simple_virtual_language.Assembler.Operands.{
  convert_instruction_to_bytes-Bytes, convert_data_statement_to_bytes-Bytes,
}
use simple_virtual_language.Assembler.Yields.{Yields-done}

module _ (text : FloatText) (table : List (Text × ℕ)) where
  -- Where the operands of an instruction have a known size and the instruction is encoded, the first pass
  -- adds the number of its bytes to the length of the code.
  pub passes_agree :
      (i : Instruction) (l : Layout) (bytes : List ℕ)
      → sized_operands i.opcode [] i.operands ≡ true
      → l.code_section_length < 2 ^ 32
      → l.data_section_length < 2 ^ 32
      → convert_instruction_to_bytes text table i ≡ done bytes
      → (process_instruction i l).code_section_length ≡ u32 (l.code_section_length + length bytes)
  passes_agree i l bytes ok fits fits' h =
      let c = l.code_section_length in
      let size : length bytes ≡ instruction_size i =
        Yields-done (λ b. length b ≡ instruction_size i) (convert_instruction_to_bytes text table i)
          bytes (convert_instruction_to_bytes-Bytes text table i ok) h in
      let d = l.data_section_length in
      let m : Measured (c + instruction_size i) d (process_instruction i l) =
        process_instruction-Measured c d i l
          (record { code_length = omega arith; data_length = omega arith }) in
      omega (arith, m.code_length, size)

  -- Where a datum has a type of known size, or is a text in quotation marks of any length, and both passes
  -- succeed on it, the first pass counts the number of its bytes modulo 256.
  pub data_passes_agree :
      (d : Data) (n : ℕ) (bytes : List ℕ)
      → quoted_datum d ≡ true
      → calculate_bytes_of_data d ≡ done n
      → convert_data_statement_to_bytes text table d ≡ done bytes
      → n ≡ length bytes % 256
  data_passes_agree d n bytes ok counted converted =
      let size : length bytes ≡ datum_size d =
        Yields-done (λ b. length b ≡ datum_size d) (convert_data_statement_to_bytes text table d)
          bytes (convert_data_statement_to_bytes-Bytes text table d ok) converted in
      Yields-done (λ m. m ≡ datum_size d % 256) (calculate_bytes_of_data d) n
        (calculate_bytes_of_data-datum_size d ok) counted
      ∙ ap (λ (m : ℕ). m % 256) (sym size)
