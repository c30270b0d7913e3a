-- ===== src/Assembler/Operands.antt =====
-- src/assembler/Assembler.cpp: the number of bytes of encoded operands, instructions and data.
use simple_virtual_language.Base.{
  ℕ, ◌+◌, ◌-◌, ◌≡◌, refl, true, List, [], ◌∷◌, arith, and-true, if◌then◌else◌, length,
  length-append, leb, leb→le,
}
use simple_virtual_language.Base.Text.{Text, codes, same_text}
use simple_virtual_language.Assembler.Defs.{
  OperandType, immediate_operand, string_operand, type_operand, data_type_operand,
  label_ref_operand, native_ref_operand, error_ref_operand, Operand, Instruction, Data, opcode,
  native_ref, error_ref,
}
use simple_virtual_language.Assembler.Numbers.{FloatText}
use simple_virtual_language.Assembler.Labels.{get_key, get_operand_label_type}
use simple_virtual_language.Assembler.Layout.{
  unquoted, calculate_bytes_from_type, operand_length, type_after,
}
use simple_virtual_language.Assembler.Encode.{
  at, convert_string_to_bytes, convert_operand, convert_operands, convert_instruction_to_bytes,
  convert_by_type, convert_data_to_bytes, convert_data_statement_to_bytes, first_value,
}
use simple_virtual_language.Assembler.Sizes.{
  is_value_type, operands_size, instruction_size, datum_size, sized_operand, sized_operands,
  quoted_datum,
}
use simple_virtual_language.Assembler.DatumSize.{length-without_last}
use simple_virtual_language.Assembler.SecondPass.{
  Bytes, convert_label_ref_to_bytes-Bytes, convert_data_to_bytes-Bytes, convert_immediate-Bytes,
  catch-Bytes, named,
}
use simple_virtual_language.Assembler.Yields.{Yields-bind, Yields-any}

-- A quoted text: its length in 4 bytes, and the text without the marks.
pub convert_string_to_bytes-Bytes :
    (s : Text) → leb 2 (length s) ≡ true → Bytes (4 + (length s - 2)) (convert_string_to_bytes s)
unfolding convert_string_to_bytes unquoted
convert_string_to_bytes-Bytes [] h = tt
convert_string_to_bytes-Bytes (c ∷ s) h = omega (arith, leb→le 2 _ h, length-without_last s)

module _ (text : FloatText) (label_table : List (Text × ℕ)) where
  convert_operand-Bytes :
      (i : Instruction) (t : Text) (kind : OperandType) (v : Text)
      → sized_operand i.opcode t kind ≡ true
      → Bytes
          (operand_length i.opcode t kind)
          (convert_operand text label_table i t (record { type = kind; value = v }))
  unfolding convert_operand sized_operand operand_length
  convert_operand-Bytes i t immediate_operand v h =
      convert_immediate-Bytes text label_table t v i.opcode h
  convert_operand-Bytes i t string_operand v h = cc
  convert_operand-Bytes i t type_operand v h = refl
  convert_operand-Bytes i t data_type_operand v h = refl
  convert_operand-Bytes i t label_ref_operand v h =
      convert_label_ref_to_bytes-Bytes text label_table
        (get_key (get_operand_label_type i.opcode) v)
  convert_operand-Bytes i t native_ref_operand v h =
      Yields-any (λ b. length b ≡ 1) (at (native_ref (first_value i.operands))) _ (λ id. refl)
  convert_operand-Bytes i t error_ref_operand v h =
      Yields-any (λ b. length b ≡ 1) (at (error_ref (first_value i.operands))) _ (λ id. refl)

  convert_operands-Bytes :
      (i : Instruction) (t : Text) (os : List Operand)
      → sized_operands i.opcode t os ≡ true
      → Bytes (operands_size i.opcode t os) (convert_operands text label_table i t os)
  unfolding convert_operands operands_size sized_operands
  convert_operands-Bytes i t [] h = refl
  convert_operands-Bytes i t (o ∷ os) h =
      let (here, after) = and-true (sized_operand i.opcode t o.type) _ h in
      let n = operand_length i.opcode t o.type in
      let rest = operands_size i.opcode (type_after t o) os in
      Yields-bind (λ b. length b ≡ n) (λ b. length b ≡ n + rest)
        (convert_operand text label_table i t o) _ (convert_operand-Bytes i t o.type o.value here)
        (λ bytes is.
          Yields-bind (λ b. length b ≡ rest) (λ b. length b ≡ n + rest)
            (convert_operands text label_table i (type_after t o) os) _
            (convert_operands-Bytes i (type_after t o) os after)
            (λ others are. omega (arith, length-append bytes others, is, are)))

  -- An instruction takes as many bytes as the first pass has counted.
  pub convert_instruction_to_bytes-Bytes :
      (i : Instruction)
      → sized_operands i.opcode [] i.operands ≡ true
      → Bytes (instruction_size i) (convert_instruction_to_bytes text label_table i)
  unfolding convert_instruction_to_bytes instruction_size
  convert_instruction_to_bytes-Bytes i h =
      let n = operands_size i.opcode [] i.operands in
      Yields-any (λ b. length b ≡ 1 + n) (at (opcode i.opcode)) _
        (λ byte.
          Yields-bind (λ b. length b ≡ n) (λ b. length b ≡ 1 + n)
            (convert_operands text label_table i [] i.operands) _
            (convert_operands-Bytes i [] i.operands h) (λ others are. omega (arith, are)))

  abbrev ValueBytes : Text → Text → Type 0
  ValueBytes s t =
      (if same_text t (codes "str") then leb 2 (length s) else is_value_type t) ≡ true
      → Bytes
          (if same_text t (codes "str") then 4 + (length s - 2) else calculate_bytes_from_type t)
          (convert_data_to_bytes text label_table t s)

  text_value : (s : Text) → ValueBytes s (codes "str")
  unfolding same_text convert_data_to_bytes convert_by_type
  text_value s h =
      catch-Bytes text label_table (4 + (length s - 2)) (convert_string_to_bytes s)
        (convert_string_to_bytes-Bytes s h)

  value_bytes : (t s : Text) → ValueBytes s t
  value_bytes t s =
      named (ValueBytes s) (codes "str") t (text_value s)
        (λ other. rw other (λ h. convert_data_to_bytes-Bytes text label_table t s h))

  -- A datum takes its type byte and its value.
  pub convert_data_statement_to_bytes-Bytes :
      (d : Data)
      → quoted_datum d ≡ true
      → Bytes (datum_size d) (convert_data_statement_to_bytes text label_table d)
  unfolding convert_data_statement_to_bytes datum_size quoted_datum
  convert_data_statement_to_bytes-Bytes d h =
      let n =
        if same_text d.type (codes "str")
        then 4 + (length d.value - 2)
        else calculate_bytes_from_type d.type in
      Yields-bind (λ b. length b ≡ n) (λ b. length b ≡ 1 + n)
        (convert_data_to_bytes text label_table d.type d.value) _ (value_bytes d.type d.value h)
        (λ bytes is. omega (arith, is))
