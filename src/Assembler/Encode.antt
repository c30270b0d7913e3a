-- ===== src/Assembler/Encode.antt =====
-- src/assembler/Assembler.cpp: the bytes of numbers, texts, operands and instructions.
use simple_virtual_language.Base.{
  ℕ, zero, suc, ◌+◌, ◌-◌, ◌*◌, ◌/◌, ◌%◌, ◌^◌, Bool, ◌||◌, List, [], ◌∷◌, ◌++◌, Option, none, some,
  ltb, ◌==◌, if◌then◌else◌, length, get_or,
}
use simple_virtual_language.Base.Int.{ℤ, pos, ltb_ℤ, mod_floor}
use simple_virtual_language.Base.Text.{Text, codes, same_text, find_text}
use simple_virtual_language.Assembler.Defs.{
  immediate_operand, string_operand, type_operand, data_type_operand, label_ref_operand,
  native_ref_operand, error_ref_operand, Operand, Instruction, MethodDef, Data, opcode, native_ref,
  error_ref,
}
use simple_virtual_language.Assembler.Numbers.{
  assembler_error, out_of_range, Result, done, failed, ◌>>=◌, FloatText, stoll, stoull,
}
use simple_virtual_language.Assembler.Labels.{data_label, get_key, get_operand_label_type}
use simple_virtual_language.Assembler.Layout.{unquoted, type_after}

-- The loops `for (i = 0; i < n; i++) push_back((value >> (i * 8)) & 0xFF)`, with `left` rounds to go at
-- index `i`.
unfoldable pub bytes_loop : ℕ → ℕ → ℕ → List ℕ
bytes_loop zero i v = []
bytes_loop (suc left) i v = v / 2 ^ (i * 8) % 256 ∷ bytes_loop left (i + 1) v

unfoldable pub bytes_of : ℕ → ℕ → List ℕ
unfolding bytes_loop
bytes_of n v = bytes_loop n 0 v

-- `std::map::at`.
abbrev pub at : {A : Type 0} → Option A → Result A
at none = failed out_of_range
at (some a) = done a

-- `catch (const std::out_of_range&)`.
abbrev pub catch_out_of_range : {A : Type 0} → Result A → Result A
catch_out_of_range (failed out_of_range) = failed assembler_error
catch_out_of_range other = other

unfoldable pub convert_type_to_byte : Text → ℕ
unfolding same_text
convert_type_to_byte t =
    if same_text t (codes "i32")
    then 0x00
    else if same_text t (codes "ui32")
    then 0x01
    else if same_text t (codes "i64")
    then 0x02
    else if same_text t (codes "ui64")
    then 0x03
    else if same_text t (codes "f32")
    then 0x04
    else if same_text t (codes "f64")
    then 0x05
    else 0x06

unfoldable pub convert_data_type_to_byte : Text → ℕ
unfolding same_text convert_type_to_byte
convert_data_type_to_byte t = if same_text t (codes "str") then 0x07 else convert_type_to_byte t

unfoldable pub convert_label_ref_to_bytes : List (Text × ℕ) → Text → Result (List ℕ)
unfolding find_text bytes_of
convert_label_ref_to_bytes label_table key = do
  address ← at (find_text key label_table)
  done (bytes_of 4 address)

-- The length and the bytes; `uint32_t numberOfBytes`.
unfoldable pub convert_string_to_bytes : Text → Result (List ℕ)
unfolding unquoted bytes_of
convert_string_to_bytes string = do
  raw ← unquoted string
  done (bytes_of 4 (length raw % 2 ^ 32) ++ raw)

-- `data.substr(1)` where the text starts with `#`.
unfoldable pub without_hash : Text → Text
without_hash [] = []
without_hash (c ∷ s) = if c == b'#' then s else c ∷ s

-- A number that is not finite is out of range.
abbrev pub finite : Bool → ℕ → Result ℕ
finite ok raw = if ok then done raw else failed out_of_range

-- `operand.value.substr(1, ...)` throws on an empty text.
abbrev pub behind_hash : Text → Result Text
behind_hash [] = failed out_of_range
behind_hash (c ∷ s) = done s

-- The depth of `dup`, `rotD` and `rotU`, between two bounds, as two bytes.
unfoldable pub convert_depth : ℤ → ℤ → Text → Result (List ℕ)
unfolding stoll mod_floor bytes_of
convert_depth lo hi s = do
  digits ← behind_hash s
  v ← stoll digits
  (if ltb_ℤ hi v || ltb_ℤ v lo
      then failed assembler_error
      else done (bytes_of 2 (mod_floor v (2 ^ 16))))

-- `instruction.operands[0].value`, which is there when the loop runs.
abbrev pub first_value : List Operand → Text
first_value [] = []
first_value (o ∷ os) = o.value

module _ (text : FloatText) where
  unfoldable pub convert_ptr : List (Text × ℕ) → Text → Result (List ℕ)
  unfolding convert_label_ref_to_bytes get_key without_hash stoull bytes_of
  convert_ptr label_table s =
      if get_or s 0 0 == b'$'
      then convert_label_ref_to_bytes label_table (get_key data_label (without_hash s))
      else do
        raw ← stoull s
        (if ltb (2 ^ 32 - 1) raw
            then failed out_of_range
            else do v ← stoull (without_hash s); done (bytes_of 4 (v % 2 ^ 32)))

  -- The `try` block, which tells the types apart.
  unfoldable pub convert_by_type : List (Text × ℕ) → Text → Text → Result (List ℕ)
  unfolding same_text without_hash stoll stoull mod_floor bytes_of convert_ptr
      convert_string_to_bytes
  convert_by_type label_table t s =
      if same_text t (codes "i32") || same_text t []
      then (do parsed ← stoll (without_hash s); done (bytes_of 4 (mod_floor parsed (2 ^ 32))))
      else if same_text t (codes "ui32")
      then (do parsed ← stoull (without_hash s); done (bytes_of 4 (parsed % 2 ^ 32)))
      else if same_text t (codes "i64")
      then (do parsed ← stoll (without_hash s); done (bytes_of 8 (mod_floor parsed (2 ^ 64))))
      else if same_text t (codes "ui64")
      then (do raw ← stoull (without_hash s); done (bytes_of 8 raw))
      else if same_text t (codes "f32")
      then (do
        raw ← text.stof (without_hash s)
        checked ← finite (text.f32_is_finite raw) raw
        done (bytes_of 4 checked))
      else if same_text t (codes "f64")
      then (do
        raw ← text.stod (without_hash s)
        checked ← finite (text.f64_is_finite raw) raw
        done (bytes_of 8 checked))
      else if same_text t (codes "ptr")
      then convert_ptr label_table s
      else if same_text t (codes "str")
      then convert_string_to_bytes s
      else done []

  unfoldable pub convert_data_to_bytes : List (Text × ℕ) → Text → Text → Result (List ℕ)
  unfolding convert_by_type
  convert_data_to_bytes label_table t s = catch_out_of_range (convert_by_type label_table t s)

  unfoldable pub convert_data_statement_to_bytes : List (Text × ℕ) → Data → Result (List ℕ)
  unfolding convert_data_to_bytes convert_data_type_to_byte
  convert_data_statement_to_bytes label_table d = do
    bytes ← convert_data_to_bytes label_table d.type d.value
    done (convert_data_type_to_byte d.type ∷ bytes)

  unfoldable pub convert_immediate : List (Text × ℕ) → Text → Text → Text → Result (List ℕ)
  unfolding same_text convert_depth convert_data_to_bytes
  convert_immediate label_table mnemonic t s =
      if same_text mnemonic (codes "rotD") || same_text mnemonic (codes "rotU")
      then convert_depth (pos 3) (pos 1024) s
      else if same_text mnemonic (codes "dup")
      then convert_depth (pos 0) (pos 1023) s
      else convert_data_to_bytes label_table
          (if same_text mnemonic (codes "loadL") then codes "i32" else t) s

  unfoldable pub convert_operand : List (Text × ℕ) → Instruction → Text → Operand → Result (List ℕ)
  unfolding convert_type_to_byte convert_label_ref_to_bytes get_key get_operand_label_type
      convert_immediate native_ref error_ref
  convert_operand label_table i t o = elim o.type [
    | type_operand ↦ done (convert_type_to_byte o.value ∷ [])
    | label_ref_operand ↦
        convert_label_ref_to_bytes label_table (get_key (get_operand_label_type i.opcode) o.value)
    | immediate_operand ↦ convert_immediate label_table i.opcode t o.value
    | native_ref_operand ↦ do id ← at (native_ref (first_value i.operands)); done (id ∷ [])
    | error_ref_operand ↦ do id ← at (error_ref (first_value i.operands)); done (id ∷ [])
    | string_operand ↦ done []
    | data_type_operand ↦ done []
  ]

  unfoldable pub convert_operands :
      List (Text × ℕ) → Instruction → Text → List Operand → Result (List ℕ)
  unfolding convert_operand
  convert_operands label_table i t [] = done []
  convert_operands label_table i t (o ∷ os) = do
    bytes ← convert_operand label_table i t o
    others ← convert_operands label_table i (type_after t o) os
    done (bytes ++ others)

  unfoldable pub convert_instruction_to_bytes : List (Text × ℕ) → Instruction → Result (List ℕ)
  unfolding opcode convert_operands
  convert_instruction_to_bytes label_table i = do
    code ← at (opcode i.opcode)
    others ← convert_operands label_table i [] i.operands
    done (code ∷ others)

unfoldable pub convert_method_def_to_bytes : MethodDef → List ℕ
unfolding bytes_of
convert_method_def_to_bytes m = m.number_of_arguments ∷ bytes_of 4 m.number_of_locals
