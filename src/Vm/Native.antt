-- ===== src/Vm/Native.antt =====
-- src/vm/NativeFunctionManager.h: the native functions that the `native` instruction invokes, and
-- `checkType` and `readStringFromMemory` of src/vm/VM.cpp, which they share with the instructions.
-- What `std::cout` receives is a list of outputs; the decimal text of a number is not modelled.
pub mod Utf8
use simple_virtual_language.Base.{
  ℕ, zero, suc, ◌+◌, ◌%◌, ◌^◌, Bool, false, ◌||◌, List, [], ◌∷◌, ◌++◌, leb, ltb, ◌==◌,
  if◌then◌else◌,
}
use simple_virtual_language.Isa.{
  ValueType, i32, ui32, i64, ui64, f32, f64, ptr, type_code, same_type,
}
use simple_virtual_language.Vm.State.{
  internal, Value, Output, number, text, Vm, M, ok, pure, ◌>>=◌, ◌>>◌, modify, throw, undef, u32,
}
use simple_virtual_language.Vm.Memory.{ptr_scope, read8, read32}
use simple_virtual_language.Vm.OperandStack.{pop}
use Utf8.{utf8_encode}

-- `std::count(expectedTypes, actualType) != 0`.
unfoldable pub expects : List ValueType → ValueType → Bool
unfolding same_type
expects [] actual = false
expects (t ∷ ts) actual = same_type t actual || expects ts actual

unfoldable pub check_type : List ValueType → ValueType → M (Unit {0})
unfolding expects
check_type expected actual s = (if expects expected actual then pure tt else throw internal) s

abbrev pub integer_types : List ValueType
integer_types = i32 ∷ ui32 ∷ i64 ∷ ui64 ∷ []

abbrev pub number_types : List ValueType
number_types = i32 ∷ ui32 ∷ i64 ∷ ui64 ∷ f32 ∷ f64 ∷ []

abbrev pub address_types : List ValueType
address_types = ptr ∷ ui32 ∷ []

unfoldable pub print_out : Output → M (Unit {0})
print_out o = modify λ s. record s { output = s.output ++ o ∷ [] }

unfoldable pub set_exit_status : ℕ → M (Unit {0})
set_exit_status status = modify λ s. record s { exit_code = status }

-- `left` bytes of the text to go at index `i`, an `int`.
unfoldable pub read_text : ℕ → ℕ → ℕ → M (List ℕ)
unfolding read8
read_text zero address i = pure []
read_text (suc left) address i = if leb (2 ^ 31) i then undef else do
  b ← read8 ptr_scope (u32 (address + 4 + i))
  bs ← read_text left address (i + 1)
  pure (b ∷ bs)

-- A length, and that many bytes behind it.
unfoldable pub read_string_from_memory : ℕ → M (List ℕ)
unfolding read32 read_text
read_string_from_memory address = do size ← read32 ptr_scope address; read_text size address 0

unfoldable pub execute_exit : M (Unit {0})
unfolding pop check_type set_exit_status
execute_exit = do
  exit_status ← pop
  check_type integer_types exit_status.type
  set_exit_status (u32 exit_status.raw_value)

unfoldable pub execute_print : M (Unit {0})
unfolding pop check_type print_out
execute_print = do v ← pop; check_type number_types v.type; print_out (number v)

unfoldable pub execute_print_char : M (Unit {0})
unfolding pop check_type print_out utf8_encode
execute_print_char = do
  v ← pop
  check_type (ui32 ∷ []) v.type
  print_out (text (utf8_encode v.raw_value))

unfoldable pub execute_print_str : M (Unit {0})
unfolding pop check_type print_out read_string_from_memory
execute_print_str = do
  v ← pop
  check_type (ptr ∷ []) v.type
  bytes ← read_string_from_memory (u32 v.raw_value)
  print_out (text bytes)

unfoldable pub invoke : ℕ → M (Unit {0})
unfolding execute_exit execute_print execute_print_char execute_print_str
invoke id s =
    (if id == 0x00
        then execute_exit
        else if id == 0x01
        then execute_print
        else if id == 0x02
        then execute_print_char
        else if id == 0x03
        then execute_print_str
        else throw internal)
      s
