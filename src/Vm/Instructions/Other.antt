-- ===== src/Vm/Instructions/Other.antt =====
-- src/vm/VM.cpp: `conv` and `throw`.
use simple_virtual_language.Base.{ℕ, [], ◌∷◌, ◌==◌, if◌then◌else◌}
use simple_virtual_language.Isa.{ui32, type_of_code}
use simple_virtual_language.Vm.State.{
  explicit_array_index_out_of_range, explicit_negative_array_length,
  explicit_array_initialiser_length, explicit_zero_range_step, M, pure, ◌>>=◌, ◌>>◌, get, lift,
  throw,
}
use simple_virtual_language.Vm.Float.{FloatOps}
use simple_virtual_language.Vm.Values.{convert_to_type}
use simple_virtual_language.Vm.OperandStack.{pop, push_value}
use simple_virtual_language.Vm.Native.{check_type, integer_types}
use simple_virtual_language.Vm.Fetch.{fetch_byte, fetch_type}

-- `Value::errorContext` is set with the `errorContext` of the machine and equal to it.
unfoldable pub execute_conv : FloatOps → M (Unit {0})
unfolding fetch_type pop convert_to_type push_value
execute_conv fl = do
  t ← fetch_type
  v ← pop
  s ← get
  converted ← lift (convert_to_type fl s.error_context v (type_of_code t))
  push_value converted

unfoldable pub throw_index_out_of_range : M (Unit {0})
unfolding pop check_type
throw_index_out_of_range = do
  array_index ← pop
  array_length ← pop
  check_type integer_types array_index.type
  check_type (ui32 ∷ []) array_length.type
  throw explicit_array_index_out_of_range

unfoldable pub throw_negative_length : M (Unit {0})
unfolding pop check_type
throw_negative_length = do
  array_length ← pop
  check_type integer_types array_length.type
  throw explicit_negative_array_length

unfoldable pub throw_initialiser_length : M (Unit {0})
unfolding pop check_type
throw_initialiser_length = do
  array_length ← pop
  check_type (ui32 ∷ []) array_length.type
  throw explicit_array_initialiser_length

-- An unknown reference falls out of the `switch`.
unfoldable pub throw_error : ℕ → M (Unit {0})
unfolding throw_index_out_of_range throw_negative_length throw_initialiser_length
throw_error error_ref s =
    (if error_ref == 0x00
        then throw_index_out_of_range
        else if error_ref == 0x01
        then throw_negative_length
        else if error_ref == 0x02
        then throw_initialiser_length
        else if error_ref == 0x03
        then throw explicit_zero_range_step
        else pure tt)
      s

unfoldable pub execute_throw : M (Unit {0})
unfolding fetch_byte throw_error
execute_throw = do error_ref ← fetch_byte; throw_error error_ref
