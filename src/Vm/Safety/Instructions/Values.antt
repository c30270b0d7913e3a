-- ===== src/Vm/Safety/Instructions/Values.antt =====
-- The preservation lemmas for the arithmetic instructions, `conv` and `throw`.
use simple_virtual_language.Base.{ℕ, ◌==◌, [], ◌∷◌}
use simple_virtual_language.Isa.{ui32, type_of_code}
use simple_virtual_language.Vm.State.{
  division_by_zero, explicit_array_index_out_of_range, explicit_negative_array_length,
  explicit_array_initialiser_length, explicit_zero_range_step, Value, Result, lift,
}
use simple_virtual_language.Vm.Float.{FloatOps}
use simple_virtual_language.Vm.OperandStack.{pop}
use simple_virtual_language.Vm.Native.{check_type, integer_types}
use simple_virtual_language.Vm.Values.{is_zero, convert_to_type}
use simple_virtual_language.Vm.Fetch.{fetch_byte, fetch_type}
use simple_virtual_language.Vm.Safety.Within.{Respects}
use simple_virtual_language.Vm.Safety.Invariant.{Safe}
use simple_virtual_language.Vm.Safety.Primitives.{
  bind-Safe, pure-Safe, throw-Safe, lift-Safe, if_Safe, pop_top-Safe, push_value-Safe,
  check_type-Safe, fetch_byte-Safe,
}
use simple_virtual_language.Vm.Instructions.Arithmetic.{binary, execute_not, divide}
use simple_virtual_language.Vm.Instructions.Other.{
  execute_conv, throw_index_out_of_range, throw_negative_length, throw_initialiser_length,
  throw_error, execute_throw,
}
use simple_virtual_language.Vm.Arithmetic.Bitwise.{bitwise_not}

pub binary-Safe : (op : Value → Value → Result Value) → Respects Safe (binary op)
unfolding binary
binary-Safe op = bind-Safe (pop) _ (pop_top-Safe) (λ v.
    bind-Safe (pop) _ (pop_top-Safe)
      (λ w. bind-Safe (lift (op w v)) _ (lift-Safe (op w v)) (λ r. push_value-Safe r)))

pub execute_not-Safe : Respects Safe execute_not
unfolding execute_not
execute_not-Safe =
    bind-Safe (pop) _ (pop_top-Safe)
      (λ v. bind-Safe (lift (bitwise_not v)) _ (lift-Safe (bitwise_not v)) (λ r. push_value-Safe r))

pub divide-Safe : (fl : FloatOps) (op : Value → Value → Result Value) → Respects Safe (divide fl op)
unfolding divide
divide-Safe fl op = bind-Safe pop _ pop_top-Safe (λ v. bind-Safe pop _ pop_top-Safe (λ w.
    bind-Safe (lift (is_zero fl v)) _ (lift-Safe (is_zero fl v)) (λ z.
      if_Safe z _ _ (throw-Safe division_by_zero)
        (bind-Safe (lift (op w v)) _ (lift-Safe (op w v)) (λ r. push_value-Safe r)))))

pub execute_conv-Safe : (fl : FloatOps) → Respects Safe (execute_conv fl)
unfolding execute_conv
execute_conv-Safe fl = bind-Safe fetch_type _ fetch_byte-Safe (λ t.
    bind-Safe pop _ pop_top-Safe (λ v s.
      bind-Safe (lift (convert_to_type fl s.error_context v (type_of_code t))) _
        (lift-Safe (convert_to_type fl s.error_context v (type_of_code t))) (λ r. push_value-Safe r)
        s))

throw_index_out_of_range-Safe : Respects Safe throw_index_out_of_range
unfolding throw_index_out_of_range
throw_index_out_of_range-Safe = bind-Safe (pop) _ (pop_top-Safe) (λ i.
    bind-Safe (pop) _ (pop_top-Safe) (λ n.
      bind-Safe (check_type integer_types i.type) _ (check_type-Safe integer_types i.type) (λ _.
        bind-Safe (check_type (ui32 ∷ []) n.type) _ (check_type-Safe (ui32 ∷ []) n.type)
          (λ _. throw-Safe explicit_array_index_out_of_range))))

throw_negative_length-Safe : Respects Safe throw_negative_length
unfolding throw_negative_length
throw_negative_length-Safe = bind-Safe (pop) _ (pop_top-Safe) (λ n.
    bind-Safe (check_type integer_types n.type) _ (check_type-Safe integer_types n.type)
      (λ _. throw-Safe explicit_negative_array_length))

throw_initialiser_length-Safe : Respects Safe throw_initialiser_length
unfolding throw_initialiser_length
throw_initialiser_length-Safe = bind-Safe (pop) _ (pop_top-Safe) (λ n.
    bind-Safe (check_type (ui32 ∷ []) n.type) _ (check_type-Safe (ui32 ∷ []) n.type)
      (λ _. throw-Safe explicit_array_initialiser_length))

throw_error-Safe : (e : ℕ) → Respects Safe (throw_error e)
unfolding throw_error
throw_error-Safe e = if_Safe (e == 0x00) _ _ throw_index_out_of_range-Safe (
    if_Safe (e == 0x01) _ _ throw_negative_length-Safe (
      if_Safe (e == 0x02) _ _ throw_initialiser_length-Safe
        (if_Safe (e == 0x03) _ _ (throw-Safe explicit_zero_range_step) (pure-Safe tt))))

pub execute_throw-Safe : Respects Safe execute_throw
unfolding execute_throw
execute_throw-Safe = bind-Safe (fetch_byte) _ (fetch_byte-Safe) (λ e. throw_error-Safe e)
