-- ===== src/Vm/Safety/Instructions/Control.antt =====
-- The preservation lemmas for the control instructions and the native functions.
use simple_virtual_language.Base.{
  ℕ, zero, suc, ◌+◌, ◌^◌, refl, Bool, false, not, ◌==◌, leb, arith, [], ◌∷◌, ◌++◌,
}
use simple_virtual_language.Isa.{ptr, ui32}
use simple_virtual_language.Vm.State.{internal, Output, number, text, pure, lift, u32, undef}
use simple_virtual_language.Vm.Float.{FloatOps}
use simple_virtual_language.Vm.Memory.{ptr_scope, code, read8, read32}
use simple_virtual_language.Vm.OperandStack.{pop, pop_many}
use simple_virtual_language.Vm.CallStack
use simple_virtual_language.Vm.Native.{
  check_type, integer_types, number_types, print_out, set_exit_status, read_text,
  read_string_from_memory, execute_exit, execute_print, execute_print_char, execute_print_str,
  invoke,
}
use simple_virtual_language.Vm.Native.Utf8.{utf8_encode}
use simple_virtual_language.Vm.Values.{is_zero}
use simple_virtual_language.Vm.Fetch.{fetch_byte, fetch_operand}
use simple_virtual_language.Vm.Safety.Within.{by_ok, by_undefined, Respects}
use simple_virtual_language.Vm.Safety.Invariant.{Safe, Safe-refl, same_core}
use simple_virtual_language.Vm.Safety.Memory.{read_bytes-Safe}
use simple_virtual_language.Vm.Safety.Frames.{push-Safe, pop-Safe}
use simple_virtual_language.Vm.Safety.Primitives.{
  bind-Safe, pure-Safe, throw-Safe, lift-Safe, if_Safe, pc-Safe, pop_top-Safe, pop_many-Safe,
  check_type-Safe, fetch_byte-Safe, fetch_operand-Safe,
}
use simple_virtual_language.Vm.Instructions.Control.{
  execute_halt, execute_native, execute_call, execute_ret, execute_jmp, jump_if, execute_jez,
  execute_jnz,
}

print_out-Safe : (o : Output) → Respects Safe (print_out o)
unfolding print_out
print_out-Safe o s = by_ok (
    same_core s (record s { output = s.output ++ o ∷ [] }) refl refl refl refl refl (omega arith)
      refl)

set_exit_status-Safe : (n : ℕ) → Respects Safe (set_exit_status n)
unfolding set_exit_status
set_exit_status-Safe n s =
    by_ok (same_core s (record s { exit_code = n }) refl refl refl refl refl (omega arith) refl)

read_text-Safe : (left address i : ℕ) → Respects Safe (read_text left address i)
unfolding read_text
read_text-Safe zero address i s = by_ok (Safe-refl s)
read_text-Safe (suc left) address i s =
    if_Safe (leb (2 ^ 31) i) undef _ (λ t. by_undefined)
      (bind-Safe (read8 ptr_scope (u32 (address + 4 + i))) _
        (read_bytes-Safe 1 ptr_scope (u32 (address + 4 + i)))
        (λ b.
          bind-Safe (read_text left address (i + 1)) _ (read_text-Safe left address (i + 1))
            (λ bs. pure-Safe (b ∷ bs))))
      s

read_string_from_memory-Safe : (a : ℕ) → Respects Safe (read_string_from_memory a)
unfolding read_string_from_memory
read_string_from_memory-Safe a =
    bind-Safe (read32 ptr_scope (a)) _ (read_bytes-Safe 4 ptr_scope (a)) (λ n. read_text-Safe n a 0)

execute_exit-Safe : Respects Safe execute_exit
unfolding execute_exit
execute_exit-Safe = bind-Safe (pop) _ (pop_top-Safe) (λ v.
    bind-Safe (check_type integer_types v.type) _ (check_type-Safe integer_types v.type)
      (λ _. set_exit_status-Safe (u32 v.raw_value)))

execute_print-Safe : Respects Safe execute_print
unfolding execute_print
execute_print-Safe = bind-Safe (pop) _ (pop_top-Safe) (λ v.
    bind-Safe (check_type number_types v.type) _ (check_type-Safe number_types v.type)
      (λ _. print_out-Safe (number v)))

execute_print_char-Safe : Respects Safe execute_print_char
unfolding execute_print_char
execute_print_char-Safe = bind-Safe (pop) _ (pop_top-Safe) (λ v.
    bind-Safe (check_type (ui32 ∷ []) v.type) _ (check_type-Safe (ui32 ∷ []) v.type)
      (λ _. print_out-Safe (text (utf8_encode v.raw_value))))

execute_print_str-Safe : Respects Safe execute_print_str
unfolding execute_print_str
execute_print_str-Safe = bind-Safe (pop) _ (pop_top-Safe) (λ v.
    bind-Safe (check_type (ptr ∷ []) v.type) _ (check_type-Safe (ptr ∷ []) v.type) (λ _.
      bind-Safe (read_string_from_memory (u32 v.raw_value)) _
        (read_string_from_memory-Safe (u32 v.raw_value)) (λ bs. print_out-Safe (text bs))))

invoke-Safe : (id : ℕ) → Respects Safe (invoke id)
unfolding invoke
invoke-Safe id = if_Safe (id == 0x00) _ _ execute_exit-Safe (
    if_Safe (id == 0x01) _ _ execute_print-Safe (
      if_Safe (id == 0x02) _ _ execute_print_char-Safe
        (if_Safe (id == 0x03) _ _ execute_print_str-Safe (throw-Safe internal))))

pub execute_halt-Safe : Respects Safe execute_halt
unfolding execute_halt
execute_halt-Safe s =
    by_ok (same_core s (record s { running = false }) refl refl refl refl refl (omega arith) refl)

pub execute_native-Safe : Respects Safe execute_native
unfolding execute_native
execute_native-Safe = bind-Safe (fetch_byte) _ (fetch_byte-Safe) (λ id. invoke-Safe id)

pub execute_call-Safe : Respects Safe execute_call
unfolding execute_call
execute_call-Safe = bind-Safe (fetch_operand ptr) _ (fetch_operand-Safe ptr) (λ a.
    bind-Safe (read8 code a) _ (read_bytes-Safe 1 code a) (λ n.
      bind-Safe (read32 code (u32 (a + 1))) _ (read_bytes-Safe 4 code (u32 (a + 1))) (λ m.
        bind-Safe (pop_many n) _ (pop_many-Safe n) (λ vs s.
          bind-Safe (CallStack.push s.pc n m vs) _ (push-Safe s.pc n m vs)
            (λ _. pc-Safe (u32 (a + 5))) s))))

pub execute_ret-Safe : Respects Safe execute_ret
unfolding execute_ret
execute_ret-Safe = pop-Safe

pub execute_jmp-Safe : Respects Safe execute_jmp
unfolding execute_jmp
execute_jmp-Safe = bind-Safe (fetch_operand ptr) _ (fetch_operand-Safe ptr) (λ a. pc-Safe a)

jump_if-Safe : (taken : Bool) (a : ℕ) → Respects Safe (jump_if taken a)
unfolding jump_if
jump_if-Safe taken a = if_Safe taken _ (pure tt) (pc-Safe a) (pure-Safe tt)

pub execute_jez-Safe : (fl : FloatOps) → Respects Safe (execute_jez fl)
unfolding execute_jez
execute_jez-Safe fl = bind-Safe (fetch_operand ptr) _ (fetch_operand-Safe ptr) (λ a.
    bind-Safe (pop) _ (pop_top-Safe)
      (λ v. bind-Safe (lift (is_zero fl v)) _ (lift-Safe (is_zero fl v)) (λ z. jump_if-Safe z a)))

pub execute_jnz-Safe : (fl : FloatOps) → Respects Safe (execute_jnz fl)
unfolding execute_jnz
execute_jnz-Safe fl = bind-Safe (fetch_operand ptr) _ (fetch_operand-Safe ptr) (λ a.
    bind-Safe (pop) _ (pop_top-Safe) (λ v.
      bind-Safe (lift (is_zero fl v)) _ (lift-Safe (is_zero fl v)) (λ z. jump_if-Safe (not z) a)))
