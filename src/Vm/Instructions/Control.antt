-- ===== src/Vm/Instructions/Control.antt =====
-- src/vm/VM.cpp: `halt`, `native`, `call`, `ret` and the jumps.
use simple_virtual_language.Base.{ℕ, ◌+◌, Bool, false, not, if◌then◌else◌}
use simple_virtual_language.Isa.{ptr}
use simple_virtual_language.Vm.State.{M, pure, ◌>>=◌, ◌>>◌, get, modify, lift, u32}
use simple_virtual_language.Vm.Float.{FloatOps}
use simple_virtual_language.Vm.Values.{is_zero}
use simple_virtual_language.Vm.Memory.{code, read8, read32}
use simple_virtual_language.Vm.OperandStack.{pop, pop_many}
use simple_virtual_language.Vm.CallStack
use simple_virtual_language.Vm.Native.{invoke}
use simple_virtual_language.Vm.Fetch.{fetch_byte, fetch_operand, with_pc}

unfoldable pub execute_halt : M (Unit {0})
execute_halt = modify λ s. record s { running = false }

unfoldable pub execute_native : M (Unit {0})
unfolding fetch_byte invoke
execute_native = do id ← fetch_byte; invoke id

-- A method starts with its number of arguments, a byte, and of locals, four bytes.
unfoldable pub execute_call : M (Unit {0})
unfolding fetch_operand read8 read32 pop_many CallStack.push
execute_call = do
  address ← fetch_operand ptr
  number_of_arguments ← read8 code address
  number_of_locals ← read32 code (u32 (address + 1))
  arguments ← pop_many number_of_arguments
  s ← get
  CallStack.push s.pc number_of_arguments number_of_locals arguments
  modify λ s. with_pc s (u32 (address + 5))

unfoldable pub execute_ret : M (Unit {0})
unfolding CallStack.pop
execute_ret = CallStack.pop

unfoldable pub execute_jmp : M (Unit {0})
unfolding fetch_operand
execute_jmp = do jump_address ← fetch_operand ptr; modify λ s. with_pc s jump_address

unfoldable pub jump_if : Bool → ℕ → M (Unit {0})
jump_if taken jump_address s = (if taken then modify (λ s. with_pc s jump_address) else pure tt) s

module _ (fl : FloatOps) where
  unfoldable pub execute_jez : M (Unit {0})
  unfolding fetch_operand pop is_zero jump_if
  execute_jez = do
    jump_address ← fetch_operand ptr
    v ← pop
    zero ← lift (is_zero fl v)
    jump_if zero jump_address

  unfoldable pub execute_jnz : M (Unit {0})
  unfolding fetch_operand pop is_zero jump_if
  execute_jnz = do
    jump_address ← fetch_operand ptr
    v ← pop
    zero ← lift (is_zero fl v)
    jump_if (not zero) jump_address
