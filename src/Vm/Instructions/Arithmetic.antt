-- ===== src/Vm/Instructions/Arithmetic.antt =====
-- src/vm/VM.cpp: the arithmetic, bitwise, shift and comparison instructions.
use simple_virtual_language.Base.{true, false, if◌then◌else◌}
use simple_virtual_language.Vm.State.{division_by_zero, Value, Result, M, ◌>>=◌, lift, throw}
use simple_virtual_language.Vm.Float.{FloatOps}
use simple_virtual_language.Vm.Values.{is_zero}
use simple_virtual_language.Vm.Arithmetic.Numeric.{add, sub, mul, div, rem}
use simple_virtual_language.Vm.Arithmetic.Bitwise.{
  bitwise_not, bitwise_and, bitwise_or, bitwise_xor, shl, shr,
}
use simple_virtual_language.Vm.Arithmetic.Compare.{ceq, cne, clt, cle, cgt, cge}
use simple_virtual_language.Vm.OperandStack.{pop, push_value}

-- Pops the second operand, then the first, and pushes the result.
unfoldable pub binary : (Value → Value → Result Value) → M (Unit {0})
unfolding pop push_value
binary op = do value1 ← pop; value2 ← pop; result ← lift (op value2 value1); push_value result

unfoldable pub execute_not : M (Unit {0})
unfolding pop push_value bitwise_not
execute_not = do v ← pop; result ← lift (bitwise_not v); push_value result

unfoldable pub execute_and : M (Unit {0})
unfolding binary bitwise_and
execute_and = binary bitwise_and

unfoldable pub execute_orr : M (Unit {0})
unfolding binary bitwise_or
execute_orr = binary bitwise_or

unfoldable pub execute_xor : M (Unit {0})
unfolding binary bitwise_xor
execute_xor = binary bitwise_xor

unfoldable pub execute_shl : M (Unit {0})
unfolding binary shl
execute_shl = binary shl

unfoldable pub execute_shr : M (Unit {0})
unfolding binary shr
execute_shr = binary (shr false)

unfoldable pub execute_sar : M (Unit {0})
unfolding binary shr
execute_sar = binary (shr true)

unfoldable pub execute_ceq : M (Unit {0})
unfolding binary ceq
execute_ceq = binary ceq

unfoldable pub execute_cne : M (Unit {0})
unfolding binary cne
execute_cne = binary cne

module _ (fl : FloatOps) where
  -- A zero divisor raises the error before the operation is tried.
  unfoldable pub divide : (Value → Value → Result Value) → M (Unit {0})
  unfolding pop push_value is_zero
  divide op = do
    value1 ← pop
    value2 ← pop
    zero ← lift (is_zero fl value1)
    if zero then throw division_by_zero else do result ← lift (op value2 value1); push_value result

  unfoldable pub execute_add : M (Unit {0})
  unfolding binary add
  execute_add = binary (add fl)

  unfoldable pub execute_sub : M (Unit {0})
  unfolding binary sub
  execute_sub = binary (sub fl)

  unfoldable pub execute_mul : M (Unit {0})
  unfolding binary mul
  execute_mul = binary (mul fl)

  unfoldable pub execute_div : M (Unit {0})
  unfolding divide div
  execute_div = divide (div fl)

  unfoldable pub execute_rem : M (Unit {0})
  unfolding divide rem
  execute_rem = divide (rem fl)

  unfoldable pub execute_clt : M (Unit {0})
  unfolding binary clt
  execute_clt = binary (clt fl)

  unfoldable pub execute_cle : M (Unit {0})
  unfolding binary cle
  execute_cle = binary (cle fl)

  unfoldable pub execute_cgt : M (Unit {0})
  unfolding binary cgt
  execute_cgt = binary (cgt fl)

  unfoldable pub execute_cge : M (Unit {0})
  unfolding binary cge
  execute_cge = binary (cge fl)
