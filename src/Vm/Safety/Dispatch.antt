-- ===== src/Vm/Safety/Dispatch.antt =====
-- The preservation lemmas for `execute` of src/vm/VM.cpp.
use simple_virtual_language.Base.{true, false}
use simple_virtual_language.Isa.{Opcode, opcode_of_byte}
use simple_virtual_language.Vm.Float.{FloatOps}
use simple_virtual_language.Vm.Fetch.{fetch_byte}
use simple_virtual_language.Vm.Safety.Instructions.Stack.{
  execute_push-Safe, execute_pop-Safe, execute_dup-Safe, execute_swap-Safe, execute_rotd-Safe,
  execute_rotu-Safe,
}
use simple_virtual_language.Vm.Safety.Instructions.Memory.{
  execute_load-Safe, execute_loadb-Safe, execute_loadg-Safe, execute_loadl-Safe, execute_store-Safe,
  execute_storeb-Safe, execute_storeg-Safe, execute_storel-Safe, execute_addrl-Safe,
  execute_alloc-Safe, execute_free-Safe,
}
use simple_virtual_language.Vm.Safety.Instructions.Control.{
  execute_halt-Safe, execute_native-Safe, execute_call-Safe, execute_ret-Safe, execute_jmp-Safe,
  execute_jez-Safe, execute_jnz-Safe,
}
use simple_virtual_language.Vm.Safety.Instructions.Values.{
  execute_not-Safe, execute_conv-Safe, execute_throw-Safe, binary-Safe, divide-Safe,
}
use simple_virtual_language.Vm.Arithmetic.Numeric.{add, sub, mul, div, rem}
use simple_virtual_language.Vm.Arithmetic.Bitwise.{bitwise_and, bitwise_or, bitwise_xor, shl, shr}
use simple_virtual_language.Vm.Arithmetic.Compare.{ceq, cne, clt, cle, cgt, cge}
use simple_virtual_language.Vm.Run.{dispatch, execute}
use simple_virtual_language.Vm.Safety.Within.{Respects}
use simple_virtual_language.Vm.Safety.Invariant.{Safe}
use simple_virtual_language.Vm.Safety.Primitives.{bind-Safe, pure-Safe, fetch_byte-Safe}

dispatch-Safe : (fl : FloatOps) (op : Opcode) → Respects Safe (dispatch fl op)
unfolding dispatch
dispatch-Safe fl Opcode.nop = pure-Safe tt
dispatch-Safe fl Opcode.halt = execute_halt-Safe
dispatch-Safe fl Opcode.push = execute_push-Safe
dispatch-Safe fl Opcode.pop = execute_pop-Safe
dispatch-Safe fl Opcode.dup = execute_dup-Safe
dispatch-Safe fl Opcode.swap = execute_swap-Safe
dispatch-Safe fl Opcode.rotd = execute_rotd-Safe
dispatch-Safe fl Opcode.rotu = execute_rotu-Safe
dispatch-Safe fl Opcode.load = execute_load-Safe
dispatch-Safe fl Opcode.loadb = execute_loadb-Safe
dispatch-Safe fl Opcode.loadg = execute_loadg-Safe
dispatch-Safe fl Opcode.loadl = execute_loadl-Safe
dispatch-Safe fl Opcode.store = execute_store-Safe
dispatch-Safe fl Opcode.storeb = execute_storeb-Safe
dispatch-Safe fl Opcode.storeg = execute_storeg-Safe
dispatch-Safe fl Opcode.storel = execute_storel-Safe
dispatch-Safe fl Opcode.addrl = execute_addrl-Safe
dispatch-Safe fl Opcode.alloc = execute_alloc-Safe
dispatch-Safe fl Opcode.free = execute_free-Safe
dispatch-Safe fl Opcode.native = execute_native-Safe
dispatch-Safe fl Opcode.call = execute_call-Safe
dispatch-Safe fl Opcode.ret = execute_ret-Safe
dispatch-Safe fl Opcode.jmp = execute_jmp-Safe
dispatch-Safe fl Opcode.jez = execute_jez-Safe fl
dispatch-Safe fl Opcode.jnz = execute_jnz-Safe fl
dispatch-Safe fl Opcode.add = binary-Safe (add fl)
dispatch-Safe fl Opcode.sub = binary-Safe (sub fl)
dispatch-Safe fl Opcode.mul = binary-Safe (mul fl)
dispatch-Safe fl Opcode.div = divide-Safe fl (div fl)
dispatch-Safe fl Opcode.rem = divide-Safe fl (rem fl)
dispatch-Safe fl Opcode.not = execute_not-Safe
dispatch-Safe fl Opcode.and = binary-Safe bitwise_and
dispatch-Safe fl Opcode.orr = binary-Safe bitwise_or
dispatch-Safe fl Opcode.xor = binary-Safe bitwise_xor
dispatch-Safe fl Opcode.shl = binary-Safe shl
dispatch-Safe fl Opcode.shr = binary-Safe (shr false)
dispatch-Safe fl Opcode.sar = binary-Safe (shr true)
dispatch-Safe fl Opcode.ceq = binary-Safe ceq
dispatch-Safe fl Opcode.cne = binary-Safe cne
dispatch-Safe fl Opcode.clt = binary-Safe (clt fl)
dispatch-Safe fl Opcode.cle = binary-Safe (cle fl)
dispatch-Safe fl Opcode.cgt = binary-Safe (cgt fl)
dispatch-Safe fl Opcode.cge = binary-Safe (cge fl)
dispatch-Safe fl Opcode.conv = execute_conv-Safe fl
dispatch-Safe fl Opcode.throw = execute_throw-Safe
dispatch-Safe fl (Opcode.unnamed b) = pure-Safe tt

pub execute-Safe : (fl : FloatOps) → Respects Safe (execute fl)
unfolding execute
execute-Safe fl = bind-Safe fetch_byte _ fetch_byte-Safe (λ b. dispatch-Safe fl (opcode_of_byte b))
