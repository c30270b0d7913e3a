-- ===== src/Vm/Run.antt =====
-- src/vm/VM.cpp: `execute`, which dispatches on the opcode, and the loop of `runProgram`.
use simple_virtual_language.Base.{ℕ, zero, suc, true, false, ◌==◌, if◌then◌else◌}
use simple_virtual_language.Isa.{Opcode, opcode_of_byte}
use simple_virtual_language.Vm.State.{
  RuntimeErrorType, Vm, ok, thrown, undefined_behaviour, M, pure, ◌>>=◌,
}
use simple_virtual_language.Vm.Float.{FloatOps}
use simple_virtual_language.Vm.Fetch.{fetch_byte}
use simple_virtual_language.Vm.Instructions.Stack.{
  execute_push, execute_pop, execute_dup, execute_swap, execute_rotd, execute_rotu,
}
use simple_virtual_language.Vm.Instructions.Memory.{
  execute_load, execute_loadb, execute_loadg, execute_loadl, execute_store, execute_storeb,
  execute_storeg, execute_storel, execute_addrl, execute_alloc, execute_free,
}
use simple_virtual_language.Vm.Instructions.Control.{
  execute_halt, execute_native, execute_call, execute_ret, execute_jmp, execute_jez, execute_jnz,
}
use simple_virtual_language.Vm.Instructions.Arithmetic.{
  execute_add, execute_sub, execute_mul, execute_div, execute_rem, execute_not, execute_and,
  execute_orr, execute_xor, execute_shl, execute_shr, execute_sar, execute_ceq, execute_cne,
  execute_clt, execute_cle, execute_cgt, execute_cge,
}
use simple_virtual_language.Vm.Instructions.Other.{execute_conv, execute_throw}

-- The `switch` of `execute`; a byte that is no opcode does nothing.
unfoldable pub dispatch : FloatOps → Opcode → M (Unit {0})
unfolding execute_push execute_pop execute_dup execute_swap execute_rotd execute_rotu execute_load
    execute_loadb execute_loadg execute_loadl execute_store execute_storeb execute_storeg
    execute_storel execute_addrl execute_alloc execute_free execute_halt execute_native execute_call
    execute_ret execute_jmp execute_jez execute_jnz execute_add execute_sub execute_mul execute_div
    execute_rem execute_not execute_and execute_orr execute_xor execute_shl execute_shr execute_sar
    execute_ceq execute_cne execute_clt execute_cle execute_cgt execute_cge execute_conv
    execute_throw
dispatch fl Opcode.nop = pure tt
dispatch fl Opcode.halt = execute_halt
dispatch fl Opcode.push = execute_push
dispatch fl Opcode.pop = execute_pop
dispatch fl Opcode.dup = execute_dup
dispatch fl Opcode.swap = execute_swap
dispatch fl Opcode.rotd = execute_rotd
dispatch fl Opcode.rotu = execute_rotu
dispatch fl Opcode.load = execute_load
dispatch fl Opcode.loadb = execute_loadb
dispatch fl Opcode.loadg = execute_loadg
dispatch fl Opcode.loadl = execute_loadl
dispatch fl Opcode.store = execute_store
dispatch fl Opcode.storeb = execute_storeb
dispatch fl Opcode.storeg = execute_storeg
dispatch fl Opcode.storel = execute_storel
dispatch fl Opcode.addrl = execute_addrl
dispatch fl Opcode.alloc = execute_alloc
dispatch fl Opcode.free = execute_free
dispatch fl Opcode.native = execute_native
dispatch fl Opcode.call = execute_call
dispatch fl Opcode.ret = execute_ret
dispatch fl Opcode.jmp = execute_jmp
dispatch fl Opcode.jez = execute_jez fl
dispatch fl Opcode.jnz = execute_jnz fl
dispatch fl Opcode.add = execute_add fl
dispatch fl Opcode.sub = execute_sub fl
dispatch fl Opcode.mul = execute_mul fl
dispatch fl Opcode.div = execute_div fl
dispatch fl Opcode.rem = execute_rem fl
dispatch fl Opcode.not = execute_not
dispatch fl Opcode.and = execute_and
dispatch fl Opcode.orr = execute_orr
dispatch fl Opcode.xor = execute_xor
dispatch fl Opcode.shl = execute_shl
dispatch fl Opcode.shr = execute_shr
dispatch fl Opcode.sar = execute_sar
dispatch fl Opcode.ceq = execute_ceq
dispatch fl Opcode.cne = execute_cne
dispatch fl Opcode.clt = execute_clt fl
dispatch fl Opcode.cle = execute_cle fl
dispatch fl Opcode.cgt = execute_cgt fl
dispatch fl Opcode.cge = execute_cge fl
dispatch fl Opcode.conv = execute_conv fl
dispatch fl Opcode.throw = execute_throw
dispatch fl (Opcode.unnamed b) = pure tt

unfoldable pub execute : FloatOps → M (Unit {0})
unfolding fetch_byte dispatch opcode_of_byte
execute fl = do opcode ← fetch_byte; dispatch fl (opcode_of_byte opcode)

-- How `runProgram` ends: it returns, it throws again with the exit code set to 1, an instruction is
-- undefined behaviour, or the given number of instructions did not suffice.
pub data RunEnd : Type 0 where
  finished : Vm → RunEnd
  failed : RuntimeErrorType → Vm → RunEnd
  crashed : RunEnd
  out_of_fuel : Vm → RunEnd

abbrev pub with_exit_code : Vm → ℕ → Vm
with_exit_code s code = record s { exit_code = code }

-- `while (running) { execute(); if (exitCode != 0) return; }`
unfoldable pub run_program : FloatOps → ℕ → Vm → RunEnd
unfolding execute
run_program fl zero s = out_of_fuel s
run_program fl (suc fuel) s = elim s.running [
  | false ↦ finished s
  | true ↦ elim (execute fl s) [
    | undefined_behaviour ↦ crashed
    | thrown e s' ↦ failed e (with_exit_code s' 1)
    | ok u s' ↦ let rest = run_program fl fuel s' in if s'.exit_code == 0 then rest else finished s'
  ]
]
