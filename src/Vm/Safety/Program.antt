-- ===== src/Vm/Safety/Program.antt =====
-- Whole runs of src/vm/VM.cpp, `runProgram`, against the invariant and the code region.
use simple_virtual_language.Base.{
  ℕ, zero, suc, ◌==◌, refl, Bool, true, false, inl, inr, if◌then◌else◌, Bool-cases, arith,
}
use simple_virtual_language.Vm.State.{
  RuntimeErrorType, Vm, Outcome, ok, thrown, undefined_behaviour,
}
use simple_virtual_language.Vm.Float.{FloatOps}
use simple_virtual_language.Vm.Run.{
  RunEnd, finished, failed, crashed, out_of_fuel, execute, run_program, with_exit_code,
}
use simple_virtual_language.Vm.Safety.Within.{Within, by_ok, by_throw, by_undefined}
use simple_virtual_language.Vm.Safety.Invariant.{
  Inv, CodeKept, Safe, Safe-refl, Safe-trans, same_core,
}
use simple_virtual_language.Vm.Safety.Dispatch.{execute-Safe}

-- The state in which a run stops, wherever that is, is related to the first one. A run that meets
-- undefined behaviour has no such state.
pub data Stops (R : Vm → Vm → Type 0) (s : Vm) : RunEnd → Type 0 where
  at_end : {t : Vm} → R s t → Stops R s (finished t)
  at_error : {e : RuntimeErrorType} {t : Vm} → R s t → Stops R s (failed e t)
  at_limit : {t : Vm} → R s t → Stops R s (out_of_fuel t)
  nowhere : Stops R s crashed

extend_stop : (s t : Vm) (r : RunEnd) → Safe s t → Stops Safe t r → Stops Safe s r
extend_stop s t r st (at_end {t = u} tu) = at_end (Safe-trans s t u st tu)
extend_stop s t r st (at_error {t = u} tu) = at_error (Safe-trans s t u st tu)
extend_stop s t r st (at_limit {t = u} tu) = at_limit (Safe-trans s t u st tu)
extend_stop s t r st nowhere = nowhere

after_instruction :
    (fl : FloatOps) (fuel : ℕ) (s : Vm) (r : Outcome (Unit {0}))
    → Within Safe s r
    → ((t : Vm) → Stops Safe t (run_program fl fuel t))
    → Stops Safe s (elim r as (λ _. RunEnd) [
      | undefined_behaviour ↦ crashed
      | thrown e s' ↦ failed e (with_exit_code s' 1)
      | ok u s' ↦
          let rest = run_program fl fuel s' in if s'.exit_code == 0 then rest else finished s'
    ])
after_instruction fl fuel s r (by_ok {s' = t} st) next = elim (Bool-cases (t.exit_code == 0)) [
  | inl success ↦ rw success (extend_stop s t (run_program fl fuel t) st (next t))
  | inr failure ↦ rw failure (at_end st)
]
after_instruction fl fuel s r (by_throw {s' = t} st) next = at_error (
    Safe-trans s t (with_exit_code t 1) st
      (same_core t (with_exit_code t 1) refl refl refl refl refl (omega arith) refl))
after_instruction fl fuel s r by_undefined next = nowhere

when_running :
    (b : Bool) (s : Vm) (r : RunEnd)
    → Stops Safe s r
    → Stops Safe s (elim b as (λ _. RunEnd) [ false ↦ finished s | true ↦ r ])
when_running true s r h = h
when_running false s r h = at_end (Safe-refl s)

run_program-Safe : (fl : FloatOps) (fuel : ℕ) (s : Vm) → Stops Safe s (run_program fl fuel s)
unfolding run_program
run_program-Safe fl zero s = at_limit (Safe-refl s)
run_program-Safe fl (suc fuel) s =
    when_running s.running s _
      (after_instruction fl fuel s (execute fl s) (execute-Safe fl s) (run_program-Safe fl fuel))

weaken_stop :
    (Q : Vm → Vm → Type 0) (s : Vm) (r : RunEnd)
    → ((t : Vm) → Safe s t → Q s t)
    → Stops Safe s r
    → Stops Q s r
weaken_stop Q s r f (at_end {t = u} tu) = at_end (f u tu)
weaken_stop Q s r f (at_error {t = u} tu) = at_error (f u tu)
weaken_stop Q s r f (at_limit {t = u} tu) = at_limit (f u tu)
weaken_stop Q s r f nowhere = nowhere

-- From a state that meets the invariant, no run of any bytecode changes a byte of the code region or
-- moves its end: neither where it ends, nor where an error stops it, nor after any number of steps.
pub run_program-CodeKept :
    (fl : FloatOps) (fuel : ℕ) (s : Vm) → Inv s → Stops CodeKept s (run_program fl fuel s)
run_program-CodeKept fl fuel s i =
    weaken_stop CodeKept s (run_program fl fuel s) (λ t st. st.code i) (run_program-Safe fl fuel s)

-- From a state that meets the invariant, the state in which a run stops meets it too: the registers
-- lie in order, all frames fit into memory above the stack pointer, and the operand stack holds at
-- most 1024 values.
pub run_program-Inv :
    (fl : FloatOps) (fuel : ℕ) (s : Vm) → Inv s → Stops (λ _ t. Inv t) s (run_program fl fuel s)
run_program-Inv fl fuel s i =
    weaken_stop (λ _ t. Inv t) s (run_program fl fuel s) (λ t st. st.keeps i)
      (run_program-Safe fl fuel s)
