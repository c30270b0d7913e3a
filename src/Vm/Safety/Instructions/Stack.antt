-- ===== src/Vm/Safety/Instructions/Stack.antt =====
-- The preservation lemmas for the stack instructions of src/vm/VM.cpp.
use mathlib.Core.List.{reverse}
use simple_virtual_language.Base.{leb, List, [], ◌∷◌, ◌++◌, Option, none, some}
use simple_virtual_language.Isa.{type_code, type_of_code}
use simple_virtual_language.Vm.State.{internal, Value}
use simple_virtual_language.Vm.OperandStack.{pop, push, pop_many, stack_size, at_depth}
use simple_virtual_language.Vm.Fetch.{fetch_type, fetch_operand, fetch_depth}
use simple_virtual_language.Vm.Safety.Within.{by_ok, by_undefined, Respects}
use simple_virtual_language.Vm.Safety.Invariant.{Safe, Safe-refl}
use simple_virtual_language.Vm.Safety.Primitives.{
  bind-Safe, pure-Safe, throw-Safe, if_Safe, pop_top-Safe, push_typed-Safe, pop_many-Safe,
  push_all-Safe, fetch_byte-Safe, fetch_operand-Safe, fetch_depth-Safe,
}
use simple_virtual_language.Vm.Instructions.Stack.{
  execute_push, execute_pop, push_copy, execute_dup, execute_swap, rotate_down, execute_rotd,
  rotate_up, execute_rotu,
}

pub execute_push-Safe : Respects Safe execute_push
unfolding execute_push
execute_push-Safe = bind-Safe (fetch_type) _ (fetch_byte-Safe) (λ t.
    bind-Safe (fetch_operand (type_of_code t)) _ (fetch_operand-Safe (type_of_code t))
      (λ v. push_typed-Safe t v))

pub execute_pop-Safe : Respects Safe execute_pop
unfolding execute_pop
execute_pop-Safe = bind-Safe (pop) _ (pop_top-Safe) (λ top. pure-Safe tt)

push_copy-Safe : (v : Option Value) → Respects Safe (push_copy v)
unfolding push_copy
push_copy-Safe none s = by_undefined
push_copy-Safe (some v) s = push_typed-Safe (type_code v.type) v.raw_value s

pub execute_dup-Safe : Respects Safe execute_dup
unfolding execute_dup stack_size at_depth
execute_dup-Safe = bind-Safe fetch_depth _ fetch_depth-Safe (λ depth.
    bind-Safe stack_size _ (λ s. by_ok (Safe-refl s))
      (λ size.
        if_Safe (leb size depth) _ _ (throw-Safe internal)
          (bind-Safe (at_depth depth) _ (λ s. by_ok (Safe-refl s)) push_copy-Safe)))

pub execute_swap-Safe : Respects Safe execute_swap
unfolding execute_swap
execute_swap-Safe = bind-Safe (pop) _ (pop_top-Safe) (λ y. bind-Safe (pop) _ (pop_top-Safe) (λ x.
    bind-Safe (push (type_code y.type) y.raw_value) _
      (push_typed-Safe (type_code y.type) y.raw_value)
      (λ _. push_typed-Safe (type_code x.type) x.raw_value)))

rotate_down-Safe : (vs : List Value) → Respects Safe (rotate_down vs)
unfolding rotate_down
rotate_down-Safe [] s = by_undefined
rotate_down-Safe (v ∷ vs) s = push_all-Safe (vs ++ v ∷ []) s

rotate_up-Safe : (vs : List Value) → Respects Safe (rotate_up vs)
unfolding rotate_up
rotate_up-Safe [] s = by_undefined
rotate_up-Safe (v ∷ vs) s = push_all-Safe (v ∷ reverse vs) s

pub execute_rotd-Safe : Respects Safe execute_rotd
unfolding execute_rotd
execute_rotd-Safe = bind-Safe (fetch_depth) _ (fetch_depth-Safe) (λ depth.
    bind-Safe (pop_many depth) _ (pop_many-Safe depth) (λ vs. rotate_down-Safe (reverse vs)))

pub execute_rotu-Safe : Respects Safe execute_rotu
unfolding execute_rotu
execute_rotu-Safe =
    bind-Safe (fetch_depth) _ (fetch_depth-Safe)
      (λ depth. bind-Safe (pop_many depth) _ (pop_many-Safe depth) (λ vs. rotate_up-Safe vs))
