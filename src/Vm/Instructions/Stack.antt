-- ===== src/Vm/Instructions/Stack.antt =====
-- src/vm/VM.cpp: `push`, `pop`, `dup`, `swap`, `rotD` and `rotU`.
use mathlib.Core.List.{reverse}
use simple_virtual_language.Base.{◌∷◌, ◌++◌, [], List, Option, none, some, leb, if◌then◌else◌}
use simple_virtual_language.Isa.{type_code, type_of_code}
use simple_virtual_language.Vm.State.{internal, Value, M, pure, ◌>>=◌, ◌>>◌, throw, undef}
use simple_virtual_language.Vm.OperandStack.{pop, push, stack_size, at_depth, pop_many, push_all}
use simple_virtual_language.Vm.Fetch.{fetch_type, fetch_operand, fetch_depth}

unfoldable pub execute_push : M (Unit {0})
unfolding fetch_type fetch_operand push
execute_push = do t ← fetch_type; v ← fetch_operand (type_of_code t); push t v

unfoldable pub execute_pop : M (Unit {0})
unfolding pop
execute_pop = do top ← pop; pure tt

-- The vector's `at` is reached with an index in range.
unfoldable pub push_copy : Option Value → M (Unit {0})
unfolding push type_code
push_copy none = undef
push_copy (some v) = push (type_code v.type) v.raw_value

unfoldable pub execute_dup : M (Unit {0})
unfolding fetch_depth stack_size at_depth push_copy
execute_dup = do
  depth ← fetch_depth
  size ← stack_size
  if leb size depth then throw internal else do v ← at_depth depth; push_copy v

unfoldable pub execute_swap : M (Unit {0})
unfolding pop push type_code
execute_swap = do
  y ← pop
  x ← pop
  push (type_code y.type) y.raw_value
  push (type_code x.type) x.raw_value

-- Given the popped values, the deepest first. `values[depth - 1]` is out of range for depth 0.
unfoldable pub rotate_down : List Value → M (Unit {0})
unfolding push_all
rotate_down [] = undef
rotate_down (deepest ∷ others) = push_all (others ++ deepest ∷ [])

unfoldable pub execute_rotd : M (Unit {0})
unfolding fetch_depth pop_many rotate_down
execute_rotd = do depth ← fetch_depth; values ← pop_many depth; rotate_down (reverse values)

-- Given the popped values, the top first.
unfoldable pub rotate_up : List Value → M (Unit {0})
unfolding push_all
rotate_up [] = undef
rotate_up (top ∷ others) = push_all (top ∷ reverse others)

unfoldable pub execute_rotu : M (Unit {0})
unfolding fetch_depth pop_many rotate_up
execute_rotu = do depth ← fetch_depth; values ← pop_many depth; rotate_up values
