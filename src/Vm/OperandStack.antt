-- ===== src/Vm/OperandStack.antt =====
-- src/vm/OperandStack.cpp: the operand stack, bounded by MAX_OPERAND_STACK_SIZE. The head of the list
-- is the back of the vector.
use simple_virtual_language.Base.{
  ℕ, zero, suc, List, [], ◌∷◌, Option, length, get_elem?, ◌==◌, if◌then◌else◌,
}
use simple_virtual_language.Isa.{i32, ui32, i64, ui64, f32, f64, ptr, type_code}
use simple_virtual_language.Vm.State.{
  internal, Value, value, Vm, M, ok, thrown, pure, ◌>>=◌, ◌>>◌, modify, throw,
}

abbrev pub max_operand_stack_size : ℕ
max_operand_stack_size = 1024

abbrev pub with_stack : Vm → List Value → Vm
with_stack s stack = record s { operand_stack = stack }

unfoldable pub pop_from : List Value → M Value
pop_from [] s = thrown internal s
pop_from (top ∷ rest) s = ok top (with_stack s rest)

unfoldable pub pop : M Value
unfolding pop_from
pop s = pop_from s.operand_stack s

unfoldable pub peek_of : List Value → M Value
peek_of [] = throw internal
peek_of (top ∷ rest) = pure top

unfoldable pub peek : M Value
unfolding peek_of
peek s = peek_of s.operand_stack s

-- `push(const Value value)`.
unfoldable pub push_value : Value → M (Unit {0})
push_value v s =
    (if length s.operand_stack == max_operand_stack_size
        then throw internal
        else modify (λ s. with_stack s (v ∷ s.operand_stack)))
      s

-- The `switch` over the type operand. `Value{}`, a zero `i32`, stays where no case fits.
unfoldable pub value_of_operand : ℕ → ℕ → Value
value_of_operand type_operand raw =
    if type_operand == 0x00
    then value i32 raw
    else if type_operand == 0x01
    then value ui32 raw
    else if type_operand == 0x02
    then value i64 raw
    else if type_operand == 0x03
    then value ui64 raw
    else if type_operand == 0x04
    then value f32 raw
    else if type_operand == 0x05
    then value f64 raw
    else if type_operand == 0x06
    then value ptr raw
    else value i32 0

-- `push(const uint8_t typeOperand, const uint64_t rawValue)`.
unfoldable pub push : ℕ → ℕ → M (Unit {0})
unfolding push_value value_of_operand
push type_operand raw = push_value (value_of_operand type_operand raw)

-- `getStack()->size()`, and the element `depth` below the top.
unfoldable pub stack_size : M ℕ
stack_size s = ok (length s.operand_stack) s

unfoldable pub at_depth : ℕ → M (Option Value)
at_depth depth s = ok (get_elem? s.operand_stack depth) s

-- A loop that pops `n` values, the first popped first.
unfoldable pub pop_many : ℕ → M (List Value)
unfolding pop
pop_many zero = pure []
pop_many (suc n) = do v ← pop; vs ← pop_many n; pure (v ∷ vs)

-- A loop that pushes values again by their type code.
unfoldable pub push_all : List Value → M (Unit {0})
unfolding push type_code
push_all [] = pure tt
push_all (v ∷ vs) = do push (type_code v.type) v.raw_value; push_all vs
