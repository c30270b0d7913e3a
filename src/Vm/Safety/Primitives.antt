-- ===== src/Vm/Safety/Primitives.antt =====
-- The preservation lemmas for src/vm/OperandStack.cpp and the fetches of src/vm/VM.cpp.
use simple_virtual_language.Base.{
  ℕ, zero, suc, ◌+◌, ◌≡◌, refl, inl, inr, Bool, false, ◌==◌, if◌then◌else◌, arith, Bool-cases, List,
  [], ◌∷◌, Option, none, some, length,
}
use simple_virtual_language.Base.Int.{ℤ, pos, pos_part, neg_part, sub_ℕ, ◌*ℤ◌}
use simple_virtual_language.Vm.Values.{i32_to_raw}
use simple_virtual_language.Isa.{
  ValueType, i32, ui32, i64, ui64, f32, f64, ptr, str, unnamed, type_code,
}
use simple_virtual_language.Vm.State.{
  RuntimeErrorType, internal, Value, FrameInfo, Vm, Outcome, ok, M, pure, and_then, modify, throw,
  Result, lift, u32,
}
use simple_virtual_language.Vm.Memory.{code, read32, read64}
use simple_virtual_language.Vm.OperandStack.{
  with_stack, pop_from, pop, push_value, value_of_operand, push, pop_many, push_all,
  max_operand_stack_size,
}
use simple_virtual_language.Vm.Fetch.{
  with_pc, advance, fetch_byte, fetch32, fetch64, fetch_operand, fetch_depth, in_i32, slot_outside,
  slot_in, calculate_and_validate_frame_address,
}
use simple_virtual_language.Vm.CallStack.{peek_frame_info}
use simple_virtual_language.Vm.Native.{check_type, expects}
use simple_virtual_language.Vm.Safety.Within.{
  Within, by_ok, by_throw, by_undefined, Respects, seq, if-Within, within_lift,
}
use simple_virtual_language.Vm.Safety.Invariant.{Safe, Safe-refl, Safe-trans, same_core}
use simple_virtual_language.Vm.Safety.Memory.{read_bytes-Safe}

module _ {A B : Type 0} where
  -- `m >>= f` keeps `Safe` where both parts do.
  pub bind-Safe :
      (m : M A) (f : A → M B)
      → Respects Safe m
      → ((a : A) → Respects Safe (f a))
      → Respects Safe (λ s. and_then (m s) f)
  bind-Safe = seq Safe Safe-trans

pub pure-Safe : {A : Type 0} (a : A) → Respects Safe (pure a)
pure-Safe a s = by_ok (Safe-refl s)

pub throw-Safe : {A : Type 0} (e : RuntimeErrorType) → Respects Safe (throw {A = A} e)
throw-Safe e s = by_throw (Safe-refl s)

pub lift-Safe : {A : Type 0} (r : Result A) → Respects Safe (lift r)
lift-Safe = within_lift Safe Safe-refl

pub if_Safe :
    {A : Type 0} (b : Bool) (m k : M A)
    → Respects Safe m
    → Respects Safe k
    → Respects Safe (λ s. (if b then m else k) s)
if_Safe b m k hm hk s = if-Within Safe b m k s (hm s) (hk s)

pub pc-Safe : (n : ℕ) → Respects Safe (modify (λ s. with_pc s n))
pc-Safe n s = by_ok (same_core s (with_pc s n) refl refl refl refl refl (omega arith) refl)

pub advance-Safe : (n : ℕ) → Respects Safe (advance n)
unfolding advance
advance-Safe n s = pc-Safe (u32 (s.pc + n)) s

pop_from-Safe :
    (stack : List Value) (s : Vm) → s.operand_stack ≡ stack → Within Safe s (pop_from stack s)
unfolding pop_from
pop_from-Safe [] s e = by_throw (Safe-refl s)
pop_from-Safe (top ∷ rest) s e =
    by_ok (same_core s (with_stack s rest) refl refl refl refl refl (ground (arith, e)) refl)

pub pop_top-Safe : Respects Safe pop
unfolding pop
pop_top-Safe s = pop_from-Safe s.operand_stack s refl

grown :
    (s : Vm) (v : Value)
    → (length s.operand_stack == max_operand_stack_size) ≡ false
    → Safe s (with_stack s (v ∷ s.operand_stack))
grown s v room = record {
  keeps = λ i. record {
    data_below_heap = i.data_below_heap;
    heap_ordered = i.heap_ordered;
    stack_above_code = i.stack_above_code;
    frames_fit = i.frames_fit;
    stack_bounded = ground (arith, i.stack_bounded);
  };
  code = λ i. record { same_start = refl; same_bytes = λ a h. refl };
}

pub push_value-Safe : (v : Value) → Respects Safe (push_value v)
unfolding push_value
push_value-Safe v s = elim (Bool-cases (length s.operand_stack == max_operand_stack_size)) [
  | inl full ↦ rw full (by_throw (Safe-refl s))
  | inr room ↦ rw room (by_ok (grown s v room))
]

pub push_typed-Safe : (t raw : ℕ) → Respects Safe (push t raw)
unfolding push
push_typed-Safe t raw = push_value-Safe (value_of_operand t raw)

pub pop_many-Safe : (n : ℕ) → Respects Safe (pop_many n)
unfolding pop_many
pop_many-Safe zero s = by_ok (Safe-refl s)
pop_many-Safe (suc n) s =
    bind-Safe pop _ pop_top-Safe
      (λ v. bind-Safe (pop_many n) _ (pop_many-Safe n) (λ vs. pure-Safe (v ∷ vs))) s

pub push_all-Safe : (vs : List Value) → Respects Safe (push_all vs)
unfolding push_all
push_all-Safe [] s = by_ok (Safe-refl s)
push_all-Safe (v ∷ vs) s =
    bind-Safe (push (type_code v.type) v.raw_value) _
      (push_typed-Safe (type_code v.type) v.raw_value) (λ _. push_all-Safe vs) s

pub check_type-Safe :
    (expected : List ValueType) (t : ValueType) → Respects Safe (check_type expected t)
unfolding check_type
check_type-Safe expected t = if_Safe (expects expected t) (pure tt) _ (pure-Safe tt) (throw-Safe _)

pub fetch_byte-Safe : Respects Safe fetch_byte
unfolding fetch_byte
fetch_byte-Safe s = bind-Safe (advance 1) _ (advance-Safe 1) (λ _. read_bytes-Safe 1 code s.pc) s

fetch32-Safe : Respects Safe fetch32
unfolding fetch32
fetch32-Safe s =
    bind-Safe (read32 code s.pc) _ (read_bytes-Safe 4 code s.pc)
      (λ r. bind-Safe (advance 4) _ (advance-Safe 4) (λ _. pure-Safe r)) s

fetch64-Safe : Respects Safe fetch64
unfolding fetch64
fetch64-Safe s =
    bind-Safe (read64 code s.pc) _ (read_bytes-Safe 8 code s.pc)
      (λ r. bind-Safe (advance 8) _ (advance-Safe 8) (λ _. pure-Safe r)) s

pub fetch_operand-Safe : (t : ValueType) → Respects Safe (fetch_operand t)
unfolding fetch_operand
fetch_operand-Safe i32 = fetch32-Safe
fetch_operand-Safe ui32 = fetch32-Safe
fetch_operand-Safe f32 = fetch32-Safe
fetch_operand-Safe ptr = fetch32-Safe
fetch_operand-Safe i64 = fetch64-Safe
fetch_operand-Safe ui64 = fetch64-Safe
fetch_operand-Safe f64 = fetch64-Safe
fetch_operand-Safe str = pure-Safe 0
fetch_operand-Safe (unnamed b) = pure-Safe 0

pub fetch_depth-Safe : Respects Safe fetch_depth
unfolding fetch_depth
fetch_depth-Safe =
    bind-Safe fetch_byte _ fetch_byte-Safe
      (λ low. bind-Safe fetch_byte _ fetch_byte-Safe (λ high. pure-Safe _))

in_i32-Safe : (z : ℤ) → Respects Safe (in_i32 z)
unfolding in_i32
in_i32-Safe z = if_Safe _ (pure z) _ (pure-Safe z) (λ s. by_undefined)

slot_in-Safe : (info : Option FrameInfo) (offset : ℤ) → Respects Safe (slot_in info offset)
unfolding slot_in
slot_in-Safe none offset = throw-Safe _
slot_in-Safe (some info) offset =
    let negated' = sub_ℕ (neg_part offset) (pos_part offset) in
    bind-Safe (in_i32 negated') _ (in_i32-Safe negated') (λ negated.
      if_Safe (slot_outside info offset negated) _ _ (throw-Safe internal) (
        bind-Safe (in_i32 (offset *ℤ pos 8)) _ (in_i32-Safe (offset *ℤ pos 8))
          (λ distance s. by_ok {a = u32 (s.fp + i32_to_raw distance)} (Safe-refl s))))

top_frame-Safe :
    (frames : List FrameInfo) (s : Vm)
    → Within Safe s (elim frames as (λ _. Outcome (Option FrameInfo)) [
      | [] ↦ ok none s
      | info ∷ rest ↦ ok (some info) s
    ])
top_frame-Safe [] s = by_ok (Safe-refl s)
top_frame-Safe (info ∷ rest) s = by_ok (Safe-refl s)

peek_frame_info-Safe : Respects Safe peek_frame_info
unfolding peek_frame_info
peek_frame_info-Safe s = top_frame-Safe s.frame_info_stack s

pub frame_address-Safe : (raw : ℕ) → Respects Safe (calculate_and_validate_frame_address raw)
unfolding calculate_and_validate_frame_address
frame_address-Safe raw =
    bind-Safe peek_frame_info _ peek_frame_info-Safe (λ info. slot_in-Safe info _)
