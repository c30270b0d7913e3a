-- ===== src/Vm/Fetch.antt =====
-- src/vm/VM.cpp: the fetches at the program counter, and the addresses of frame slots.
use simple_virtual_language.Base.{
  ℕ, ◌+◌, ◌-◌, ◌/◌, ◌%◌, ◌^◌, bit_or, Bool, ◌&&◌, ◌||◌, Option, none, some, if◌then◌else◌,
}
use simple_virtual_language.Base.Int.{ℤ, pos, negsuc, pos_part, neg_part, sub_ℕ, ltb_ℤ, leb_ℤ, ◌*ℤ◌}
use simple_virtual_language.Isa.{ValueType, i32, ui32, i64, ui64, f32, f64, ptr, str, unnamed}
use simple_virtual_language.Vm.State.{
  internal, FrameInfo, Vm, M, pure, ◌>>=◌, ◌>>◌, get, modify, throw, undef, u32,
}
use simple_virtual_language.Vm.Values.{raw_to_i32, i32_to_raw}
use simple_virtual_language.Vm.Memory.{code, read8, read32, read64}
use simple_virtual_language.Vm.CallStack.{peek_frame_info}

abbrev pub with_pc : Vm → ℕ → Vm
with_pc s pc = record s { pc = pc }

-- `this->PC += n`.
unfoldable pub advance : ℕ → M (Unit {0})
advance n = modify λ s. with_pc s (u32 (s.pc + n))

-- `read8(CODE, this->PC++)`: the counter moves before the read.
unfoldable pub fetch_byte : M ℕ
unfolding advance read8
fetch_byte = do s ← get; advance 1; read8 code s.pc

unfoldable pub fetch_type : M ℕ
unfolding fetch_byte
fetch_type = fetch_byte

unfoldable pub fetch32 : M ℕ
unfolding read32 advance
fetch32 = do s ← get; result ← read32 code s.pc; advance 4; pure result

unfoldable pub fetch64 : M ℕ
unfolding read64 advance
fetch64 = do s ← get; result ← read64 code s.pc; advance 8; pure result

unfoldable pub fetch_operand : ValueType → M ℕ
unfolding fetch32 fetch64
fetch_operand i32 = fetch32
fetch_operand ui32 = fetch32
fetch_operand f32 = fetch32
fetch_operand ptr = fetch32
fetch_operand i64 = fetch64
fetch_operand ui64 = fetch64
fetch_operand f64 = fetch64
fetch_operand str = pure 0
fetch_operand (unnamed b) = pure 0

-- The depth operand of `dup`, `rotD` and `rotU`. Each byte is shifted to the right by `i * 8`, so that
-- nothing of the second one is left.
unfoldable pub fetch_depth : M ℕ
unfolding fetch_byte
fetch_depth = do
  low ← fetch_byte
  high ← fetch_byte
  pure (bit_or (bit_or 0 (low / 2 ^ 0 % 256)) (high / 2 ^ 8 % 256))

-- An `int32_t` result: overflow is undefined behaviour of C++.
unfoldable pub in_i32 : ℤ → M ℤ
in_i32 z s =
    (if leb_ℤ (negsuc (2 ^ 31 - 1)) z && leb_ℤ z (pos (2 ^ 31 - 1)) then pure z else undef) s

-- The slots of the current frame are -numberOfLocals, ..., numberOfArguments.
unfoldable pub slot_outside : FrameInfo → ℤ → ℤ → Bool
unfolding raw_to_i32
slot_outside info offset negated =
    (ltb_ℤ (pos 0) offset && ltb_ℤ (pos info.number_of_arguments) offset)
    || ltb_ℤ (raw_to_i32 info.number_of_locals) negated

unfoldable pub slot_in : Option FrameInfo → ℤ → M ℕ
unfolding in_i32 slot_outside i32_to_raw ◌*ℤ◌
slot_in none offset = throw internal
slot_in (some info) offset = do
  negated ← in_i32 (sub_ℕ (neg_part offset) (pos_part offset))
  if slot_outside info offset negated
      then throw internal
      else do distance ← in_i32 (offset *ℤ pos 8); s ← get; pure (u32 (s.fp + i32_to_raw distance))

unfoldable pub calculate_and_validate_frame_address : ℕ → M ℕ
unfolding peek_frame_info slot_in raw_to_i32
calculate_and_validate_frame_address raw_frame_slot_offset = do
  frame_info ← peek_frame_info
  slot_in frame_info (raw_to_i32 raw_frame_slot_offset)
