-- ===== src/Vm/CallStack.antt =====
-- src/vm/memory/CallStackManager.h and CallStackManager.cpp: stack frames in memory, and the stack of
-- their sizes. The head of `frame_info_stack` is the top. `int` arithmetic on the loop counters that
-- overflows is undefined behaviour of C++.
pub mod Return
use simple_virtual_language.Base.{
  ℕ, zero, suc, ◌+◌, ◌-◌, ◌*◌, ◌^◌, Bool, true, false, ◌||◌, List, [], ◌∷◌, Option, none, some, leb,
  ltb, if◌then◌else◌,
}
use simple_virtual_language.Vm.State.{
  stack_overflow, internal, Value, FrameInfo, Vm, M, ok, pure, ◌>>=◌, ◌>>◌, get, modify, throw,
  undef, u32,
}
use simple_virtual_language.Vm.Memory.{call_stack, write32, write64, read32}

abbrev pub with_fp_sp : Vm → ℕ → ℕ → Vm
with_fp_sp s fp sp = record s { fp = fp; sp = sp }

unfoldable pub size_of_arguments : ℕ → ℕ
size_of_arguments number_of_arguments = number_of_arguments * 8

unfoldable pub size_of_locals : ℕ → ℕ
size_of_locals number_of_locals = u32 (number_of_locals * 8)

unfoldable pub size_of_frame : ℕ → ℕ → ℕ
unfolding size_of_arguments size_of_locals
size_of_frame number_of_arguments number_of_locals =
    u32 (size_of_arguments number_of_arguments + 8 + size_of_locals number_of_locals)

-- Whether the new frame would collide with the heap.
unfoldable pub frame_collides : ℕ → Vm → Bool
frame_collides size s = leb (u32 (s.sp + 2 ^ 32 - size)) s.hp || ltb s.sp size

-- Argument `i` goes to `FP + (sizeOfArguments - (i * 8))`.
unfoldable pub write_arguments : ℕ → ℕ → List Value → M (Unit {0})
unfolding write64
write_arguments i size [] = pure tt
write_arguments i size (a ∷ rest) = do
  s ← get
  write64 call_stack (u32 (s.fp + (size - i * 8))) a.raw_value
  write_arguments (i + 1) size rest

-- `left` locals to go at index `i`; `i * 8` is computed in `int`.
unfoldable pub zero_locals : ℕ → ℕ → M (Unit {0})
unfolding write64
zero_locals zero i = pure tt
zero_locals (suc left) i =
    if leb (2 ^ 28) i
    then undef
    else do s ← get; write64 call_stack (u32 (s.sp + i * 8)) 0; zero_locals left (i + 1)

unfoldable pub push_frame_info : FrameInfo → M (Unit {0})
push_frame_info info = modify λ s. record s { frame_info_stack = info ∷ s.frame_info_stack }

-- The arguments, the zeroed locals, the saved frame pointer and the return address.
unfoldable pub write_frame : ℕ → ℕ → ℕ → List Value → ℕ → M (Unit {0})
unfolding size_of_arguments write_arguments zero_locals write32
write_frame return_address number_of_arguments number_of_locals arguments old_fp = do
  write_arguments 0 (size_of_arguments number_of_arguments) arguments
  zero_locals number_of_locals 0
  s ← get
  write32 call_stack s.fp old_fp
  write32 call_stack (u32 (s.fp + 4)) return_address

-- The part of `push` behind the overflow test.
unfoldable pub build_frame : ℕ → ℕ → ℕ → List Value → ℕ → M (Unit {0})
unfolding size_of_arguments size_of_frame write_frame push_frame_info
build_frame return_address number_of_arguments number_of_locals arguments old_fp = do
  modify λ s.
      with_fp_sp s (u32 (s.sp + 2 ^ 32 - (size_of_arguments number_of_arguments + 8)))
        (u32 (s.sp + 2 ^ 32 - size_of_frame number_of_arguments number_of_locals))
  write_frame return_address number_of_arguments number_of_locals arguments old_fp
  push_frame_info
      (record { number_of_arguments = number_of_arguments; number_of_locals = number_of_locals })

-- `arguments` holds `numberOfArguments` values, as the caller collects them.
unfoldable pub push : ℕ → ℕ → ℕ → List Value → M (Unit {0})
unfolding frame_collides size_of_frame build_frame
push return_address number_of_arguments number_of_locals arguments s =
    (if frame_collides (size_of_frame number_of_arguments number_of_locals) s
        then throw stack_overflow
        else build_frame return_address number_of_arguments number_of_locals arguments s.fp)
      s

unfoldable pub pop_frame : List FrameInfo → M (Unit {0})
unfolding size_of_frame read32
pop_frame [] = throw internal
pop_frame (info ∷ rest) = do
  s ← get
  return_address ← read32 call_stack (u32 (s.fp + 4))
  modify λ s. record s { pc = return_address }
  old_fp ← read32 call_stack s.fp
  modify λ s. record s {
    fp = old_fp;
    sp = u32 (s.sp + size_of_frame info.number_of_arguments info.number_of_locals);
    frame_info_stack = rest;
  }

unfoldable pub pop : M (Unit {0})
unfolding pop_frame
pop s = pop_frame s.frame_info_stack s

unfoldable pub peek_frame_info : M (Option FrameInfo)
peek_frame_info s = elim s.frame_info_stack [ [] ↦ ok none s | info ∷ rest ↦ ok (some info) s ]

unfoldable pub is_call_stack_empty : Vm → Bool
is_call_stack_empty s = elim s.frame_info_stack [ [] ↦ true | info ∷ rest ↦ false ]

-- The return addresses from the frame at `fp` outwards, one for each frame.
unfoldable pub trace_from : List FrameInfo → ℕ → M (List ℕ)
unfolding read32
trace_from [] fp = pure []
trace_from (info ∷ rest) fp = do
  return_address ← read32 call_stack (u32 (fp + 4))
  caller ← read32 call_stack fp
  others ← trace_from rest caller
  pure (return_address ∷ others)

unfoldable pub get_stack_trace : ℕ → M (List ℕ)
unfolding trace_from
get_stack_trace fp s = trace_from s.frame_info_stack fp s
