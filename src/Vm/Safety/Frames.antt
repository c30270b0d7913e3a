-- ===== src/Vm/Safety/Frames.antt =====
-- The preservation lemmas for src/vm/memory/CallStackManager.cpp.
use simple_virtual_language.Base.{
  ℕ, zero, suc, ◌+◌, ◌-◌, ◌*◌, ◌^◌, ◌≤◌, ◌<◌, ◌≡◌, refl, sym, subst, inl, inr, false, leb, arith,
  Bool-cases, List, [], ◌∷◌, ap,
}
use simple_virtual_language.Vm.State.{PageTable, FrameInfo, Value, Vm, u32}
use simple_virtual_language.Vm.Memory.{call_stack, write64, write32}
use simple_virtual_language.Vm.Memory.Access.{with_table}
use simple_virtual_language.Vm.Fetch.{with_pc}
use simple_virtual_language.Vm.CallStack.{
  with_fp_sp, size_of_arguments, size_of_frame, frame_collides, write_arguments, zero_locals,
  push_frame_info, write_frame, build_frame, push, pop_frame, pop,
}
use simple_virtual_language.Vm.Safety.Within.{
  Within, by_ok, by_throw, by_undefined, Respects, seq, after-Within, chain,
}
use simple_virtual_language.Vm.Safety.Invariant.{Inv, Safe, Safe-refl, same_core, frames_size}
use simple_virtual_language.Vm.Safety.Memory.{
  Patch, Patch-refl, Patch-trans, write_bytes-Patch, to_stack, read_bytes_cases,
}

pub write_arguments-Patch :
    (i size : ℕ) (vs : List Value) → Respects Patch (write_arguments i size vs)
unfolding write_arguments
write_arguments-Patch i size [] s = by_ok (Patch-refl s)
write_arguments-Patch i size (v ∷ vs) s =
    after-Within Patch Patch-trans s
      (write64 call_stack (u32 (s.fp + (size - i * 8))) v.raw_value s)
      (λ _. write_arguments (i + 1) size vs)
      (write_bytes-Patch 8 call_stack (u32 (s.fp + (size - i * 8))) v.raw_value to_stack s)
      (λ _ t _. write_arguments-Patch (i + 1) size vs t)

pub zero_locals-Patch : (left i : ℕ) → Respects Patch (zero_locals left i)
unfolding zero_locals
zero_locals-Patch zero i s = by_ok (Patch-refl s)
zero_locals-Patch (suc left) i s = elim (Bool-cases (leb (2 ^ 28) i)) [
  | inl overflow ↦ rw overflow by_undefined
  | inr small ↦ rw small (
      after-Within Patch Patch-trans s (write64 call_stack (u32 (s.sp + i * 8)) 0 s)
        (λ _. zero_locals left (i + 1))
        (write_bytes-Patch 8 call_stack (u32 (s.sp + i * 8)) 0 to_stack s)
        (λ _ t _. zero_locals-Patch left (i + 1) t))
]

write_frame-Patch :
    (return_address n m : ℕ) (vs : List Value) (old_fp : ℕ)
    → Respects Patch (write_frame return_address n m vs old_fp)
unfolding write_frame
write_frame-Patch return_address n m vs old_fp =
    seq Patch Patch-trans (write_arguments 0 (size_of_arguments n) vs) _
      (write_arguments-Patch 0 (size_of_arguments n) vs)
      (λ _. seq Patch Patch-trans (zero_locals m 0) _ (zero_locals-Patch m 0) (λ _ s.
        after-Within Patch Patch-trans s (write32 call_stack s.fp old_fp s) _
          (write_bytes-Patch 4 call_stack s.fp old_fp to_stack s)
          (λ _ t _. write_bytes-Patch 4 call_stack (u32 (s.fp + 4)) return_address to_stack t)))

-- The machine between the move of the stack pointer and the last write of the frame.
module _ (s : Vm) (fp' size : ℕ) (free : frame_collides size s ≡ false)
    (small : size < 2 ^ 32) where
  moved : Vm
  moved = with_fp_sp s fp' (u32 (s.sp + 2 ^ 32 - size))

  -- With the room for the frame taken, the registers still lie in order.
  framed_Inv :
      (table : PageTable) (frames : List FrameInfo)
      → frames_size frames ≤ size + frames_size s.frame_info_stack
      → Inv s
      → Inv (record (with_table moved table) { frame_info_stack = frames })
  unfolding moved frame_collides
  framed_Inv table frames total i = record {
    data_below_heap = i.data_below_heap;
    heap_ordered = i.heap_ordered;
    stack_above_code = ground (arith, i.data_below_heap, i.heap_ordered, i.frames_fit);
    frames_fit = ground (arith, i.frames_fit);
    stack_bounded = i.stack_bounded;
  }

  framed_table :
      (frames : List FrameInfo)
      → frames_size frames ≤ size + frames_size s.frame_info_stack
      → (t : Vm) (p : Patch moved t)
      → Safe s (record (with_table moved p.table) { frame_info_stack = frames })
  unfolding moved
  framed_table frames total t p = record {
    keeps = framed_Inv p.table frames total;
    code = λ i. record {
      same_start = refl;
      same_bytes =
          p.spares_code i.data_below_heap (framed_Inv p.table frames total i).stack_above_code;
    };
  }

  framed_Safe :
      (frames : List FrameInfo)
      → frames_size frames ≤ size + frames_size s.frame_info_stack
      → (t : Vm) → Patch moved t
      → Safe s (record t { frame_info_stack = frames })
  framed_Safe frames total t p =
      subst (λ u. Safe s (record u { frame_info_stack = frames })) (sym p.only_table)
        (framed_table frames total t p)

  unframed_Safe : (t : Vm) → Patch moved t → Safe s t
  unfolding moved
  unframed_Safe t p =
      subst (λ u. Safe s u) (sym p.only_table) (framed_table s.frame_info_stack (omega arith) t p)

  pushed_Safe :
      (info : FrameInfo)
      → size_of_frame info.number_of_arguments info.number_of_locals ≤ size
      → (t : Vm) → Patch moved t
      → Safe s (record t { frame_info_stack = info ∷ t.frame_info_stack })
  unfolding moved
  pushed_Safe info fits t p =
      let same : t.frame_info_stack ≡ s.frame_info_stack =
        ap (λ (u : Vm). u.frame_info_stack) p.only_table in
      subst (λ fs. Safe s (record t { frame_info_stack = info ∷ fs })) (sym same)
        (framed_Safe (info ∷ s.frame_info_stack) (omega arith) t p)

size_of_frame-lt : (n m : ℕ) → size_of_frame n m < 2 ^ 32
unfolding size_of_frame
size_of_frame-lt n m = omega arith

build_frame-Safe :
    (return_address n m : ℕ) (vs : List Value) (old_fp : ℕ) (s : Vm)
    → frame_collides (size_of_frame n m) s ≡ false
    → Within Safe s (build_frame return_address n m vs old_fp s)
unfolding build_frame moved
build_frame-Safe return_address n m vs old_fp s free =
    let fp' = u32 (s.sp + 2 ^ 32 - (size_of_arguments n + 8)) in
    let small = size_of_frame-lt n m in
    chain Patch Safe s (moved s fp' (size_of_frame n m) free small)
      (write_frame return_address n m vs old_fp (moved s fp' (size_of_frame n m) free small))
      (λ _. push_frame_info (record { number_of_arguments = n; number_of_locals = m }))
      (write_frame-Patch return_address n m vs old_fp (moved s fp' (size_of_frame n m) free small))
      (unframed_Safe s fp' (size_of_frame n m) free small)
      (λ _ t p. by_ok (
        pushed_Safe s fp' (size_of_frame n m) free small
          (record { number_of_arguments = n; number_of_locals = m }) (omega arith) t p))

pub push-Safe :
    (return_address n m : ℕ) (vs : List Value) → Respects Safe (push return_address n m vs)
unfolding push
push-Safe return_address n m vs s = elim (Bool-cases (frame_collides (size_of_frame n m) s)) [
  | inl collides ↦ rw collides (by_throw (Safe-refl s))
  | inr free ↦ rw free (build_frame-Safe return_address n m vs s.fp s free)
]

-- A return gives the frame's bytes back: the sum does not wrap.
returned_Safe :
    (s : Vm) (info : FrameInfo) (rest : List FrameInfo) (pc' fp' : ℕ)
    → s.frame_info_stack ≡ info ∷ rest
    → Safe s (record s {
      pc = pc';
      fp = fp';
      sp = u32 (s.sp + size_of_frame info.number_of_arguments info.number_of_locals);
      frame_info_stack = rest;
    })
returned_Safe s info rest pc' fp' e = record {
  keeps = λ i.
      let total = ap frames_size e in
      record {
        data_below_heap = i.data_below_heap;
        heap_ordered = i.heap_ordered;
        stack_above_code = ground (arith, i.stack_above_code, i.frames_fit, total);
        frames_fit = ground (arith, i.frames_fit, total);
        stack_bounded = i.stack_bounded;
      };
  code = λ i. record { same_start = refl; same_bytes = λ a h. refl };
}

pop_frame-Safe :
    (frames : List FrameInfo) (s : Vm)
    → s.frame_info_stack ≡ frames
    → Within Safe s (pop_frame frames s)
unfolding pop_frame
pop_frame-Safe [] s e = by_throw (Safe-refl s)
pop_frame-Safe (info ∷ rest) s e = elim (read_bytes_cases 4 call_stack (u32 (s.fp + 4)) s) [
  | inr refused ↦ rw refused (by_throw (Safe-refl s))
  | inl (pc', first) ↦ rw first (elim (read_bytes_cases 4 call_stack s.fp (with_pc s pc')) [
    | inr refused ↦
        rw refused
          (by_throw (same_core s (with_pc s pc') refl refl refl refl refl (omega arith) refl))
    | inl (fp', second) ↦ rw second (by_ok (returned_Safe s info rest pc' fp' e))
  ])
]

pub pop-Safe : Respects Safe pop
unfolding pop
pop-Safe s = pop_frame-Safe s.frame_info_stack s refl
