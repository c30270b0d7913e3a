-- ===== src/Vm/Safety/Invariant.antt =====
-- The invariant of the registers and stacks of src/vm/VM.h, and the relation between two states.
use simple_virtual_language.Base.{
  ℕ, ◌+◌, ◌^◌, ◌≤◌, ◌<◌, ◌≡◌, refl, ◌∙◌, List, [], ◌∷◌, length, arith,
}
use simple_virtual_language.Vm.State.{FrameInfo, Vm}
use simple_virtual_language.Vm.Memory.Flat.{byte_at}
use simple_virtual_language.Vm.OperandStack.{max_operand_stack_size}
use simple_virtual_language.Vm.CallStack.{size_of_frame}

-- The bytes of the frames that the call stack holds.
abbrev pub frames_size : List FrameInfo → ℕ
frames_size [] = 0
frames_size (i ∷ rest) = size_of_frame i.number_of_arguments i.number_of_locals + frames_size rest

pub record Inv (s : Vm) : Type 0 where
  pub data_below_heap : s.start_of_data_region ≤ s.hb
  pub heap_ordered : s.hb ≤ s.hp
  pub stack_above_code : s.start_of_data_region ≤ s.sp
  pub frames_fit : s.sp + frames_size s.frame_info_stack < 2 ^ 32
  pub stack_bounded : length s.operand_stack ≤ max_operand_stack_size

-- The code region and its contents are what they were.
pub record CodeKept (s t : Vm) : Type 0 where
  pub same_start : t.start_of_data_region ≡ s.start_of_data_region
  pub same_bytes :
      (a : ℕ) → a < s.start_of_data_region → byte_at t.page_table a ≡ byte_at s.page_table a

pub record Safe (s t : Vm) : Type 0 where
  pub keeps : Inv s → Inv t
  pub code : Inv s → CodeKept s t

pub Safe-refl : (s : Vm) → Safe s s
Safe-refl s = record {
  keeps = λ i. i;
  code = λ i. record { same_start = refl; same_bytes = λ a h. refl };
}

pub CodeKept-trans : (s t u : Vm) → CodeKept s t → CodeKept t u → CodeKept s u
CodeKept-trans s t u p q = record {
  same_start = q.same_start ∙ p.same_start;
  same_bytes = λ a h.
      let below : a < t.start_of_data_region = omega (arith, p.same_start) in
      q.same_bytes a below ∙ p.same_bytes a h;
}

pub Safe-trans : (s t u : Vm) → Safe s t → Safe t u → Safe s u
Safe-trans s t u p q = record {
  keeps = λ i. q.keeps (p.keeps i);
  code = λ i. CodeKept-trans s t u (p.code i) (q.code (p.keeps i));
}

-- A change that leaves alone what the invariant reads.
pub same_core :
    (s t : Vm)
    → t.start_of_data_region ≡ s.start_of_data_region
    → t.hb ≡ s.hb
    → t.hp ≡ s.hp
    → t.sp ≡ s.sp
    → t.frame_info_stack ≡ s.frame_info_stack
    → length t.operand_stack ≤ length s.operand_stack
    → t.page_table ≡ s.page_table
    → Safe s t
same_core s t start hb hp sp frames stack table = record {
  keeps = λ i. record {
    data_below_heap = ground arith;
    heap_ordered = ground arith;
    stack_above_code = ground arith;
    frames_fit = ground arith;
    stack_bounded = ground arith;
  };
  code = λ i. record { same_start = start; same_bytes = λ a h. rw table };
}
