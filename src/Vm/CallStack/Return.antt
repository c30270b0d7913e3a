-- ===== src/Vm/CallStack/Return.antt =====
-- src/vm/memory/CallStackManager.cpp: a call and the return from it.
use simple_virtual_language.Base.{
  ℕ, ◌+◌, ◌-◌, ◌*◌, ◌%◌, ◌^◌, ◌≤◌, ◌<◌, ◌≡◌, refl, sym, ap, subst, ◌∙◌, true, List, ◌∷◌, leb, inl,
  inr, arith, Bool-cases,
}
use simple_virtual_language.Vm.State.{
  FrameInfo, Value, Vm, M, Outcome, stack_overflow, ok, thrown, and_then, PageTable, u32,
}
use simple_virtual_language.Vm.Memory.{
  call_stack, write32, read32, in_region, read_bytes, load_bytes,
}
use simple_virtual_language.Vm.Memory.Flat.{byte_at, patched}
use simple_virtual_language.Vm.Memory.Words.{load_bytes-patched}
use simple_virtual_language.Vm.Memory.Access.{
  with_table, WriteSpec, refused, faults, writes, write_bytes-WriteSpec, read_bytes-ok,
}
use simple_virtual_language.Vm.Fetch.{with_pc}
use simple_virtual_language.Vm.CallStack.{
  with_fp_sp, size_of_arguments, size_of_frame, frame_collides, write_arguments, zero_locals,
  push_frame_info, write_frame, build_frame, push, pop_frame, pop,
}
use simple_virtual_language.Vm.Safety.Within.{both_return, Within, by_ok, by_throw, by_undefined}
use simple_virtual_language.Vm.Safety.Memory.{Patch}
use simple_virtual_language.Vm.Safety.Frames.{write_arguments-Patch, zero_locals-Patch}

-- Two words next to each other, written one after the other, are both there.
pub load_two_words :
    (a b v w : ℕ) (f : ℕ → ℕ) (table table' : PageTable)
    → a < 2 ^ 32
    → b ≡ u32 (a + 4)
    → a % 4096 + 4 ≤ 4096
    → b % 4096 + 4 ≤ 4096
    → ((c : ℕ) → byte_at table c ≡ patched a 4 v f c)
    → ((c : ℕ) → byte_at table' c ≡ patched b 4 w (byte_at table) c)
    → (load_bytes 4 a table' ≡ v % 2 ^ (4 * 8)) × (load_bytes 4 b table' ≡ w % 2 ^ (4 * 8))
load_two_words a b v w f table table' lt next fits fits' first second =
    let low =
      load_bytes-patched 4 a v (byte_at table') table' lt fits
        (λ c. second c ∙ ground (arith, first c, second c)) in
    (low, load_bytes-patched 4 b w (byte_at table) table' (omega arith) fits' second)

-- What a call leaves in memory: the frame pointer and the return address, at `a` and behind it.
record Saved (a v w : ℕ) (s t : Vm) : Type 0 where
  table : PageTable
  only_table : t ≡ with_table s table
  low_inside : leb s.sp a ≡ true
  high_inside : leb s.sp (u32 (a + 4)) ≡ true
  low_word : load_bytes 4 a table ≡ v % 2 ^ 32
  high_word : load_bytes 4 (u32 (a + 4)) table ≡ w % 2 ^ 32

two_writes :
    (a v w : ℕ) (s u t : Vm) (r q : Outcome (Unit {0}))
    → a < 2 ^ 32
    → r ≡ ok tt u
    → q ≡ ok tt t
    → WriteSpec 4 call_stack a v s r
    → WriteSpec 4 call_stack (u32 (a + 4)) w u q
    → Saved a v w s t
unfolding in_region
two_writes a v w s u t r q lt e d (refused out is) other = cc
two_writes a v w s u t r q lt e d (faults inside beyond is) other = cc
two_writes a v w s u t r q lt e d (writes table inside fits is same) (refused out is') = cc
two_writes a v w s u t r q lt e d (writes table inside fits is same) (faults inside' beyond is') =
    cc
two_writes a v w s u t r q lt e d (writes table inside fits is same)
      (writes table' inside' fits' is' same') =
    let mid : u ≡ with_table s table = cc in
    let last : t ≡ with_table u table' = cc in
    let bytes : u.page_table ≡ table = ap (λ (x : Vm). x.page_table) mid in
    let words =
      load_two_words a (u32 (a + 4)) v w (byte_at s.page_table) table table' lt refl fits fits' same
        (λ c. same' c ∙ ap (λ f. patched (u32 (a + 4)) 4 w (byte_at f) c) bytes) in
    record {
      table = table';
      only_table = last ∙ ap (λ x. with_table x table') mid;
      low_inside = inside;
      high_inside = ap (λ (x : Vm). leb x.sp (u32 (a + 4))) (sym mid) ∙ inside';
      low_word = words.0;
      high_word = words.1;
    }

returned-Patch :
    {A : Type 0} (s t : Vm) (a : A) (r : Outcome A) → r ≡ ok a t → Within Patch s r → Patch s t
returned-Patch s t a r e (by_ok {a = a'} {s' = u} p) =
    let same : u ≡ t = cc in subst (λ x. Patch s x) same p
returned-Patch s t a r e (by_throw p) = cc
returned-Patch s t a r e by_undefined = cc

-- The last two writes of a frame.
save_words : ℕ → ℕ → M (Unit {0})
save_words old ra s =
    and_then (write32 call_stack s.fp old s) (λ _. write32 call_stack (u32 (s.fp + 4)) ra)

words-Saved :
    (old ra : ℕ) (s t : Vm) → s.fp < 2 ^ 32 → save_words old ra s ≡ ok tt t → Saved s.fp old ra s t
unfolding save_words write32
words-Saved old ra s t lt e =
    let (_, u, first, second) =
      both_return (write32 call_stack s.fp old s) (λ _. write32 call_stack (u32 (s.fp + 4)) ra) tt t
        e in
    two_writes s.fp old ra s u t (write32 call_stack s.fp old s)
      (write32 call_stack (u32 (s.fp + 4)) ra u) lt first second
      (write_bytes-WriteSpec 4 call_stack s.fp old s)
      (write_bytes-WriteSpec 4 call_stack (u32 (s.fp + 4)) ra u)

-- What is saved behind changes of the page table alone.
behind-Saved : (a v w : ℕ) (s u t : Vm) → Patch s u → Saved a v w u t → Saved a v w s t
behind-Saved a v w s u t p saved =
    let same : u.sp ≡ s.sp = ap (λ (x : Vm). x.sp) p.only_table in
    record {
      table = saved.table;
      only_table = saved.only_table ∙ ap (λ x. with_table x saved.table) p.only_table;
      low_inside = ap (λ (n : ℕ). leb n a) (sym same) ∙ saved.low_inside;
      high_inside = ap (λ (n : ℕ). leb n (u32 (a + 4))) (sym same) ∙ saved.high_inside;
      low_word = saved.low_word;
      high_word = saved.high_word;
    }

frame-Saved :
    (ra n m old : ℕ) (vs : List Value) (s t : Vm)
    → s.fp < 2 ^ 32
    → write_frame ra n m vs old s ≡ ok tt t
    → Saved s.fp old ra s t
unfolding write_frame save_words write32
frame-Saved ra n m old vs s t lt e =
    let size = size_of_arguments n in
    let (_, s1, e1, rest1) =
      both_return (write_arguments 0 size vs s)
        (λ _ x. and_then (zero_locals m 0 x) (λ _. save_words old ra)) tt t e in
    let (_, s2, e2, rest2) = both_return (zero_locals m 0 s1) (λ _. save_words old ra) tt t rest1 in
    let p1 =
      returned-Patch s s1 _ (write_arguments 0 size vs s) e1 (write_arguments-Patch 0 size vs s) in
    let p2 = returned-Patch s1 s2 _ (zero_locals m 0 s1) e2 (zero_locals-Patch m 0 s1) in
    let fp : s2.fp ≡ s.fp =
      ap (λ (x : Vm). x.fp) p2.only_table ∙ ap (λ (x : Vm). x.fp) p1.only_table in
    let saved = words-Saved old ra s2 t (omega (arith, fp)) rest2 in
    subst (λ a. Saved a old ra s t) fp
      (behind-Saved s2.fp old ra s s1 t p1 (behind-Saved s2.fp old ra s1 s2 t p2 saved))

-- The state with the registers moved for the frame.
abbrev framed : ℕ → ℕ → Vm → Vm
framed n m s =
    with_fp_sp s (u32 (s.sp + 2 ^ 32 - (size_of_arguments n + 8)))
      (u32 (s.sp + 2 ^ 32 - size_of_frame n m))

-- Popping the frame that is saved at the frame pointer.
pop-Saved :
    (n m fp' sp' ra : ℕ) (s t : Vm)
    → s.sp < 2 ^ 32
    → size_of_frame n m ≤ s.sp
    → s.fp < 2 ^ 32
    → ra < 2 ^ 32
    → sp' ≡ u32 (s.sp + 2 ^ 32 - size_of_frame n m)
    → (saved : Saved fp' s.fp ra (with_fp_sp s fp' sp') t)
    → pop (record (with_table (with_fp_sp s fp' sp') saved.table) {
      frame_info_stack =
          record { number_of_arguments = n; number_of_locals = m } ∷ s.frame_info_stack;
    })
      ≡ ok tt (with_pc (with_table s saved.table) ra)
unfolding pop pop_frame read32 in_region
pop-Saved n m fp' sp' ra s t below room lt lt' moved saved =
    let info : FrameInfo = record { number_of_arguments = n; number_of_locals = m } in
    let pushed : Vm = record (with_table (with_fp_sp s fp' sp') saved.table) {
      frame_info_stack = info ∷ s.frame_info_stack;
    } in
    let high : read_bytes 4 call_stack (u32 (fp' + 4)) pushed ≡ ok (ra % 2 ^ 32) pushed =
      read_bytes-ok 4 call_stack (u32 (fp' + 4)) pushed saved.high_inside
      ∙ ap (λ (k : ℕ). ok k pushed) saved.high_word in
    let low : read_bytes 4 call_stack fp' (with_pc pushed (ra % 2 ^ 32))
        ≡ ok (s.fp % 2 ^ 32) (with_pc pushed (ra % 2 ^ 32)) =
      read_bytes-ok 4 call_stack fp' (with_pc pushed (ra % 2 ^ 32)) saved.low_inside
      ∙ ap (λ (k : ℕ). ok k (with_pc pushed (ra % 2 ^ 32))) saved.low_word in
    let pc : ra % 2 ^ 32 ≡ ra = omega arith in
    let fp : s.fp % 2 ^ 32 ≡ s.fp = omega arith in
    let sp : u32 (sp' + size_of_frame n m) ≡ s.sp = omega arith in
    rw high (rw low (rw (pc, fp, sp) refl))

build_return :
    (ra n m : ℕ) (vs : List Value) (s t : Vm)
    → s.fp < 2 ^ 32
    → s.sp < 2 ^ 32
    → ra < 2 ^ 32
    → size_of_frame n m ≤ s.sp
    → build_frame ra n m vs s.fp s ≡ ok tt t
    → (table : PageTable) × (pop t ≡ ok tt (with_pc (with_table s table) ra))
unfolding build_frame push_frame_info
build_return ra n m vs s t lt below lt' room e =
    let info : FrameInfo = record { number_of_arguments = n; number_of_locals = m } in
    let (_, u, first, last) =
      both_return (write_frame ra n m vs s.fp (framed n m s)) (λ _. push_frame_info info) tt t e in
    let saved = frame-Saved ra n m s.fp vs (framed n m s) u (omega arith) first in
    let end : record u { frame_info_stack = info ∷ u.frame_info_stack } ≡ t = cc in
    let same =
      sym end
      ∙ ap (λ (x : Vm). record x { frame_info_stack = info ∷ x.frame_info_stack })
          saved.only_table in
    (
      saved.table,
      ap (λ x. pop x) same
          ∙ pop-Saved n m (u32 (s.sp + 2 ^ 32 - (size_of_arguments n + 8)))
              (u32 (s.sp + 2 ^ 32 - size_of_frame n m)) ra s u below room lt lt' refl saved,
    )

-- A call that builds its frame, and the return from it with the frame as the call left it: the program
-- counter is the return address, and the registers, the operand stack, the heap and the stack of frames
-- are as before the call. What differs is the contents of memory alone.
pub pop-push :
    (ra n m : ℕ) (vs : List Value) (s t : Vm)
    → s.fp < 2 ^ 32
    → s.sp < 2 ^ 32
    → ra < 2 ^ 32
    → push ra n m vs s ≡ ok tt t
    → (table : PageTable) × (pop t ≡ ok tt (with_pc (with_table s table) ra))
unfolding push frame_collides
pop-push ra n m vs s t lt below lt' e = elim (Bool-cases (frame_collides (size_of_frame n m) s)) [
  | inl collides ↦ let stops : push ra n m vs s ≡ thrown stack_overflow s = rw collides refl in cc
  | inr free ↦
      let goes : push ra n m vs s ≡ build_frame ra n m vs s.fp s = rw free refl in
      let room : size_of_frame n m ≤ s.sp = ground (arith, free) in
      build_return ra n m vs s t lt below lt' room (sym goes ∙ e)
]
