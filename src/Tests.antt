-- ===== src/Tests.antt =====
-- The theorems at concrete inputs: a small program, a call, heap blocks, numbers and characters.
pub mod Assembler
pub mod Compiler
pub mod Metadata
pub mod Tokeniser
use simple_virtual_language.Base.{
  ℕ, ◌+◌, ◌-◌, ◌*◌, ◌/◌, ◌%◌, ◌^◌, ◌≡◌, refl, true, false, not, ◌&&◌, List, [], ◌∷◌, some, inl, inr,
  arith,
}
use simple_virtual_language.Base.Int.{pos, ◌*ℤ◌, ◌+ℤ◌}
use simple_virtual_language.Isa.{i32}
use simple_virtual_language.Vm.State.{
  value, FreeBlock, Vm, PageTable, Outcome, ok, thrown, undefined_behaviour, returned,
}
use simple_virtual_language.Vm.Float.{FloatOps}
use simple_virtual_language.Vm.Values.{raw_to_i32}
use simple_virtual_language.Vm.Memory.{heap, write_bytes, read_bytes}
use simple_virtual_language.Vm.Memory.Access.{
  with_table, WriteSpec, write_bytes-WriteSpec, read_bytes-write_bytes,
}
use simple_virtual_language.Vm.Fetch.{with_pc}
use simple_virtual_language.Vm.CallStack.{push, pop}
use simple_virtual_language.Vm.CallStack.Return.{pop-push}
use simple_virtual_language.Vm.HeapManager.{with_free_list, allocate_block, deallocate_block}
use simple_virtual_language.Vm.HeapManager.Free.{deallocate_block-allocate_block}
use simple_virtual_language.Vm.HeapManager.FreeList.{block, find_fit, take_fit, release}
use simple_virtual_language.Vm.HeapManager.FreeList.Ordered.{
  Ordered, is_free, in_block, take_fit-Ordered, take_fit-is_free,
}
use simple_virtual_language.Vm.HeapManager.FreeList.Release.{Whole, Apart, release-Ordered}
use simple_virtual_language.Vm.HeapManager.FreeList.Refill.{release-take_fit}
use simple_virtual_language.Vm.Arithmetic.Numeric.{div, rem}
use simple_virtual_language.Vm.Arithmetic.Bitwise.{bitwise_not}
use simple_virtual_language.Vm.Arithmetic.Compare.{ceq, flag}
use simple_virtual_language.Vm.Arithmetic.Integers.{
  Exact, plus, exact_op, machine_op, i32_op-Exact, IsRemainder, i32_div-rem,
}
use simple_virtual_language.Vm.Arithmetic.Order.{is_i32, ComparesAs, denote, comparisons}
use simple_virtual_language.Vm.Arithmetic.Complement.{not_differs}
use simple_virtual_language.Vm.Native.Utf8.{utf8_encode, decode, decode-utf8_encode}
use simple_virtual_language.Vm.Run.{run_program}
use simple_virtual_language.Vm.Safety.Invariant.{Inv, CodeKept}
use simple_virtual_language.Vm.Safety.Program.{Stops, run_program-CodeKept, run_program-Inv}
use simple_virtual_language.Vm.FileHeader.{header_field}
use simple_virtual_language.Vm.Metadata.{read_metadata, walked, empty_handler}
use simple_virtual_language.Vm.Start.{initial, start, run}
use simple_virtual_language.Vm.Start.Loaded.{Header, Started, start-Started}
use simple_virtual_language.Vm.Start.Running.{CodeIsFile, run-CodeIsFile, run-Inv}

-- Floating-point arithmetic on the integers that the patterns are.
abbrev pub integer_floats : FloatOps
integer_floats = record {
  f32_add = λ a b. a + b;
  f32_sub = λ a b. a - b;
  f32_mul = λ a b. a * b;
  f32_div = λ a b. a / b;
  f32_rem = λ a b. a % b;
  f64_add = λ a b. a + b;
  f64_sub = λ a b. a - b;
  f64_mul = λ a b. a * b;
  f64_div = λ a b. a / b;
  f64_rem = λ a b. a % b;
  f32_lt = λ a b. false;
  f32_le = λ a b. true;
  f64_lt = λ a b. false;
  f64_le = λ a b. true;
  f32_is_zero = λ a. false;
  f64_is_zero = λ a. false;
  f64_of_f32 = λ a. a;
  f32_of_f64 = λ a. a;
  f32_of_ℤ = λ z. 0;
  f64_of_ℤ = λ z. 0;
  f64_trunc = λ a. some (pos a);
}

-- `push i32 5; halt`, one byte of data, and no metadata.
abbrev five : List ℕ
five =
    26 ∷ 0 ∷ 0 ∷ 0 ∷ 27 ∷ 0 ∷ 0 ∷ 0 ∷ 27 ∷ 0 ∷ 0 ∷ 0 ∷ 27 ∷ 0 ∷ 0 ∷ 0 ∷ 27 ∷ 0 ∷ 0 ∷ 0 ∷ 0x02 ∷ 0x00
    ∷ 5 ∷ 0 ∷ 0 ∷ 0 ∷ 0x01 ∷ 9 ∷ []

five-Header : Header five 26 27
unfolding header_field
five-Header = record {
  code_field = refl;
  data_field = refl;
  code_present = omega arith;
  data_behind = omega arith;
  data_present = omega arith;
  data_fits = omega arith;
}

run-CodeIsFile_example : Stops (λ _ t. CodeIsFile five 26 t) initial (run integer_floats 10 five)
run-CodeIsFile_example = run-CodeIsFile integer_floats 10 five 26 27 five-Header

run-Inv_example : Stops (λ _ t. Inv t) initial (run integer_floats 10 five)
run-Inv_example = run-Inv integer_floats 10 five 26 27 five-Header

five_metadata : read_metadata five ≡ walked empty_handler
unfolding read_metadata
five_metadata = refl

start-Started_example : (s : Vm) × (start five initial ≡ ok empty_handler s) × Started five 26 27 s
start-Started_example = start-Started five 26 27 empty_handler five-Header five_metadata

initial-Inv : Inv initial
unfolding initial
initial-Inv = record {
  data_below_heap = omega arith;
  heap_ordered = omega arith;
  stack_above_code = omega arith;
  frames_fit = omega arith;
  stack_bounded = omega arith;
}

run_program-CodeKept_example : Stops CodeKept initial (run_program integer_floats 10 initial)
run_program-CodeKept_example = run_program-CodeKept integer_floats 10 initial initial-Inv

run_program-Inv_example : Stops (λ _ t. Inv t) initial (run_program integer_floats 10 initial)
run_program-Inv_example = run_program-Inv integer_floats 10 initial initial-Inv

-- The state behind an outcome that has one.
abbrev pub state_after : {A : Type 0} → Outcome A → Vm
state_after (ok a s) = s
state_after (thrown e s) = s
state_after undefined_behaviour = initial

-- A call with one argument and one local, from the first state.
abbrev called : Outcome (Unit {0})
called = push 7 1 1 (value i32 5 ∷ []) initial

called_ok : called ≡ ok tt (state_after called)
unfolding initial push
called_ok = refl

pop-push_example :
    (table : PageTable) × (pop (state_after called) ≡ ok tt (with_pc (with_table initial table) 7))
unfolding initial
pop-push_example =
    pop-push 7 1 1 (value i32 5 ∷ []) initial (state_after called) (omega arith) (omega arith)
      (omega arith) called_ok

-- Eight bytes at the last address of the first page of the heap leave the page.
heap_state : Vm
unfolding initial
heap_state = record initial { hp = 5000 }

write_bytes-WriteSpec_example :
    WriteSpec 8 heap 4095 77 heap_state (write_bytes 8 heap 4095 77 heap_state)
write_bytes-WriteSpec_example = write_bytes-WriteSpec 8 heap 4095 77 heap_state

abbrev written : Outcome (Unit {0})
written = write_bytes 4 heap 100 0x1_0000_0005 heap_state

written_ok : written ≡ ok tt (state_after written)
unfolding heap_state write_bytes
written_ok = refl

read_bytes-write_bytes_example :
    read_bytes 4 heap 100 (state_after written) ≡ ok 5 (state_after written)
read_bytes-write_bytes_example =
    read_bytes-write_bytes 4 heap 100 0x1_0000_0005 heap_state (state_after written) (omega arith)
      written_ok

-- Two free blocks with a gap between them.
abbrev two_blocks : List FreeBlock
two_blocks = block 6 100 ∷ block 20 200 ∷ []

two_blocks-Ordered : Ordered 50 two_blocks
two_blocks-Ordered =
    (omega arith, omega arith, omega arith, (omega arith, omega arith, omega arith, tt))

found_second : find_fit 8 two_blocks ≡ some (block 20 200)
unfolding find_fit
found_second = refl

release-take_fit_example : release (block 8 200) (take_fit 8 two_blocks) ≡ two_blocks
release-take_fit_example =
    release-take_fit 8 50 two_blocks (block 20 200) (omega arith) two_blocks-Ordered found_second

take_fit-Ordered_example : Ordered 50 (take_fit 8 two_blocks)
take_fit-Ordered_example = take_fit-Ordered 8 50 two_blocks (omega arith) two_blocks-Ordered

take_fit-is_free_example :
    (is_free (take_fit 8 two_blocks) 203
      ≡ (is_free two_blocks 203 && not (in_block (block 8 200) 203)))
    × ((in_block (block 8 200) 203 && is_free two_blocks 203) ≡ in_block (block 8 200) 203)
take_fit-is_free_example =
    take_fit-is_free 8 50 two_blocks (block 20 200) 203 found_second two_blocks-Ordered

-- A block that fills the gap.
filler-Whole : Whole 50 (block 94 106)
filler-Whole = record { above = omega arith; holds_bytes = omega arith; ends = omega arith }

filler-Apart : Apart (block 94 106) two_blocks
filler-Apart = (inl (omega arith), (inr (omega arith), tt))

release-Ordered_example : Ordered 50 (release (block 94 106) two_blocks)
release-Ordered_example =
    release-Ordered 50 (block 94 106) two_blocks filler-Whole filler-Apart two_blocks-Ordered

-- A heap from address 100 up, with nothing in use.
abbrev fresh_heap : Vm
fresh_heap = record initial { hb = 100; hp = 100; free_list = block 1000 100 ∷ [] }

fresh_heap-Ordered : Ordered 0 fresh_heap.free_list
fresh_heap-Ordered = (omega arith, omega arith, omega arith, tt)

abbrev allocated : Outcome ℕ
allocated = allocate_block 6 fresh_heap

allocated_ok : allocated ≡ ok 104 (state_after allocated)
unfolding initial allocate_block
allocated_ok = refl

deallocate_block-allocate_block_example :
    deallocate_block 104 (state_after allocated)
    ≡ ok tt (with_free_list (state_after allocated) fresh_heap.free_list)
deallocate_block-allocate_block_example =
    deallocate_block-allocate_block 6 104 0 fresh_heap (state_after allocated) (omega arith)
      fresh_heap-Ordered allocated_ok

i32_op-Exact_example :
    Exact
      (exact_op plus (raw_to_i32 7) (raw_to_i32 0xffff_fffe))
      (machine_op integer_floats plus (value i32 7) (value i32 0xffff_fffe))
i32_op-Exact_example = i32_op-Exact integer_floats plus 7 0xffff_fffe

seven_by_minus_two :
    div integer_floats (value i32 7) (value i32 0xffff_fffe) ≡ returned (value i32 0xffff_fffd)
unfolding div
seven_by_minus_two = refl

seven_rem_minus_two :
    rem integer_floats (value i32 7) (value i32 0xffff_fffe) ≡ returned (value i32 1)
unfolding rem
seven_rem_minus_two = refl

i32_div-rem_example :
    (raw_to_i32 0xffff_fffd *ℤ raw_to_i32 0xffff_fffe +ℤ raw_to_i32 1 ≡ raw_to_i32 7)
    × IsRemainder (raw_to_i32 7) (raw_to_i32 0xffff_fffe) (raw_to_i32 1)
i32_div-rem_example =
    i32_div-rem integer_floats 7 0xffff_fffe (value i32 0xffff_fffd) (value i32 1)
      seven_by_minus_two seven_rem_minus_two

comparisons_example :
    ComparesAs integer_floats i32 7 0xffff_fffe (denote i32 7) (denote i32 0xffff_fffe)
comparisons_example =
    comparisons integer_floats i32 7 0xffff_fffe is_i32 (omega arith) (omega arith)

not_differs_example :
    (bitwise_not (value i32 5) ≡ returned (value i32 (2 ^ 64 - 1 - 5)))
    × (raw_to_i32 (2 ^ 64 - 1 - 5) ≡ raw_to_i32 (2 ^ 32 - 1 - 5))
    × (ceq (value i32 (2 ^ 64 - 1 - 5)) (value i32 (2 ^ 32 - 1 - 5)) ≡ returned (flag false))
not_differs_example = not_differs 5 (omega arith)

decode-utf8_encode_example : decode (utf8_encode 0x20ac) ≡ some 0x20ac
decode-utf8_encode_example = decode-utf8_encode 0x20ac (omega arith)
