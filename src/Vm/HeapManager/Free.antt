-- ===== src/Vm/HeapManager/Free.antt =====
-- src/vm/memory/HeapManager.cpp: an allocation and the release of its block, on the machine's state.
use simple_virtual_language.Base.{
  ℕ, zero, suc, ◌+◌, ◌-◌, ◌*◌, ◌%◌, ◌^◌, ◌≤◌, ◌<◌, ◌≡◌, refl, sym, ap, subst, ◌∙◌, Bool, true,
  false, List, Option, none, some, leb, ltb, ◌==◌, if◌then◌else◌, inl, inr, arith, Bool-cases,
}
use simple_virtual_language.Vm.State.{
  FreeBlock, Vm, Outcome, ok, thrown, and_then, PageTable, u32, internal, out_of_memory,
}
use simple_virtual_language.Vm.Memory.{
  heap, in_region, write8, write32, read32, write_bytes, read_bytes, load_bytes,
}
use simple_virtual_language.Vm.Memory.Flat.{byte_at, patched}
use simple_virtual_language.Vm.Memory.Words.{load_bytes-patched}
use simple_virtual_language.Vm.Memory.Access.{
  with_table, WriteSpec, refused, faults, writes, write_bytes-WriteSpec, read_bytes-ok,
}
use simple_virtual_language.Vm.Safety.Within.{both_return}
use simple_virtual_language.Vm.HeapManager.{
  with_hp, with_free_list, zero_bytes, place_block, allocate_in, allocate_block, deallocate_block,
  block_header_size,
}
use simple_virtual_language.Vm.HeapManager.FreeList.{find_fit, take_fit}
use simple_virtual_language.Vm.HeapManager.FreeList.Ordered.{Ordered, find_fit-bounds}
use simple_virtual_language.Vm.HeapManager.FreeList.Refill.{release-take_fit}

-- Only memory changes, and there only at an address and above it.
record Above (a : ℕ) (s t : Vm) : Type 0 where
  table : PageTable
  only_table : t ≡ with_table s table
  below_kept : (b : ℕ) → b < a → byte_at table b ≡ byte_at s.page_table b

write-Above :
    (a v at : ℕ) (s t : Vm) (r : Outcome (Unit {0}))
    → at ≤ a
    → r ≡ ok tt t
    → WriteSpec 1 heap a v s r
    → Above at s t
write-Above a v at s t r h e (refused out is) = cc
write-Above a v at s t r h e (faults inside beyond is) = cc
write-Above a v at s t r h e (writes table inside fits is same) = record {
  table = table;
  only_table = cc;
  below_kept = λ b below. same b ∙ ground arith;
}

trans-Above : (at : ℕ) (s t u : Vm) → Above at s t → Above at t u → Above at s u
trans-Above at s t u p q =
    let same : t.page_table ≡ p.table = ap (λ (x : Vm). x.page_table) p.only_table in
    record {
      table = q.table;
      only_table = q.only_table ∙ ap (λ x. with_table x q.table) p.only_table;
      below_kept =
          λ b below. q.below_kept b below ∙ ap (λ f. byte_at f b) same ∙ p.below_kept b below;
    }

zero_bytes-Above :
    (left a i at : ℕ) (s t : Vm)
    → a + block_header_size + i + left ≤ 2 ^ 32
    → at ≤ a + block_header_size + i
    → zero_bytes left a i s ≡ ok tt t
    → Above at s t
unfolding zero_bytes write8
zero_bytes-Above zero a i at s t h h' e = record {
  table = s.page_table;
  only_table = cc;
  below_kept = λ b below. refl;
}
zero_bytes-Above (suc left) a i at s t h h' e =
    let index : u32 (a + block_header_size + i) ≡ a + block_header_size + i = omega arith in
    let (_, u, first, rest) =
      both_return (write_bytes 1 heap (u32 (a + block_header_size + i)) 0 s)
        (λ _. zero_bytes left a (i + 1)) tt t e in
    trans-Above at s u t
      (write-Above (u32 (a + block_header_size + i)) 0 at s u _ (omega arith) first
        (write_bytes-WriteSpec 1 heap (u32 (a + block_header_size + i)) 0 s))
      (zero_bytes-Above left a (i + 1) at u t (omega arith) (omega arith) rest)

-- A word, and changes above it: the word can be read.
word_kept :
    (a v : ℕ) (s u t : Vm) (blocks : List FreeBlock) (r : Outcome (Unit {0}))
    → a < 2 ^ 32
    → r ≡ ok tt u
    → WriteSpec 4 heap a v s r
    → Above (a + 4) u t
    → read_bytes 4 heap a (with_free_list t blocks) ≡ ok (v % 2 ^ 32) (with_free_list t blocks)
unfolding in_region
word_kept a v s u t blocks r lt e (refused out is) above = cc
word_kept a v s u t blocks r lt e (faults inside beyond is) above = cc
word_kept a v s u t blocks r lt e (writes table inside fits is same) above =
    let mid : u ≡ with_table s table = cc in
    let end : t ≡ with_table s above.table =
      above.only_table ∙ ap (λ x. with_table x above.table) mid in
    let first : (c : ℕ) → byte_at u.page_table c ≡ patched a 4 v (byte_at s.page_table) c =
      λ c. ap (λ (x : Vm). byte_at x.page_table c) mid ∙ same c in
    let word : load_bytes 4 a above.table ≡ v % 2 ^ (4 * 8) =
      load_bytes-patched 4 a v (byte_at above.table) above.table lt fits
        (λ c. ground (arith, first c, above.below_kept c)) in
    let last = with_free_list (with_table s above.table) blocks in
    subst
      (λ x.
        read_bytes 4 heap a (with_free_list x blocks) ≡ ok (v % 2 ^ 32) (with_free_list x blocks))
      (sym end) (read_bytes-ok 4 heap a last inside ∙ ap (λ (k : ℕ). ok k last) word)

-- What an allocation leaves: the block's header, and the list without its bytes.
record Placed (bytes addr : ℕ) (found : FreeBlock) (blocks : List FreeBlock) (t : Vm) : Type 0 where
  address : addr ≡ u32 (found.address + block_header_size)
  list : t.free_list ≡ take_fit bytes blocks
  header : read_bytes 4 heap found.address t ≡ ok (bytes % 2 ^ 32) t

-- The heap pointer of an allocation.
abbrev raised_hp : ℕ → FreeBlock → Vm → Vm
raised_hp bytes found s =
    if ltb s.hp (u32 (found.address + bytes)) then with_hp s (u32 (found.address + bytes)) else s

raised_list :
    (raise : Bool) (hp : ℕ) (s : Vm) → (if raise then with_hp s hp else s).free_list ≡ s.free_list
raised_list true hp s = refl
raised_list false hp s = refl

list_kept :
    (a v : ℕ) (s t : Vm) (r : Outcome (Unit {0}))
    → r ≡ ok tt t
    → WriteSpec 4 heap a v s r
    → t.free_list ≡ s.free_list
list_kept a v s t r e (refused out is) = cc
list_kept a v s t r e (faults inside beyond is) = cc
list_kept a v s t r e (writes table inside fits is same) =
    let end : t ≡ with_table s table = cc in ap (λ (x : Vm). x.free_list) end

place_block-Placed :
    (size addr : ℕ) (found : FreeBlock) (s t : Vm)
    → found.address + size + 4 < 2 ^ 32
    → place_block size (size + 4) found s ≡ ok addr t
    → Placed (size + 4) addr found s.free_list t
unfolding place_block write32
place_block-Placed size addr found s t h e =
    let bytes = size + 4 in
    let s1 = raised_hp bytes found s in
    let (_, s2, first, rest) =
      both_return (write_bytes 4 heap found.address bytes s1)
        (λ _ x. and_then (zero_bytes size found.address 0 x) (λ _ y.
          ok (u32 (found.address + block_header_size))
            (with_free_list y (take_fit bytes y.free_list))))
        addr t e in
    let (_, s3, second, last) =
      both_return (zero_bytes size found.address 0 s2)
        (λ _ y.
          ok (u32 (found.address + block_header_size))
            (with_free_list y (take_fit bytes y.free_list)))
        addr t rest in
    let above =
      zero_bytes-Above size found.address 0 (found.address + 4) s2 s3 (omega arith) (omega arith)
        second in
    let spec = write_bytes-WriteSpec 4 heap found.address bytes s1 in
    let end : with_free_list s3 (take_fit bytes s3.free_list) ≡ t = cc in
    let same : s3.free_list ≡ s.free_list =
      ap (λ (x : Vm). x.free_list) above.only_table
      ∙ list_kept found.address bytes s1 s2 (write_bytes 4 heap found.address bytes s1) first spec
      ∙ raised_list (ltb s.hp (u32 (found.address + bytes))) (u32 (found.address + bytes)) s in
    record {
      address = cc;
      list = ap (λ (x : Vm). x.free_list) (sym end) ∙ ap (λ f. take_fit bytes f) same;
      header =
          subst (λ x. read_bytes 4 heap found.address x ≡ ok (bytes % 2 ^ 32) x) end
            (word_kept found.address bytes s1 s2 s3 (take_fit bytes s3.free_list)
              (write_bytes 4 heap found.address bytes s1) (omega arith) first spec above);
    }

-- Releasing the block that an allocation placed.
release-Placed :
    (size addr lo : ℕ) (found : FreeBlock) (blocks : List FreeBlock) (t : Vm)
    → find_fit (size + 4) blocks ≡ some found
    → Ordered lo blocks
    → size + 4 < 2 ^ 32
    → Placed (size + 4) addr found blocks t
    → deallocate_block addr t ≡ ok tt (with_free_list t blocks)
unfolding deallocate_block read32
release-Placed size addr lo found blocks t fit o h placed =
    let bounds = find_fit-bounds (size + 4) lo blocks found fit o in
    let back : u32 (addr + 2 ^ 32 - block_header_size) ≡ found.address =
      omega (arith, placed.address, bounds.1, bounds.2) in
    let width : (size + 4) % 2 ^ 32 ≡ size + 4 = omega arith in
    rw back (
      rw placed.header (
        rw (width, placed.list, release-take_fit (size + 4) lo blocks found (omega arith) o fit)
          refl))

release_allocated :
    (size addr lo : ℕ) (s t : Vm) (fit : Option FreeBlock)
    → size + 4 < 2 ^ 32
    → Ordered lo s.free_list
    → find_fit (size + 4) s.free_list ≡ fit
    → allocate_in size (size + 4) fit s ≡ ok addr t
    → deallocate_block addr t ≡ ok tt (with_free_list t s.free_list)
unfolding allocate_in
release_allocated size addr lo s t none h o fit e = cc
release_allocated size addr lo s t (some found) h o fit e =
    elim (Bool-cases (leb s.sp (u32 (found.address + (size + 4))))) [
      | inl collides ↦
          let stops : allocate_in size (size + 4) (some found) s ≡ thrown out_of_memory s =
            rw collides refl in
          cc
      | inr free ↦
          let goes : allocate_in size (size + 4) (some found) s
              ≡ place_block size (size + 4) found s =
            rw free refl in
          let bounds = find_fit-bounds (size + 4) lo s.free_list found fit o in
          release-Placed size addr lo found s.free_list t fit o h (
            place_block-Placed size addr found s t (omega (arith, bounds.1, bounds.2))
              (sym goes ∙ e))
    ]

-- On an ordered free list, an allocation that returns an address, of a size that does not wrap with its
-- header, is undone by the release of that address: the free list is what it was before the allocation.
pub deallocate_block-allocate_block :
    (size addr lo : ℕ) (s t : Vm)
    → size + block_header_size < 2 ^ 32
    → Ordered lo s.free_list
    → allocate_block size s ≡ ok addr t
    → deallocate_block addr t ≡ ok tt (with_free_list t s.free_list)
unfolding allocate_block
deallocate_block-allocate_block size addr lo s t h o e =
    let width : u32 (size + block_header_size) ≡ size + 4 = omega arith in
    elim (Bool-cases (size == 0)) [
      | inl empty ↦ let stops : allocate_block size s ≡ thrown internal s = rw empty refl in cc
      | inr some_bytes ↦
          let goes : allocate_block size s
              ≡ allocate_in size (size + 4) (find_fit (size + 4) s.free_list) s =
            rw (some_bytes, width) refl in
          release_allocated size addr lo s t (find_fit (size + 4) s.free_list) h o refl
            (sym goes ∙ e)
    ]
