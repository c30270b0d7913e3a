-- ===== src/Vm/Safety/Heap.antt =====
-- The preservation lemmas for src/vm/memory/HeapManager.cpp.
use simple_virtual_language.Base.{
  ℕ, zero, suc, ◌+◌, ◌-◌, ◌^◌, ◌<◌, refl, inl, inr, leb, ltb, ◌==◌, if◌then◌else◌, arith,
  Bool-cases, List, Option, none, some,
}
use simple_virtual_language.Vm.State.{FreeBlock, Vm, modify, u32}
use simple_virtual_language.Vm.Memory.{heap, write8, write32, read32}
use simple_virtual_language.Vm.HeapManager.{
  block_header_size, with_hp, with_free_list, zero_bytes, place_block, allocate_in, allocate_block,
  deallocate_block,
}
use simple_virtual_language.Vm.HeapManager.FreeList.{find_fit, take_fit}
use simple_virtual_language.Vm.Safety.Within.{by_ok, by_throw, Respects, seq}
use simple_virtual_language.Vm.Safety.Invariant.{Safe, Safe-refl, Safe-trans, same_core}
use simple_virtual_language.Vm.Safety.Memory.{write_bytes-Safe, read_bytes-Safe, to_heap}

hp_grows : (s : Vm) (hp : ℕ) → s.hp < hp → Safe s (with_hp s hp)
hp_grows s hp h = record {
  keeps = λ i. record {
    data_below_heap = i.data_below_heap;
    heap_ordered = omega (arith, i.heap_ordered);
    stack_above_code = i.stack_above_code;
    frames_fit = i.frames_fit;
    stack_bounded = i.stack_bounded;
  };
  code = λ i. record { same_start = refl; same_bytes = λ a h. refl };
}

raise_hp-Safe : (s : Vm) (hp : ℕ) → Safe s (if ltb s.hp hp then with_hp s hp else s)
raise_hp-Safe s hp = elim (Bool-cases (ltb s.hp hp)) [
  | inl higher ↦ rw higher (hp_grows s hp (ground arith))
  | inr lower ↦ rw lower (Safe-refl s)
]

zero_bytes-Safe : (left address i : ℕ) → Respects Safe (zero_bytes left address i)
unfolding zero_bytes
zero_bytes-Safe zero address i s = by_ok (Safe-refl s)
zero_bytes-Safe (suc left) address i s =
    seq Safe Safe-trans (write8 heap (u32 (address + block_header_size + i)) 0) _
      (write_bytes-Safe 1 heap (u32 (address + block_header_size + i)) 0 to_heap)
      (λ _. zero_bytes-Safe left address (i + 1)) s

pub free_list_Safe : (s : Vm) (blocks : List FreeBlock) → Safe s (with_free_list s blocks)
free_list_Safe s blocks =
    same_core s (with_free_list s blocks) refl refl refl refl refl (omega arith) refl

place_block-Safe :
    (size bytes : ℕ) (found : FreeBlock) → Respects Safe (place_block size bytes found)
unfolding place_block
place_block-Safe size bytes found =
    seq Safe Safe-trans (modify _) _ (λ s. by_ok (raise_hp-Safe s (u32 (found.address + bytes))))
      (λ _.
        seq Safe Safe-trans (write32 heap found.address bytes) _
          (write_bytes-Safe 4 heap found.address bytes to_heap)
          (λ _.
            seq Safe Safe-trans (zero_bytes size found.address 0) _
              (zero_bytes-Safe size found.address 0)
              (λ _ s.
                by_ok {a = u32 (found.address + 4)}
                  (free_list_Safe s (take_fit bytes s.free_list)))))

allocate_in-Safe :
    (size bytes : ℕ) (found : Option FreeBlock) → Respects Safe (allocate_in size bytes found)
unfolding allocate_in
allocate_in-Safe size bytes none s = by_throw (Safe-refl s)
allocate_in-Safe size bytes (some found) s =
    elim (Bool-cases (leb s.sp (u32 (found.address + bytes)))) [
      | inl collides ↦ rw collides (by_throw (Safe-refl s))
      | inr fits ↦ rw fits (place_block-Safe size bytes found s)
    ]

pub allocate_block-Safe : (size : ℕ) → Respects Safe (allocate_block size)
unfolding allocate_block
allocate_block-Safe size s = elim (Bool-cases (size == 0)) [
  | inl empty ↦ rw empty (by_throw (Safe-refl s))
  | inr nonzero ↦
      rw nonzero (allocate_in-Safe size (u32 (size + 4)) (find_fit (u32 (size + 4)) s.free_list) s)
]

pub deallocate_block-Safe : (address : ℕ) → Respects Safe (deallocate_block address)
unfolding deallocate_block
deallocate_block-Safe address =
    seq Safe Safe-trans (read32 heap (u32 (address + 2 ^ 32 - 4))) _
      (read_bytes-Safe 4 heap (u32 (address + 2 ^ 32 - 4))) (λ _ s. by_ok (free_list_Safe s _))
