-- ===== src/Vm/HeapManager.antt =====
-- src/vm/memory/HeapManager.h and HeapManager.cpp: the first-fit allocator over a free list that is
-- sorted by address.
pub mod FreeList
pub mod Free
use simple_virtual_language.Base.{
  ℕ, zero, suc, ◌+◌, ◌-◌, ◌%◌, ◌^◌, Bool, List, [], ◌∷◌, Option, none, some, leb, ltb, ◌==◌,
  if◌then◌else◌,
}
use simple_virtual_language.Vm.State.{
  internal, out_of_memory, FreeBlock, Vm, M, ok, thrown, pure, ◌>>=◌, ◌>>◌, get, modify, throw, u32,
  max_memory_address,
}
use simple_virtual_language.Vm.Memory.{heap, write8, write32, read32}
use FreeList.{block, find_fit, take_fit, release}

abbrev pub block_header_size : ℕ
block_header_size = 4

abbrev pub with_hp : Vm → ℕ → Vm
with_hp s hp = record s { hp = hp }

abbrev pub with_free_list : Vm → List FreeBlock → Vm
with_free_list s blocks = record s { free_list = blocks }

-- `initialiseHeap`: one free block from the heap pointer to the top of memory.
unfoldable pub initialise_heap : M (Unit {0})
initialise_heap = modify λ s. with_free_list s (block (max_memory_address - s.hp) s.hp ∷ [])

-- `left` bytes to zero at offset `i` behind the header of the block.
unfoldable pub zero_bytes : ℕ → ℕ → ℕ → M (Unit {0})
unfolding write8
zero_bytes zero address i = pure tt
zero_bytes (suc left) address i = do
  write8 heap (u32 (address + block_header_size + i)) 0
  zero_bytes left address (i + 1)

-- The part of `allocateBlock` behind the search and the collision test.
unfoldable pub place_block : ℕ → ℕ → FreeBlock → M ℕ
unfolding write32 zero_bytes take_fit
place_block size bytes found = do
  modify λ s.
      if ltb s.hp (u32 (found.address + bytes)) then with_hp s (u32 (found.address + bytes)) else s
  write32 heap found.address bytes
  zero_bytes size found.address 0
  modify λ s. with_free_list s (take_fit bytes s.free_list)
  pure (u32 (found.address + block_header_size))

-- No block fits, or the block would collide with the call stack.
unfoldable pub allocate_in : ℕ → ℕ → Option FreeBlock → M ℕ
unfolding place_block
allocate_in size bytes none s = thrown out_of_memory s
allocate_in size bytes (some found) s =
    (if leb s.sp (u32 (found.address + bytes))
        then throw out_of_memory
        else place_block size bytes found)
      s

unfoldable pub allocate_block : ℕ → M ℕ
unfolding find_fit allocate_in
allocate_block size s =
    (if size == 0
        then throw internal
        else allocate_in size (u32 (size + block_header_size))
            (find_fit (u32 (size + block_header_size)) s.free_list))
      s

unfoldable pub deallocate_block : ℕ → M (Unit {0})
unfolding read32 release
deallocate_block address = do
  bytes ← read32 heap (u32 (address + 2 ^ 32 - block_header_size))
  modify λ s.
      with_free_list s
        (release (block bytes (u32 (address + 2 ^ 32 - block_header_size))) s.free_list)
