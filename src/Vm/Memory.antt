-- ===== src/Vm/Memory.antt =====
-- src/vm/memory/MemoryManager.h and MemoryManager.cpp: the paged memory and its regions.
-- An access that would index a page beyond its 4096 bytes is undefined behaviour of C++.
pub mod Flat
pub mod Words
pub mod Access
use simple_virtual_language.Base.{
  ℕ, zero, suc, ◌+◌, ◌*◌, ◌/◌, ◌%◌, ◌^◌, bit_or, Bool, true, ◌&&◌, ◌||◌, Option, none, some, List,
  [], ◌∷◌, ltb, leb, ◌==◌, if◌then◌else◌,
}
use simple_virtual_language.Isa.{ValueType, i32, ui32, i64, ui64, f32, f64, ptr, str, unnamed}
use simple_virtual_language.Vm.State.{
  internal, Value, Page, PageTable, Vm, M, pure, ◌>>=◌, ◌>>◌, get, modify, throw, undef, u32,
}

pub data MemoryAccessScope : Type 0 where
  code data_region heap call_stack ptr_scope any : MemoryAccessScope

abbrev pub page_size : ℕ
page_size = 4096

unfoldable pub get_page_number : ℕ → ℕ
get_page_number address = address / page_size

unfoldable pub get_page_offset : ℕ → ℕ
get_page_offset address = address % page_size

-- `new Page()` zeroes the page.
unfoldable pub allocate_page : PageTable → ℕ → PageTable
allocate_page table page_number n = if n == page_number then some (λ _. 0) else table n

unfoldable pub get_page : PageTable → ℕ → Option Page
unfolding get_page_number
get_page table address = table (get_page_number address)

-- The page at an address, and the table that holds it.
unfoldable pub get_or_create_page : PageTable → ℕ → PageTable × Page
unfolding get_page_number allocate_page
get_or_create_page table address = elim (table (get_page_number address)) [
  | none ↦ (allocate_page table (get_page_number address), λ _. 0)
  | some page ↦ (table, page)
]

unfoldable pub in_code_region : Vm → ℕ → Bool
in_code_region s address = ltb address s.start_of_data_region

unfoldable pub in_data_region : Vm → ℕ → Bool
in_data_region s address = leb s.start_of_data_region address && ltb address s.hb

unfoldable pub in_heap_region : Vm → ℕ → Bool
in_heap_region s address = leb s.hb address && leb address s.hp

unfoldable pub in_call_stack_region : Vm → ℕ → Bool
in_call_stack_region s address = leb s.sp address

-- The test of `checkAddressInRegion`.
unfoldable pub in_region : Vm → MemoryAccessScope → ℕ → Bool
unfolding in_code_region in_data_region in_heap_region in_call_stack_region
in_region s code address = in_code_region s address
in_region s data_region address = in_data_region s address
in_region s heap address = in_heap_region s address
in_region s call_stack address = in_call_stack_region s address
in_region s ptr_scope address =
    in_data_region s address || in_heap_region s address || in_call_stack_region s address
in_region s any address = true

unfoldable pub check_address_in_region : MemoryAccessScope → ℕ → M (Unit {0})
unfolding in_region
check_address_in_region region address s =
    (if in_region s region address then pure tt else throw internal) s

-- `page->data[offset] = byte`.
unfoldable pub set_byte : Page → ℕ → ℕ → Page
set_byte page offset byte o = if o == offset then byte else page o

-- The loops `for (i = 0; i < n; i++) page->data[getPageOffset(address) + i] = (value >> (i * 8)) & 0xFF`,
-- with `left` rounds to go at index `i`. `none` is a write beyond the page.
unfoldable pub write_loop : ℕ → ℕ → ℕ → ℕ → Page → Option Page
unfolding get_page_offset set_byte
write_loop zero i address v page = some page
write_loop (suc left) i address v page =
    let rest =
      write_loop left (i + 1) address v
        (set_byte page (get_page_offset address + i) (v / 2 ^ (i * 8) % 256)) in
    if ltb (get_page_offset address + i) page_size then rest else none

-- The loops `result = result | page->data[getPageOffset(address + i)] << (i * 8)`.
unfoldable pub read_loop : ℕ → ℕ → ℕ → Page → ℕ → ℕ
unfolding get_page_offset
read_loop zero i address page result = result
read_loop (suc left) i address page result =
    read_loop left (i + 1) address page
      (bit_or result (page (get_page_offset (u32 (address + i))) * 2 ^ (i * 8)))

-- `pageTable[getPageNumber(address)]` now points to a page with the contents `page`.
unfoldable pub set_page : PageTable → ℕ → Page → PageTable
unfolding get_page_number
set_page table address page n = if n == get_page_number address then some page else table n

-- The common body of `write8`, `write32` and `write64`, for `n` bytes.
unfoldable pub store_bytes : ℕ → ℕ → ℕ → PageTable → Option PageTable
unfolding get_or_create_page write_loop set_page
store_bytes n address v table =
    let (table', page) = get_or_create_page table address in
    elim (write_loop n 0 address v page) [
      | none ↦ none
      | some page' ↦ some (set_page table' address page')
    ]

-- The common body of `read8`, `read32` and `read64`: 0 where the page is not allocated.
unfoldable pub load_bytes : ℕ → ℕ → PageTable → ℕ
unfolding get_page read_loop
load_bytes n address table = elim (get_page table address) [
  | none ↦ 0
  | some page ↦ read_loop n 0 address page 0
]

unfoldable pub commit : Option PageTable → M (Unit {0})
commit none = undef
commit (some table) = modify λ s. record s { page_table = table }

unfoldable pub write_bytes : ℕ → MemoryAccessScope → ℕ → ℕ → M (Unit {0})
unfolding check_address_in_region store_bytes commit
write_bytes n region address v = do
  check_address_in_region region address
  s ← get
  commit (store_bytes n address v s.page_table)

unfoldable pub read_bytes : ℕ → MemoryAccessScope → ℕ → M ℕ
unfolding check_address_in_region load_bytes
read_bytes n region address = do
  check_address_in_region region address
  s ← get
  pure (load_bytes n address s.page_table)

unfoldable pub write8 : MemoryAccessScope → ℕ → ℕ → M (Unit {0})
unfolding write_bytes
write8 = write_bytes 1

unfoldable pub write32 : MemoryAccessScope → ℕ → ℕ → M (Unit {0})
unfolding write_bytes
write32 = write_bytes 4

unfoldable pub write64 : MemoryAccessScope → ℕ → ℕ → M (Unit {0})
unfolding write_bytes
write64 = write_bytes 8

unfoldable pub read8 : MemoryAccessScope → ℕ → M ℕ
unfolding read_bytes
read8 = read_bytes 1

unfoldable pub read32 : MemoryAccessScope → ℕ → M ℕ
unfolding read_bytes
read32 = read_bytes 4

unfoldable pub read64 : MemoryAccessScope → ℕ → M ℕ
unfolding read_bytes
read64 = read_bytes 8

-- A value of no listed type falls out of the `switch`: nothing is written.
unfoldable pub write_by_type : MemoryAccessScope → ℕ → ValueType → ℕ → M (Unit {0})
unfolding write32 write64
write_by_type region address i32 raw = write32 region address (u32 raw)
write_by_type region address ui32 raw = write32 region address (u32 raw)
write_by_type region address f32 raw = write32 region address (u32 raw)
write_by_type region address ptr raw = write32 region address (u32 raw)
write_by_type region address i64 raw = write64 region address raw
write_by_type region address ui64 raw = write64 region address raw
write_by_type region address f64 raw = write64 region address raw
write_by_type region address str raw = pure tt
write_by_type region address (unnamed b) raw = pure tt

unfoldable pub write : MemoryAccessScope → ℕ → Value → M (Unit {0})
unfolding write_by_type
write region address v = write_by_type region address v.type v.raw_value

-- A type that the `switch` does not list reaches the end of a function with a result.
unfoldable pub read : MemoryAccessScope → ℕ → ValueType → M ℕ
unfolding read32 read64
read region address i32 = read32 region address
read region address ui32 = read32 region address
read region address f32 = read32 region address
read region address ptr = read32 region address
read region address i64 = read64 region address
read region address ui64 = read64 region address
read region address f64 = read64 region address
read region address str = undef
read region address (unnamed b) = undef

-- `loadBytecodeIntoMemory`: the bytes behind the header go to address 0 and up; the caller's list
-- holds those bytes, and `address` counts them.
unfoldable pub load_bytecode : List ℕ → ℕ → M (Unit {0})
unfolding write8
load_bytecode [] address = pure tt
load_bytecode (b ∷ bytes) address = do write8 any address b; load_bytecode bytes (u32 (address + 1))
