-- ===== src/Vm/Instructions/Memory.antt =====
-- src/vm/VM.cpp: the loads, the stores, `addrL`, `alloc` and `free`.
use simple_virtual_language.Base.{ℕ, ◌+◌, ◌-◌, ◌%◌, ◌^◌, ◌∷◌, [], ◌==◌, if◌then◌else◌}
use simple_virtual_language.Isa.{ptr, ui32, i32, str, type_code, type_of_code}
use simple_virtual_language.Vm.State.{M, ◌>>=◌, ◌>>◌, u32}
use simple_virtual_language.Vm.Memory.{
  ptr_scope, data_region, call_stack, read, read8, read64, write, write8, write64,
}
use simple_virtual_language.Vm.OperandStack.{pop, push}
use simple_virtual_language.Vm.HeapManager.{allocate_block, deallocate_block}
use simple_virtual_language.Vm.Native.{check_type, address_types, integer_types}
use simple_virtual_language.Vm.Fetch.{
  fetch_type, fetch_operand, calculate_and_validate_frame_address,
}

unfoldable pub execute_load : M (Unit {0})
unfolding fetch_type pop check_type read push
execute_load = do
  t ← fetch_type
  address ← pop
  check_type address_types address.type
  v ← read ptr_scope (u32 address.raw_value) (type_of_code t)
  push t v

unfoldable pub execute_loadb : M (Unit {0})
unfolding pop check_type read8 push
execute_loadb = do
  address ← pop
  check_type address_types address.type
  v ← read8 ptr_scope (u32 address.raw_value)
  push (type_code ui32) v

-- The type of a global stands in the byte before it.
unfoldable pub load_global : ℕ → ℕ → M (Unit {0})
unfolding read push
load_global address t =
    if t == type_code str
    then push t address
    else do v ← read data_region address (type_of_code t); push t v

unfoldable pub execute_loadg : M (Unit {0})
unfolding fetch_operand read8 load_global
execute_loadg = do
  address ← fetch_operand ptr
  t ← read8 data_region (u32 (address + 2 ^ 32 - 1))
  load_global address t

unfoldable pub execute_loadl : M (Unit {0})
unfolding fetch_type fetch_operand calculate_and_validate_frame_address read64 push
execute_loadl = do
  t ← fetch_type
  raw_offset ← fetch_operand i32
  address ← calculate_and_validate_frame_address raw_offset
  local ← read64 call_stack address
  push t local

unfoldable pub execute_store : M (Unit {0})
unfolding pop check_type write
execute_store = do
  v ← pop
  address ← pop
  check_type address_types address.type
  write ptr_scope (u32 address.raw_value) v

unfoldable pub execute_storeb : M (Unit {0})
unfolding pop check_type write8
execute_storeb = do
  v ← pop
  check_type integer_types v.type
  address ← pop
  check_type address_types address.type
  write8 ptr_scope (u32 address.raw_value) (v.raw_value % 256)

unfoldable pub execute_storeg : M (Unit {0})
unfolding fetch_operand pop read8 check_type write
execute_storeg = do
  address ← fetch_operand ptr
  v ← pop
  t ← read8 data_region (u32 (address + 2 ^ 32 - 1))
  check_type (type_of_code t ∷ []) v.type
  write data_region address v

unfoldable pub execute_storel : M (Unit {0})
unfolding fetch_operand pop calculate_and_validate_frame_address write64
execute_storel = do
  raw_offset ← fetch_operand i32
  v ← pop
  address ← calculate_and_validate_frame_address raw_offset
  write64 call_stack address v.raw_value

unfoldable pub execute_addrl : M (Unit {0})
unfolding fetch_operand calculate_and_validate_frame_address push
execute_addrl = do
  raw_offset ← fetch_operand i32
  address ← calculate_and_validate_frame_address raw_offset
  push (type_code ptr) address

unfoldable pub execute_alloc : M (Unit {0})
unfolding pop check_type allocate_block push
execute_alloc = do
  v ← pop
  check_type (ui32 ∷ []) v.type
  address ← allocate_block (u32 v.raw_value)
  push (type_code ptr) address

unfoldable pub execute_free : M (Unit {0})
unfolding pop check_type deallocate_block
execute_free = do v ← pop; check_type (ptr ∷ []) v.type; deallocate_block (u32 v.raw_value)
