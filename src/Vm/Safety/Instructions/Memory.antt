-- ===== src/Vm/Safety/Instructions/Memory.antt =====
-- The preservation lemmas for the memory instructions of src/vm/VM.cpp.
use simple_virtual_language.Base.{ℕ, ◌+◌, ◌-◌, ◌%◌, ◌^◌, ◌==◌, [], ◌∷◌}
use simple_virtual_language.Isa.{ptr, ui32, i32, str, type_code, type_of_code}
use simple_virtual_language.Vm.State.{u32}
use simple_virtual_language.Vm.Memory.{ptr_scope, data_region, call_stack, read, read8, read64}
use simple_virtual_language.Vm.OperandStack.{pop}
use simple_virtual_language.Vm.HeapManager.{allocate_block}
use simple_virtual_language.Vm.Native.{check_type, integer_types, address_types}
use simple_virtual_language.Vm.Fetch.{
  fetch_type, fetch_operand, calculate_and_validate_frame_address,
}
use simple_virtual_language.Vm.Safety.Within.{Respects}
use simple_virtual_language.Vm.Safety.Invariant.{Safe}
use simple_virtual_language.Vm.Safety.Memory.{
  read_bytes-Safe, write_bytes-Safe, read-Safe, write-Safe, to_data, to_ptr, to_stack,
}
use simple_virtual_language.Vm.Safety.Heap.{allocate_block-Safe, deallocate_block-Safe}
use simple_virtual_language.Vm.Safety.Primitives.{
  bind-Safe, if_Safe, pop_top-Safe, push_typed-Safe, check_type-Safe, fetch_byte-Safe,
  fetch_operand-Safe, frame_address-Safe,
}
use simple_virtual_language.Vm.Instructions.Memory.{
  execute_load, execute_loadb, load_global, execute_loadg, execute_loadl, execute_store,
  execute_storeb, execute_storeg, execute_storel, execute_addrl, execute_alloc, execute_free,
}

pub execute_load-Safe : Respects Safe execute_load
unfolding execute_load
execute_load-Safe = bind-Safe (fetch_type) _ (fetch_byte-Safe) (λ t.
    bind-Safe (pop) _ (pop_top-Safe) (λ a.
      bind-Safe (check_type address_types a.type) _ (check_type-Safe address_types a.type) (λ _.
        bind-Safe (read ptr_scope (u32 a.raw_value) (type_of_code t)) _
          (read-Safe ptr_scope (u32 a.raw_value) (type_of_code t)) (λ v. push_typed-Safe t v))))

pub execute_loadb-Safe : Respects Safe execute_loadb
unfolding execute_loadb
execute_loadb-Safe = bind-Safe (pop) _ (pop_top-Safe) (λ a.
    bind-Safe (check_type address_types a.type) _ (check_type-Safe address_types a.type) (λ _.
      bind-Safe (read8 ptr_scope (u32 a.raw_value)) _
        (read_bytes-Safe 1 ptr_scope (u32 a.raw_value)) (λ v. push_typed-Safe (type_code ui32) v)))

load_global-Safe : (address t : ℕ) → Respects Safe (load_global address t)
unfolding load_global
load_global-Safe address t = if_Safe (t == type_code str) _ _ (push_typed-Safe t address) (
    bind-Safe (read data_region address (type_of_code t)) _
      (read-Safe data_region address (type_of_code t)) (λ v. push_typed-Safe t v))

pub execute_loadg-Safe : Respects Safe execute_loadg
unfolding execute_loadg
execute_loadg-Safe = bind-Safe (fetch_operand ptr) _ (fetch_operand-Safe ptr) (λ a.
    bind-Safe (read8 data_region (u32 (a + 2 ^ 32 - 1))) _
      (read_bytes-Safe 1 data_region (u32 (a + 2 ^ 32 - 1))) (λ t. load_global-Safe a t))

pub execute_loadl-Safe : Respects Safe execute_loadl
unfolding execute_loadl
execute_loadl-Safe = bind-Safe (fetch_type) _ (fetch_byte-Safe) (λ t.
    bind-Safe (fetch_operand i32) _ (fetch_operand-Safe i32) (λ raw.
      bind-Safe (calculate_and_validate_frame_address raw) _ (frame_address-Safe raw) (λ a.
        bind-Safe (read64 call_stack (a)) _ (read_bytes-Safe 8 call_stack (a))
          (λ v. push_typed-Safe t v))))

pub execute_store-Safe : Respects Safe execute_store
unfolding execute_store
execute_store-Safe = bind-Safe (pop) _ (pop_top-Safe) (λ v. bind-Safe (pop) _ (pop_top-Safe) (λ a.
    bind-Safe (check_type address_types a.type) _ (check_type-Safe address_types a.type)
      (λ _. write-Safe ptr_scope (u32 a.raw_value) v to_ptr)))

pub execute_storeb-Safe : Respects Safe execute_storeb
unfolding execute_storeb
execute_storeb-Safe = bind-Safe (pop) _ (pop_top-Safe) (λ v.
    bind-Safe (check_type integer_types v.type) _ (check_type-Safe integer_types v.type) (λ _.
      bind-Safe (pop) _ (pop_top-Safe) (λ a.
        bind-Safe (check_type address_types a.type) _ (check_type-Safe address_types a.type)
          (λ _. write_bytes-Safe 1 ptr_scope (u32 a.raw_value) (v.raw_value % 256) to_ptr))))

pub execute_storeg-Safe : Respects Safe execute_storeg
unfolding execute_storeg
execute_storeg-Safe = bind-Safe (fetch_operand ptr) _ (fetch_operand-Safe ptr) (λ a.
    bind-Safe (pop) _ (pop_top-Safe) (λ v.
      bind-Safe (read8 data_region (u32 (a + 2 ^ 32 - 1))) _
        (read_bytes-Safe 1 data_region (u32 (a + 2 ^ 32 - 1)))
        (λ t.
          bind-Safe (check_type (type_of_code t ∷ []) v.type) _
            (check_type-Safe (type_of_code t ∷ []) v.type)
            (λ _. write-Safe data_region a v to_data))))

pub execute_storel-Safe : Respects Safe execute_storel
unfolding execute_storel
execute_storel-Safe = bind-Safe (fetch_operand i32) _ (fetch_operand-Safe i32) (λ raw.
    bind-Safe (pop) _ (pop_top-Safe) (λ v.
      bind-Safe (calculate_and_validate_frame_address raw) _ (frame_address-Safe raw)
        (λ a. write_bytes-Safe 8 call_stack a v.raw_value to_stack)))

pub execute_addrl-Safe : Respects Safe execute_addrl
unfolding execute_addrl
execute_addrl-Safe = bind-Safe (fetch_operand i32) _ (fetch_operand-Safe i32) (λ raw.
    bind-Safe (calculate_and_validate_frame_address raw) _ (frame_address-Safe raw)
      (λ a. push_typed-Safe (type_code ptr) a))

pub execute_alloc-Safe : Respects Safe execute_alloc
unfolding execute_alloc
execute_alloc-Safe = bind-Safe (pop) _ (pop_top-Safe) (λ v.
    bind-Safe (check_type (ui32 ∷ []) v.type) _ (check_type-Safe (ui32 ∷ []) v.type) (λ _.
      bind-Safe (allocate_block (u32 v.raw_value)) _ (allocate_block-Safe (u32 v.raw_value))
        (λ a. push_typed-Safe (type_code ptr) a)))

pub execute_free-Safe : Respects Safe execute_free
unfolding execute_free
execute_free-Safe = bind-Safe (pop) _ (pop_top-Safe) (λ v.
    bind-Safe (check_type (ptr ∷ []) v.type) _ (check_type-Safe (ptr ∷ []) v.type)
      (λ _. deallocate_block-Safe (u32 v.raw_value)))
