-- ===== src/Vm/Safety/Memory.antt =====
-- What accesses of src/vm/memory/MemoryManager.cpp may change.
use simple_virtual_language.Base.{
  ℕ, ◌≤◌, ◌<◌, ◌≡◌, refl, sym, subst, ◌∙◌, true, ◌⊎◌, inl, inr, arith, Bool-cases,
}
use simple_virtual_language.Isa.{ValueType, i32, ui32, i64, ui64, f32, f64, ptr, str, unnamed}
use simple_virtual_language.Vm.State.{PageTable, Value, Vm, Outcome, ok, thrown, internal, u32}
use simple_virtual_language.Vm.Memory.{
  MemoryAccessScope, data_region, heap, call_stack, ptr_scope, in_region, load_bytes, write_bytes,
  read_bytes, write_by_type, write, read,
}
use simple_virtual_language.Vm.Memory.Flat.{byte_at}
use simple_virtual_language.Vm.Memory.Access.{
  with_table, WriteSpec, refused, faults, writes, write_bytes-WriteSpec, check_in, check_out,
}
use simple_virtual_language.Vm.Safety.Within.{
  Within, by_ok, by_throw, by_undefined, Respects, mono-Within,
}
use simple_virtual_language.Vm.Safety.Invariant.{Safe, Safe-refl}

-- Only the page table changes, and outside the code region.
pub record Patch (s t : Vm) : Type 0 where
  pub table : PageTable
  pub only_table : t ≡ with_table s table
  pub spares_code :
      s.start_of_data_region ≤ s.hb
      → s.start_of_data_region ≤ s.sp
      → (a : ℕ) → a < s.start_of_data_region
      → byte_at table a ≡ byte_at s.page_table a

pub Patch-refl : (s : Vm) → Patch s s
Patch-refl s = record { table = s.page_table; only_table = refl; spares_code = λ p q a h. refl }

pub Patch-trans : (s t u : Vm) → Patch s t → Patch t u → Patch s u
Patch-trans s t u p q =
    let q' : Patch (with_table s p.table) u = subst (λ x. Patch x u) p.only_table q in
    record {
      table = q'.table;
      only_table = q'.only_table;
      spares_code = λ h k a below. q'.spares_code h k a below ∙ p.spares_code h k a below;
    }

pub Patch-Safe : (s t : Vm) → Patch s t → Safe s t
Patch-Safe s t p = subst (Safe s) (sym p.only_table) (record {
  keeps = λ i. record {
    data_below_heap = i.data_below_heap;
    heap_ordered = i.heap_ordered;
    stack_above_code = i.stack_above_code;
    frames_fit = i.frames_fit;
    stack_bounded = i.stack_bounded;
  };
  code = λ i. record {
    same_start = refl;
    same_bytes = p.spares_code i.data_below_heap i.stack_above_code;
  };
})

-- The regions that instructions write to.
pub data Writable : MemoryAccessScope → Type 0 where
  to_data : Writable data_region
  to_heap : Writable heap
  to_stack : Writable call_stack
  to_ptr : Writable ptr_scope

-- None of them reaches into the code region.
writes_beyond_code :
    (s : Vm) (region : MemoryAccessScope) (a : ℕ)
    → Writable region
    → s.start_of_data_region ≤ s.hb
    → s.start_of_data_region ≤ s.sp
    → in_region s region a ≡ true
    → s.start_of_data_region ≤ a
unfolding in_region
writes_beyond_code s region a to_data p q e = ground arith
writes_beyond_code s region a to_heap p q e = ground arith
writes_beyond_code s region a to_stack p q e = ground arith
writes_beyond_code s region a to_ptr p q e = ground arith

write_Patch :
    (n : ℕ) (region : MemoryAccessScope) (a v : ℕ) (s : Vm) (r : Outcome (Unit {0}))
    → Writable region
    → WriteSpec n region a v s r
    → Within Patch s r
write_Patch n region a v s r w (refused out e) = rw e (by_throw (Patch-refl s))
write_Patch n region a v s r w (faults inside beyond e) = rw e by_undefined
write_Patch n region a v s r w (writes table inside fits e same) = rw e (
    by_ok (record {
      table = table;
      only_table = refl;
      spares_code = λ p q b h.
          let above = writes_beyond_code s region a w p q inside in same b ∙ ground (arith, above);
    }))

pub write_bytes-Patch :
    (n : ℕ) (region : MemoryAccessScope) (a v : ℕ)
    → Writable region
    → Respects Patch (write_bytes n region a v)
write_bytes-Patch n region a v w s =
    write_Patch n region a v s (write_bytes n region a v s) w (write_bytes-WriteSpec n region a v s)

pub write_bytes-Safe :
    (n : ℕ) (region : MemoryAccessScope) (a v : ℕ)
    → Writable region
    → Respects Safe (write_bytes n region a v)
write_bytes-Safe n region a v w s =
    mono-Within Patch Safe s (write_bytes n region a v s) (Patch-Safe s)
      (write_bytes-Patch n region a v w s)

-- A read leaves the state as it was.
pub read_bytes_cases :
    (n : ℕ) (region : MemoryAccessScope) (a : ℕ) (s : Vm)
    → ((v : ℕ) × (read_bytes n region a s ≡ ok v s)) ⊎ (read_bytes n region a s ≡ thrown internal s)
unfolding read_bytes
read_bytes_cases n region a s = elim (Bool-cases (in_region s region a)) [
  | inl inside ↦ inl (load_bytes n a s.page_table, rw (check_in region a s inside))
  | inr out ↦ inr (rw (check_out region a s out))
]

pub read_bytes-Safe :
    (n : ℕ) (region : MemoryAccessScope) (a : ℕ) → Respects Safe (read_bytes n region a)
unfolding read_bytes
read_bytes-Safe n region a s = elim (Bool-cases (in_region s region a)) [
  | inl inside ↦ rw (check_in region a s inside) (by_ok (Safe-refl s))
  | inr out ↦ rw (check_out region a s out) (by_throw (Safe-refl s))
]

pub read-Safe :
    (region : MemoryAccessScope) (a : ℕ) (t : ValueType) → Respects Safe (read region a t)
unfolding read
read-Safe region a i32 s = read_bytes-Safe 4 region a s
read-Safe region a ui32 s = read_bytes-Safe 4 region a s
read-Safe region a f32 s = read_bytes-Safe 4 region a s
read-Safe region a ptr s = read_bytes-Safe 4 region a s
read-Safe region a i64 s = read_bytes-Safe 8 region a s
read-Safe region a ui64 s = read_bytes-Safe 8 region a s
read-Safe region a f64 s = read_bytes-Safe 8 region a s
read-Safe region a str s = by_undefined
read-Safe region a (unnamed b) s = by_undefined

write_by_type-Safe :
    (region : MemoryAccessScope) (a : ℕ) (t : ValueType) (raw : ℕ)
    → Writable region
    → Respects Safe (write_by_type region a t raw)
unfolding write_by_type
write_by_type-Safe region a i32 raw w s = write_bytes-Safe 4 region a (u32 raw) w s
write_by_type-Safe region a ui32 raw w s = write_bytes-Safe 4 region a (u32 raw) w s
write_by_type-Safe region a f32 raw w s = write_bytes-Safe 4 region a (u32 raw) w s
write_by_type-Safe region a ptr raw w s = write_bytes-Safe 4 region a (u32 raw) w s
write_by_type-Safe region a i64 raw w s = write_bytes-Safe 8 region a raw w s
write_by_type-Safe region a ui64 raw w s = write_bytes-Safe 8 region a raw w s
write_by_type-Safe region a f64 raw w s = write_bytes-Safe 8 region a raw w s
write_by_type-Safe region a str raw w s = by_ok (Safe-refl s)
write_by_type-Safe region a (unnamed b) raw w s = by_ok (Safe-refl s)

pub write-Safe :
    (region : MemoryAccessScope) (a : ℕ) (v : Value)
    → Writable region
    → Respects Safe (write region a v)
unfolding write
write-Safe region a v w s = write_by_type-Safe region a v.type v.raw_value w s
