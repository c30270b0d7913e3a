-- ===== src/Vm/Memory/Access.antt =====
-- src/vm/memory/MemoryManager.cpp: the reads and writes on the machine's state.
use simple_virtual_language.Base.{
  ℕ, ◌+◌, ◌*◌, ◌%◌, ◌^◌, ◌≤◌, ◌<◌, ◌≡◌, refl, ap, ◌∙◌, true, false, inl, inr, Option-cases,
  Bool-cases,
}
use simple_virtual_language.Vm.State.{
  internal, PageTable, Vm, Outcome, ok, thrown, undefined_behaviour,
}
use simple_virtual_language.Vm.Memory.{
  MemoryAccessScope, code, in_region, check_address_in_region, store_bytes, load_bytes, write_bytes,
  read_bytes,
}
use simple_virtual_language.Vm.Memory.Flat.{
  byte_at, patched, store_bytes-patched, store_bytes-fits, store_bytes_faults,
}
use simple_virtual_language.Vm.Memory.Words.{load_bytes-patched}

abbrev pub with_table : Vm → PageTable → Vm
with_table s table = record s { page_table = table }

-- What a write of `n` bytes does, as a specification over the flat memory: it is refused outside its
-- region, it is undefined where it leaves its page, and otherwise it patches `n` bytes.
pub data WriteSpec (n : ℕ) (region : MemoryAccessScope) (a v : ℕ) (s : Vm) (r : Outcome (Unit {0}))
    : Type 0 where
  refused : in_region s region a ≡ false → r ≡ thrown internal s → WriteSpec n region a v s r
  faults :
      in_region s region a ≡ true
      → 4096 < a % 4096 + n
      → r ≡ undefined_behaviour
      → WriteSpec n region a v s r
  writes :
      (table : PageTable)
      → in_region s region a ≡ true
      → a % 4096 + n ≤ 4096
      → r ≡ ok tt (with_table s table)
      → ((b : ℕ) → byte_at table b ≡ patched a n v (byte_at s.page_table) b)
      → WriteSpec n region a v s r

pub check_in :
    (region : MemoryAccessScope) (a : ℕ) (s : Vm)
    → in_region s region a ≡ true
    → check_address_in_region region a s ≡ ok tt s
unfolding check_address_in_region
check_in region a s e = rw e

pub check_out :
    (region : MemoryAccessScope) (a : ℕ) (s : Vm)
    → in_region s region a ≡ false
    → check_address_in_region region a s ≡ thrown internal s
unfolding check_address_in_region
check_out region a s e = rw e

-- Every write of any number of bytes, to any region and address, meets the specification: refused
-- outside its region, undefined where it leaves its page, and otherwise an update of those bytes alone.
pub write_bytes-WriteSpec :
    (n : ℕ) (region : MemoryAccessScope) (a v : ℕ) (s : Vm)
    → WriteSpec n region a v s (write_bytes n region a v s)
unfolding write_bytes
write_bytes-WriteSpec n region a v s = elim (Bool-cases (in_region s region a)) [
  | inr out ↦ refused out (rw (check_out region a s out))
  | inl inside ↦ elim (Option-cases (store_bytes n a v s.page_table)) [
    | inl fault ↦
        faults inside (store_bytes_faults n a v s.page_table fault)
          (rw (check_in region a s inside, fault))
    | inr (table, done) ↦
        writes table inside (store_bytes-fits n a v s.page_table table done)
          (rw (check_in region a s inside, done))
          (λ b. store_bytes-patched n a v s.page_table table b done)
  ]
]

-- The regions depend on the registers alone.
in_region-with_table :
    (s : Vm) (table : PageTable) (region : MemoryAccessScope) (a : ℕ)
    → in_region (with_table s table) region a ≡ in_region s region a
unfolding in_region
in_region-with_table s table code a = refl
in_region-with_table s table region a = refl

pub read_bytes-ok :
    (n : ℕ) (region : MemoryAccessScope) (a : ℕ) (s : Vm)
    → in_region s region a ≡ true
    → read_bytes n region a s ≡ ok (load_bytes n a s.page_table) s
unfolding read_bytes
read_bytes-ok n region a s inside = rw (check_in region a s inside)

-- A number that was written is read back at the same address.
read_after :
    (n : ℕ) (region : MemoryAccessScope) (a v : ℕ) (s s' : Vm) (r : Outcome (Unit {0}))
    → a < 2 ^ 32
    → r ≡ ok tt s'
    → WriteSpec n region a v s r
    → read_bytes n region a s' ≡ ok (v % 2 ^ (n * 8)) s'
read_after n region a v s s' r lt e (refused out is) = cc
read_after n region a v s s' r lt e (faults inside beyond is) = cc
read_after n region a v s s' r lt e (writes table inside fits is same) =
    let end : with_table s table ≡ s' = cc in
    rw (← end) (
      read_bytes-ok n region a (with_table s table) (in_region-with_table s table region a ∙ inside)
      ∙ ap (λ (k : ℕ). ok k (with_table s table))
          (load_bytes-patched n a v (byte_at s.page_table) table lt fits same))

-- After a write to an address of 32 bits that returns, a read of as many bytes at the same address and
-- region returns the number, cut to the bytes written, and does not change the state.
pub read_bytes-write_bytes :
    (n : ℕ) (region : MemoryAccessScope) (a v : ℕ) (s s' : Vm)
    → a < 2 ^ 32
    → write_bytes n region a v s ≡ ok tt s'
    → read_bytes n region a s' ≡ ok (v % 2 ^ (n * 8)) s'
read_bytes-write_bytes n region a v s s' lt e =
    read_after n region a v s s' (write_bytes n region a v s) lt e
      (write_bytes-WriteSpec n region a v s)
