-- ===== src/Vm/Memory/Flat.antt =====
-- The paged memory as one array of bytes: what the loops of the readers and writers do to it.
use native.Mathlib.Decide.{dec_lt, ℕ_discrete}
use simple_virtual_language.Base.{
  ℕ, zero, suc, ◌+◌, ◌-◌, ◌*◌, ◌/◌, ◌%◌, ◌^◌, ◌≤◌, ◌<◌, ◌≡◌, refl, ◌&&◌, none, some, inl, inr,
  arith, ltb, leb, if◌then◌else◌, Option-cases, lt→ltb, ◌==◌,
}
use simple_virtual_language.Vm.State.{Page, PageTable}
use simple_virtual_language.Vm.Memory.{
  get_page_offset, get_page, get_or_create_page, set_byte, write_loop, set_page, store_bytes,
}

-- The byte at an address, 0 where the page is not allocated.
pub byte_at : PageTable → ℕ → ℕ
unfolding get_page get_page_offset
byte_at table address = elim (get_page table address) [
  | none ↦ 0
  | some page ↦ page (get_page_offset address)
]

-- The k-th byte of a little-endian number.
abbrev pub byte_of : ℕ → ℕ → ℕ
byte_of v k = v / 2 ^ (k * 8) % 256

-- A run of bytes replaced by those of a number.
abbrev pub patched : ℕ → ℕ → ℕ → (ℕ → ℕ) → ℕ → ℕ
patched a n v f b = if leb a b && ltb b (a + n) then byte_of v (b - a) else f b

write_loop_patched :
    (left i address v : ℕ) (page page' : Page) (o : ℕ)
    → write_loop left i address v page ≡ some page'
    → page' o ≡ (
        if leb (address % 4096 + i) o && ltb o (address % 4096 + i + left)
        then byte_of v (o - address % 4096)
        else page o)
unfolding write_loop
write_loop_patched zero i address v page page' o e = ground arith
write_loop_patched (suc left) i address v page page' o e =
    elim (ℕ_discrete o (address % 4096 + i)) [
      | yes same ↦
          let index : o - address % 4096 ≡ i = omega arith in
          rw index (
            ground (
              arith,
              write_loop_patched left (i + 1) address v
                  (set_byte page (get_page_offset address + i) (v / 2 ^ (i * 8) % 256)) page' o,
            ))
      | no other ↦ ground (
        arith,
        write_loop_patched left (i + 1) address v
            (set_byte page (get_page_offset address + i) (v / 2 ^ (i * 8) % 256)) page' o,
      )
    ]

-- A write that does not fault stays inside its page.
write_loop_fits :
    (left i address v : ℕ) (page page' : Page)
    → write_loop left i address v page ≡ some page'
    → address % 4096 + i ≤ 4096
    → address % 4096 + i + left ≤ 4096
unfolding write_loop
write_loop_fits zero i address v page page' e h = omega arith
write_loop_fits (suc left) i address v page page' e h = ground (
  arith,
  write_loop_fits left (i + 1) address v
      (set_byte page (get_page_offset address + i) (v / 2 ^ (i * 8) % 256)) page',
)

-- A write inside the page does not fault.
write_loop_total :
    (left i address v : ℕ) (page : Page)
    → address % 4096 + i + left ≤ 4096
    → (page' : Page) × (write_loop left i address v page ≡ some page')
unfolding write_loop
write_loop_total zero i address v page h = (page, refl)
write_loop_total (suc left) i address v page h =
    let rest =
      write_loop_total left (i + 1) address v
        (set_byte page (get_page_offset address + i) (v / 2 ^ (i * 8) % 256)) (omega arith) in
    rw (lt→ltb (address % 4096 + i) 4096 (omega arith)) rest

-- The byte of a page after the page of another address, or the same, was replaced.
byte_at-set_page :
    (table : PageTable) (a b : ℕ) (page : Page)
    → byte_at (set_page table a page) b
      ≡ (if b / 4096 == a / 4096 then page (b % 4096) else byte_at table b)
unfolding byte_at set_page get_page
byte_at-set_page table a b page = ground arith

-- The page that a write starts from, and the table that holds it, have the bytes of the memory.
pub byte_at-created :
    (table : PageTable) (a b : ℕ) → byte_at (get_or_create_page table a).0 b ≡ byte_at table b
unfolding byte_at get_or_create_page
byte_at-created table a b = ground arith

created-byte_at :
    (table : PageTable) (a b : ℕ)
    → b / 4096 ≡ a / 4096
    → (get_or_create_page table a).1 (b % 4096) ≡ byte_at table b
unfolding byte_at get_or_create_page
created-byte_at table a b same = ground arith

-- A write that does not fault patches its bytes of the flat memory and no other.
patched_at :
    (n a v : ℕ) (table : PageTable) (page' : Page) (b : ℕ)
    → write_loop n 0 a v (get_or_create_page table a).1 ≡ some page'
    → byte_at (set_page (get_or_create_page table a).0 a page') b ≡ patched a n v (byte_at table) b
patched_at n a v table page' b e =
    let fits : a % 4096 + 0 + n ≤ 4096 = write_loop_fits n 0 a v _ page' e (omega arith) in
    rw (byte_at-set_page (get_or_create_page table a).0 a b page', byte_at-created)
      (elim (ℕ_discrete (b / 4096) (a / 4096)) [
        | yes same ↦
            let distance : b % 4096 - a % 4096 ≡ b - a = omega arith in
            ground (
              arith,
              distance,
              write_loop_patched n 0 a v (get_or_create_page table a).1 page' (b % 4096) e,
              created-byte_at table a b same,
            )
        | no other ↦ ground arith
      ])

pub store_bytes-patched :
    (n a v : ℕ) (table table' : PageTable) (b : ℕ)
    → store_bytes n a v table ≡ some table'
    → byte_at table' b ≡ patched a n v (byte_at table) b
unfolding store_bytes
store_bytes-patched n a v table table' b e =
    elim (Option-cases (write_loop n 0 a v (get_or_create_page table a).1)) [
      | inl fault ↦ ground (arith, fault)
      | inr (page', done) ↦
          let same : set_page (get_or_create_page table a).0 a page' ≡ table' =
            ground (arith, done) in
          rw (← same) (patched_at n a v table page' b done)
    ]

-- It faults exactly where the bytes leave the page.
pub store_bytes-fits :
    (n a v : ℕ) (table table' : PageTable)
    → store_bytes n a v table ≡ some table'
    → a % 4096 + n ≤ 4096
unfolding store_bytes
store_bytes-fits n a v table table' e =
    elim (Option-cases (write_loop n 0 a v (get_or_create_page table a).1)) [
      | inl fault ↦ ground (arith, fault)
      | inr (page', done) ↦
          omega
            (arith, write_loop_fits n 0 a v (get_or_create_page table a).1 page' done (omega arith))
    ]

pub store_bytes_total :
    (n a v : ℕ) (table : PageTable)
    → a % 4096 + n ≤ 4096
    → (table' : PageTable) × (store_bytes n a v table ≡ some table')
unfolding store_bytes
store_bytes_total n a v table h =
    let (page', done) = write_loop_total n 0 a v (get_or_create_page table a).1 (omega arith) in
    (set_page (get_or_create_page table a).0 a page', rw (done, store_bytes) refl)

pub store_bytes_faults :
    (n a v : ℕ) (table : PageTable) → store_bytes n a v table ≡ none → 4096 < a % 4096 + n
store_bytes_faults n a v table e = elim (dec_lt 4096 (a % 4096 + n)) [
  | yes beyond ↦ beyond
  | no inside ↦ let (table', done) = store_bytes_total n a v table (omega arith) in cc
]

-- The flat memory, page by page.
pub byte_at-some :
    (table : PageTable) (a b : ℕ) (page : Page)
    → get_page table a ≡ some page
    → b / 4096 ≡ a / 4096
    → byte_at table b ≡ page (b % 4096)
unfolding byte_at get_page
byte_at-some table a b page e same = ground arith

pub byte_at-none :
    (table : PageTable) (a b : ℕ)
    → get_page table a ≡ none
    → b / 4096 ≡ a / 4096
    → byte_at table b ≡ 0
unfolding byte_at get_page
byte_at-none table a b e same = ground arith
