-- ===== src/Vm/Start/Loaded.antt =====
-- src/vm/VM.cpp: the state that the loader leaves.
use native.Mathlib.Decide.{dec_lt, ℕ_discrete}
use simple_virtual_language.Base.{
  ℕ, zero, suc, ◌+◌, ◌-◌, ◌*◌, ◌%◌, ◌^◌, ◌≤◌, ◌<◌, ◌≡◌, refl, ap, ◌∙◌, true, ◌&&◌, List, [], ◌∷◌,
  some, leb, ltb, if◌then◌else◌, arith, length, get_or, take, drop, bit_or, length-take,
  length-drop, get_or-take, get_or-drop, get_elem?-some,
}
use simple_virtual_language.Vm.State.{
  Vm, Outcome, ok, undefined_behaviour, pure, ◌>>=◌, ◌>>◌, modify, and_then, PageTable, u32,
  max_memory_address,
}
use simple_virtual_language.Vm.Memory.{any, in_region, write8, load_bytecode, write_bytes}
use simple_virtual_language.Vm.Memory.Flat.{byte_at}
use simple_virtual_language.Vm.Memory.Access.{
  with_table, WriteSpec, refused, faults, writes, write_bytes-WriteSpec,
}
use simple_virtual_language.Vm.HeapManager.{initialise_heap, with_hp}
use simple_virtual_language.Vm.HeapManager.FreeList.{block}
use simple_virtual_language.Vm.Safety.Invariant.{Inv}
use simple_virtual_language.Vm.ErrorHandler.{RuntimeErrorHandler}
use simple_virtual_language.Vm.FileHeader.{header_loop, header_field}
use simple_virtual_language.Vm.Metadata.{Walk, walked, undefined, exhausted, read_metadata}
use simple_virtual_language.Vm.Start.{
  bytecode_header_size, initial, first_bytes, context_of, walked_or_undef, with_hb, read_program,
  read_bytecode, start,
}

-- A run of bytes in place of those at an address.
abbrev pub overlaid : ℕ → List ℕ → (ℕ → ℕ) → ℕ → ℕ
overlaid a bytes f b =
    if leb a b && ltb b (a + length bytes) then get_or bytes (b - a) 0 % 256 else f b

-- The outcome of a load: only memory changes, where the bytes go.
pub record Loads (a : ℕ) (bytes : List ℕ) (s : Vm) (r : Outcome (Unit {0})) : Type 0 where
  pub table : PageTable
  pub only_table : r ≡ ok tt (with_table s table)
  pub holds : (b : ℕ) → byte_at table b ≡ overlaid a bytes (byte_at s.page_table) b

byte-Loads :
    (a b : ℕ) (s : Vm) (r : Outcome (Unit {0})) → WriteSpec 1 any a b s r → Loads a (b ∷ []) s r
unfolding in_region
byte-Loads a b s r (refused out is) = absurd (ground (arith, out))
byte-Loads a b s r (faults inside beyond is) = absurd (omega arith)
byte-Loads a b s r (writes table inside fits is same) = record {
  table = table;
  only_table = is;
  holds = λ c. same c ∙ ground arith;
}

-- One byte, and the others behind it.
overlaid-cons :
    (a b c : ℕ) (bytes : List ℕ) (f g : ℕ → ℕ)
    → g c ≡ overlaid a (b ∷ []) f c
    → overlaid (a + 1) bytes g c ≡ overlaid a (b ∷ bytes) f c
overlaid-cons a b c bytes f g h = elim (dec_lt a c) [
  | yes above ↦ let index : c - a ≡ suc (c - (a + 1)) = omega arith in rw index (ground (arith, h))
  | no below ↦ elim (ℕ_discrete a c) [
    | yes here ↦ let index : c - a ≡ 0 = omega arith in rw index (ground (arith, h))
    | no other ↦ ground (arith, h)
  ]
]

load_rest :
    (a b : ℕ) (bytes : List ℕ) (s : Vm) (r : Outcome (Unit {0}))
    → ((t : Vm) → Loads (a + 1) bytes t (load_bytecode bytes (u32 (a + 1)) t))
    → Loads a (b ∷ []) s r
    → Loads a (b ∷ bytes) s (and_then r (λ _. load_bytecode bytes (u32 (a + 1))))
load_rest a b bytes s r next first =
    let rest = next (with_table s first.table) in
    record {
      table = rest.table;
      only_table = rw first.only_table rest.only_table;
      holds = λ c.
          rest.holds c
          ∙ overlaid-cons a b c bytes (byte_at s.page_table) (byte_at first.table) (first.holds c);
    }

pub load_bytecode-Loads :
    (bytes : List ℕ) (a : ℕ) (s : Vm)
    → a + length bytes < 2 ^ 32
    → Loads a bytes s (load_bytecode bytes a s)
unfolding load_bytecode write8
load_bytecode-Loads [] a s h = record {
  table = s.page_table;
  only_table = refl;
  holds = λ c. ground arith;
}
load_bytecode-Loads (b ∷ bytes) a s h =
    let index : u32 (a + 1) ≡ a + 1 = omega arith in
    load_rest a b bytes s (write_bytes 1 any a b s)
      (λ t. rw index (load_bytecode-Loads bytes (a + 1) t (omega arith)))
      (byte-Loads a b s (write_bytes 1 any a b s) (write_bytes-WriteSpec 1 any a b s))

first_bytes-take :
    (n : ℕ) (bytes : List ℕ) (s : Vm)
    → n ≤ length bytes
    → first_bytes n bytes s ≡ ok (take n bytes) s
unfolding first_bytes
first_bytes-take zero bytes s h = refl
first_bytes-take (suc n) [] s h = absurd (omega arith)
first_bytes-take (suc n) (b ∷ bytes) s h = rw (first_bytes-take n bytes s (omega arith)) refl

header_loop-some :
    (left i at : ℕ) (bytecode : List ℕ) (field : ℕ)
    → at + i + left ≤ length bytecode
    → (v : ℕ) × (header_loop left i at bytecode field ≡ some v)
unfolding header_loop
header_loop-some zero i at bytecode field h = (field, refl)
header_loop-some (suc left) i at bytecode field h =
    let (b, here) = get_elem?-some bytecode (at + i) (omega arith) in
    let (v, rest) =
      header_loop-some left (i + 1) at bytecode (bit_or field (b * 2 ^ (i * 8))) (omega arith) in
    (v, rw (here, header_loop) rest)

header_field-some :
    (at : ℕ) (bytecode : List ℕ)
    → at + 4 ≤ length bytecode
    → (v : ℕ) × (header_field bytecode at ≡ some v)
unfolding header_field
header_field-some at bytecode h = header_loop-some 4 0 at bytecode 0 (omega arith)

-- A header whose data region follows its code region, both behind the header.
pub record Header (bytecode : List ℕ) (end_of_code end_of_data : ℕ) : Type 0 where
  pub code_field : header_field bytecode 0 ≡ some end_of_code
  pub data_field : header_field bytecode 4 ≡ some end_of_data
  pub code_present : bytecode_header_size ≤ end_of_code
  pub data_behind : end_of_code ≤ end_of_data
  pub data_present : end_of_data < length bytecode
  pub data_fits : end_of_data < 2 ^ 32 - 1

-- The byte of the file at an address of the code or data region.
abbrev pub file_byte : List ℕ → ℕ → ℕ
file_byte bytecode a = get_or bytecode (bytecode_header_size + a) 0 % 256

-- A started machine: its registers are in order, the code region has the size that the header gives,
-- and code and data are in memory.
pub record Started (bytecode : List ℕ) (end_of_code end_of_data : ℕ) (s : Vm) : Type 0 where
  pub invariant : Inv s
  pub code_size : s.start_of_data_region + bytecode_header_size ≡ end_of_code + 1
  pub data_size : s.hb + bytecode_header_size ≡ end_of_data + 1
  pub bytes : (a : ℕ) → a < s.hb → byte_at s.page_table a ≡ file_byte bytecode a

program_bytes : ℕ → List ℕ → List ℕ
program_bytes end_of_data bytecode =
    take (end_of_data + 1 - bytecode_header_size) (drop bytecode_header_size bytecode)

program_bytes-length :
    (d : ℕ) (bytecode : List ℕ)
    → bytecode_header_size ≤ d
    → d < length bytecode
    → length (program_bytes d bytecode) ≡ d + 1 - bytecode_header_size
unfolding program_bytes
program_bytes-length d bytecode h h' =
    length-take _ (drop bytecode_header_size bytecode)
      (omega (arith, length-drop bytecode_header_size bytecode (omega arith)))

program_byte :
    (d a : ℕ) (bytecode : List ℕ) (f : ℕ → ℕ)
    → bytecode_header_size ≤ d
    → d < length bytecode
    → a < d + 1 - bytecode_header_size
    → overlaid 0 (program_bytes d bytecode) f a ≡ file_byte bytecode a
unfolding program_bytes
program_byte d a bytecode f h h' below =
    let size = program_bytes-length d bytecode h h' in
    let inside : (leb 0 a && ltb a (0 + length (program_bytes d bytecode))) ≡ true =
      ground (arith, size) in
    let index : a - 0 ≡ a = omega arith in
    rw inside (
      rw index (
        ap (λ (n : ℕ). n % 256)
          (get_or-take (d + 1 - bytecode_header_size) a (drop bytecode_header_size bytecode) 0 below
            ∙ get_or-drop bytecode_header_size a bytecode 0)))

-- The outcome of a start, by that of the walks over the metadata.
abbrev pub loaded_with : Walk RuntimeErrorHandler → Vm → Outcome RuntimeErrorHandler
loaded_with (walked h) s = ok h s
loaded_with undefined s = undefined_behaviour
loaded_with exhausted s = undefined_behaviour

-- The state behind the walks, where they end.
abbrev with_heap : ℕ → Vm → Vm
with_heap d s =
    let hb = u32 (d + 1 + 2 ^ 32 - bytecode_header_size) in
    record s { hb = hb; hp = hb; free_list = block (max_memory_address - hb) hb ∷ [] }

-- What follows the loading of the program.
abbrev after_program : Walk RuntimeErrorHandler → Outcome ℕ → Outcome RuntimeErrorHandler
after_program r o =
    and_then (and_then o (λ d. walked_or_undef r >>= (λ h. modify (λ t. with_hb d t) >> pure h)))
      (λ h. modify (λ t. with_hp t t.hb) >> (initialise_heap >> pure h))

after_program-loaded_with :
    (r : Walk RuntimeErrorHandler) (d : ℕ) (s : Vm)
    → after_program r (ok d s) ≡ loaded_with r (with_heap d s)
unfolding initialise_heap
after_program-loaded_with (walked h) d s = refl
after_program-loaded_with undefined d s = refl
after_program-loaded_with exhausted d s = refl

start-after_program :
    (bytecode : List ℕ)
    → start bytecode initial
      ≡ after_program (read_metadata bytecode) (read_program bytecode initial)
unfolding start read_bytecode
start-after_program bytecode = refl

-- A file with its regions in order loads its program.
read_program-Started :
    (bytecode : List ℕ) (c d : ℕ)
    → Header bytecode c d
    → (s : Vm) × (read_program bytecode initial ≡ ok d s) × Started bytecode c d (with_heap d s)
unfolding read_program initial program_bytes
read_program-Started bytecode c d h =
    let (f8, e8) = header_field-some 8 bytecode (omega arith) in
    let (f12, e12) = header_field-some 12 bytecode (omega arith) in
    let (f16, e16) = header_field-some 16 bytecode (omega arith) in
    let s0 : Vm = record initial { error_context = context_of d f8 f16 } in
    let taken : first_bytes (d + 1 - bytecode_header_size) (drop bytecode_header_size bytecode) s0
        ≡ ok (program_bytes d bytecode) s0 =
      first_bytes-take (d + 1 - bytecode_header_size) (drop bytecode_header_size bytecode) s0
        (omega (arith, length-drop bytecode_header_size bytecode (omega arith))) in
    let size = program_bytes-length d bytecode (omega arith) h.data_present in
    let load = load_bytecode-Loads (program_bytes d bytecode) 0 s0 (omega (arith, size)) in
    let s1 : Vm = record (with_table s0 load.table) {
      start_of_data_region = u32 (c + 1 + 2 ^ 32 - bytecode_header_size);
    } in
    (
      s1,
      rw (h.code_field, h.data_field, e8, e12, e16, taken, load.only_table) refl,
      record {
        invariant = record {
          data_below_heap = omega arith;
          heap_ordered = omega arith;
          stack_above_code = omega arith;
          frames_fit = omega arith;
          stack_bounded = omega arith;
        };
        code_size = omega arith;
        data_size = omega arith;
        bytes = λ a below.
            load.holds a
            ∙ program_byte d a bytecode (byte_at s0.page_table) (omega arith) h.data_present
                (omega arith);
      },
    )

-- A file with its regions in order starts as its metadata allows.
pub start-loaded_with :
    (bytecode : List ℕ) (c d : ℕ)
    → Header bytecode c d
    → (s : Vm) × (start bytecode initial ≡ loaded_with (read_metadata bytecode) s)
      × Started bytecode c d s
start-loaded_with bytecode c d h =
    let (s, is, st) = read_program-Started bytecode c d h in
    (
      with_heap d s,
      start-after_program bytecode
          ∙ ap (λ (o : Outcome ℕ). after_program (read_metadata bytecode) o) is
          ∙ after_program-loaded_with (read_metadata bytecode) d s,
      st,
    )

-- A file whose header places its regions in order, which is as long as its header says, and whose
-- metadata tables are read without undefined behaviour, is loaded without an error, with the metadata
-- that was read; and the machine is started as described above.
pub start-Started :
    (bytecode : List ℕ) (c d : ℕ) (m : RuntimeErrorHandler)
    → Header bytecode c d
    → read_metadata bytecode ≡ walked m
    → (s : Vm) × (start bytecode initial ≡ ok m s) × Started bytecode c d s
start-Started bytecode c d m h read =
    let (s, loaded, st) = start-loaded_with bytecode c d h in
    (s, loaded ∙ ap (λ (r : Walk RuntimeErrorHandler). loaded_with r s) read, st)
