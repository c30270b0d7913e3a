-- ===== src/Vm/Memory/Words.antt =====
-- Reading multi-byte numbers: the reader as a walk over the flat memory, and what it returns after a
-- write.
use native.Mathlib.Numerals.{towards_suc}
use native.Mathlib.Nat.{one-le-pow, mod-lt, mod-eq_of_lt, div-add-mod, mul-add-mod_self_left}
use simple_virtual_language.Base.{
  ℕ, zero, suc, ◌+◌, ◌-◌, ◌*◌, ◌/◌, ◌%◌, ◌^◌, ◌≤◌, ◌<◌, bit_or, ◌≡◌, refl, sym, ap, ◌∙◌, some, inl,
  inr, arith, Option-cases,
}
use simple_virtual_language.Base.Bits.{zero-bit_or, bit_or_high}
use simple_virtual_language.Vm.State.{Page, PageTable, u32}
use simple_virtual_language.Vm.Memory.{get_page_offset, get_page, read_loop, load_bytes}
use simple_virtual_language.Vm.Memory.Flat.{byte_at, byte_at-some, byte_at-none, byte_of, patched}

-- The reader over an array of bytes, without pages: `left` bytes to go at index `i`.
pub gather : ℕ → ℕ → ℕ → (ℕ → ℕ) → ℕ → ℕ
gather zero i a f result = result
gather (suc left) i a f result = gather left (i + 1) a f (bit_or result (f (a + i) * 2 ^ (i * 8)))

gather_ext :
    (left i a : ℕ) (f g : ℕ → ℕ) (result : ℕ)
    → ((b : ℕ) → a + i ≤ b → b < a + i + left → f b ≡ g b)
    → gather left i a f result ≡ gather left i a g result
unfolding gather
gather_ext zero i a f g result h = refl
gather_ext (suc left) i a f g result h = rw (h (a + i) (omega arith) (omega arith)) (
    gather_ext left (i + 1) a f g (bit_or result (g (a + i) * 2 ^ (i * 8)))
      (λ b p q. h b (omega arith) (omega arith)))

gather_zeros :
    (left i a : ℕ) (f : ℕ → ℕ)
    → ((b : ℕ) → a + i ≤ b → b < a + i + left → f b ≡ 0)
    → gather left i a f 0 ≡ 0
unfolding gather
gather_zeros zero i a f h = refl
gather_zeros (suc left) i a f h =
    let next : bit_or 0 (0 * 2 ^ (i * 8)) ≡ 0 = zero-bit_or (0 * 2 ^ (i * 8)) ∙ omega arith in
    rw (h (a + i) (omega arith) (omega arith), next)
      (gather_zeros left (i + 1) a f (λ b p q. h b (omega arith) (omega arith)))

-- The low `i + 1` bytes from the low `i` bytes and the next one.
low_bytes_suc : (v m : ℕ) → 0 < m → v % m + v / m % 256 * m ≡ v % (256 * m)
low_bytes_suc v m h =
    let whole : 256 * m * (v / m / 256) + (v % m + v / m % 256 * m) ≡ v =
      omega (arith, div-add-mod v m, ap (λ (t : ℕ). m * t) (div-add-mod (v / m) 256)) in
    let small : v % m + v / m % 256 * m < 256 * m =
      grind (arith, mod-lt v h, mod-lt (v / m) {m = 256}) in
    sym (
      ap (λ (t : ℕ). t % (256 * m)) (sym whole)
      ∙ mul-add-mod_self_left (256 * m) (v / m / 256) (v % m + v / m % 256 * m)
      ∙ mod-eq_of_lt small)

byte_power : (i : ℕ) → 256 * 2 ^ (i * 8) ≡ 2 ^ ((i + 1) * 8)
byte_power i =
    let index : (i + 1) * 8 ≡ i * 8 + 8 = omega arith in rw index (simp towards_suc (omega arith))

power_pos : (k : ℕ) → 0 < 2 ^ k
power_pos k = one-le-pow k 2 (omega arith)

-- Reading the bytes of a number gives its low bytes.
gather_bytes :
    (left i a v : ℕ) (f : ℕ → ℕ)
    → ((k : ℕ) → i ≤ k → k < i + left → f (a + k) ≡ byte_of v k)
    → gather left i a f (v % 2 ^ (i * 8)) ≡ v % 2 ^ ((i + left) * 8)
unfolding gather
gather_bytes zero i a v f h = let index : i ≡ i + 0 = omega arith in rw (← index) refl
gather_bytes (suc left) i a v f h =
    let next : bit_or (v % 2 ^ (i * 8)) (byte_of v i * 2 ^ (i * 8)) ≡ v % 2 ^ ((i + 1) * 8) =
      bit_or_high (i * 8) (v % 2 ^ (i * 8)) (byte_of v i) (mod-lt v (power_pos (i * 8)))
      ∙ low_bytes_suc v (2 ^ (i * 8)) (power_pos (i * 8))
      ∙ ap (λ (t : ℕ). v % t) (byte_power i) in
    let index : i + suc left ≡ i + 1 + left = omega arith in
    rw (h i (omega arith) (omega arith), next, index)
      (gather_bytes left (i + 1) a v f (λ k p q. h k (omega arith) (omega arith)))

-- Inside a page the paged reader is the flat reader.
read_loop-gather :
    (left i a : ℕ) (table : PageTable) (page : Page) (result : ℕ)
    → get_page table a ≡ some page
    → a < 2 ^ 32
    → a % 4096 + i + left ≤ 4096
    → read_loop left i a page result ≡ gather left i a (byte_at table) result
unfolding read_loop gather
read_loop-gather zero i a table page result e lt fits = refl
read_loop-gather (suc left) i a table page result e lt fits =
    let same : page (get_page_offset (u32 (a + i))) ≡ byte_at table (a + i) =
      let index : u32 (a + i) ≡ a + i = omega arith in
      rw index (sym (byte_at-some table a (a + i) page e (omega arith))) in
    rw same (
      read_loop-gather left (i + 1) a table page
        (bit_or result (byte_at table (a + i) * 2 ^ (i * 8))) e lt (omega arith))

pub load_bytes-gather :
    (n a : ℕ) (table : PageTable)
    → a < 2 ^ 32
    → a % 4096 + n ≤ 4096
    → load_bytes n a table ≡ gather n 0 a (byte_at table) 0
unfolding load_bytes
load_bytes-gather n a table lt fits = elim (Option-cases (get_page table a)) [
  | inl absent ↦
      rw (absent, load_bytes)
        (sym (
          gather_zeros n 0 a (byte_at table)
            (λ b p q. byte_at-none table a b absent (omega arith))))
  | inr (page, present) ↦
      rw (present, load_bytes) (read_loop-gather n 0 a table page 0 present lt (omega arith))
]

-- A number that was written is read back, up to the width that was written.
pub load_bytes-patched :
    (n a v : ℕ) (f : ℕ → ℕ) (table : PageTable)
    → a < 2 ^ 32
    → a % 4096 + n ≤ 4096
    → ((b : ℕ) → byte_at table b ≡ patched a n v f b)
    → load_bytes n a table ≡ v % 2 ^ (n * 8)
load_bytes-patched n a v f table lt fits h =
    let start : 0 ≡ v % 2 ^ (0 * 8) = omega arith in
    let width : 0 + n ≡ n = omega arith in
    load_bytes-gather n a table lt fits
    ∙ ap (λ (r : ℕ). gather n 0 a (byte_at table) r) start
    ∙ gather_bytes n 0 a v (byte_at table) (λ k p q.
      let distance : a + k - a ≡ k = omega arith in h (a + k) ∙ ground (arith, distance))
    ∙ ap (λ (m : ℕ). v % 2 ^ (m * 8)) width

-- A read depends on the bytes that it covers and on no other.
pub load_bytes_ext :
    (n a : ℕ) (table table' : PageTable)
    → a < 2 ^ 32
    → a % 4096 + n ≤ 4096
    → ((b : ℕ) → a ≤ b → b < a + n → byte_at table b ≡ byte_at table' b)
    → load_bytes n a table ≡ load_bytes n a table'
load_bytes_ext n a table table' lt fits same =
    load_bytes-gather n a table lt fits
    ∙ gather_ext n 0 a (byte_at table) (byte_at table') 0
        (λ b p q. same b (omega arith) (omega arith))
    ∙ sym (load_bytes-gather n a table' lt fits)
