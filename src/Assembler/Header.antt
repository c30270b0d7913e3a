-- ===== src/Assembler/Header.antt =====
-- src/assembler/Assembler.cpp: the header of an assembled file, as src/vm/VM.cpp reads it.
use simple_virtual_language.Base.{
  ℕ, zero, suc, ◌+◌, ◌*◌, ◌/◌, ◌%◌, ◌^◌, ◌≤◌, ◌<◌, ◌≡◌, refl, ap, ◌∙◌, List, ◌++◌, some, arith,
  bit_or, length, get_or, length-set_elem, get_or-set_elem, set_elem,
}
use simple_virtual_language.Base.Bits.{zero-bit_or, bit_or_high}
use simple_virtual_language.Vm.FileHeader.{header_loop, header_field}
use simple_virtual_language.Vm.Start.{bytecode_header_size}
use simple_virtual_language.Assembler.Encode.{bytes_loop, bytes_of}
use simple_virtual_language.Assembler.Bytecode.{Emitted, patch_loop, header, patch_header}

-- Four bytes put together are the number they come from.
pub four_bytes :
    (v : ℕ)
    → v < 2 ^ 32
    → bit_or
        (bit_or
          (bit_or (bit_or 0 (v / 1 % 256 * 1)) (v / 256 % 256 * 256))
          (v / 65536 % 256 * 65536))
        (v / 16777216 % 256 * 16777216)
      ≡ v
four_bytes v h = ground (
  arith,
  zero-bit_or (v / 1 % 256 * 1),
  bit_or_high 8 (v / 1 % 256 * 1) (v / 256 % 256) (omega arith),
  bit_or_high 16 (v / 1 % 256 * 1 + v / 256 % 256 * 256) (v / 65536 % 256) (omega arith),
  bit_or_high 24 (v / 1 % 256 * 1 + v / 256 % 256 * 256 + v / 65536 % 256 * 65536)
      (v / 16777216 % 256) (omega arith),
)

-- The fields of a patched header are those that were written, each in its place.
pub header_fields :
    (c d e0 e1 e2 : ℕ) (more : List ℕ)
    → c < 2 ^ 32
    → d < 2 ^ 32
    → let b =
        patch_loop 4 0 16 e2 (patch_loop 4 0 12 e1 (patch_loop 4 0 8 e0 (header c d ++ more))) in
      (header_field b 0 ≡ some c) × (header_field b 4 ≡ some d)
unfolding patch_loop header bytes_of bytes_loop header_field header_loop
header_fields c d e0 e1 e2 more hc hd =
    (ap (λ (v : ℕ). some v) (four_bytes c hc), ap (λ (v : ℕ). some v) (four_bytes d hd))

length-patch_loop : (n i p v : ℕ) (b : List ℕ) → length (patch_loop n i p v b) ≡ length b
unfolding patch_loop
length-patch_loop zero i p v b = refl
length-patch_loop (suc n) i p v b =
    length-patch_loop n (i + 1) p v (set_elem b (p + i) (v / 2 ^ (i * 8) % 256))
    ∙ length-set_elem b (p + i) (v / 2 ^ (i * 8) % 256)

-- A patch leaves the bytes behind it as they were.
get_or-patch_loop :
    (n i p v k : ℕ) (b : List ℕ) → p + i + n ≤ k → get_or (patch_loop n i p v b) k 0 ≡ get_or b k 0
unfolding patch_loop
get_or-patch_loop zero i p v k b h = refl
get_or-patch_loop (suc n) i p v k b h =
    let byte = v / 2 ^ (i * 8) % 256 in
    get_or-patch_loop n (i + 1) p v k (set_elem b (p + i) byte) (omega arith)
    ∙ get_or-set_elem b (p + i) k byte 0 (omega arith)

pub length-patch_header : (d : ℕ) (e : Emitted) → length (patch_header d e) ≡ length e.bytes
unfolding patch_header
length-patch_header d e =
    length-patch_loop 4 0 16 _ _ ∙ length-patch_loop 4 0 12 _ _ ∙ length-patch_loop 4 0 8 _ e.bytes

pub get_or-patch_header :
    (d k : ℕ) (e : Emitted)
    → bytecode_header_size ≤ k
    → get_or (patch_header d e) k 0 ≡ get_or e.bytes k 0
unfolding patch_header
get_or-patch_header d k e h =
    get_or-patch_loop 4 0 16 _ k _ (omega arith)
    ∙ get_or-patch_loop 4 0 12 _ k _ (omega arith)
    ∙ get_or-patch_loop 4 0 8 _ k e.bytes (omega arith)

pub patched_fields :
    (end c d : ℕ) (e : Emitted) (more : List ℕ)
    → e.bytes ≡ header c d ++ more
    → c < 2 ^ 32
    → d < 2 ^ 32
    → (header_field (patch_header end e) 0 ≡ some c)
      × (header_field (patch_header end e) 4 ≡ some d)
unfolding patch_header
patched_fields end c d e more is hc hd = rw (is, patch_header) (header_fields c d _ _ _ more hc hd)

pub length-header : (c d : ℕ) → length (header c d) ≡ bytecode_header_size
unfolding header bytes_of bytes_loop
length-header c d = refl
