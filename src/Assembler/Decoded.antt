-- ===== src/Assembler/Decoded.antt =====
-- src/assembler/Assembler.cpp and src/vm/VM.cpp: the metadata that the assembler writes, read by the walks
-- of the machine.
use simple_virtual_language.Base.{
  ℕ, zero, suc, ◌+◌, ◌*◌, ◌/◌, ◌%◌, ◌^◌, ◌<◌, ◌≡◌, refl, ap, subst, ◌∙◌, bit_or, false, List, [],
  ◌∷◌, ◌++◌, append_assoc, some, leb, length, length-append, lt→not_leb, get_elem?, arith,
}
use simple_virtual_language.Base.Bits.{zero-bit_or, bit_or_high}
use simple_virtual_language.Base.Text.{Text}
use simple_virtual_language.Vm.State.{u32}
use simple_virtual_language.Vm.Metadata.{walked, field_loop, field, text_loop, sized_text}
use simple_virtual_language.Assembler.Encode.{bytes_loop, bytes_of}
use simple_virtual_language.Assembler.Header.{four_bytes}
use simple_virtual_language.Assembler.SecondPass.{length-bytes_of}

-- The bytes of a file from an index on.
abbrev pub Holds : List ℕ → ℕ → List ℕ → Type 0
Holds bytecode at bytes =
    (i : ℕ) → i < length bytes → get_elem? bytecode (u32 (at + i)) ≡ get_elem? bytes i

get_elem?-behind :
    (front bytes : List ℕ) (i : ℕ)
    → get_elem? (front ++ bytes) (length front + i) ≡ get_elem? bytes i
get_elem?-behind [] bytes i = let e : 0 + i ≡ i = omega arith in rw e refl
get_elem?-behind (a ∷ front) bytes i =
    let e : suc (length front) + i ≡ suc (length front + i) = omega arith in
    rw e (get_elem?-behind front bytes i)

get_elem?-front :
    (front bytes : List ℕ) (i : ℕ)
    → i < length front
    → get_elem? (front ++ bytes) i ≡ get_elem? front i
get_elem?-front [] bytes i h = absurd (omega arith)
get_elem?-front (a ∷ front) bytes zero h = refl
get_elem?-front (a ∷ front) bytes (suc i) h = get_elem?-front front bytes i (omega arith)

pub Holds-here :
    (front bytes back : List ℕ)
    → length front + length bytes < 2 ^ 32
    → Holds (front ++ bytes ++ back) (length front) bytes
Holds-here front bytes back short i l =
    let e : u32 (length front + i) ≡ length front + i = omega arith in
    rw (e, append_assoc front bytes back)
      (get_elem?-behind front (bytes ++ back) i ∙ get_elem?-front bytes back i l)

pub Holds-front : (b : List ℕ) (at : ℕ) (xs ys : List ℕ) → Holds b at (xs ++ ys) → Holds b at xs
Holds-front b at xs ys h i l = h i (omega (arith, length-append xs ys)) ∙ get_elem?-front xs ys i l

pub Holds-behind :
    (b : List ℕ) (at n : ℕ) (xs ys : List ℕ)
    → Holds b at (xs ++ ys)
    → length xs ≡ n
    → Holds b (u32 (at + n)) ys
Holds-behind b at n xs ys h is i l =
    let e : u32 (u32 (at + n) + i) ≡ u32 (at + (length xs + i)) = omega arith in
    rw e (h (length xs + i) (omega (arith, length-append xs ys)) ∙ get_elem?-behind xs ys i)

pub field_four :
    (b : List ℕ) (at v : ℕ) → v < 2 ^ 32 → Holds b at (bytes_of 4 v) → field 4 b at ≡ walked v
unfolding field field_loop bytes_of bytes_loop
field_four b at v low h =
    rw (h 0 (omega arith), h 1 (omega arith), h 2 (omega arith), h 3 (omega arith), field_loop)
      (ap (λ (n : ℕ). walked n) (four_bytes v low))

two_bytes : (v : ℕ) → v < 2 ^ 16 → bit_or (bit_or 0 (v / 1 % 256 * 1)) (v / 256 % 256 * 256) ≡ v
two_bytes v h = ground (
  arith,
  zero-bit_or (v / 1 % 256 * 1),
  bit_or_high 8 (v / 1 % 256 * 1) (v / 256 % 256) (omega arith),
)

pub field_two :
    (b : List ℕ) (at v : ℕ) → v < 2 ^ 16 → Holds b at (bytes_of 2 v) → field 2 b at ≡ walked v
unfolding field field_loop bytes_of bytes_loop
field_two b at v low h =
    rw (h 0 (omega arith), h 1 (omega arith), field_loop)
      (ap (λ (n : ℕ). walked n) (two_bytes v low))

text_loop-text :
    (b : List ℕ) (at i : ℕ) (raw : Text)
    → ((j : ℕ) → j < length raw → get_elem? b (u32 (at + (i + j))) ≡ get_elem? raw j)
    → text_loop (length raw) i at b ≡ walked raw
unfolding text_loop
text_loop-text b at i [] h = refl
text_loop-text b at i (c ∷ raw) h =
    let here : get_elem? b (u32 (at + i)) ≡ some c =
      subst (λ (n : ℕ). get_elem? b (u32 (at + n)) ≡ some c) (omega arith) (h 0 (omega arith)) in
    let rest : text_loop (length raw) (i + 1) at b ≡ walked raw =
      text_loop-text b at (i + 1) raw (λ j l.
        subst (λ (n : ℕ). get_elem? b (u32 (at + n)) ≡ get_elem? raw j) (omega arith)
          (h (suc j) (omega arith))) in
    rw (here, rest, text_loop) refl

pub sized_text-text :
    (b : List ℕ) (at : ℕ) (raw : Text)
    → length raw < 2 ^ 31
    → Holds b at (bytes_of 4 (length raw % 2 ^ 32) ++ raw)
    → sized_text b at ≡ walked (raw, u32 (u32 (at + 4) + length raw))
unfolding sized_text
sized_text-text b at raw short h =
    let size : field 4 b at ≡ walked (length raw) =
      field_four b at (length raw % 2 ^ 32) (omega arith) (Holds-front b at _ raw h)
      ∙ ap (λ (n : ℕ). walked n) (omega arith) in
    let is_short : leb (2 ^ 31) (length raw) ≡ false = lt→not_leb (2 ^ 31) (length raw) short in
    let characters : text_loop (length raw) 0 (u32 (at + 4)) b ≡ walked raw =
      text_loop-text b (u32 (at + 4)) 0 raw (λ j l.
        subst (λ (n : ℕ). get_elem? b (u32 (u32 (at + 4) + n)) ≡ get_elem? raw j) (omega arith)
          (Holds-behind b at 4 (bytes_of 4 (length raw % 2 ^ 32)) raw h (length-bytes_of 4 _) j
            l)) in
    rw (size, is_short, characters, sized_text) refl
