-- ===== src/Vm/Native/Utf8.antt =====
-- src/vm/NativeFunctionManager.h, `executePrintChar`: the UTF-8 form of a code point, and a decoder to
-- hold it against.
use native.Mathlib.Decide.{dec_lt}
use simple_virtual_language.Base.{
  ℕ, ◌+◌, ◌-◌, ◌*◌, ◌/◌, ◌%◌, ◌^◌, ◌≤◌, bit_and, bit_or, ◌≡◌, ap, ◌∙◌, List, [], ◌∷◌, Option, none,
  some, ◌&&◌, leb, ltb, if◌then◌else◌, arith,
}
use simple_virtual_language.Base.Bits.{bit_or_low, bit_and_mask}

-- `static_cast<char>(0xC0 | (v >> 6))` and its kin. Above 0x10FFFF nothing is printed.
unfoldable pub utf8_encode : ℕ → List ℕ
utf8_encode v =
    if leb v 0x7f
    then v ∷ []
    else if leb v 0x7ff
    then bit_or 0xc0 (v / 2 ^ 6) ∷ bit_or 0x80 (bit_and v 0x3f) ∷ []
    else if leb v 0xffff
    then bit_or 0xe0 (v / 2 ^ 12)
      ∷ bit_or 0x80 (bit_and (v / 2 ^ 6) 0x3f)
      ∷ bit_or 0x80 (bit_and v 0x3f)
      ∷ []
    else if leb v 0x10ffff
    then bit_or 0xf0 (v / 2 ^ 18)
      ∷ bit_or 0x80 (bit_and (v / 2 ^ 12) 0x3f)
      ∷ bit_or 0x80 (bit_and (v / 2 ^ 6) 0x3f)
      ∷ bit_or 0x80 (bit_and v 0x3f)
      ∷ []
    else []

abbrev pub tail_field : ℕ → Option ℕ
tail_field b = if leb 0x80 b && ltb b 0xc0 then some (b - 0x80) else none

abbrev pub append_field : Option ℕ → Option ℕ → Option ℕ
append_field (some high) (some low) = some (high * 2 ^ 6 + low)
append_field high low = none

-- The field of a lead byte between two marks.
abbrev pub lead_field : ℕ → ℕ → ℕ → Option ℕ
lead_field lo hi b = if leb lo b && ltb b hi then some (b - lo) else none

-- A value that needs its length: from the first one on that fewer bytes do not hold.
abbrev pub at_least : ℕ → Option ℕ → Option ℕ
at_least first none = none
at_least first (some v) = if leb first v then some v else none

-- A decoder: the lead byte tells the length, and six bits come from each of the others. It refuses every
-- form that is longer than it need be; surrogates it takes.
abbrev pub decode : List ℕ → Option ℕ
decode (b0 ∷ []) = lead_field 0x00 0x80 b0
decode (b0 ∷ b1 ∷ []) = at_least 0x80 (append_field (lead_field 0xc0 0xe0 b0) (tail_field b1))
decode (b0 ∷ b1 ∷ b2 ∷ []) =
    at_least 0x800
      (append_field (append_field (lead_field 0xe0 0xf0 b0) (tail_field b1)) (tail_field b2))
decode (b0 ∷ b1 ∷ b2 ∷ b3 ∷ []) = at_least 0x10000 (
    append_field
      (append_field (append_field (lead_field 0xf0 0xf8 b0) (tail_field b1)) (tail_field b2))
      (tail_field b3))
decode other = none

-- A field under the mark of a byte.
tail_byte : (v : ℕ) → bit_or 0x80 (bit_and v 0x3f) ≡ 0x80 + v % 64
tail_byte v = ap (bit_or 0x80) (bit_and_mask 6 v) ∙ bit_or_low 6 2 (v % 64) (omega arith)

lead2 : (v : ℕ) → v ≤ 0x7ff → bit_or 0xc0 (v / 2 ^ 6) ≡ 0xc0 + v / 64
lead2 v h = bit_or_low 5 6 (v / 64) (omega arith)

lead3 : (v : ℕ) → v ≤ 0xffff → bit_or 0xe0 (v / 2 ^ 12) ≡ 0xe0 + v / 4096
lead3 v h = bit_or_low 4 14 (v / 4096) (omega arith)

lead4 : (v : ℕ) → v ≤ 0x10ffff → bit_or 0xf0 (v / 2 ^ 18) ≡ 0xf0 + v / 262144
lead4 v h = bit_or_low 3 30 (v / 262144) (omega arith)

-- Every code point up to 0x10FFFF is decoded from what is printed for it, by a decoder that refuses forms
-- longer than need be.
pub decode-utf8_encode : (v : ℕ) → v ≤ 0x10ffff → decode (utf8_encode v) ≡ some v
unfolding utf8_encode
decode-utf8_encode v h = elim (dec_lt v 0x80) [
  | yes one ↦ ground arith
  | no more ↦ elim (dec_lt v 0x800) [
    | yes two ↦ ground (arith, lead2 v (omega arith), tail_byte v)
    | no more' ↦ elim (dec_lt v 0x10000) [
      | yes three ↦ ground (arith, lead3 v (omega arith), tail_byte v, tail_byte (v / 64))
      | no more'' ↦ ground (arith, lead4 v h, tail_byte v, tail_byte (v / 64), tail_byte (v / 4096))
    ]
  ]
]
