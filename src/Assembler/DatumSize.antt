-- ===== src/Assembler/DatumSize.antt =====
-- src/assembler/Assembler.cpp: the length that the first pass counts for a datum.
use simple_virtual_language.Base.{
  ℕ, ◌+◌, ◌-◌, ◌%◌, ◌≡◌, refl, sym, ◌∙◌, Bool, true, false, ◌&&◌, ◌||◌, [], ◌∷◌, if◌then◌else◌,
  arith, inl, inr, Bool-cases, if_true, length, leb, leb→le, not, ◌≤◌,
}
use simple_virtual_language.Base.Text.{Text, codes, same_text}
use simple_virtual_language.Assembler.Defs.{Data}
use simple_virtual_language.Assembler.Numbers.{done, ◌>>=◌}
use simple_virtual_language.Assembler.Labels.{without_last}
use simple_virtual_language.Assembler.Layout.{
  unquoted, calculate_bytes_of_data, calculate_bytes_from_type,
}
use simple_virtual_language.Assembler.Sizes.{datum_size, quoted_datum, sized_datum}
use simple_virtual_language.Assembler.Yields.{Yields}

pub length-without_last : (s : Text) → length (without_last s) ≡ length s - 1
unfolding without_last
length-without_last [] = refl
length-without_last (c ∷ []) = refl
length-without_last (c ∷ b ∷ s) = omega (arith, length-without_last (b ∷ s))

str_size :
    (value : Text)
    → leb 2 (length value) ≡ true
    → Yields
        (λ n. n ≡ (1 + (4 + (length value - 2))) % 256)
        (do raw ← unquoted value; done ((1 + 4 + length raw) % 256))
unfolding unquoted
str_size [] h = tt
str_size (c ∷ s) h = ground (arith, h, length-without_last s)

either_small : (b : Bool) → (if b then 8 else 4) ≤ 8
either_small true = omega arith
either_small false = omega arith

value_size : (t : Text) → calculate_bytes_from_type t ≤ 8
unfolding calculate_bytes_from_type
value_size t =
    either_small
      (same_text t (codes "i64") || same_text t (codes "ui64") || same_text t (codes "f64"))

-- The length of a datum is counted modulo 256.
pub calculate_bytes_of_data-datum_size :
    (d : Data)
    → quoted_datum d ≡ true
    → Yields (λ n. n ≡ datum_size d % 256) (calculate_bytes_of_data d)
unfolding calculate_bytes_of_data datum_size quoted_datum
calculate_bytes_of_data-datum_size d h = elim (Bool-cases (same_text d.type (codes "str"))) [
  | inl is_str ↦
      let quoted : leb 2 (length d.value) ≡ true =
        sym (if_true (same_text d.type (codes "str")) _ _ is_str) ∙ h in
      rw (is_str, calculate_bytes_of_data, datum_size) (str_size d.value quoted)
  | inr other ↦
      rw (other, calculate_bytes_of_data, datum_size)
        (let small = value_size (d.type) in omega (arith, small))
]

small_size :
    (is_str quoted : Bool) (n size : ℕ)
    → size ≤ 8
    → (quoted && (not is_str || leb n 252)) ≡ true
    → (1 + (if is_str then 4 + (n - 2) else size)) % 256
      ≡ 1 + (if is_str then 4 + (n - 2) else size)
small_size true false n size h ok = cc
small_size true true n size h ok = omega (arith, leb→le n 252 ok)
small_size false quoted n size h ok = omega arith

pub small_datum : (d : Data) → sized_datum d ≡ true → datum_size d % 256 ≡ datum_size d
unfolding sized_datum datum_size
small_datum d h =
    small_size (same_text d.type (codes "str")) (quoted_datum d) (length d.value)
      (calculate_bytes_from_type d.type) (value_size d.type) h
