-- ===== src/Assembler/Numbers.antt =====
-- The functions of the C++ standard library that read numbers from texts, as the assembler uses them,
-- and the outcomes of the assembler's functions. Which real number a decimal fraction stands for, and
-- how it is rounded, is the parameter `FloatText`.
use simple_virtual_language.Base.{
  ℕ, ◌+◌, ◌-◌, ◌*◌, ◌%◌, ◌^◌, Bool, true, false, ◌&&◌, ◌||◌, [], ◌∷◌, leb, ltb, ◌==◌, if◌then◌else◌,
}
use simple_virtual_language.Base.Int.{ℤ, pos, sub_ℕ}
use simple_virtual_language.Base.Text.{Text}

-- The exceptions that leave a function of the assembler: its own, and those of the library.
pub data AssembleError : Type 0 where
  assembler_error invalid_argument out_of_range bad_variant_access : AssembleError

pub data Result (A : Type 0) : Type 0 where
  done : A → Result A
  failed : AssembleError → Result A

infixl 5 ◌>>=◌
abbrev pub ◌>>=◌ : {A B : Type 0} → Result A → (A → Result B) → Result B
done a >>= f = f a
failed e >>= f = failed e

abbrev pub is_space : ℕ → Bool
is_space c = c == 32 || leb 9 c && leb c 13

abbrev pub is_digit : ℕ → Bool
is_digit c = leb b'0' c && leb c b'9'

unfoldable pub skip_spaces : Text → Text
skip_spaces [] = []
skip_spaces (c ∷ s) = if is_space c then skip_spaces s else c ∷ s

-- The number that the digits at the front stand for, behind those already read, and what follows.
unfoldable pub read_digits : ℕ → Text → ℕ × Text
read_digits n [] = (n, [])
read_digits n (c ∷ s) = if is_digit c then read_digits (n * 10 + (c - b'0')) s else (n, c ∷ s)

-- A sign, a magnitude, and the text behind the number.
pub record Numeral : Type 0 where
  pub negative : Bool
  pub magnitude : ℕ
  pub behind : Text

unfoldable pub unsigned_numeral : Bool → Text → Result Numeral
unfolding read_digits
unsigned_numeral negative [] = failed invalid_argument
unsigned_numeral negative (c ∷ s) =
    if is_digit c
    then done (
        let (n, rest) = read_digits 0 (c ∷ s) in
        record { negative = negative; magnitude = n; behind = rest })
    else failed invalid_argument

unfoldable pub signed_numeral : Text → Result Numeral
unfolding unsigned_numeral
signed_numeral [] = failed invalid_argument
signed_numeral (c ∷ s) =
    if c == b'-'
    then unsigned_numeral true s
    else if c == b'+'
    then unsigned_numeral false s
    else unsigned_numeral false (c ∷ s)

unfoldable pub numeral : Text → Result Numeral
unfolding skip_spaces signed_numeral
numeral s = signed_numeral (skip_spaces s)

-- `std::stoll`.
unfoldable pub int64_of : Numeral → Result ℤ
int64_of n =
    if n.negative
    then if leb n.magnitude (2 ^ 63) then done (sub_ℕ 0 n.magnitude) else failed out_of_range
    else if ltb n.magnitude (2 ^ 63)
    then done (pos n.magnitude)
    else failed out_of_range

unfoldable pub stoll : Text → Result ℤ
unfolding numeral int64_of
stoll s = do n ← numeral s; int64_of n

-- `std::stoull`, which negates a number with a minus sign modulo 2 ^ 64.
unfoldable pub uint64_of : Numeral → Result ℕ
uint64_of n =
    if ltb n.magnitude (2 ^ 64)
    then done (if n.negative then (2 ^ 64 - n.magnitude) % 2 ^ 64 else n.magnitude)
    else failed out_of_range

unfoldable pub stoull : Text → Result ℕ
unfolding numeral uint64_of
stoull s = do n ← numeral s; uint64_of n

-- `std::stof` and `std::stod`, which give bit patterns or throw, and `std::isfinite`.
pub record FloatText : Type 0 where
  pub stof : Text → Result ℕ
  pub stod : Text → Result ℕ
  pub f32_is_finite : ℕ → Bool
  pub f64_is_finite : ℕ → Bool
