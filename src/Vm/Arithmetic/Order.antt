-- ===== src/Vm/Arithmetic/Order.antt =====
-- The comparison instructions against the order of the integers that the operands stand for.
use simple_virtual_language.Base.{ℕ, ◌+◌, ◌^◌, ◌<◌, ◌≡◌, Bool, not, ◌==◌, arith}
use simple_virtual_language.Base.Int.{ℤ, pos, pos_part, neg_part, ltb_ℤ}
use simple_virtual_language.Isa.{ValueType, i32, ui32, i64, ui64, f32, ptr}
use simple_virtual_language.Vm.State.{value, returned}
use simple_virtual_language.Vm.Float.{FloatOps}
use simple_virtual_language.Vm.Values.{raw_to_i32, raw_to_i64}
use simple_virtual_language.Vm.Arithmetic.Compare.{ceq, cne, clt, cle, cgt, cge, flag}

pub data IntegerType : ValueType → Type 0 where
  is_i32 : IntegerType i32
  is_ui32 : IntegerType ui32
  is_i64 : IntegerType i64
  is_ui64 : IntegerType ui64
  is_ptr : IntegerType ptr

-- The integer that a pattern of such a type stands for.
abbrev pub denote : ValueType → ℕ → ℤ
denote i32 raw = raw_to_i32 raw
denote i64 raw = raw_to_i64 raw
denote other raw = pos raw

-- A pattern as every instruction but `not` leaves it: the upper half of a 32-bit value is zero.
abbrev pub width_bound : ValueType → ℕ
width_bound i32 = 2 ^ 32
width_bound ui32 = 2 ^ 32
width_bound f32 = 2 ^ 32
width_bound ptr = 2 ^ 32
width_bound other = 2 ^ 64

abbrev pub eqb_ℤ : ℤ → ℤ → Bool
eqb_ℤ a b = pos_part a + neg_part b == pos_part b + neg_part a

-- The six comparisons agree with `=` and `<` on the integers.
abbrev pub ComparesAs : FloatOps → ValueType → ℕ → ℕ → ℤ → ℤ → Type 0
ComparesAs fl t a b x y =
    (ceq (value t a) (value t b) ≡ returned (flag (eqb_ℤ x y)))
    × (cne (value t a) (value t b) ≡ returned (flag (not (eqb_ℤ x y))))
    × (clt fl (value t a) (value t b) ≡ returned (flag (ltb_ℤ x y)))
    × (cge fl (value t a) (value t b) ≡ returned (flag (not (ltb_ℤ x y))))
    × (cgt fl (value t a) (value t b) ≡ returned (flag (ltb_ℤ y x)))
    × (cle fl (value t a) (value t b) ≡ returned (flag (not (ltb_ℤ y x))))

module _ (fl : FloatOps) where
  -- On two patterns of an integer type or of `ptr`, within the width of the type, each of the six
  -- comparisons returns the flag of that comparison of the integers that the patterns stand for.
  pub comparisons :
      (t : ValueType) (a b : ℕ)
      → IntegerType t
      → a < width_bound t
      → b < width_bound t
      → ComparesAs fl t a b (denote t a) (denote t b)
  unfolding ceq cne clt cge cgt cle
  comparisons t a b is_i32 ha hb =
      (ground arith, ground arith, ground arith, ground arith, ground arith, ground arith)
  comparisons t a b is_ui32 ha hb =
      (ground arith, ground arith, ground arith, ground arith, ground arith, ground arith)
  comparisons t a b is_i64 ha hb =
      (ground arith, ground arith, ground arith, ground arith, ground arith, ground arith)
  comparisons t a b is_ui64 ha hb =
      (ground arith, ground arith, ground arith, ground arith, ground arith, ground arith)
  comparisons t a b is_ptr ha hb =
      (ground arith, ground arith, ground arith, ground arith, ground arith, ground arith)
