-- ===== src/Vm/Float.antt =====
-- The floating-point arithmetic that the C++ implementation gives to `float` and `double`, on their
-- bit patterns. It is not part of the program: it is a parameter of the machine.
use simple_virtual_language.Base.{ℕ, Bool, Option}
use simple_virtual_language.Base.Int.{ℤ}

pub record FloatOps : Type 0 where
  pub f32_add : ℕ → ℕ → ℕ
  pub f32_sub : ℕ → ℕ → ℕ
  pub f32_mul : ℕ → ℕ → ℕ
  pub f32_div : ℕ → ℕ → ℕ
  pub f32_rem : ℕ → ℕ → ℕ
  pub f64_add : ℕ → ℕ → ℕ
  pub f64_sub : ℕ → ℕ → ℕ
  pub f64_mul : ℕ → ℕ → ℕ
  pub f64_div : ℕ → ℕ → ℕ
  pub f64_rem : ℕ → ℕ → ℕ
  pub f32_lt : ℕ → ℕ → Bool
  pub f32_le : ℕ → ℕ → Bool
  pub f64_lt : ℕ → ℕ → Bool
  pub f64_le : ℕ → ℕ → Bool
  pub f32_is_zero : ℕ → Bool
  pub f64_is_zero : ℕ → Bool
  pub f64_of_f32 : ℕ → ℕ
  pub f32_of_f64 : ℕ → ℕ
  pub f32_of_ℤ : ℤ → ℕ
  pub f64_of_ℤ : ℤ → ℕ
  -- The value without its fraction; `none` for an infinity or a NaN.
  pub f64_trunc : ℕ → Option ℤ
