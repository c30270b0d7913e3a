-- ===== src/Vm/Arithmetic/Complement.antt =====
-- Bitwise `not` of a 32-bit value: `~` acts on all 64 bits of the pattern, and no truncation follows.
use simple_virtual_language.Base.{ℕ, ◌-◌, ◌^◌, ◌<◌, ◌≡◌, refl, false, arith}
use simple_virtual_language.Isa.{i32}
use simple_virtual_language.Vm.State.{value, returned}
use simple_virtual_language.Vm.Values.{raw_to_i32}
use simple_virtual_language.Vm.Arithmetic.Bitwise.{bitwise_not}
use simple_virtual_language.Vm.Arithmetic.Compare.{ceq, flag}

-- For every `i32` pattern `a` of 32 bits, `not` gives a value that stands for the same integer as the 32-bit
-- complement of `a`, and that `ceq` nevertheless finds different from that complement.
pub not_differs :
    (a : ℕ)
    → a < 2 ^ 32
    → (bitwise_not (value i32 a) ≡ returned (value i32 (2 ^ 64 - 1 - a)))
      × (raw_to_i32 (2 ^ 64 - 1 - a) ≡ raw_to_i32 (2 ^ 32 - 1 - a))
      × (ceq (value i32 (2 ^ 64 - 1 - a)) (value i32 (2 ^ 32 - 1 - a)) ≡ returned (flag false))
unfolding bitwise_not raw_to_i32 ceq
not_differs a h = (refl, ground arith, ground arith)
