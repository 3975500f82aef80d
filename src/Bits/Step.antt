-- ===== src/Bits/Step.antt =====
-- The lowest binary digit of `&` and `|`, from the digit recursion that the native operations
-- stand for. That recursion takes fuel, and any fuel that covers the first operand serves.
use Prim.Native.Nat.{max, min, digits, bitwise, bit_and-bitwise, bit_or-bitwise}
use simple_kernel.Base.{ℕ, zero, suc, ◌+◌, ◌*◌, ◌/◌, ◌%◌, ◌≤◌, ◌≡◌, refl, arith, bit_and, bit_or}

module _ (rest : ℕ → ℕ) (digit : ℕ → ℕ → ℕ) where
  enough_fuel : (a b m n : ℕ) → a ≤ m → a ≤ n → digits rest digit m a b ≡ digits rest digit n a b
  enough_fuel zero b zero zero p q = refl
  enough_fuel zero b zero (suc n) p q = refl
  enough_fuel zero b (suc m) zero p q = refl
  enough_fuel zero b (suc m) (suc n) p q = refl
  enough_fuel (suc a) b zero n p q = absurd (omega arith)
  enough_fuel (suc a) b (suc m) zero p q = absurd (omega arith)
  enough_fuel (suc a) b (suc m) (suc n) p q =
      omega (arith, enough_fuel (suc a / 2) (b / 2) m n (omega arith) (omega arith))

  low_digit :
      (a b : ℕ)
      → bitwise rest digit (suc a) b
        ≡ bitwise rest digit (suc a / 2) (b / 2) * 2 + digit (suc a % 2) (b % 2)
  low_digit a b =
      omega (arith, enough_fuel (suc a / 2) (b / 2) a (suc a / 2) (omega arith) (omega arith))

pub bit_and_step : (a b : ℕ) → bit_and a b ≡ bit_and (a / 2) (b / 2) * 2 + min (a % 2) (b % 2)
bit_and_step zero b = omega (arith, bit_and-bitwise 0 b, bit_and-bitwise 0 (b / 2))
bit_and_step (suc a) b = omega (
  arith,
  bit_and-bitwise (suc a) b,
  bit_and-bitwise (suc a / 2) (b / 2),
  low_digit (λ _. 0) min a b,
)

pub bit_or_step : (a b : ℕ) → bit_or a b ≡ bit_or (a / 2) (b / 2) * 2 + max (a % 2) (b % 2)
bit_or_step zero b = omega (arith, bit_or-bitwise 0 b, bit_or-bitwise 0 (b / 2))
bit_or_step (suc a) b = omega (
  arith,
  bit_or-bitwise (suc a) b,
  bit_or-bitwise (suc a / 2) (b / 2),
  low_digit (λ y. y) max a b,
)

pub zero-bit_or : (b : ℕ) → bit_or 0 b ≡ b
zero-bit_or b = bit_or-bitwise 0 b

pub zero-bit_and : (b : ℕ) → bit_and 0 b ≡ 0
zero-bit_and b = bit_and-bitwise 0 b
