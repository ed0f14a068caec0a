-- ===== src/Bits/Digit.antt =====
-- One equation for the lowest binary digit of each operation, free of fuel.
use Prim.Native.Nat.{max, differ, digits, bitwise}
use Prim.Native.Nat.{bit_and-bitwise, bit_or-bitwise, bit_xor-bitwise}
use ng.Base.{ℕ, zero, suc, ◌+◌, ◌*◌, ◌/◌, ◌%◌, ◌≤◌, ◌≡◌, refl, min, arith, bit_and, bit_or, bit_xor}

module _ (rest : ℕ → ℕ) (op : ℕ → ℕ → ℕ) where
  -- More fuel than the number needs changes nothing.
  more_fuel : (a n m b : ℕ) → a ≤ n → n ≤ m → digits rest op m a b ≡ digits rest op n a b
  more_fuel a zero zero b h k = refl
  more_fuel zero zero (suc m) b h k = refl
  more_fuel (suc a) zero (suc m) b h k = elim h [ ]
  more_fuel a (suc n) zero b h k = elim k [ ]
  more_fuel zero (suc n) (suc m) b h k = refl
  more_fuel (suc a) (suc n) (suc m) b h k =
      omega (arith, more_fuel (suc a / 2) n m (b / 2) (omega arith) (omega arith))

  lowest_digit :
      (a b : ℕ)
      → bitwise rest op (suc a) b ≡ bitwise rest op (suc a / 2) (b / 2) * 2 + op (suc a % 2) (b % 2)
  lowest_digit a b =
      omega (arith, more_fuel (suc a / 2) (suc a / 2) a (b / 2) (omega arith) (omega arith))

pub and_digit : (a b : ℕ) → bit_and a b ≡ bit_and (a / 2) (b / 2) * 2 + min (a % 2) (b % 2)
and_digit zero b = omega (arith, bit_and-bitwise 0 b, bit_and-bitwise 0 (b / 2))
and_digit (suc a) b = omega (
  arith,
  bit_and-bitwise (suc a) b,
  bit_and-bitwise (suc a / 2) (b / 2),
  lowest_digit (λ (y : ℕ). zero) min a b,
)

pub or_digit : (a b : ℕ) → bit_or a b ≡ bit_or (a / 2) (b / 2) * 2 + max (a % 2) (b % 2)
or_digit zero b = omega (arith, bit_or-bitwise 0 b, bit_or-bitwise 0 (b / 2))
or_digit (suc a) b = omega (
  arith,
  bit_or-bitwise (suc a) b,
  bit_or-bitwise (suc a / 2) (b / 2),
  lowest_digit (λ (y : ℕ). y) max a b,
)

differ_sum : (a b : ℕ) → differ (a % 2) (b % 2) ≡ (a + b) % 2
differ_sum a b = grind arith

pub xor_digit : (a b : ℕ) → bit_xor a b ≡ bit_xor (a / 2) (b / 2) * 2 + (a + b) % 2
xor_digit zero b = omega (arith, bit_xor-bitwise 0 b, bit_xor-bitwise 0 (b / 2))
xor_digit (suc a) b = omega (
  arith,
  bit_xor-bitwise (suc a) b,
  bit_xor-bitwise (suc a / 2) (b / 2),
  lowest_digit (λ (y : ℕ). y) differ a b,
  differ_sum (suc a) b,
)
