-- ===== src/Bits/Xor.antt =====
-- `^`: it stays below a power of two, undoes itself, and sets the top bit where one side has it.
use native.Mathlib.Nat.{pow-suc}
use ng.Base.{ℕ, zero, suc, ◌*◌, ◌/◌, ◌^◌, ◌≤◌, ◌<◌, ◌≡◌, refl, ap, arith, bit_xor}
use ng.Bits.Digit.{xor_digit}

pub xor-lt : (k a b : ℕ) → a < 2 ^ k → b < 2 ^ k → bit_xor a b < 2 ^ k
xor-lt zero zero zero h l = omega arith
xor-lt zero zero (suc b) h l = absurd (omega arith)
xor-lt zero (suc a) b h l = absurd (omega arith)
xor-lt (suc k) a b h l = omega (
  arith,
  pow-suc 2 k,
  xor_digit a b,
  xor-lt k (a / 2) (b / 2) (omega (arith, pow-suc 2 k)) (omega (arith, pow-suc 2 k)),
)

xor_half : (a b : ℕ) → bit_xor a b / 2 ≡ bit_xor (a / 2) (b / 2)
xor_half a b = omega (arith, xor_digit a b)

pub xor_cancel : (k a b : ℕ) → a < 2 ^ k → b < 2 ^ k → bit_xor (bit_xor a b) b ≡ a
xor_cancel zero zero zero h l = refl
xor_cancel zero zero (suc b) h l = absurd (omega arith)
xor_cancel zero (suc a) b h l = absurd (omega arith)
xor_cancel (suc k) a b h l = omega (
  arith,
  xor_digit (bit_xor a b) b,
  xor_digit a b,
  ap (λ (t : ℕ). bit_xor t (b / 2)) (xor_half a b),
  xor_cancel k (a / 2) (b / 2) (omega (arith, pow-suc 2 k)) (omega (arith, pow-suc 2 k)),
)

pub xor_top : (k a b : ℕ) → a < 2 ^ k → 2 ^ k ≤ b → b < 2 * 2 ^ k → 2 ^ k ≤ bit_xor a b
xor_top zero zero zero h l u = absurd (omega arith)
xor_top zero zero (suc zero) h l u = omega arith
xor_top zero zero (suc (suc b)) h l u = absurd (omega arith)
xor_top zero (suc a) b h l u = absurd (omega arith)
xor_top (suc k) a b h l u = omega (
  arith,
  pow-suc 2 k,
  xor_digit a b,
  xor_top k (a / 2) (b / 2) (omega (arith, pow-suc 2 k)) (omega (arith, pow-suc 2 k))
      (omega (arith, pow-suc 2 k)),
)

pub xor_comm : (k a b : ℕ) → a < 2 ^ k → b < 2 ^ k → bit_xor a b ≡ bit_xor b a
xor_comm zero zero zero h l = refl
xor_comm zero zero (suc b) h l = absurd (omega arith)
xor_comm zero (suc a) b h l = absurd (omega arith)
xor_comm (suc k) a b h l = omega (
  arith,
  xor_digit a b,
  xor_digit b a,
  xor_comm k (a / 2) (b / 2) (omega (arith, pow-suc 2 k)) (omega (arith, pow-suc 2 k)),
)
