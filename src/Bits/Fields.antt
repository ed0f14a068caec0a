-- ===== src/Bits/Fields.antt =====
-- `|` of fields that do not overlap is a sum, and `&` with a run of ones picks out a field.
use native.Mathlib.Nat.{
  pow-suc, one-le-pow, div-div-eq-div-mul, mod-eq-sub-div-mul, div-mul-le_self,
}
use ng.Base.{ℕ, zero, suc, ◌+◌, ◌-◌, ◌*◌, ◌/◌, ◌%◌, ◌^◌, ◌≤◌, ◌<◌, ◌≡◌, refl, ap, ◌∙◌, arith}
use ng.Base.{bit_and, bit_or}
use ng.Bits.Digit.{and_digit, or_digit}

or_none : (n a : ℕ) → a ≤ n → bit_or a 0 ≡ a
or_none n zero h = refl
or_none zero (suc a) h = elim h [ ]
or_none (suc n) (suc a) h = omega (arith, or_digit (suc a) 0, or_none n (suc a / 2) (omega arith))

and_none : (n a : ℕ) → a ≤ n → bit_and a 0 ≡ 0
and_none n zero h = refl
and_none zero (suc a) h = elim h [ ]
and_none (suc n) (suc a) h =
    omega (arith, and_digit (suc a) 0, and_none n (suc a / 2) (omega arith))

double_shift : (q k : ℕ) → q * 2 ^ suc k ≡ 2 * (q * 2 ^ k)
double_shift q k = omega (arith, ap (λ (t : ℕ). q * t) (pow-suc 2 k))

pub or-disjoint : (k q r : ℕ) → r < 2 ^ k → bit_or (q * 2 ^ k) r ≡ q * 2 ^ k + r
or-disjoint zero q zero h = omega (arith, or_none (q * 1) (q * 1) (omega arith))
or-disjoint zero q (suc r) h = absurd (omega arith)
or-disjoint (suc k) q r h = ground (
  arith,
  or_digit (q * 2 ^ suc k) r,
  double_shift q k,
  or-disjoint k q (r / 2) (omega (arith, pow-suc 2 k)),
)

div-two_pow : (k a : ℕ) → a / 2 / 2 ^ k ≡ a / 2 ^ suc k
div-two_pow k a =
    div-div-eq-div-mul a 2 (2 ^ k) ∙ ap (λ (t : ℕ). a / t) (omega (arith, pow-suc 2 k))

mod-two_pow : (k a : ℕ) → a % 2 ^ suc k ≡ a / 2 % 2 ^ k * 2 + a % 2
mod-two_pow k a = omega (
  arith,
  mod-eq-sub-div-mul a (2 ^ suc k),
  mod-eq-sub-div-mul (a / 2) (2 ^ k),
  div-mul-le_self a (2 ^ suc k),
  div-mul-le_self (a / 2) (2 ^ k),
  ap (λ (t : ℕ). t * 2 ^ suc k) (div-two_pow k a),
  double_shift (a / 2 / 2 ^ k) k,
)

-- A mask whose low bits are clear.
pub and-shifted : (k a m : ℕ) → bit_and a (m * 2 ^ k) ≡ bit_and (a / 2 ^ k) m * 2 ^ k
and-shifted zero a m =
    let e : m * 2 ^ 0 ≡ m = omega arith in
    let f : a / 2 ^ 0 ≡ a = omega arith in rw (e, f) (omega arith)
and-shifted (suc k) a m = ground (
  arith,
  and_digit a (m * 2 ^ suc k),
  double_shift m k,
  double_shift (bit_and (a / 2 ^ suc k) m) k,
  div-two_pow k a,
  and-shifted k (a / 2) m,
)

-- The mask of the low `k` bits.
pub and-ones : (k a : ℕ) → bit_and a (2 ^ k - 1) ≡ a % 2 ^ k
and-ones zero a = omega (arith, and_none a a (omega arith))
and-ones (suc k) a = ground (
  arith,
  and_digit a (2 ^ suc k - 1),
  one-le-pow k 2,
  pow-suc 2 k,
  mod-two_pow k a,
  and-ones k (a / 2),
)

or_comm : (k a b : ℕ) → a < 2 ^ k → b < 2 ^ k → bit_or a b ≡ bit_or b a
or_comm zero zero zero h l = refl
or_comm zero zero (suc b) h l = absurd (omega arith)
or_comm zero (suc a) b h l = absurd (omega arith)
or_comm (suc k) a b h l = omega (
  arith,
  or_digit a b,
  or_digit b a,
  or_comm k (a / 2) (b / 2) (omega (arith, pow-suc 2 k)) (omega (arith, pow-suc 2 k)),
)

-- The same with the low field first, for values of at most 32 bits.
pub or-disjoint_low :
    (k q r : ℕ) → r < 2 ^ k → r < 2 ^ 32 → q * 2 ^ k < 2 ^ 32 → bit_or r (q * 2 ^ k) ≡ q * 2 ^ k + r
or-disjoint_low k q r h l m = or_comm 32 r (q * 2 ^ k) l m ∙ or-disjoint k q r h
