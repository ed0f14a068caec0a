-- ===== src/Hk/Wire/Swap.antt =====
-- The byte swaps put a value into network order.
use ng.Base.{ℕ, ◌+◌, ◌*◌, ◌/◌, ◌%◌, ◌^◌, ◌<◌, ◌≡◌, ap, ◌∙◌, arith, List, [], ◌∷◌, bit_and, bit_or}
use ng.Bits.{or-disjoint, or-disjoint_low, and-ones, and-shifted}
use ng.Hk.Wire.{bswap_16, bswap_32, le_bytes}

-- Network byte order: the highest byte first.
abbrev pub be16 : ℕ → List ℕ
be16 v = v / 256 % 256 ∷ v % 256 ∷ []

abbrev pub be32 : ℕ → List ℕ
be32 v = v / 2 ^ 24 % 256 ∷ v / 2 ^ 16 % 256 ∷ v / 2 ^ 8 % 256 ∷ v % 256 ∷ []

pub bswap_16-sum : (x : ℕ) → x < 2 ^ 16 → bswap_16 x ≡ x % 256 * 256 + x / 256
unfolding bswap_16
bswap_16-sum x h =
    rw (or-disjoint_low 8 x (x / 2 ^ 8) (omega arith) (omega arith) (omega arith)) (omega arith)

module _ (a b c d : ℕ) (b_byte : b < 256) (c_byte : c < 256) (d_byte : d < 256) where
  or_bytes :
      bit_or (bit_or (bit_or (a * 2 ^ 24) (b * 2 ^ 16)) (c * 2 ^ 8)) d
      ≡ a * 2 ^ 24 + b * 2 ^ 16 + c * 2 ^ 8 + d
  or_bytes =
      ap (λ (t : ℕ). bit_or (bit_or t (c * 2 ^ 8)) d)
        (or-disjoint 24 a (b * 2 ^ 16) (omega arith) ∙ upper)
      ∙ ap (λ (t : ℕ). bit_or t d) (or-disjoint 16 (a * 256 + b) (c * 2 ^ 8) (omega arith) ∙ middle)
      ∙ or-disjoint 8 (a * 65536 + b * 256 + c) d (omega arith)
      ∙ omega arith
    where
      upper : a * 2 ^ 24 + b * 2 ^ 16 ≡ (a * 256 + b) * 2 ^ 16
      upper = omega arith

      middle : (a * 256 + b) * 2 ^ 16 + c * 2 ^ 8 ≡ (a * 65536 + b * 256 + c) * 2 ^ 8
      middle = omega arith

pub bswap_32-sum :
    (x : ℕ)
    → x < 2 ^ 32
    → bswap_32 x
      ≡ x % 256 * 2 ^ 24 + x / 2 ^ 8 % 256 * 2 ^ 16 + x / 2 ^ 16 % 256 * 2 ^ 8 + x / 2 ^ 24 % 256
unfolding bswap_32
bswap_32-sum x h =
    ap
      (λ (t : ℕ).
        bit_or
          (bit_or (bit_or (t * 2 ^ 24) (bit_and x 0xff00 * 2 ^ 8)) (bit_and x 0xff0000 / 2 ^ 8))
          (bit_and (x / 2 ^ 24) 0xff))
      (and-ones 8 x)
    ∙ ap
        (λ (t : ℕ).
          bit_or (bit_or (bit_or (x % 256 * 2 ^ 24) t) (bit_and x 0xff0000 / 2 ^ 8))
            (bit_and (x / 2 ^ 24) 0xff))
        second
    ∙ ap
        (λ (t : ℕ).
          bit_or (bit_or (bit_or (x % 256 * 2 ^ 24) (x / 2 ^ 8 % 256 * 2 ^ 16)) t)
            (bit_and (x / 2 ^ 24) 0xff))
        third
    ∙ ap
        (λ (t : ℕ).
          bit_or
            (bit_or (bit_or (x % 256 * 2 ^ 24) (x / 2 ^ 8 % 256 * 2 ^ 16))
              (x / 2 ^ 16 % 256 * 2 ^ 8))
            t)
        (and-ones 8 (x / 2 ^ 24))
    ∙ or_bytes (x % 256) (x / 2 ^ 8 % 256) (x / 2 ^ 16 % 256) (x / 2 ^ 24 % 256) (omega arith)
        (omega arith) (omega arith)
  where
    second : bit_and x 0xff00 * 2 ^ 8 ≡ x / 2 ^ 8 % 256 * 2 ^ 16
    second = omega (arith, and-shifted 8 x 0xff, and-ones 8 (x / 2 ^ 8))

    third : bit_and x 0xff0000 / 2 ^ 8 ≡ x / 2 ^ 16 % 256 * 2 ^ 8
    third = omega (arith, and-shifted 16 x 0xff, and-ones 8 (x / 2 ^ 16))

-- A swapped variable stands in memory in network order.
pub le_bytes-bswap_16 : (v : ℕ) → v < 2 ^ 16 → le_bytes 2 (bswap_16 v) ≡ be16 v
le_bytes-bswap_16 v h = rw (bswap_16-sum v h) (ground arith)

pub le_bytes-bswap_32 : (v : ℕ) → v < 2 ^ 32 → le_bytes 4 (bswap_32 v) ≡ be32 v
le_bytes-bswap_32 v h = rw (bswap_32-sum v h) (ground arith)
