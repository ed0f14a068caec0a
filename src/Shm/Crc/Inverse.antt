-- ===== src/Shm/Crc/Inverse.antt =====
-- Each round of the checksum can be run backwards: the top bit of the polynomial shows whether the
-- bit that was shifted out was set.
use ng.Base.{ℕ, zero, suc, ◌+◌, ◌*◌, ◌/◌, ◌^◌, ◌<◌, ◌≡◌, arith, bit_xor}
use ng.Base.{leb, if◌then◌else◌, ap, sym, ◌∙◌}
use ng.Bits.{xor-lt, xor_cancel, xor_top, xor_comm, and-ones}
use ng.Shm.Crc.{crc_bit, crc_bits, polynomial}

abbrev uncrc_bit : ℕ → ℕ
uncrc_bit crc = if leb (2 ^ 31) crc then bit_xor crc polynomial * 2 + 1 else crc * 2

pub crc_bit-lt : (c : ℕ) → c < 2 ^ 32 → crc_bit c < 2 ^ 32
unfolding crc_bit
crc_bit-lt c h = ground (arith, xor-lt 32 (c / 2) polynomial)

crc_bit_undone : (c : ℕ) → c < 2 ^ 32 → uncrc_bit (crc_bit c) ≡ c
unfolding crc_bit
crc_bit_undone c h =
    ground (arith, and-ones 1 c, xor_top 31 (c / 2) polynomial, xor_cancel 32 (c / 2) polynomial)

crc_bits-lt : (n c : ℕ) → c < 2 ^ 32 → crc_bits n c < 2 ^ 32
unfolding crc_bits
crc_bits-lt zero c h = h
crc_bits-lt (suc n) c h = crc_bits-lt n (crc_bit c) (crc_bit-lt c h)

crc_bits-injective : (n c d : ℕ) → c < 2 ^ 32 → d < 2 ^ 32 → crc_bits n c ≡ crc_bits n d → c ≡ d
unfolding crc_bits
crc_bits-injective zero c d h k e = e
crc_bits-injective (suc n) c d h k e =
    sym (crc_bit_undone c h)
    ∙ ap uncrc_bit
        (crc_bits-injective n (crc_bit c) (crc_bit d) (crc_bit-lt c h) (crc_bit-lt d k) e)
    ∙ crc_bit_undone d k

-- One byte of data.
abbrev pub crc_byte : ℕ → ℕ → ℕ
crc_byte crc byte = crc_bits 8 (bit_xor crc byte)

pub crc_byte-lt : (crc byte : ℕ) → crc < 2 ^ 32 → byte < 256 → crc_byte crc byte < 2 ^ 32
crc_byte-lt crc byte h k = crc_bits-lt 8 _ (xor-lt 32 crc byte h (omega arith))

pub crc_byte-injective :
    (c d byte : ℕ)
    → c < 2 ^ 32
    → d < 2 ^ 32
    → byte < 256
    → crc_byte c byte ≡ crc_byte d byte
    → c ≡ d
crc_byte-injective c d byte h k b e =
    sym (xor_cancel 32 c byte h (omega arith))
    ∙ ap (λ (t : ℕ). bit_xor t byte)
        (crc_bits-injective 8 _ _ (xor-lt 32 c byte h (omega arith))
          (xor-lt 32 d byte k (omega arith)) e)
    ∙ xor_cancel 32 d byte k (omega arith)

pub crc_byte-injective_byte :
    (crc a b : ℕ) → crc < 2 ^ 32 → a < 256 → b < 256 → crc_byte crc a ≡ crc_byte crc b → a ≡ b
crc_byte-injective_byte crc a b h k l e =
    sym (xor_cancel 32 a crc (omega arith) h)
    ∙ ap (λ (t : ℕ). bit_xor t crc) same
    ∙ xor_cancel 32 b crc (omega arith) h
  where
    same : bit_xor a crc ≡ bit_xor b crc
    same =
        xor_comm 32 a crc (omega arith) h
        ∙ crc_bits-injective 8 _ _ (xor-lt 32 crc a h (omega arith))
            (xor-lt 32 crc b h (omega arith)) e
        ∙ xor_comm 32 crc b h (omega arith)
