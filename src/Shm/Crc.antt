-- ===== src/Shm/Crc.antt =====
-- `Hk_Shm::crc32` of bazelPro/src/tmp/tmp.cc: the reflected CRC-32, bit by bit.
pub mod Inverse
pub mod Detect
mod Tests
use ng.Base.{ℕ, zero, suc, ◌-◌, ◌/◌, ◌^◌, List, [], ◌∷◌, Option, none, some, bit_and, bit_xor}
use ng.Base.{◌≡◌, refl, not, ◌==◌, if◌then◌else◌, ◌>>=◌}

abbrev pub polynomial : ℕ
polynomial = 0xEDB88320

-- The body of the inner loop.
unfoldable pub crc_bit : ℕ → ℕ
crc_bit crc = if not (bit_and crc 1 == 0) then bit_xor (crc / 2 ^ 1) polynomial else crc / 2 ^ 1

-- The inner loop, with the rounds left.
unfoldable pub crc_bits : ℕ → ℕ → ℕ
crc_bits zero crc = crc
crc_bits (suc left) crc = crc_bits left (crc_bit crc)

-- The outer loop; `none` is a read past the end of the data.
unfoldable pub crc_bytes : ℕ → List ℕ → ℕ → Option ℕ
crc_bytes zero bytes crc = some crc
crc_bytes (suc left) [] crc = none
crc_bytes (suc left) (byte ∷ bytes) crc = crc_bytes left bytes (crc_bits 8 (bit_xor crc byte))

abbrev complement : ℕ → ℕ
complement crc = 2 ^ 32 - 1 - crc

unfoldable pub crc32 : List ℕ → ℕ → Option ℕ
crc32 bytes length = do crc ← crc_bytes length bytes 0xffff_ffff; some (complement crc)
