-- ===== src/Shm/Crc/Tests.antt =====
-- Tests of the checksum of bazelPro/src/tmp/tmp.cc.
use ng.Base.{ℕ, ◌≡◌, ◌≢◌, refl, [], ◌∷◌, some, arith}
use ng.Shm.Crc.{crc32, crc_bytes, crc_bits, crc_bit}
use ng.Shm.Crc.Detect.{crc32-detects}

-- The CRC-32 check value of the digits 1 to 9.
check_value :
    crc32 (0x31 ∷ 0x32 ∷ 0x33 ∷ 0x34 ∷ 0x35 ∷ 0x36 ∷ 0x37 ∷ 0x38 ∷ 0x39 ∷ []) 9 ≡ some 0xcbf43926
unfolding crc32 crc_bytes crc_bits crc_bit
check_value = refl

crc32-detects_example :
    (p : ℕ) × (q : ℕ) × (crc32 (1 ∷ 2 ∷ 3 ∷ []) 3 ≡ some p)
    × (crc32 (1 ∷ 9 ∷ 3 ∷ []) 3 ≡ some q)
    × (p ≢ q)
crc32-detects_example =
    crc32-detects (1 ∷ []) (3 ∷ []) 2 9 (omega arith) (omega arith) (omega arith) (omega arith)
      (omega arith)
