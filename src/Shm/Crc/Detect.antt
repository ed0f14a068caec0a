-- ===== src/Shm/Crc/Detect.antt =====
-- What the checksum guarantees: it is total on data of the stated length, and it tells apart two
-- blocks of data that differ in one byte.
use ng.Base.{ℕ, IsByte, ◌^◌, ◌<◌, ◌≡◌, ◌≢◌, refl, arith, List, [], ◌∷◌, ◌++◌, some, length, All}
use ng.Base.{sym, ◌∙◌}
use ng.Shm.Crc.{crc_bytes, crc32, complement}
use ng.Shm.Crc.Inverse.{crc_byte, crc_byte-lt, crc_byte-injective, crc_byte-injective_byte}

-- The checksum register after the bytes.
abbrev pub register : ℕ → List ℕ → ℕ
register crc [] = crc
register crc (byte ∷ bytes) = register (crc_byte crc byte) bytes

crc_bytes-register :
    (bytes : List ℕ) (crc : ℕ) → crc_bytes (length bytes) bytes crc ≡ some (register crc bytes)
unfolding crc_bytes
crc_bytes-register [] crc = refl
crc_bytes-register (byte ∷ bytes) crc = crc_bytes-register bytes (crc_byte crc byte)

-- The checksum of all the data.
abbrev pub checksum : List ℕ → ℕ
checksum bytes = complement (register 0xffff_ffff bytes)

pub crc32-checksum : (bytes : List ℕ) → crc32 bytes (length bytes) ≡ some (checksum bytes)
unfolding crc32
crc32-checksum bytes = rw (crc_bytes-register bytes 0xffff_ffff)

register-lt :
    (bytes : List ℕ) (crc : ℕ) → All IsByte bytes → crc < 2 ^ 32 → register crc bytes < 2 ^ 32
register-lt [] crc h k = k
register-lt (byte ∷ bytes) crc h k =
    register-lt bytes (crc_byte crc byte) h.1 (crc_byte-lt crc byte k h.0)

register-injective :
    (bytes : List ℕ) (c d : ℕ)
    → All IsByte bytes
    → c < 2 ^ 32
    → d < 2 ^ 32
    → register c bytes ≡ register d bytes
    → c ≡ d
register-injective [] c d h k l e = e
register-injective (byte ∷ bytes) c d h k l e = crc_byte-injective c d byte k l h.0 (
    register-injective bytes (crc_byte c byte) (crc_byte d byte) h.1 (crc_byte-lt c byte k h.0)
      (crc_byte-lt d byte l h.0) e)

register-append :
    (xs ys : List ℕ) (crc : ℕ) → register crc (xs ++ ys) ≡ register (register crc xs) ys
register-append [] ys crc = refl
register-append (x ∷ xs) ys crc = register-append xs ys (crc_byte crc x)

module _ (before after : List ℕ) (a b : ℕ) (before_bytes : All IsByte before)
    (after_bytes : All IsByte after) (a_byte : IsByte a) (b_byte : IsByte b) where
  abbrev start : ℕ
  start = register 0xffff_ffff before

  start-lt : start < 2 ^ 32
  start-lt = register-lt before 0xffff_ffff before_bytes (omega arith)

  same_byte : checksum (before ++ a ∷ after) ≡ checksum (before ++ b ∷ after) → a ≡ b
  same_byte e = crc_byte-injective_byte start a b start-lt a_byte b_byte (
      register-injective after (crc_byte start a) (crc_byte start b) after_bytes
        (crc_byte-lt start a start-lt a_byte) (crc_byte-lt start b start-lt b_byte) registers)
    where
      whole_lt : (x : ℕ) → IsByte x → register 0xffff_ffff (before ++ x ∷ after) < 2 ^ 32
      whole_lt x h =
          rw (register-append before (x ∷ after) 0xffff_ffff)
            (register-lt after (crc_byte start x) after_bytes (crc_byte-lt start x start-lt h))

      registers : register (crc_byte start a) after ≡ register (crc_byte start b) after
      registers =
          sym (register-append before (a ∷ after) 0xffff_ffff)
          ∙ omega (arith, e, whole_lt a a_byte, whole_lt b b_byte)
          ∙ register-append before (b ∷ after) 0xffff_ffff

-- Changing one byte of the data always changes the checksum.
pub checksum-ne :
    (before after : List ℕ) (a b : ℕ)
    → All IsByte before
    → All IsByte after
    → IsByte a
    → IsByte b
    → a ≢ b
    → checksum (before ++ a ∷ after) ≢ checksum (before ++ b ∷ after)
checksum-ne before after a b h k l m ne e = ne (same_byte before after a b h k l m e)

-- Two blocks of bytes that differ in exactly one byte get checksums, and these are different:
-- `crc32` returns on both, over the whole of each block, and the two results are not equal.
pub crc32-detects :
    (before after : List ℕ) (a b : ℕ)
    → All IsByte before
    → All IsByte after
    → IsByte a
    → IsByte b
    → a ≢ b
    → (p : ℕ) × (q : ℕ) × (crc32 (before ++ a ∷ after) (length (before ++ a ∷ after)) ≡ some p)
      × (crc32 (before ++ b ∷ after) (length (before ++ b ∷ after)) ≡ some q)
      × (p ≢ q)
crc32-detects before after a b h k l m ne = (
  checksum (before ++ a ∷ after),
  checksum (before ++ b ∷ after),
  crc32-checksum (before ++ a ∷ after),
  crc32-checksum (before ++ b ∷ after),
  checksum-ne before after a b h k l m ne,
)
