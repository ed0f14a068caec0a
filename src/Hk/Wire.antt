-- ===== src/Hk/Wire.antt =====
-- Bytes and buffers of bazelPro/src/hk: the byte swaps of msg_gen.h, and `memcpy` between a buffer
-- and a variable on a little-endian machine. A negative `int` is its 32-bit pattern. `none` is an
-- access outside the buffer.
pub mod Swap
pub mod Stores
use ng.Base.{
  ℕ, zero, suc, ◌+◌, ◌*◌, ◌/◌, ◌%◌, ◌^◌, List, [], ◌∷◌, ◌++◌, Option, none, some, bit_and, bit_or,
}
use ng.Base.{leb, if◌then◌else◌, ◌>>=◌, length, take, drop, u16}

unfoldable pub bswap_32 : ℕ → ℕ
bswap_32 le =
    bit_or
      (bit_or (bit_or (bit_and le 0xff * 2 ^ 24) (bit_and le 0xff00 * 2 ^ 8))
        (bit_and le 0xff0000 / 2 ^ 8))
      (bit_and (le / 2 ^ 24) 0xff)

unfoldable pub bswap_16 : ℕ → ℕ
bswap_16 x = u16 (bit_or (x / 2 ^ 8) (x * 2 ^ 8))

-- The bytes of a variable of `n` bytes in memory.
abbrev pub le_bytes : ℕ → ℕ → List ℕ
le_bytes zero v = []
le_bytes (suc n) v = v % 256 ∷ le_bytes n (v / 256)

-- The variable that some bytes in memory are.
abbrev pub le_value : List ℕ → ℕ
le_value [] = 0
le_value (b ∷ bs) = b + 256 * le_value bs

-- `memcpy(&buffer[at], bytes, …)`.
abbrev pub memcpy : List ℕ → ℕ → List ℕ → Option (List ℕ)
memcpy buffer at bytes =
    if leb (at + length bytes) (length buffer)
    then some (take at buffer ++ (bytes ++ drop (at + length bytes) buffer))
    else none

-- `memcpy(&variable, &buffer[at], n)`.
abbrev pub read_le : List ℕ → ℕ → ℕ → Option ℕ
read_le buffer at n =
    if leb (at + n) (length buffer) then some (le_value (take n (drop at buffer))) else none

pub record Sender : Type 0 where
  pub send_buffer : List ℕ
  pub msg_len : ℕ

-- One write at `msg_len`, which then moves on by its size.
pub store : List ℕ → Sender → Option Sender
store bytes s = do
  buffer ← memcpy s.send_buffer s.msg_len bytes
  some (record { send_buffer = buffer; msg_len = s.msg_len + length bytes })

unfoldable pub store_all : List (List ℕ) → Sender → Option Sender
store_all [] s = some s
store_all (w ∷ ws) s = store w s >>= store_all ws
