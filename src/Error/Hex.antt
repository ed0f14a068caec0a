-- ===== src/Error/Hex.antt =====
-- `hexdump_formatter` of bazelPro/src/lib/zerror.cc. The data are the bytes that can be read from
-- `data` on; `none` is also a read behind them. A plain `char` is signed.
pub mod Reads
use ng.Base.{
  ℕ, zero, suc, ◌+◌, ◌-◌, ◌*◌, ◌^◌, List, [], ◌∷◌, ◌++◌, Option, none, some, ◌>>=◌, Bool, true,
  false, ◌==◌, if◌then◌else◌, ltb, leb, take, replicate,
}
use ng.Buffer.{Buffer}
use ng.Format.Arg.{Arg, word, text, codes}
use ng.Format.Ftoa.{Double}
use ng.Error.{bufprintf_asyncsignalsafe, DataFormatter}

-- A `char` as an `int`.
abbrev pub int_of_char : ℕ → ℕ
int_of_char c = if ltb c 128 then c else c + (2 ^ 32 - 256)

abbrev pub next_byte : List ℕ → Option (ℕ × List ℕ)
next_byte [] = none
next_byte (c ∷ cs) = some (c, cs)

-- `isgraph` is that of the C library.
module _ (isgraph : ℕ → Bool) where
  -- The characters that are written to `result_buf`.
  unfoldable pub translate_to_ascii : List ℕ → ℕ → Option (List ℕ)
  translate_to_ascii byte_ptr zero = some []
  translate_to_ascii byte_ptr (suc len) = do
    (c, byte_ptr) ← next_byte byte_ptr
    rest ← translate_to_ascii byte_ptr len
    some ((if isgraph c then c else b'.') ∷ rest)

  module _ {F : Type 0} (fl : Double F) (turns : ℕ) where
    unfoldable pub start_line : ℕ → List ℕ → List ℕ → Option (List ℕ)
    start_line i byte_ptr ascii_buf =
        if i == 0 then translate_to_ascii byte_ptr 16 else some ascii_buf

    unfoldable pub end_line : ℕ → List ℕ → Buffer → Option (Buffer × ℕ)
    end_line i ascii_buf out_buf =
        if leb 16 i
        then (do
          out_buf ←
              bufprintf_asyncsignalsafe fl turns out_buf (codes "  %s\n\t") (text ascii_buf ∷ [])
          some (out_buf, 0))
        else some (out_buf, i)

    -- The `while` loop, with the bytes left.
    unfoldable pub hex_loop : ℕ → ℕ → List ℕ → List ℕ → Buffer → Option (Buffer × ℕ × List ℕ)
    hex_loop zero i byte_ptr ascii_buf out_buf = some (out_buf, i, ascii_buf)
    hex_loop (suc left) i byte_ptr ascii_buf out_buf = do
      ascii_buf ← start_line i byte_ptr ascii_buf
      (c, byte_ptr) ← next_byte byte_ptr
      out_buf ←
          bufprintf_asyncsignalsafe fl turns out_buf (codes "%02x ") (word (int_of_char c) ∷ [])
      (out_buf, i) ← end_line (i + 1) ascii_buf out_buf
      hex_loop left i byte_ptr ascii_buf out_buf

    -- The padding, and what is left of the last line.
    unfoldable pub last_line : ℕ → List ℕ → Buffer → Option Buffer
    last_line i ascii_buf out_buf =
        if ltb 0 i
        then bufprintf_asyncsignalsafe fl turns out_buf (codes "%s %s\n")
            (text (replicate (49 - i * 3) b' ') ∷ text (take i ascii_buf) ∷ [])
        else some out_buf

    unfoldable pub hexdump_formatter : DataFormatter (List ℕ)
    hexdump_formatter out_buf bytes datalen = do
      out_buf ← bufprintf_asyncsignalsafe fl turns out_buf (codes "error info       :\n\t") []
      (out_buf, i, ascii_buf) ← hex_loop datalen 0 bytes [] out_buf
      last_line i ascii_buf out_buf
