-- ===== src/Dump/Tests.antt =====
-- Concrete runs of bazelPro/src/utils/dump.cc.
use ng.Base.{ℕ, ◌≡◌, refl, List, [], ◌∷◌, some, true, length, ◌*◌, ◌<◌, ◌≢◌, ◌↔◌, arith}
use ng.Dump.Total.{hexdump_iff}
use ng.Dump.{line_nbr, line_size, hexdump, dump_lines, rows, row, cells, cell, sprintf}

-- A short first line is not padded.
short :
    hexdump true (b'h' ∷ b'i' ∷ []) 2
    ≡ some (
        b'0' ∷ b'0' ∷ b'0' ∷ b'0' ∷ b'0' ∷ b'0' ∷ b'0' ∷ b'0' ∷ b' ' ∷ b' ' ∷ b'6' ∷ b'8' ∷ b' '
        ∷ b'6' ∷ b'9' ∷ b' ' ∷ b' ' ∷ b'|' ∷ b'h' ∷ b'i' ∷ b'|' ∷ [])
unfolding hexdump dump_lines rows row cells cell sprintf
short = refl

hexdump_iff_example :
    ((text : List ℕ) × (hexdump true (b'h' ∷ b'i' ∷ []) 2 ≡ some text)
      × (length text < line_nbr 2 * line_size))
    ↔ ((◌≢◌ {A = ℕ} 2 0) × (true ≡ true))
hexdump_iff_example = hexdump_iff true (b'h' ∷ b'i' ∷ []) 2 (omega arith)
