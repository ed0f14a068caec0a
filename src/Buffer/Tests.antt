-- ===== src/Buffer/Tests.antt =====
-- Two prints into a buffer of 2 bytes, of bazelPro/src/lib/bufprintf.cc.
use ng.Base.{
  ℕ, ◌+◌, ◌-◌, ◌<◌, ◌≡◌, refl, arith, List, [], ◌∷◌, ◌++◌, some, Option, length, take, replicate,
  suc,
}
use ng.Buffer.{Buffer, bufinit, bufprintf_all}
use ng.Buffer.Laws.{IsFormatted, texts, bufprintf_all-Shows}

-- A formatter of `%c`.
abbrev char_text : ℕ → List ℕ
char_text c = c ∷ []

abbrev print_char : ℕ → ℕ → Option (List ℕ × ℕ)
print_char room c = some (take (room - 1) (char_text c) ++ (0 ∷ []), length (char_text c))

print_char-IsFormatted : (c : ℕ) → IsFormatted print_char char_text c
print_char-IsFormatted c = record { prints = λ room pos. refl; small = omega arith }

bufprintf_all-Shows_example :
    (start : Buffer) × (b : Buffer) × (bufinit (replicate 5 1) 2 ≡ some start)
    × (bufprintf_all print_char start (b'h' ∷ b'i' ∷ []) ≡ some b)
    × (take (suc b.data_offset) b.output
        ≡ take (2 - 1) (texts char_text (b'h' ∷ b'i' ∷ [])) ++ (0 ∷ []))
    × (b.data_offset + b.available ≡ 2)
    × (0 < b.available)
bufprintf_all-Shows_example =
    bufprintf_all-Shows print_char char_text (replicate 5 1) 2 (b'h' ∷ b'i' ∷ [])
      (print_char-IsFormatted _, (print_char-IsFormatted _, tt)) (omega arith) (omega arith)
