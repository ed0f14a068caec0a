-- ===== src/Dump/Total.antt =====
-- When `hexdump` of bazelPro/src/utils/dump.cc returns: the text always fits its buffer.
use ng.Base.{
  ℕ, zero, suc, ◌+◌, ◌-◌, ◌*◌, ◌%◌, ◌/◌, ◌≤◌, ◌<◌, ◌≡◌, ◌≢◌, refl, ◌∙◌, arith, List, [], ◌∷◌, ◌++◌,
}
use ng.Base.{Option, some, Bool, true, length, length-append, length-set, get_elem?-some, le→leb}
use ng.Base.{
  ◌↔◌, Bool-cases, inl, inr, ltb, ltb→lt, ◌==◌, ==_false, replicate, set, length-take, take,
}
use ng.Dump.{
  to_hex, hex_digit, c_string, sprintf, Line, cell, cells, row, rows, line_nbr, line_size,
  dump_lines, hexdump,
}

sprintf-some :
    (room : ℕ) (line text : List ℕ)
    → length line + length text + 1 ≤ room
    → sprintf room line text ≡ some (line ++ text)
unfolding sprintf
sprintf-some room line text h = rw (le→leb _ _ h)

pub length-to_hex : (n v : ℕ) → length (to_hex n v) ≡ n
length-to_hex zero v = refl
length-to_hex (suc n) v =
    omega
      (arith, length-append (to_hex n (v / 16)) (hex_digit (v % 16) ∷ []), length-to_hex n (v / 16))

pub length-c_string-le : (cs : List ℕ) → length (c_string cs) ≤ length cs
length-c_string-le [] = omega arith
length-c_string-le (c ∷ cs) = ground (arith, length-c_string-le cs)

-- A step that returns, writes from `least` to `most` characters and leaves the 17 bytes in place.
abbrev Writes : Option Line → Line → ℕ → ℕ → Type 0
Writes r l least most =
    (m : Line) × (r ≡ some m)
    × (length l.line + least ≤ length m.line)
    × (length m.line ≤ length l.line + most)
    × (length m.buf ≡ 17)

module _ (my_str : List ℕ) (len room : ℕ) (given : len ≤ length my_str) where
  cell-Writes :
      (j ite i : ℕ) (l : Line)
      → length l.buf ≡ 17
      → length l.line + 4 ≤ room
      → Writes (cell my_str len room j ite i l) l 0 3
  unfolding cell
  cell-Writes j ite i l b h = elim (Bool-cases (ltb (i + ite) len)) [
    | inl e ↦
        let (byte, g) = get_elem?-some my_str (i + ite) (omega (arith, ltb→lt (i + ite) len e)) in
        (
          record { buf = set l.buf i byte; line = l.line ++ (to_hex 2 byte ++ (b' ' ∷ [])) },
          rw (e, g, sprintf-some room l.line (to_hex 2 byte ++ (b' ' ∷ [])) (omega arith)),
          omega (arith, length-append l.line (to_hex 2 byte ++ (b' ' ∷ []))),
          omega (arith, length-append l.line (to_hex 2 byte ++ (b' ' ∷ []))),
          length-set l.buf i byte ∙ b,
        )
    | inr e ↦ rw e (elim (Bool-cases (j == 0)) [
      | inl z ↦ (l, rw z, omega arith, omega arith, b)
      | inr z ↦ (
        record { buf = set l.buf i b' '; line = l.line ++ (b' ' ∷ b' ' ∷ b' ' ∷ []) },
        rw (z, sprintf-some room l.line (b' ' ∷ b' ' ∷ b' ' ∷ []) (omega arith)),
        omega (arith, length-append l.line (b' ' ∷ b' ' ∷ b' ' ∷ [])),
        omega (arith, length-append l.line (b' ' ∷ b' ' ∷ b' ' ∷ [])),
        length-set l.buf i b' ' ∙ b,
      )
    ])
  ]

  cells-Writes :
      (left j ite i : ℕ) (l : Line)
      → length l.buf ≡ 17
      → length l.line + 3 * left + 1 ≤ room
      → Writes (cells left my_str len room j ite i l) l 0 (3 * left)
  unfolding cells
  cells-Writes zero j ite i l b h = (l, refl, omega arith, omega arith, b)
  cells-Writes (suc left) j ite i l b h =
      let (m, e, low, high, b') = cell-Writes j ite i l b (omega arith) in
      let (n, f, low', high', b'') = cells-Writes left j ite (i + 1) m b' (omega arith) in
      (n, rw e f, omega arith, omega arith, b'')

  row-Writes :
      (j ite : ℕ) (l : Line)
      → length l.buf ≡ 17
      → length l.line + line_size ≤ room
      → Writes (row my_str len room j ite l) l 4 79
  unfolding row
  row-Writes j ite l b h =
      let head = to_hex 8 j ++ (b' ' ∷ b' ' ∷ []) in
      let (m, e, low, high, b') =
        cells-Writes 16 j ite 0 (record { buf = l.buf; line = l.line ++ head }) b
          (omega (arith, length-append l.line head)) in
      let tail = b' ' ∷ b'|' ∷ (c_string m.buf ++ (b'|' ∷ 10 ∷ [])) in
      let tail_le : length tail ≤ 21 =
        omega (arith, length-append (c_string m.buf) (b'|' ∷ 10 ∷ []), length-c_string-le m.buf) in
      (
        record { buf = m.buf; line = m.line ++ tail },
        rw (
          sprintf-some room l.line head (omega arith),
          e,
          sprintf-some room m.line tail (omega (arith, length-append l.line head)),
        ),
        omega (arith, length-append m.line tail, length-append l.line head),
        omega (arith, length-append m.line tail, length-append l.line head),
        b',
      )

  rows-Writes :
      (left j ite : ℕ) (l : Line)
      → length l.buf ≡ 17
      → length l.line + left * line_size ≤ room
      → Writes (rows left my_str len room j ite l) l left (79 * left)
  unfolding rows
  rows-Writes zero j ite l b h = (l, refl, omega arith, omega arith, b)
  rows-Writes (suc left) j ite l b h =
      let (m, e, low, high, b') = row-Writes j ite l b (omega arith) in
      let (n, f, low', high', b'') = rows-Writes left (j + 1) (ite + 16) m b' (omega arith) in
      (n, rw e f, omega arith, omega arith, b'')

text_len_lt : (n room : ℕ) → n ≤ 79 * room → 0 < room → n < room * line_size
text_len_lt n room h k = omega arith

line_nbr-pos : (len : ℕ) → len ≢ 0 → 0 < line_nbr len
line_nbr-pos len h = ground arith

-- `hexdump` on data of at least `len` bytes returns exactly when `len` is not 0 and `calloc` gives
-- memory, and what it prints is then shorter than the buffer that was allocated for it, 128
-- characters for every 16 bytes begun. Otherwise it uses a pointer that was never set.
pub hexdump_iff :
    (allocated : Bool) (addr : List ℕ) (len : ℕ)
    → len ≤ length addr
    → ((text : List ℕ) × (hexdump allocated addr len ≡ some text)
        × (length text < line_nbr len * line_size))
      ↔ ((len ≢ 0) × (allocated ≡ true))
unfolding hexdump dump_lines
hexdump_iff allocated addr len h = (only, returns)
  where
    only :
        ((text : List ℕ) × (hexdump allocated addr len ≡ some text)
          × (length text < line_nbr len * line_size))
        → (len ≢ 0) × (allocated ≡ true)
    only (text, e, _) = ground arith

    returns :
        (len ≢ 0) × (allocated ≡ true)
        → (text : List ℕ) × (hexdump allocated addr len ≡ some text)
          × (length text < line_nbr len * line_size)
    returns (ne, a) =
        let start : Line = record { buf = replicate 17 0; line = [] } in
        let (l, e, low, high, b) =
          rows-Writes addr len (line_nbr len * line_size) h (line_nbr len) 0 0 start refl
            (omega arith) in
        let pos = line_nbr-pos len ne in
        (
          take (length l.line - 1) l.line,
          rw (==_false len 0 ne, a, e, ==_false (length l.line) 0 (omega arith)),
          omega (arith, length-take (length l.line - 1) l.line),
        )
