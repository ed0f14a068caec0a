-- ===== src/Dump.antt =====
-- `hexdump` and `_hexdump` of bazelPro/src/utils/dump.cc. The text is a list of character codes.
-- `none` is an access outside an array, or the use of a pointer that was never set.
pub mod Total
mod Tests
use ng.Base.{
  ℕ, zero, suc, ◌+◌, ◌-◌, ◌*◌, ◌/◌, ◌%◌, ◌<◌, List, [], ◌∷◌, ◌++◌, Option, none, some, Bool,
}
use ng.Base.{
  not, ◌||◌, ltb, leb, ◌==◌, if◌then◌else◌, ◌>>=◌, length, get_elem?, set, replicate, take, true,
  false,
}

abbrev pub line_size : ℕ
line_size = 128

abbrev pub hex_digit : ℕ → ℕ
hex_digit d = if ltb d 10 then b'0' + d else b'a' + (d - 10)

-- `%0<n>x`, of a value of at most `n` digits.
abbrev pub to_hex : ℕ → ℕ → List ℕ
to_hex zero v = []
to_hex (suc n) v = to_hex n (v / 16) ++ (hex_digit (v % 16) ∷ [])

-- `%s`: up to the first null byte.
abbrev pub c_string : List ℕ → List ℕ
c_string [] = []
c_string (c ∷ cs) = if c == 0 then [] else c ∷ c_string cs

-- `line_ite += sprintf(&line[line_ite], …)`, which also writes a null byte behind the text.
pub sprintf : ℕ → List ℕ → List ℕ → Option (List ℕ)
sprintf room line text =
    if leb (length line + length text + 1) room then some (line ++ text) else none

-- `buf` with its last, 17th, byte, and the text so far.
pub record Line : Type 0 where
  pub buf : List ℕ
  pub line : List ℕ

-- One round of the inner loop.
pub cell : List ℕ → ℕ → ℕ → ℕ → ℕ → ℕ → Line → Option Line
cell my_str len room j my_str_ite i l =
    if ltb (i + my_str_ite) len
    then (do
      byte ← get_elem? my_str (i + my_str_ite)
      line ← sprintf room l.line (to_hex 2 byte ++ (b' ' ∷ []))
      some (record { buf = set l.buf i byte; line = line }))
    else if not (j == 0)
    then (do
      line ← sprintf room l.line (b' ' ∷ b' ' ∷ b' ' ∷ [])
      some (record { buf = set l.buf i b' '; line = line }))
    else some l

-- The inner loop, with the rounds left.
pub cells : ℕ → List ℕ → ℕ → ℕ → ℕ → ℕ → ℕ → Line → Option Line
cells zero my_str len room j my_str_ite i l = some l
cells (suc left) my_str len room j my_str_ite i l =
    cell my_str len room j my_str_ite i l >>= cells left my_str len room j my_str_ite (i + 1)

-- One round of the outer loop.
pub row : List ℕ → ℕ → ℕ → ℕ → ℕ → Line → Option Line
row my_str len room j my_str_ite l = do
  head ← sprintf room l.line (to_hex 8 j ++ (b' ' ∷ b' ' ∷ []))
  m ← cells 16 my_str len room j my_str_ite 0 (record { buf = l.buf; line = head })
  line ← sprintf room m.line (b' ' ∷ b'|' ∷ (c_string m.buf ++ (b'|' ∷ 10 ∷ [])))
  some (record { buf = m.buf; line = line })

-- The outer loop, with the rounds left.
pub rows : ℕ → List ℕ → ℕ → ℕ → ℕ → ℕ → Line → Option Line
rows zero my_str len room j my_str_ite l = some l
rows (suc left) my_str len room j my_str_ite l =
    row my_str len room j my_str_ite l >>= rows left my_str len room (j + 1) (my_str_ite + 16)

abbrev pub line_nbr : ℕ → ℕ
line_nbr len = if len % 16 == 0 then len / 16 else len / 16 + 1

-- `refused` is the result -1, which leaves `*buffer` as it was.
pub data Dumped : Type 0 where
  refused : Dumped
  dumped : List ℕ → ℕ → Dumped

-- `allocated`: whether `calloc` returned memory. The text ends one before its last character, over
-- which a null byte is written.
unfoldable pub dump_lines : Bool → List ℕ → ℕ → Option Dumped
dump_lines allocated addr len =
    let room = line_nbr len * line_size in
    let printed =
      rows (line_nbr len) addr len room 0 0 (record { buf = replicate 17 0; line = [] }) in
    if len == 0 || not allocated then some refused else do
      l ← printed
      if length l.line == 0 then none else some (dumped (take (length l.line - 1) l.line) room)

abbrev pub printed_text : Dumped → Option (List ℕ)
printed_text refused = none
printed_text (dumped text size) = some text

-- What `hexdump` prints: on a refusal it reads and frees a pointer that was never set.
unfoldable pub hexdump : Bool → List ℕ → ℕ → Option (List ℕ)
hexdump allocated addr len = dump_lines allocated addr len >>= printed_text
