-- ===== src/Sys/Stream.antt =====
-- How a file stream of the C++ library is read by `>>` in bazelPro/src/utils/sys.cc: spaces are
-- skipped, then a word or a number is taken; after a failure nothing is read any more.
pub mod Tokens
pub mod Checked
use ng.Base.{
  ℕ, zero, suc, ◌+◌, ◌-◌, ◌*◌, ◌^◌, List, [], ◌∷◌, Option, none, some, Bool, true, false, ◌&&◌,
  ◌||◌, ◌==◌, ltb, leb, if◌then◌else◌, ℤ, pos, negsuc, neg,
}

-- `rest` is what was not read, and `failed` tells whether `failbit` is set.
pub record Stream : Type 0 where
  pub rest : List ℕ
  pub failed : Bool

abbrev pub after : List ℕ → Stream
after rest = record { rest = rest; failed = false }

abbrev pub broken : List ℕ → Stream
broken rest = record { rest = rest; failed = true }

-- The stream of a file, `none` when it cannot be opened.
unfoldable pub ifstream : Option (List ℕ) → Stream
ifstream none = broken []
ifstream (some text) = after text

abbrev pub is_space : ℕ → Bool
is_space c = (c == 32) || (leb 9 c && leb c 13)

abbrev pub is_digit : ℕ → Bool
is_digit c = leb 48 c && leb c 57

pub skip_spaces : List ℕ → List ℕ
skip_spaces [] = []
skip_spaces (c ∷ cs) = let rest = skip_spaces cs in if is_space c then rest else c ∷ cs

-- The characters up to the first that is none of the kind, and the others.
pub span : (ℕ → Bool) → List ℕ → List ℕ × List ℕ
span kind [] = ([], [])
span kind (c ∷ cs) =
    let more = span kind cs in if kind c then (c ∷ more.0, more.1) else ([], c ∷ cs)

abbrev pub is_word : ℕ → Bool
is_word c = if is_space c then false else true

-- `>>` into a string that held `old`.
pub get_string : Stream → List ℕ → Stream × List ℕ
get_string s old = if s.failed then (s, old) else elim (skip_spaces s.rest) [
  | [] ↦ (broken [], old)
  | c ∷ cs ↦ let taken = span is_word (c ∷ cs) in (after taken.1, taken.0)
]

unfoldable pub value_from : ℕ → List ℕ → ℕ
value_from n [] = n
value_from n (d ∷ ds) = value_from (n * 10 + (d - 48)) ds

abbrev pub value : List ℕ → ℕ
value ds = value_from 0 ds

-- The number of these digits, or the nearest `int` with a failure.
pub int_of_digits : Bool → List ℕ → List ℕ → Stream × ℤ
int_of_digits negative [] rest = (broken rest, pos 0)
int_of_digits false (d ∷ ds) rest =
    if ltb (value (d ∷ ds)) (2 ^ 31)
    then (after rest, pos (value (d ∷ ds)))
    else (broken rest, pos (2 ^ 31 - 1))
int_of_digits true (d ∷ ds) rest =
    if leb (value (d ∷ ds)) (2 ^ 31)
    then (after rest, neg (value (d ∷ ds)))
    else (broken rest, negsuc (2 ^ 31 - 1))

pub int_from : Bool → List ℕ → Stream × ℤ
int_from negative cs = let taken = span is_digit cs in int_of_digits negative taken.0 taken.1

-- `>>` into an `int` that held `old`, `none` while it was never set. A text that is no number sets 0.
pub get_int : Stream → Option ℤ → Stream × Option ℤ
get_int s old = if s.failed then (s, old) else elim (skip_spaces s.rest) [
  | [] ↦ (broken [], old)
  | c ∷ cs ↦
      let got =
        if c == 45
        then int_from true cs
        else if c == 43
        then int_from false cs
        else int_from false (c ∷ cs) in
      (got.0, some got.1)
]
