-- ===== src/Sys/Memory/Unset.antt =====
-- What `get_memory_usage` of bazelPro/src/utils/sys.cc reads from lines as the kernel writes them.
use ng.Base.{
  ℕ, zero, suc, inl, inr, Option-cases, ◌^◌, ◌<◌, ◌≡◌, refl, ap, ◌∙◌, List, [], ◌∷◌, ◌++◌, none,
  some, pos, All, ◌-ℤ◌,
}
use ng.Sys.Stream.{after, broken, value, ifstream}
use ng.Sys.Stream.Tokens.{
  Space, Plain, Digit, Token, get_int-digits, get_int-no_number, get_string-word, get_string-broken,
  get_int-broken, number-Token,
}
use ng.Sys.Double.{Double}
use ng.Sys.Memory.{ignore, amount, read_memory, get_memory_usage, int}

-- A line: a name, spaces, a number, and " kB".
pub record Line : Type 0 where
  pub name : List ℕ
  pub gap : ℕ
  pub number : List ℕ

abbrev pub gap_of : ℕ → List ℕ
gap_of zero = []
gap_of (suc n) = 32 ∷ gap_of n

abbrev pub unit_of : List ℕ
unit_of = 107 ∷ 66 ∷ []

abbrev pub line_text : Line → List ℕ → List ℕ
line_text l rest = l.name ++ (32 ∷ gap_of l.gap ++ (l.number ++ (32 ∷ unit_of ++ 10 ∷ rest)))

-- The name has no spaces and the number is an `int`.
pub record IsLine (l : Line) : Type 0 where
  pub name_plain : Token Plain l.name
  pub number_digits : Token Digit l.number
  pub small : value l.number < 2 ^ 31

gap-Space : (n : ℕ) → All Space (gap_of n)
gap-Space zero = tt
gap-Space (suc n) = (refl, gap-Space n)

-- A name is passed over.
ignore-name :
    (gap : List ℕ) (l : Line) (rest : List ℕ)
    → All Space gap
    → IsLine l
    → ignore (after (gap ++ line_text l rest))
      ≡ after (32 ∷ gap_of l.gap ++ (l.number ++ (32 ∷ unit_of ++ 10 ∷ rest)))
ignore-name gap l rest spaces is =
    ap (λ r. r.0)
      (get_string-word gap l.name (32 ∷ gap_of l.gap ++ (l.number ++ (32 ∷ unit_of ++ 10 ∷ rest)))
        [] spaces is.name_plain refl)

amount-number :
    (l : Line) (rest : List ℕ)
    → IsLine l
    → amount (after (32 ∷ gap_of l.gap ++ (l.number ++ (32 ∷ unit_of ++ 10 ∷ rest))))
      ≡ (after (10 ∷ rest), some (pos (value l.number)))
unfolding amount
amount-number l rest is =
    rw
      (get_int-digits (32 ∷ gap_of l.gap) l.number (32 ∷ unit_of ++ 10 ∷ rest) none
        (refl, gap-Space l.gap) is.number_digits refl is.small)
      (rw
        (
          get_string-word (32 ∷ []) unit_of (10 ∷ rest) [] (refl, tt) (refl, (refl, tt)) refl,
          ignore,
        )
        refl)

ignore-number :
    (l : Line) (rest : List ℕ)
    → IsLine l
    → ignore (after (32 ∷ gap_of l.gap ++ (l.number ++ (32 ∷ unit_of ++ 10 ∷ rest))))
      ≡ after (32 ∷ unit_of ++ 10 ∷ rest)
ignore-number l rest is =
    ap (λ r. r.0)
      (get_string-word (32 ∷ gap_of l.gap) l.number (32 ∷ unit_of ++ 10 ∷ rest) []
        (refl, gap-Space l.gap) (number-Token l.number is.number_digits) refl)

ignore-broken : (rest : List ℕ) → ignore (broken rest) ≡ broken rest
ignore-broken rest = ap (λ r. r.0) (get_string-broken rest [])

amount-broken : (rest : List ℕ) → amount (broken rest) ≡ (broken rest, none)
unfolding amount
amount-broken rest = rw (get_int-broken rest none) (rw (ignore-broken rest) refl)

-- The unit is no number.
amount-unit :
    (rest : List ℕ)
    → amount (after (32 ∷ unit_of ++ 10 ∷ rest)) ≡ (broken (unit_of ++ 10 ∷ rest), some (pos 0))
unfolding amount
amount-unit rest =
    rw (get_int-no_number (32 ∷ []) 107 (66 ∷ 10 ∷ rest) none (refl, tt) refl refl refl refl)
      (rw (ignore-broken (unit_of ++ 10 ∷ rest)) refl)

-- A line that is read as it is meant to be.
line-read :
    (gap : List ℕ) (l : Line) (rest : List ℕ)
    → All Space gap
    → IsLine l
    → amount (ignore (after (gap ++ line_text l rest)))
      ≡ (after (10 ∷ rest), some (pos (value l.number)))
line-read gap l rest spaces is =
    ap amount (ignore-name gap l rest spaces is) ∙ amount-number l rest is

-- A line whose number is taken for a word.
line-misread :
    (gap : List ℕ) (l : Line) (rest : List ℕ)
    → All Space gap
    → IsLine l
    → amount (ignore (ignore (after (gap ++ line_text l rest))))
      ≡ (broken (unit_of ++ 10 ∷ rest), some (pos 0))
line-misread gap l rest spaces is =
    ap amount (ap ignore (ignore-name gap l rest spaces is) ∙ ignore-number l rest is)
    ∙ amount-unit rest

-- What is read from four lines and anything after them.
abbrev pub four_lines : Line → Line → Line → Line → List ℕ → List ℕ
four_lines a b c d rest = line_text a (line_text b (line_text c (line_text d rest)))

read_four :
    (a b c d : Line) (rest : List ℕ)
    → IsLine a
    → IsLine b
    → IsLine c
    → IsLine d
    → read_memory (some (four_lines a b c d rest)) ≡ record {
      total_memory = some (pos (value a.number));
      free_memory = some (pos (value b.number));
      available_memory = some (pos (value c.number));
      buffer = some (pos 0);
      cache = none;
      swap = none;
      free_swap = none;
    }
unfolding read_memory ifstream
read_four a b c d rest ia ib ic id =
    let left = unit_of ++ 10 ∷ rest in
    rw
      (
        line-read [] a (line_text b (line_text c (line_text d rest))) tt ia,
        line-read (10 ∷ []) b (line_text c (line_text d rest)) (refl, tt) ib,
        line-read (10 ∷ []) c (line_text d rest) (refl, tt) ic,
        line-misread (10 ∷ []) d rest (refl, tt) id,
      )
      (simp (ignore-broken left, amount-broken left))

-- Whatever the lines of /proc/meminfo after the first four are, the first three numbers are read, but
-- the fourth read takes the unit " kB" for a number, which stores 0 and sets `failbit`, so the cache
-- and both sizes of the swap are never set, and the use of the cache that follows has no value. The
-- lines are a name without spaces, spaces, a number below 2^31 and " kB".
pub get_memory_usage-unset :
    {F : Type 0} (fl : Double F) (a b c d : Line) (rest : List ℕ)
    → IsLine a
    → IsLine b
    → IsLine c
    → IsLine d
    → (read_memory (some (four_lines a b c d rest)) ≡ record {
      total_memory = some (pos (value a.number));
      free_memory = some (pos (value b.number));
      available_memory = some (pos (value c.number));
      buffer = some (pos 0);
      cache = none;
      swap = none;
      free_swap = none;
    })
      × (get_memory_usage fl (some (four_lines a b c d rest)) ≡ none)
unfolding get_memory_usage
get_memory_usage-unset fl a b c d rest ia ib ic id =
    let e = read_four a b c d rest ia ib ic id in
    (
      e,
      rw e (elim (Option-cases (int (pos (value a.number) -ℤ pos (value b.number)))) [
        | inl f ↦ rw f refl
        | inr (n, f) ↦ rw f refl
      ]),
    )
