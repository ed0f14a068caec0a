-- ===== src/Format/Arg.antt =====
-- The arguments of a call of the formatter of bazelPro/src/lib/snprintf_asyncsignalsafe.cc, and the
-- integers that it reads from them. A `long` is its 64-bit pattern.
use Prim.Native.Char.{code}
use Prim.Native.String.{String}
use ng.Base.{
  ℕ, ◌+◌, ◌-◌, ◌%◌, ◌^◌, List, [], ◌∷◌, Option, none, some, Bool, ltb, leb, if◌then◌else◌,
}

-- The codes of a literal of the source.
abbrev pub codes : String → List ℕ
codes String.[] = []
codes (String.◌∷◌ c s) = code c ∷ codes s

-- One place of the `va_list`: an integer of any size as 64 bits, a string, the pointer that `%n`
-- stores to, or a `double`, of a type `F`.
pub data Arg (F : Type 0) : Type 0 where
  word : ℕ → Arg F
  text : List ℕ → Arg F
  place : Arg F
  real : F → Arg F

-- `(long) (int) w`
abbrev pub long_of_int : ℕ → ℕ
long_of_int w = if ltb (w % 2 ^ 32) (2 ^ 31) then w % 2 ^ 32 else w % 2 ^ 32 + (2 ^ 64 - 2 ^ 32)

-- `(int) (short) num`, as a `long`.
abbrev pub long_of_short : ℕ → ℕ
long_of_short w = if ltb (w % 2 ^ 16) (2 ^ 15) then w % 2 ^ 16 else w % 2 ^ 16 + (2 ^ 64 - 2 ^ 16)

abbrev pub is_negative : ℕ → Bool
is_negative num = leb (2 ^ 63) num

-- `-num`
abbrev pub negate : ℕ → ℕ
negate num = (2 ^ 64 - num) % 2 ^ 64

-- `va_arg`; `none` where there is no argument of this kind.
module _ {F : Type 0} where
  abbrev pub next_word : List (Arg F) → Option (ℕ × List (Arg F))
  next_word (word w ∷ args) = some (w, args)
  next_word (text s ∷ args) = none
  next_word (place ∷ args) = none
  next_word (real f ∷ args) = none
  next_word [] = none

  abbrev pub next_text : List (Arg F) → Option (List ℕ × List (Arg F))
  next_text (word w ∷ args) = none
  next_text (text s ∷ args) = some (s, args)
  next_text (place ∷ args) = none
  next_text (real f ∷ args) = none
  next_text [] = none

  abbrev pub next_place : List (Arg F) → Option (List (Arg F))
  next_place (word w ∷ args) = none
  next_place (text s ∷ args) = none
  next_place (place ∷ args) = some args
  next_place (real f ∷ args) = none
  next_place [] = none

  abbrev pub next_real : List (Arg F) → Option (F × List (Arg F))
  next_real (word w ∷ args) = none
  next_real (text s ∷ args) = none
  next_real (place ∷ args) = none
  next_real (real f ∷ args) = some (f, args)
  next_real [] = none
