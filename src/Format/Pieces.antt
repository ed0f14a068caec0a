-- ===== src/Format/Pieces.antt =====
-- Formats of literal text and of strings in fields, and what they stand for, described apart from
-- bazelPro/src/lib/snprintf_asyncsignalsafe.cc.
use ng.Base.{
  ℕ, ◌+◌, ◌-◌, ◌*◌, ◌^◌, ◌≤◌, ◌<◌, ◌≡◌, List, [], ◌∷◌, ◌++◌, Bool, true, false, All, length,
  replicate,
}
use ng.Dump.{c_string}
use ng.Format.Arg.{Arg, text}
use ng.Error.Prints.{IsShort, no_percent}

-- A piece of a format: text without directives, or a string in a field, to the left or to the right of
-- it, with the digits of its width.
pub data Piece : Type 0 where
  literal : List ℕ → Piece
  field : Bool → ℕ → List ℕ → List ℕ → Piece

-- The number with these decimal digits behind `n`.
abbrev pub decimal : ℕ → List ℕ → ℕ
decimal n [] = n
decimal n (d ∷ ds) = decimal (n * 10 + d) ds

abbrev pub digit_codes : List ℕ → List ℕ
digit_codes [] = []
digit_codes (d ∷ ds) = (b'0' + d) ∷ digit_codes ds

-- What is printed for a field: at least so many characters, filled by spaces.
abbrev pub field_text : Bool → ℕ → List ℕ → List ℕ
field_text true k p = p ++ replicate (k - length p) b' '
field_text false k p = replicate (k - length p) b' ' ++ p

abbrev pub left_flag : Bool → List ℕ
left_flag true = b'-' ∷ []
left_flag false = []

abbrev pub format_of : List Piece → List ℕ
format_of [] = []
format_of (literal t ∷ ps) = t ++ format_of ps
format_of (field left d ds p ∷ ps) =
    b'%' ∷ (left_flag left ++ ((b'0' + d) ∷ (digit_codes ds ++ (b's' ∷ format_of ps))))

abbrev pub args_of : {F : Type 0} → List Piece → List (Arg F)
args_of [] = []
args_of (literal t ∷ ps) = args_of ps
args_of (field left d ds p ∷ ps) = text p ∷ args_of ps

abbrev pub text_of : List Piece → List ℕ
text_of [] = []
text_of (literal t ∷ ps) = t ++ text_of ps
text_of (field left d ds p ∷ ps) = field_text left (decimal d ds) (c_string p) ++ text_of ps

-- The digits of a width begin with one that is not 0, and an `int` holds the width.
abbrev pub IsPiece : Piece → Type 0
IsPiece (literal t) = no_percent t ≡ true
IsPiece (field left d ds p) =
    (1 ≤ d) × (d ≤ 9) × All (λ e. e ≤ 9) ds × (decimal d ds < 2 ^ 31) × IsShort p
