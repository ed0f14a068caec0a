-- ===== src/Format/Tests.antt =====
-- Concrete runs of bazelPro/src/lib/snprintf_asyncsignalsafe.cc.
use ng.Base.{
  ℕ, ◌≡◌, refl, List, [], ◌∷◌, ◌++◌, some, none, Option, false, ◌+◌, ◌-◌, ◌<◌, ◌≤◌, ◌/◌, ◌⊎◌, inr,
  arith,
}
use ng.Base.{length, pos, pos_part, leb, ◌==◌, if◌then◌else◌}
use ng.Base.{true, take}
use ng.Format.Pieces.{Piece, literal, field, format_of, args_of, text_of}
use ng.Format.Fields.{vsnprintf-pieces}
use ng.Format.Itoa.Value.{read_digits, itoa-read}
use ng.Format.Arg.{Arg, word, text, codes}
use ng.Format.Ftoa.{Double}
use ng.Format.Print.{
  vsnprintf_asyncsignalsafe, print_from, step, flagged, flag, directive, at_end, store, store_all,
}
use ng.Format.Convert.{convert, stored, fetch, fetch_both, number_field, float_field}
use ng.Format.Itoa.{itoa}

-- No test prints a `double`: every number is 0.
abbrev pub zero_double : Double ℕ
zero_double = record {
  below_zero = λ f. false;
  negated = λ f. f;
  add = λ f g. f;
  one_half = 0;
  div_ten = λ f. f;
  mul_ten = λ f. f;
  is_large = λ f. false;
  at_least_ten = λ f. false;
  truncated = λ f. 0;
  minus = λ f n. f;
}

abbrev pub printed : List ℕ → List (Arg ℕ) → Option (List ℕ × ℕ)
unfolding vsnprintf_asyncsignalsafe print_from step flagged flag directive at_end store store_all
    convert stored fetch fetch_both number_field float_field itoa
printed fmt args = vsnprintf_asyncsignalsafe zero_double 0 64 (fmt, args)

padded_hex :
    printed (codes "[%08lx|%5d|%-4s|%%]") (word 0xbeef ∷ word 0xffff_ffd6 ∷ text (codes "ab") ∷ [])
    ≡ some (codes "[0000beef|  -42|ab  |%]" ++ 0 ∷ [], 23)
unfolding printed
padded_hex = refl

-- `[%-5s|%12s]`
abbrev two_fields : List Piece
two_fields =
    literal (codes "[")
    ∷ field true 5 [] (codes "ab")
    ∷ literal (codes "|")
    ∷ field false 1 (2 ∷ []) (codes "cd")
    ∷ literal (codes "]")
    ∷ []

vsnprintf-pieces_example :
    vsnprintf_asyncsignalsafe zero_double 0 16 (format_of two_fields, args_of two_fields)
    ≡ some (take (16 - 1) (text_of two_fields) ++ 0 ∷ [], length (text_of two_fields))
vsnprintf-pieces_example =
    vsnprintf-pieces zero_double 0 16 two_fields (omega arith)
      (
        refl,
        (
          (omega arith, omega arith, tt, omega arith, omega arith),
          (
            refl,
            ((omega arith, omega arith, (omega arith, tt), omega arith, omega arith), (refl, tt)),
          ),
        ),
      )
      (omega arith)

itoa-read_example :
    ((35 < pos_part (pos 4)) × (itoa 255 16 false (pos 4) ≡ none))
    ⊎ ((pos_part (pos 4) ≤ 35)
        × ((t : List ℕ) × (itoa 255 16 false (pos 4) ≡ some t)
            × (read_digits 16 0 t ≡ 255)
            × (0 < length t)
            × (pos_part (pos 4) ≤ length t)
            × (length t ≤ pos_part (pos 4) + (11 - pos_part (pos 4)))))
itoa-read_example = itoa-read 255 16 false (pos 4) (inr (inr refl)) (omega arith)

-- Numbers in place of `double`, and one of them, 10, that no division brings below ten.
abbrev whole_numbers : Double ℕ
whole_numbers = record zero_double {
  div_ten = λ f. if f == 10 then 10 else f / 10;
  at_least_ten = λ f. leb 10 f;
}
