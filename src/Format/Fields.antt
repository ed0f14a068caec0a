-- ===== src/Format/Fields.antt =====
-- What is printed for literal text and strings in fields by bazelPro/src/lib/snprintf_asyncsignalsafe.cc.
use ng.Base.{
  ℕ, ◌+◌, ◌-◌, ◌*◌, ◌^◌, ◌≤◌, ◌<◌, ◌≡◌, ◌≢◌, refl, sym, ap, ◌∙◌, arith, List, [], ◌∷◌, ◌++◌, Option,
  none, some, ◌>>=◌, Bool, true, false, if◌then◌else◌,
}
use ng.Base.{All, inl, inr, length, take, leb, le→leb, ltb, lt→ltb, pos, ==_false}
use ng.Dump.{c_string}
use ng.Dump.Total.{length-c_string-le}
use ng.Format.Arg.{Arg, text}
use ng.Format.Ftoa.{Double}
use ng.Format.Print.{
  Mode, plain, flags, width_digits, step, flagged, flag, directive, at_end,
  vsnprintf_asyncsignalsafe,
}
use ng.Format.Convert.{Spec, no_flags, convert, fetch, fetch_both, string_field, x_inf}
use ng.Format.Contract.{expansion, vsnprintf-contract}
use ng.Format.Field.{stored_right, stored_left}
use ng.Format.Numbers.{Stores}
use ng.Format.Pieces.{
  Piece, literal, field, decimal, digit_codes, field_text, left_flag, format_of, args_of, text_of,
  IsPiece,
}
use ng.Error.Prints.{IsShort, expansion-literal}

le-decimal : (n : ℕ) (ds : List ℕ) → n ≤ decimal n ds
le-decimal n [] = omega arith
le-decimal n (d ∷ ds) = omega (arith, le-decimal (n * 10 + d) ds)

bind_some : {A : Type 0} (x : Option A) → (x >>= λ r. some r) ≡ x
bind_some none = refl
bind_some (some a) = refl

abbrev justified : Bool → ℕ → Spec
justified left k = record no_flags { ljust = left; width = pos k }

module _ {F : Type 0} (fl : Double F) (turns : ℕ) where
  expansion-width :
      (left : Bool) (k : ℕ) (ds fmt : List ℕ) (args : List (Arg F))
      → All (λ e. e ≤ 9) ds
      → decimal k ds < 2 ^ 31
      → expansion fl turns (width_digits (justified left k)) (digit_codes ds ++ fmt) args
        ≡ expansion fl turns (width_digits (justified left (decimal k ds))) fmt args
  unfolding expansion step
  expansion-width left k [] fmt args h l = refl
  expansion-width left k (d ∷ ds) fmt args h l =
      let low : leb b'0' (b'0' + d) ≡ true = le→leb _ _ (omega arith) in
      let high : leb (b'0' + d) b'9' ≡ true = le→leb _ _ (omega (arith, h.0)) in
      let next : k * 10 + ((b'0' + d) - b'0') ≡ k * 10 + d = omega arith in
      let holds : ltb (k * 10 + d) (2 ^ 31) ≡ true =
        lt→ltb _ _ (omega (arith, le-decimal (k * 10 + d) ds)) in
      rw (low, high, next, holds)
        (bind_some _ ∙ expansion-width left (k * 10 + d) ds fmt args h.1 l)

  directive-field :
      (left : Bool) (k : ℕ) (p : List ℕ) (args : List (Arg F))
      → IsShort p
      → Stores
          (directive fl turns (justified left k) b's' (text p ∷ args))
          (field_text left k (c_string p))
          args
  unfolding directive fetch_both fetch convert
  directive-field true k p args h =
      rw
        (stored_left (string_field (justified true k) (c_string p) x_inf args) (justified true k) k
          (omega (arith, length-c_string-le p)) refl refl refl)
        refl
  directive-field false k p args h =
      rw
        (stored_right (string_field (justified false k) (c_string p) x_inf args) (justified false k)
          k (omega (arith, length-c_string-le p)) refl refl refl)
        refl

  expansion-field :
      (left : Bool) (k : ℕ) (p fmt t : List ℕ) (args : List (Arg F))
      → IsShort p
      → expansion fl turns plain fmt args ≡ some t
      → expansion fl turns (width_digits (justified left k)) (b's' ∷ fmt) (text p ∷ args)
        ≡ some (field_text left k (c_string p) ++ t)
  unfolding expansion step flagged flag
  expansion-field left k p fmt t args h e = rw (directive-field left k p args h, e) refl

  flag-digit :
      (s : Spec) (d : ℕ) (fmt : List ℕ)
      → 1 ≤ d
      → d ≤ 9
      → flag s (b'0' + d) fmt ≡ some (width_digits (record s { width = pos d }))
  unfolding flag
  flag-digit s d fmt h l =
      let c = b'0' + d in
      let low : leb b'1' c ≡ true = le→leb _ _ (omega arith) in
      let high : leb c b'9' ≡ true = le→leb _ _ (omega arith) in
      let value : c - b'0' ≡ d = omega arith in
      rw
        (
          ==_false c b'h' (omega arith),
          ==_false c b'l' (omega arith),
          ==_false c b'-' (omega arith),
          ==_false c b'+' (omega arith),
          ==_false c b' ' (omega arith),
          ==_false c b'0' (omega arith),
          ==_false c b'#' (omega arith),
          ==_false c b'*' (omega arith),
          ==_false c b'.' (omega arith),
          low,
          high,
          value,
        )
        refl

  flag-minus :
      (fmt : List ℕ) → flag no_flags b'-' fmt ≡ some (flags (record no_flags { ljust = true }))
  unfolding flag
  flag-minus fmt = refl

  expansion-flag :
      (s : Spec) (c : ℕ) (fmt : List ℕ) (m : Mode) (args : List (Arg F))
      → flag s c fmt ≡ some m
      → expansion fl turns (flags s) (c ∷ fmt) args ≡ expansion fl turns m fmt args
  unfolding expansion step flagged
  expansion-flag s c fmt m args e = rw (flagged, e) (bind_some _)

  expansion-percent :
      (fmt : List ℕ) (args : List (Arg F))
      → expansion fl turns plain (b'%' ∷ fmt) args ≡ expansion fl turns (flags no_flags) fmt args
  unfolding expansion step
  expansion-percent fmt args = bind_some _

  expansion-begin :
      (left : Bool) (d : ℕ) (fmt : List ℕ) (args : List (Arg F))
      → 1 ≤ d
      → d ≤ 9
      → expansion fl turns plain (b'%' ∷ (left_flag left ++ ((b'0' + d) ∷ fmt))) args
        ≡ expansion fl turns (width_digits (justified left d)) fmt args
  expansion-begin true d fmt args h l =
      let rest = (b'0' + d) ∷ fmt in
      let minus : Spec = record no_flags { ljust = true } in
      expansion-percent (b'-' ∷ rest) args
      ∙ expansion-flag no_flags b'-' rest (flags minus) args (flag-minus rest)
      ∙ expansion-flag minus (b'0' + d) fmt _ args (flag-digit minus d fmt h l)
  expansion-begin false d fmt args h l =
      expansion-percent ((b'0' + d) ∷ fmt) args
      ∙ expansion-flag no_flags (b'0' + d) fmt _ args (flag-digit no_flags d fmt h l)

  expansion-pieces :
      (ps : List Piece)
      → All IsPiece ps
      → expansion fl turns plain (format_of ps) (args_of ps) ≡ some (text_of ps)
  unfolding expansion at_end
  expansion-pieces [] h = refl
  expansion-pieces (literal t ∷ ps) h =
      expansion-literal fl turns t (format_of ps) (args_of ps) (text_of ps) h.0
        (expansion-pieces ps h.1)
  expansion-pieces (field left d ds p ∷ ps) ((low, high, digits, holds, short), rest) =
      expansion-begin left d (digit_codes ds ++ (b's' ∷ format_of ps)) (text p ∷ args_of ps) low
        high
      ∙ expansion-width left d ds (b's' ∷ format_of ps) (text p ∷ args_of ps) digits holds
      ∙ expansion-field left (decimal d ds) p (format_of ps) (text_of ps) (args_of ps) short
          (expansion-pieces ps rest)

  -- A format of literal text and of strings in fields, to the left or to the right of them, with any
  -- widths that an `int` holds, is printed in any room of at least one byte: the call returns, has
  -- written the texts of the pieces one after the other, cut off to leave a byte for the null byte,
  -- and the null byte, and returns the length of all the text. The strings are at most 2^24 long, and
  -- all the text is less than 2^31.
  pub vsnprintf-pieces :
      (size : ℕ) (ps : List Piece)
      → size ≢ 0
      → All IsPiece ps
      → length (text_of ps) < 2 ^ 31
      → vsnprintf_asyncsignalsafe fl turns size (format_of ps, args_of ps)
        ≡ some (take (size - 1) (text_of ps) ++ 0 ∷ [], length (text_of ps))
  vsnprintf-pieces size ps ne h small =
      let e = expansion-pieces ps h in
      let holds : ltb (length (text_of ps)) (2 ^ 31) ≡ true = lt→ltb _ _ small in
      elim (vsnprintf-contract fl turns size (format_of ps) (args_of ps) ne) [
        | inl (none_left, f) ↦ absurd (none_some (text_of ps) (sym none_left ∙ e))
        | inr (t, e', f) ↦
            let same : some t ≡ some (text_of ps) = sym e' ∙ e in
            f
            ∙ ap
                (λ x.
                  if ltb (length x) (2 ^ 31)
                  then some (take (size - 1) x ++ 0 ∷ [], length x)
                  else none)
                (value same)
            ∙ rw holds refl
      ]
    where
      none_some : (t : List ℕ) → none ≡ some t → ⊥
      none_some t e = absurd (cc)

      value : {s t : List ℕ} → some s ≡ some t → s ≡ t
      value e = cc
