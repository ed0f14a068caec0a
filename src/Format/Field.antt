-- ===== src/Format/Field.antt =====
-- How a directive of bazelPro/src/lib/snprintf_asyncsignalsafe.cc stores its field.
use ng.Base.{
  ℕ, zero, suc, ◌-◌, ◌%◌, ◌^◌, ◌≤◌, ◌<◌, ◌≡◌, refl, ap, arith, List, [], ◌∷◌, ◌++◌, some, Bool,
  true, false, ◌&&◌,
}
use ng.Base.{
  inl, inr, length, take, replicate, length-append, append-nil, min, lt→ltb, if◌then◌else◌, ℤ, pos,
  pos_part, ltb_ℤ, ◌-ℤ◌,
}
use ng.Format.Arg.{Arg}
use ng.Format.Itoa.Value.{read_digits, itoa-read, IsBase}
use ng.Format.Convert.{Spec, Field, stored, number_field, x_inf, Number, is_zero}

take-whole : (k : ℕ) (xs : List ℕ) → length xs ≤ k → take k xs ≡ xs
take-whole zero [] h = refl
take-whole zero (x ∷ xs) h = absurd (omega arith)
take-whole (suc k) [] h = refl
take-whole (suc k) (x ∷ xs) h = ap (◌∷◌ x) (take-whole k xs (omega arith))

abbrev wider : ℕ → ℕ → ℤ
wider w n = if ltb_ℤ (pos w) (pos n) then pos n else pos w

unlimited : (n : ℕ) → n ≤ 0x7ffffff0 → ltb_ℤ x_inf (pos n) ≡ false
unlimited n h = ground arith

padding : (w n : ℕ) → pos_part (wider w n -ℤ pos n) ≡ w - n
padding w n = ground arith

shown : (w n : ℕ) → min n (pos_part (wider w n)) ≡ n
shown w n = ground arith

-- A short string in a field that is not justified to the left: padding to the width.
pub stored_right :
    {F : Type 0} (d : Field F) (s : Spec) (w : ℕ)
    → length d.p ≤ 0x7ffffff0
    → d.prec ≡ x_inf
    → d.width ≡ pos w
    → s.ljust ≡ false
    → stored s d ≡ d.at_once ++ (replicate (w - length d.p) (if d.fillz then b'0' else b' ') ++ d.p)
unfolding stored
stored_right d s w short whole wide right =
    rw
      (
        whole,
        wide,
        right,
        unlimited (length d.p) short,
        padding w (length d.p),
        shown w (length d.p),
        take-whole (length d.p) d.p (omega arith),
        append-nil d.p,
      )
      refl

-- A short string in a field that is justified to the left.
pub stored_left :
    {F : Type 0} (d : Field F) (s : Spec) (w : ℕ)
    → length d.p ≤ 0x7ffffff0
    → d.prec ≡ x_inf
    → d.width ≡ pos w
    → s.ljust ≡ true
    → stored s d ≡ d.at_once ++ (d.p ++ replicate (w - length d.p) b' ')
unfolding stored
stored_left d s w short whole wide left =
    rw
      (
        whole,
        wide,
        left,
        unlimited (length d.p) short,
        padding w (length d.p),
        shown w (length d.p),
        take-whole (length d.p) d.p (omega arith),
      )
      refl

-- An integer with no precision: its field holds the front and the digits.
module _ {F : Type 0} (s : Spec) (base : ℕ) (caps : Bool) (n : Number) (args : List (Arg F)) where
  abbrev pub digits_field : List ℕ → Field F
  digits_field t = record {
    at_once = n.at_once;
    p = n.front ++ t;
    prec = x_inf;
    width = n.width;
    fillz = s.fillz && is_zero n.prec;
    counts = false;
    args = args;
  }

  pub number_field-some :
      IsBase base
      → n.prec ≡ pos 0
      → length n.front ≤ 2
      → (t : List ℕ) × (number_field s base caps n args ≡ some (digits_field t))
        × (read_digits base 0 t ≡ n.num % 2 ^ 32)
        × (0 < length t)
        × (length t ≤ 11)
  unfolding number_field
  number_field-some b z l = elim (itoa-read (n.num % 2 ^ 32) base caps (pos 0) b (omega arith)) [
    | inl (large, e) ↦ absurd (omega arith)
    | inr (small, (t, e, value, some_digit, needed, few)) ↦
        let fits : length (n.front ++ t) < 36 = omega (arith, length-append n.front t) in
        (t, rw (z, e, lt→ltb _ _ fits) refl, value, some_digit, omega arith)
  ]
