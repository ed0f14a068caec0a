-- ===== src/Format/Numbers.antt =====
-- Whole directives of bazelPro/src/lib/snprintf_asyncsignalsafe.cc: what the text of `%d`, and of
-- the directives for numbers in records, reads as.
use ng.Base.{
  ℕ, ◌+◌, ◌-◌, ◌%◌, ◌^◌, ◌≤◌, ◌<◌, ◌≡◌, refl, ◌∙◌, arith, List, [], ◌∷◌, ◌++◌, Option, some, Bool,
  true, false, ◌&&◌,
}
use ng.Base.{
  Bool-cases, inl, inr, length, replicate, length-append, ltb, ltb→lt, ltb_false→le, if◌then◌else◌,
  ℤ, pos, negsuc, int32,
}
use ng.Dump.{c_string}
use ng.Dump.Total.{length-c_string-le}
use ng.Format.Arg.{Arg, word, text, is_negative, negate, long_of_int}
use ng.Format.Ftoa.{Double}
use ng.Format.Itoa.Value.{read_digits}
use ng.Format.Print.{plain, directive, Step}
use ng.Format.Convert.{
  Spec, no_flags, convert, stored, fetch, fetch_both, x_inf, string_field, Number, unsigned_num,
  signed,
}
use ng.Format.Field.{stored_right, digits_field, number_field-some}

-- The sign of an `int` as text, and the number behind it.
abbrev pub sign : ℤ → List ℕ
sign (pos n) = []
sign (negsuc n) = b'-' ∷ []

abbrev pub magnitude : ℤ → ℕ
magnitude (pos n) = n
magnitude (negsuc n) = n + 1

-- A directive that stores `chars` and is followed by the outer loop.
abbrev pub Stores : {F : Type 0} → Option (Step F) → List ℕ → List (Arg F) → Type 0
Stores r chars args = r ≡ some (record { mode = plain; chars = chars; counts = false; args = args })

-- The flags of a directive with a width, perhaps filled by zeroes, and `l` so many times.
abbrev pub width_only : ℕ → Bool → ℕ → Spec
width_only k zeroes l = record no_flags { width = pos k; fillz = zeroes; tlong = l }

-- What fills a field of `k` characters that gets `n`.
abbrev pub fill : ℕ → Bool → ℕ → List ℕ
fill k zeroes n = replicate (k - n) (if zeroes then b'0' else b' ')

abbrev plain_number : ℕ → List ℕ → ℕ → Number
plain_number k front num = record {
  at_once = [];
  front = front;
  num = num;
  prec = pos 0;
  width = pos k;
}

and_true : (b : Bool) → (b && true) ≡ b
and_true true = refl
and_true false = refl

low_bits : (l w : ℕ) → unsigned_num (width_only 0 false l) w % 2 ^ 32 ≡ w % 2 ^ 32
low_bits l w = ground arith

module _ {F : Type 0} (fl : Double F) (turns k : ℕ) (zeroes : Bool) (l : ℕ)
    (args : List (Arg F)) where
  number_stored :
      (base num : ℕ) (caps : Bool) (front t : List ℕ)
      → length front ≤ 2
      → length t ≤ 11
      → stored
          (width_only k zeroes l)
          (digits_field (width_only k zeroes l) base caps (plain_number k front num) args t)
        ≡ fill k zeroes (length (front ++ t)) ++ (front ++ t)
  number_stored base num caps front t two few =
      stored_right
        (digits_field (width_only k zeroes l) base caps (plain_number k front num) args t)
        (width_only k zeroes l) k (omega (arith, length-append front t)) refl refl refl
      ∙ rw (and_true zeroes) refl

  pub directive-x :
      (w : ℕ)
      → (t : List ℕ) × Stores
          (directive fl turns (width_only k zeroes l) b'x' (word w ∷ args))
          (fill k zeroes (length t) ++ t)
          args
        × (read_digits 16 0 t ≡ w % 2 ^ 32)
        × (0 < length t)
        × (length t ≤ 11)
  unfolding directive fetch_both fetch convert
  directive-x w =
      let s = width_only k zeroes l in
      let n = plain_number k [] (unsigned_num s w) in
      let (t, e, value, some_digit, few) =
        number_field-some {F = F} s 16 false n args (inr (inr refl)) refl (omega arith) in
      (
        t,
        rw (e, number_stored 16 (unsigned_num s w) false [] t (omega arith) few) refl,
        value ∙ low_bits l w,
        some_digit,
        few,
      )

  pub directive-u :
      (w : ℕ)
      → (t : List ℕ) × Stores
          (directive fl turns (width_only k zeroes l) b'u' (word w ∷ args))
          (fill k zeroes (length t) ++ t)
          args
        × (read_digits 10 0 t ≡ w % 2 ^ 32)
        × (0 < length t)
        × (length t ≤ 11)
  unfolding directive fetch_both fetch convert
  directive-u w =
      let s = width_only k zeroes l in
      let n = plain_number k [] (unsigned_num s w) in
      let (t, e, value, some_digit, few) =
        number_field-some {F = F} s 10 false n args (inr (inl refl)) refl (omega arith) in
      (
        t,
        rw (e, number_stored 10 (unsigned_num s w) false [] t (omega arith) few) refl,
        value ∙ low_bits l w,
        some_digit,
        few,
      )

  pub directive-s :
      (p : List ℕ)
      → length p ≤ 0x7ffffff0
      → Stores
          (directive fl turns (width_only k zeroes l) b's' (text p ∷ args))
          (fill k zeroes (length (c_string p)) ++ c_string p)
          args
  unfolding directive fetch_both fetch convert
  directive-s p h =
      rw
        (stored_right (string_field (width_only k zeroes l) (c_string p) x_inf args)
          (width_only k zeroes l) k (omega (arith, length-c_string-le p)) refl refl refl)
        refl

-- What `%d` makes of an `int`.
signed-int :
    (k w : ℕ)
    → (num : ℕ) × (signed (width_only k false 0) (long_of_int w) ≡ record {
      at_once = [];
      front = sign (int32 (w % 2 ^ 32));
      num = num;
      prec = pos 0;
      width = pos k;
    })
      × (num % 2 ^ 32 ≡ magnitude (int32 (w % 2 ^ 32)))
signed-int k w = elim (Bool-cases (ltb (w % 2 ^ 32) (2 ^ 31))) [
  | inl e ↦
      let v = ltb→lt (w % 2 ^ 32) (2 ^ 31) e in
      let f : is_negative (w % 2 ^ 32) ≡ false = ground arith in
      (w % 2 ^ 32, rw (e, f) refl, rw e (omega arith))
  | inr e ↦
      let v = ltb_false→le (w % 2 ^ 32) (2 ^ 31) e in
      let f : is_negative (w % 2 ^ 32 + (2 ^ 64 - 2 ^ 32)) ≡ true = ground arith in
      (negate (w % 2 ^ 32 + (2 ^ 64 - 2 ^ 32)), rw (e, f) refl, rw e (omega arith))
]

length-sign : (i : ℤ) → length (sign i) ≤ 2
length-sign (pos n) = omega arith
length-sign (negsuc n) = omega arith

pub directive-d :
    {F : Type 0} (fl : Double F) (turns k : ℕ) (args : List (Arg F)) (w : ℕ)
    → (t : List ℕ) × Stores
        (directive fl turns (width_only k false 0) b'd' (word w ∷ args))
        (fill k false (length (sign (int32 (w % 2 ^ 32)) ++ t)) ++ (sign (int32 (w % 2 ^ 32)) ++ t))
        args
      × (read_digits 10 0 t ≡ magnitude (int32 (w % 2 ^ 32)))
      × (0 < length t)
      × (length t ≤ 11)
unfolding directive fetch_both fetch convert
directive-d fl turns k args w =
    let (num, e, value) = signed-int k w in
    let front = sign (int32 (w % 2 ^ 32)) in
    let n = plain_number k front num in
    let (t, f, v, some_digit, few) =
      number_field-some (width_only k false 0) 10 false n args (inr (inl refl)) refl
        (length-sign _) in
    (
      t,
      rw (e, f, number_stored fl turns k false 0 args 10 num false front t (length-sign _) few)
          refl,
      v ∙ value,
      some_digit,
      few,
    )

-- `%0…d` of an `int` that is not negative.
pub directive-d_filled :
    {F : Type 0} (fl : Double F) (turns k : ℕ) (args : List (Arg F)) (w : ℕ)
    → w < 2 ^ 31
    → (t : List ℕ) × Stores
        (directive fl turns (width_only k true 0) b'd' (word w ∷ args))
        (fill k true (length t) ++ t)
        args
      × (read_digits 10 0 t ≡ w % 2 ^ 32)
      × (0 < length t)
      × (length t ≤ 11)
unfolding directive fetch_both fetch convert
directive-d_filled fl turns k args w h =
    let small : ltb (w % 2 ^ 32) (2 ^ 31) ≡ true = ground arith in
    let positive : is_negative (w % 2 ^ 32) ≡ false = ground arith in
    let n = plain_number k [] (w % 2 ^ 32) in
    let (t, f, v, some_digit, few) =
      number_field-some (width_only k true 0) 10 false n args (inr (inl refl)) refl (omega arith) in
    (
      t,
      rw
          (
            small,
            positive,
            f,
            number_stored fl turns k true 0 args 10 (w % 2 ^ 32) false [] t (omega arith) few,
          )
          refl,
      omega (arith, v),
      some_digit,
      few,
    )
