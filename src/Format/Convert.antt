-- ===== src/Format/Convert.antt =====
-- One directive of `vsnprintf_asyncsignalsafe` of
-- bazelPro/src/lib/snprintf_asyncsignalsafe.cc: its flags and the characters that it stores.
use ng.Base.{
  ℕ, ◌%◌, ◌^◌, List, [], ◌∷◌, ◌++◌, Option, none, some, Bool, true, false, ◌&&◌, ◌||◌, not,
}
use ng.Base.{
  ltb, ◌==◌, if◌then◌else◌, ◌>>=◌, length, take, replicate, min, ℤ, pos, negsuc, pos_part, ◌+ℤ◌,
  ◌-ℤ◌, ltb_ℤ, int32,
}
use ng.Dump.{c_string}
use ng.Format.Arg.{
  Arg, long_of_int, long_of_short, is_negative, negate, next_word, next_text, next_place, next_real,
}
use ng.Format.Itoa.{itoa}
use ng.Format.Ftoa.{Double, ftoa}

pub record Spec : Type 0 where
  pub width : ℤ
  pub ljust : Bool
  pub plus : Bool
  pub space : Bool
  pub altform : Bool
  pub prec : ℤ
  pub half : Bool
  pub tlong : ℕ
  pub fillz : Bool
  pub prec_given : Bool

abbrev pub no_flags : Spec
no_flags = record {
  width = pos 0;
  ljust = false;
  plus = false;
  space = false;
  altform = false;
  prec = pos 0;
  half = false;
  tlong = 0;
  fillz = false;
  prec_given = false;
}

abbrev pub x_inf : ℤ
x_inf = pos 0x7ffffff0

-- What a directive stores: some characters at once, then the string `p` in its field. `counts` is
-- true for `%n`.
pub record Field (F : Type 0) : Type 0 where
  pub at_once : List ℕ
  pub p : List ℕ
  pub prec : ℤ
  pub width : ℤ
  pub fillz : Bool
  pub counts : Bool
  pub args : List (Arg F)

-- The number of an integer directive, what stands before its digits, and what changes.
pub record Number : Type 0 where
  pub at_once : List ℕ
  pub front : List ℕ
  pub num : ℕ
  pub prec : ℤ
  pub width : ℤ

abbrev pub is_minus_one : ℤ → Bool
is_minus_one (pos n) = false
is_minus_one (negsuc n) = n == 0

abbrev pub is_zero : ℤ → Bool
is_zero (pos n) = n == 0
is_zero (negsuc n) = false

-- The sign of `d`: to the left of the zeroes, or at the front of the digits.
abbrev pub signed : Spec → ℕ → Number
signed s num =
    let size = if is_negative num then negate num else num in
    if s.fillz && (is_negative num || (s.plus || s.space))
    then record {
      at_once = (if is_negative num then b'-' else if s.space then b' ' else b'+') ∷ [];
      front = [];
      num = size;
      prec = s.prec;
      width = if ltb_ℤ (pos 0) s.width then s.width -ℤ pos 1 else s.width;
    }
    else if s.fillz
    then record { at_once = []; front = []; num = num; prec = s.prec; width = s.width }
    else record {
      at_once = [];
      front =
          if is_negative num
          then b'-' ∷ []
          else if s.plus
          then b'+' ∷ []
          else if s.space
          then b' ' ∷ []
          else [];
      num = size;
      prec = s.prec;
      width = s.width;
    }

-- `c` is the letter, which `%#x` writes behind the 0.
abbrev pub hexadecimal : Spec → ℕ → ℕ → Number
hexadecimal s c num =
    if s.altform && not (c == b'p')
    then record {
      at_once = [];
      front = b'0' ∷ c ∷ [];
      num = num;
      prec = s.prec +ℤ pos 2;
      width = s.width;
    }
    else record { at_once = []; front = []; num = num; prec = s.prec; width = s.width }

abbrev pub octal : Spec → ℕ → Number
octal s num =
    if s.altform
    then record {
      at_once = [];
      front = b'0' ∷ [];
      num = num;
      prec = s.prec +ℤ pos 1;
      width = s.width;
    }
    else record { at_once = []; front = []; num = num; prec = s.prec; width = s.width }

-- The integer argument of `d` and `i`, and that of the other letters.
abbrev pub signed_num : Spec → ℕ → ℕ
signed_num s w =
    let num = if s.tlong == 0 then long_of_int w else w % 2 ^ 64 in
    if s.half then long_of_short num else num

abbrev pub unsigned_num : Spec → ℕ → ℕ
unsigned_num s w =
    let num = if s.tlong == 0 then long_of_int w else w % 2 ^ 64 in
    if s.half then num % 2 ^ 16 else num

module _ {F : Type 0} where
  -- `itoa(p, (unsigned int) num, …)`; `tmp` has room for 36 bytes.
  unfoldable pub number_field : Spec → ℕ → Bool → Number → List (Arg F) → Option (Field F)
  number_field s base caps n args = do
    digits ← itoa (n.num % 2 ^ 32) base caps (n.prec)
    if ltb (length (n.front ++ digits)) 36
        then some (record {
          at_once = n.at_once;
          p = n.front ++ digits;
          prec = x_inf;
          width = n.width;
          fillz = s.fillz && is_zero n.prec;
          counts = false;
          args = args;
        })
        else none

  abbrev pub string_field : Spec → List ℕ → ℤ → List (Arg F) → Field F
  string_field s p prec args = record {
    at_once = [];
    p = p;
    prec = prec;
    width = s.width;
    fillz = s.fillz;
    counts = false;
    args = args;
  }

  -- A `*` stands for the next argument.
  unfoldable pub fetch : ℤ → List (Arg F) → Option (ℤ × List (Arg F))
  fetch v args =
      if is_minus_one v
      then (do (w, args) ← next_word args; some (int32 (w % 2 ^ 32), args))
      else some (v, args)

  unfoldable pub fetch_both : Spec → List (Arg F) → Option (Spec × List (Arg F))
  fetch_both s args = do
    (width, args) ← fetch (s.width) args
    (prec, args) ← fetch (s.prec) args
    some (record s { width = width; prec = prec }, args)

  module _ (fl : Double F) (turns : ℕ) where
    unfoldable pub float_field : Spec → List (Arg F) → Option (Field F)
    float_field s args = do
      (f, args) ← next_real args
      p ← ftoa fl turns f (pos_part (if s.prec_given then s.prec else pos 6))
      if ltb (length p) 36
          then some (record (string_field s p x_inf args) { fillz = false })
          else none

    -- The second `switch`, on the letter `c`.
    unfoldable pub convert : ℕ → Spec → List (Arg F) → Option (Field F)
    convert c s args =
        if c == b'd' || c == b'i'
        then (do
          (w, args) ← next_word args
          number_field s 10 false (signed s (signed_num s w)) args)
        else if c == b'u'
        then (do
          (w, args) ← next_word args
          number_field s 10 false
              (record {
                at_once = [];
                front = [];
                num = unsigned_num s w;
                prec = s.prec;
                width = s.width;
              })
              args)
        else if c == b'p' || (c == b'x' || c == b'X')
        then (do
          (w, args) ← next_word args
          number_field s 16 (c == b'X') (hexadecimal s c (unsigned_num s w)) args)
        else if c == b'o' || c == b'O'
        then (do
          (w, args) ← next_word args
          number_field s 8 false (octal s (unsigned_num s w)) args)
        else if c == b'f'
        then float_field s args
        else if c == b's'
        then (do
          (p, args) ← next_text args
          some (string_field s (c_string p) (if is_zero (s.prec) then x_inf else s.prec) args))
        else if c == b'c'
        then (do
          (w, args) ← next_word args
          some (string_field s (c_string (w % 256 ∷ [])) (pos 1) args))
        else if c == b'n'
        then (do
          args ← next_place args
          some (record (string_field s [] (s.prec) args) { counts = true }))
        else if c == b'%'
        then some (string_field s (b'%' ∷ []) (pos 1) args)
        else some (record (string_field s [] x_inf args) { at_once = c ∷ []; width = pos 0 })

-- The characters that are stored: those at once, the padding of a string that is not justified to
-- the left, the string, and the padding of one that is.
module _ {F : Type 0} where
  unfoldable pub stored : Spec → Field F → List ℕ
  stored s d =
      let plen = if ltb_ℤ d.prec (pos (length d.p)) then d.prec else pos (length d.p) in
      let width = if ltb_ℤ d.width plen then plen else d.width in
      let pad = pos_part (width -ℤ plen) in
      d.at_once
      ++ (replicate (if s.ljust then 0 else pad) (if d.fillz then b'0' else b' ')
          ++ (take (min (pos_part plen) (pos_part width)) d.p
              ++ replicate (if s.ljust then pad else 0) b' '))
