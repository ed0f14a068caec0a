-- ===== src/Error/Prints.antt =====
-- What the formats of the error records stand for, piece by piece, in the formatter of
-- bazelPro/src/lib/snprintf_asyncsignalsafe.cc.
use ng.Base.{
  ℕ, ◌+◌, ◌-◌, ◌%◌, ◌^◌, ◌≤◌, ◌<◌, ◌≡◌, refl, ap, arith, List, [], ◌∷◌, ◌++◌, some, Bool, true,
  false, not, ◌&&◌,
}
use ng.Base.{length, length-append, length-replicate, ◌==◌, if◌then◌else◌, ℤ, pos, negsuc, int32}
use ng.Dump.{c_string}
use ng.Dump.Total.{length-c_string-le}
use ng.Format.Arg.{Arg, word, text, codes}
use ng.Format.Ftoa.{Double}
use ng.Format.Itoa.Value.{read_digits}
use ng.Format.Print.{plain, step, flagged, flag, at_end}
use ng.Format.Contract.{expansion}
use ng.Format.Numbers.{
  sign, magnitude, fill, directive-x, directive-u, directive-s, directive-d, directive-d_filled,
}

-- Digits that read back as a number, filled by zeroes or spaces to `k` characters.
pub record IsNumber (base k : ℕ) (zeroes : Bool) (n : ℕ) (t : List ℕ) : Type 0 where
  pub digits : List ℕ
  pub filled : t ≡ fill k zeroes (length digits) ++ digits
  pub value : read_digits base 0 digits ≡ n
  pub few : length digits ≤ 11

-- The sign of an `int`, and digits that read back as its magnitude.
pub record IsInt (i : ℤ) (t : List ℕ) : Type 0 where
  pub digits : List ℕ
  pub signed : t ≡ sign i ++ digits
  pub value : read_digits 10 0 digits ≡ magnitude i
  pub few : length digits ≤ 11

-- A string that no field cuts.
abbrev pub IsShort : List ℕ → Type 0
IsShort p = length p ≤ 2 ^ 24

IsNumber-length :
    (base k : ℕ) (zeroes : Bool) (n : ℕ) (t : List ℕ)
    → IsNumber base k zeroes n t
    → length t ≤ k + 11
IsNumber-length base k zeroes n t v =
    let fills : ℕ = if zeroes then b'0' else b' ' in
    omega (
      arith,
      ap length v.filled,
      length-append (fill k zeroes (length v.digits)) v.digits,
      length-replicate (k - length v.digits) fills,
      v.few,
    )

length-sign : (i : ℤ) → length (sign i) ≤ 1
length-sign (pos n) = omega arith
length-sign (negsuc n) = omega arith

IsInt-length : (i : ℤ) (t : List ℕ) → IsInt i t → length t ≤ 12
IsInt-length i t v =
    omega (arith, ap length v.signed, length-append (sign i) v.digits, length-sign i, v.few)

abbrev pub no_percent : List ℕ → Bool
no_percent [] = true
no_percent (c ∷ cs) = not (c == b'%') && no_percent cs

module _ {F : Type 0} (fl : Double F) (turns : ℕ) where
  -- A format and its arguments stand for a text of at most so many characters.
  pub record Prints (fmt : List ℕ) (args : List (Arg F)) (t : List ℕ) (most : ℕ) : Type 0 where
    pub whole : expansion fl turns plain fmt args ≡ some t
    pub bound : length t ≤ most

  pub Prints-nil : (args : List (Arg F)) → Prints [] args [] 0
  unfolding expansion at_end
  Prints-nil args = record { whole = refl; bound = omega arith }

  pub expansion-literal :
      (lit fmt : List ℕ) (args : List (Arg F)) (t : List ℕ)
      → no_percent lit ≡ true
      → expansion fl turns plain fmt args ≡ some t
      → expansion fl turns plain (lit ++ fmt) args ≡ some (lit ++ t)
  unfolding expansion step
  expansion-literal [] fmt args t h e = e
  expansion-literal (c ∷ lit) fmt args t h e =
      let (here, rest) : ((c == b'%') ≡ false) × (no_percent lit ≡ true) =
        split (c == b'%') (no_percent lit) h in
      rw (here, expansion-literal lit fmt args t rest e) refl
    where
      split : (a b : Bool) → (not a && b) ≡ true → (a ≡ false) × (b ≡ true)
      split true b h = absurd (cc)
      split false b h = (refl, h)

  pub Prints-literal :
      (lit : List ℕ) {fmt : List ℕ} {args : List (Arg F)} {t : List ℕ} {most : ℕ}
      → no_percent lit ≡ true
      → Prints fmt args t most
      → Prints (lit ++ fmt) args (lit ++ t) (length lit + most)
  Prints-literal lit {fmt} {args} {t} h p = record {
    whole = expansion-literal lit fmt args t h p.whole;
    bound = omega (arith, length-append lit t, p.bound);
  }

  pub Prints-s :
      (p : List ℕ) {fmt : List ℕ} {args : List (Arg F)} {t : List ℕ} {most : ℕ}
      → IsShort p
      → Prints fmt args t most
      → Prints (codes "%s" ++ fmt) (text p ∷ args) (c_string p ++ t) (2 ^ 24 + most)
  unfolding expansion step flagged flag
  Prints-s p {fmt} {args} {t} h v =
      let e = directive-s fl turns 0 false 0 args p (omega arith) in
      let no_fill : 0 - length (c_string p) ≡ 0 = omega arith in
      record {
        whole = rw (e, no_fill, v.whole) refl;
        bound = omega (arith, length-append (c_string p) t, length-c_string-le p, v.bound);
      }

  Prints-IsNumber :
      (base k : ℕ) (zeroes : Bool) (n : ℕ) {s fmt t : List ℕ} {args : List (Arg F)} {most : ℕ}
      → IsNumber base k zeroes n s
      → expansion fl turns plain fmt args ≡ some (s ++ t)
      → length t ≤ most
      → (r : List ℕ) × IsNumber base k zeroes n r × Prints fmt args (r ++ t) (k + 11 + most)
  Prints-IsNumber base k zeroes n {s} {t = t} v e h = (
    s,
    v,
    record {
      whole = e;
      bound = omega (arith, length-append s t, IsNumber-length base k zeroes n s v, h);
    },
  )

  pub Prints-08x :
      (w : ℕ) {fmt : List ℕ} {args : List (Arg F)} {t : List ℕ} {most : ℕ}
      → Prints fmt args t most
      → (s : List ℕ) × IsNumber 16 8 true (w % 2 ^ 32) s
        × Prints (codes "%08x" ++ fmt) (word w ∷ args) (s ++ t) (8 + 11 + most)
  unfolding expansion step flagged flag
  Prints-08x w {fmt} {args} {t} v =
      let (digits, e, value, some_digit, few) = directive-x fl turns 8 true 0 args w in
      Prints-IsNumber 16 8 true (w % 2 ^ 32)
        (record { digits = digits; filled = refl; value = value; few = few }) (rw (e, v.whole) refl)
        v.bound

  pub Prints-08lx :
      (w : ℕ) {fmt : List ℕ} {args : List (Arg F)} {t : List ℕ} {most : ℕ}
      → Prints fmt args t most
      → (s : List ℕ) × IsNumber 16 8 true (w % 2 ^ 32) s
        × Prints (codes "%08lx" ++ fmt) (word w ∷ args) (s ++ t) (8 + 11 + most)
  unfolding expansion step flagged flag
  Prints-08lx w {fmt} {args} {t} v =
      let (digits, e, value, some_digit, few) = directive-x fl turns 8 true 1 args w in
      Prints-IsNumber 16 8 true (w % 2 ^ 32)
        (record { digits = digits; filled = refl; value = value; few = few }) (rw (e, v.whole) refl)
        v.bound

  pub Prints-lx :
      (w : ℕ) {fmt : List ℕ} {args : List (Arg F)} {t : List ℕ} {most : ℕ}
      → Prints fmt args t most
      → (s : List ℕ) × IsNumber 16 0 false (w % 2 ^ 32) s
        × Prints (codes "%lx" ++ fmt) (word w ∷ args) (s ++ t) (0 + 11 + most)
  unfolding expansion step flagged flag
  Prints-lx w {fmt} {args} {t} v =
      let (digits, e, value, some_digit, few) = directive-x fl turns 0 false 1 args w in
      Prints-IsNumber 16 0 false (w % 2 ^ 32)
        (record { digits = digits; filled = refl; value = value; few = few }) (rw (e, v.whole) refl)
        v.bound

  pub Prints-lu :
      (w : ℕ) {fmt : List ℕ} {args : List (Arg F)} {t : List ℕ} {most : ℕ}
      → Prints fmt args t most
      → (s : List ℕ) × IsNumber 10 0 false (w % 2 ^ 32) s
        × Prints (codes "%lu" ++ fmt) (word w ∷ args) (s ++ t) (0 + 11 + most)
  unfolding expansion step flagged flag
  Prints-lu w {fmt} {args} {t} v =
      let (digits, e, value, some_digit, few) = directive-u fl turns 0 false 1 args w in
      Prints-IsNumber 10 0 false (w % 2 ^ 32)
        (record { digits = digits; filled = refl; value = value; few = few }) (rw (e, v.whole) refl)
        v.bound

  pub Prints-d :
      (w : ℕ) {fmt : List ℕ} {args : List (Arg F)} {t : List ℕ} {most : ℕ}
      → Prints fmt args t most
      → (s : List ℕ) × IsInt (int32 (w % 2 ^ 32)) s
        × Prints (codes "%d" ++ fmt) (word w ∷ args) (s ++ t) (12 + most)
  unfolding expansion step flagged flag
  Prints-d w {fmt} {args} {t} v =
      let (digits, e, value, some_digit, few) = directive-d fl turns 0 args w in
      let s = sign (int32 (w % 2 ^ 32)) ++ digits in
      let no_fill : 0 - length s ≡ 0 = omega arith in
      let is_int : IsInt (int32 (w % 2 ^ 32)) s = record {
        digits = digits;
        signed = refl;
        value = value;
        few = few;
      } in
      (
        s,
        is_int,
        record {
          whole = rw (e, no_fill, v.whole) refl;
          bound =
              omega (arith, length-append s t, IsInt-length (int32 (w % 2 ^ 32)) s is_int, v.bound);
        },
      )

  pub Prints-02d :
      (w : ℕ) {fmt : List ℕ} {args : List (Arg F)} {t : List ℕ} {most : ℕ}
      → w < 2 ^ 31
      → Prints fmt args t most
      → (s : List ℕ) × IsNumber 10 2 true (w % 2 ^ 32) s
        × Prints (codes "%02d" ++ fmt) (word w ∷ args) (s ++ t) (2 + 11 + most)
  unfolding expansion step flagged flag
  Prints-02d w {fmt} {args} {t} h v =
      let (digits, e, value, some_digit, few) = directive-d_filled fl turns 2 args w h in
      Prints-IsNumber 10 2 true (w % 2 ^ 32)
        (record { digits = digits; filled = refl; value = value; few = few }) (rw (e, v.whole) refl)
        v.bound

  pub Prints-02x :
      (w : ℕ) {fmt : List ℕ} {args : List (Arg F)} {t : List ℕ} {most : ℕ}
      → Prints fmt args t most
      → (s : List ℕ) × IsNumber 16 2 true (w % 2 ^ 32) s
        × Prints (codes "%02x" ++ fmt) (word w ∷ args) (s ++ t) (2 + 11 + most)
  unfolding expansion step flagged flag
  Prints-02x w {fmt} {args} {t} v =
      let (digits, e, value, some_digit, few) = directive-x fl turns 2 true 0 args w in
      Prints-IsNumber 16 2 true (w % 2 ^ 32)
        (record { digits = digits; filled = refl; value = value; few = few }) (rw (e, v.whole) refl)
        v.bound
