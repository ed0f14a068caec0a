-- ===== src/Format/Itoa/Value.antt =====
-- The number that the text of `itoa` (bazelPro/src/lib/snprintf_asyncsignalsafe.cc) stands for.
use native.Mathlib.Nat.{pow-suc}
use ng.Base.{
  ℕ, zero, suc, ◌+◌, ◌-◌, ◌*◌, ◌/◌, ◌%◌, ◌^◌, ◌≤◌, ◌<◌, ◌≡◌, refl, sym, ap, ◌∙◌, arith, List, [],
  ◌∷◌, none, some, Bool, true, false, not, ◌&&◌,
}
use ng.Base.{
  Bool-cases, inl, inr, ◌⊎◌, length, ltb, ltb→lt, ltb_false→le, leb, ◌==◌, if◌then◌else◌, ℤ, pos,
  negsuc, pos_part, ◌-ℤ◌,
}
use ng.Format.Itoa.{is_empty, digit, itoa_digits, itoa_zeros, itoa}

abbrev pub digit_value : ℕ → ℕ
digit_value c =
    if leb c b'9' then c - b'0' else (if leb c b'F' then c - (b'A' - 10) else c - (b'a' - 10))

-- The number of a text of digits, behind those of `acc`.
abbrev pub read_digits : ℕ → ℕ → List ℕ → ℕ
read_digits base acc [] = acc
read_digits base acc (c ∷ cs) = read_digits base (acc * base + digit_value c) cs

digit_value-digit : (caps : Bool) (d : ℕ) → d < 16 → digit_value (digit caps d) ≡ d
digit_value-digit true d h = ground arith
digit_value-digit false d h = ground arith

-- The bases that the formatter asks for.
abbrev pub IsBase : ℕ → Type 0
IsBase base = (base ≡ 8) ⊎ ((base ≡ 10) ⊎ (base ≡ 16))

base_digit : (base num : ℕ) → IsBase base → num % base < 16
base_digit base num (inl e) = rw e (omega arith)
base_digit base num (inr (inl e)) = rw e (omega arith)
base_digit base num (inr (inr e)) = rw e (omega arith)

base_split : (base num : ℕ) → IsBase base → num / base * base + num % base ≡ num
base_split base num (inl e) = rw e (omega arith)
base_split base num (inr (inl e)) = rw e (omega arith)
base_split base num (inr (inr e)) = rw e (omega arith)

base_shrinks : (base num k : ℕ) → IsBase base → num < 2 ^ suc k → num / base < 2 ^ k
base_shrinks base num k b h = let h' : num < 2 * 2 ^ k = omega (arith, pow-suc 2 k) in go b h'
  where
    go : IsBase base → num < 2 * 2 ^ k → num / base < 2 ^ k
    go (inl e) h' = rw e (omega arith)
    go (inr (inl e)) h' = rw e (omega arith)
    go (inr (inr e)) h' = rw e (omega arith)

base_shrinks_more : (base num k : ℕ) → IsBase base → num < 8 ^ k → num / base < 8 ^ (k - 1)
base_shrinks_more base num zero b h = let z : num ≡ 0 = omega arith in rw z (go b)
  where
    go : IsBase base → 0 / base < 1
    go (inl e) = rw e (omega arith)
    go (inr (inl e)) = rw e (omega arith)
    go (inr (inr e)) = rw e (omega arith)
base_shrinks_more base num (suc k) b h =
    let h' : num < 8 * 8 ^ k = omega (arith, pow-suc 8 k) in
    let one : suc k - 1 ≡ k = omega arith in rw one (go b h')
  where
    go : IsBase base → num < 8 * 8 ^ k → num / base < 8 ^ k
    go (inl e) h' = rw e (omega arith)
    go (inr (inl e)) h' = rw e (omega arith)
    go (inr (inr e)) h' = rw e (omega arith)

-- What the `for` loop leaves, on a number of `most` octal digits.
record Digits (base num left most : ℕ) (prec : ℤ) (s : List ℕ) (r : List ℕ × ℤ × ℕ) : Type 0 where
  value : read_digits base 0 r.0 ≡ read_digits base num s
  room : length r.0 + r.2 ≡ length s + left
  grows : length s ≤ length r.0
  needed : pos_part r.1 ≡ pos_part prec - (length r.0 - length s)
  some_digit : 0 < length r.0
  few : length r.0 ≤ length s + most

ends : (num : ℕ) (s : List ℕ) → (num == 0 && not (is_empty s)) ≡ true → (num ≡ 0) × (0 < length s)
ends num [] e = ground arith
ends num (c ∷ s) e = (ground arith, omega arith)

goes_on :
    (num most : ℕ) (s : List ℕ)
    → (num == 0 && not (is_empty s)) ≡ false
    → num < 8 ^ most
    → 0 < length s + most
    → 0 < most
goes_on num zero [] e h k = absurd (omega arith)
goes_on num zero (c ∷ s) e h k = let z : num ≡ 0 = omega arith in ground arith
goes_on num (suc most) s e h k = omega arith

less_one : (prec : ℤ) → pos_part (prec -ℤ pos 1) ≡ pos_part prec - 1
less_one (pos n) = ground arith
less_one (negsuc n) = ground arith

stops :
    (left base num most : ℕ) (prec : ℤ) (s : List ℕ)
    → num ≡ 0
    → 0 < length s
    → Digits base num left most prec s (s, prec, left)
stops left base num most prec s z k = record {
  value = ap (λ n. read_digits base n s) (sym z);
  room = refl;
  grows = omega arith;
  needed = omega arith;
  some_digit = k;
  few = omega arith;
}

itoa_digits-Digits :
    (left base : ℕ) (caps : Bool) (num most : ℕ) (prec : ℤ) (s : List ℕ)
    → IsBase base
    → num < 2 ^ left
    → 0 < length s + left
    → num < 8 ^ most
    → 0 < length s + most
    → (r : List ℕ × ℤ × ℕ) × (itoa_digits left base caps num prec s ≡ some r)
      × Digits base num left most prec s r
unfolding itoa_digits
itoa_digits-Digits zero base caps num most prec [] b h k l m = absurd (omega arith)
itoa_digits-Digits zero base caps num most prec (c ∷ s) b h k l m =
    let z : num ≡ 0 = omega arith in
    ((c ∷ s, prec, 0), rw z refl, stops 0 base num most prec (c ∷ s) z (omega arith))
itoa_digits-Digits (suc left) base caps num most prec s b h k l m =
    elim (Bool-cases (num == 0 && not (is_empty s))) [
      | inl e ↦
          let (z, some_digit) = ends num s e in
          ((s, prec, suc left), rw e refl, stops (suc left) base num most prec s z some_digit)
      | inr e ↦
          let c = digit caps (num % base) in
          let (r, f, d) =
            itoa_digits-Digits left base caps (num / base) (most - 1) (prec -ℤ pos 1) (c ∷ s) b
              (base_shrinks base num left b h) (omega arith) (base_shrinks_more base num most b l)
              (omega arith) in
          (
            r,
            rw e f,
            record {
              value =
                  d.value
                  ∙ ap (λ n. read_digits base n s)
                      (ap (λ v. num / base * base + v)
                          (digit_value-digit caps (num % base) (base_digit base num b))
                        ∙ base_split base num b);
              room = omega (arith, d.room);
              grows = omega (arith, d.grows);
              needed = omega (arith, d.needed, d.grows, less_one prec);
              some_digit = d.some_digit;
              few = omega (arith, d.few, goes_on num most s e l m);
            },
          )
    ]

itoa_zeros-some :
    (k left : ℕ) (s : List ℕ)
    → k ≤ left
    → (t : List ℕ) × (itoa_zeros k left s ≡ some t)
      × (length t ≡ k + length s)
      × ((base : ℕ) → read_digits base 0 t ≡ read_digits base 0 s)
unfolding itoa_zeros
itoa_zeros-some zero left s h = (s, refl, omega arith, λ base. refl)
itoa_zeros-some (suc k) zero s h = absurd (omega arith)
itoa_zeros-some (suc k) (suc left) s h =
    let (t, e, l, v) = itoa_zeros-some k left (b'0' ∷ s) (omega arith) in
    (
      t,
      e,
      omega (arith, l),
      λ base.
          let no_more : 0 * base + (b'0' - b'0') ≡ 0 = omega arith in
          v base ∙ ap (λ acc. read_digits base acc s) no_more,
    )

itoa_zeros-none : (k left : ℕ) (s : List ℕ) → left < k → itoa_zeros k left s ≡ none
unfolding itoa_zeros
itoa_zeros-none zero left s h = absurd (omega arith)
itoa_zeros-none (suc k) zero s h = refl
itoa_zeros-none (suc k) (suc left) s h = itoa_zeros-none k left (b'0' ∷ s) (omega arith)

-- A 32-bit number in a base that is used, with a precision of at most 35, is written as digits that
-- read back as the number: at least one, at least as many as the precision says, and at most 11 if
-- the precision asks for no more. With a larger precision the digits run out of the array.
pub itoa-read :
    (num base : ℕ) (caps : Bool) (prec : ℤ)
    → IsBase base
    → num < 2 ^ 32
    → ((35 < pos_part prec) × (itoa num base caps prec ≡ none))
      ⊎ ((pos_part prec ≤ 35)
          × ((t : List ℕ) × (itoa num base caps prec ≡ some t)
              × (read_digits base 0 t ≡ num)
              × (0 < length t)
              × (pos_part prec ≤ length t)
              × (length t ≤ pos_part prec + (11 - pos_part prec))))
unfolding itoa
itoa-read num base caps prec b h =
    let (r, e, d) =
      itoa_digits-Digits 35 base caps num 11 prec [] b (omega arith) (omega arith) (omega arith)
        (omega arith) in
    elim (Bool-cases (ltb 35 (pos_part prec))) [
      | inl l ↦
          let large = ltb→lt 35 (pos_part prec) l in
          inl (
            large,
            rw e
                (itoa_zeros-none (pos_part r.1) r.2 r.0 (omega (arith, d.needed, d.room, d.grows))),
          )
      | inr l ↦
          let small = ltb_false→le 35 (pos_part prec) l in
          let (t, f, n, v) =
            itoa_zeros-some (pos_part r.1) r.2 r.0 (omega (arith, d.needed, d.room)) in
          inr (
            small,
            (
              t,
              rw e f,
              v base ∙ d.value,
              omega (arith, n, d.some_digit),
              omega (arith, n, d.needed),
              omega (arith, n, d.needed, d.few),
            ),
          )
    ]
