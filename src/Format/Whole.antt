-- ===== src/Format/Whole.antt =====
-- Whole formats of bazelPro/src/lib/snprintf_asyncsignalsafe.cc.
use ng.Base.{
  ℕ, ◌-◌, ◌%◌, ◌^◌, ◌<◌, ◌≡◌, refl, ap, ◌∙◌, arith, List, [], ◌∷◌, ◌++◌, none, some, Bool, true,
  false, ◌↔◌,
}
use ng.Base.{inl, inr, length, append-nil, ltb, lt→ltb, pos, int32}
use ng.Format.Arg.{word, codes, long_of_int}
use ng.Format.Ftoa.{Double}
use ng.Format.Itoa.Value.{read_digits, itoa-read}
use ng.Format.Print.{plain, step, flagged, flag, directive, at_end}
use ng.Format.Convert.{fetch, fetch_both, convert, number_field}
use ng.Format.Contract.{expansion}
use ng.Format.Numbers.{sign, magnitude, directive-d, fill}

no_fill : (zeroes : Bool) (n : ℕ) → fill 0 zeroes n ≡ []
no_fill zeroes n = let z : 0 - n ≡ 0 = omega arith in rw z refl

module _ {F : Type 0} (fl : Double F) (turns : ℕ) where
  -- `%d` prints the `int` in every argument as its sign and digits that read back as its magnitude.
  pub expansion-d :
      (w : ℕ)
      → (t : List ℕ) × (expansion fl turns plain (codes "%d") (word w ∷ [])
          ≡ some (sign (int32 (w % 2 ^ 32)) ++ t))
        × (read_digits 10 0 t ≡ magnitude (int32 (w % 2 ^ 32)))
  unfolding expansion step flagged flag at_end
  expansion-d w =
      let (t, e, v, _, _) = directive-d fl turns 0 [] w in
      (
        t,
        rw e (
            ap (λ cs. some (cs ++ []))
              (ap (λ xs. xs ++ (sign (int32 (w % 2 ^ 32)) ++ t))
                (no_fill false (length (sign (int32 (w % 2 ^ 32)) ++ t))))
            ∙ ap some (append-nil (sign (int32 (w % 2 ^ 32)) ++ t))),
        v,
      )

  -- `%.*u` fails exactly when its precision is over 35: then the digits do not fit the array in which
  -- they are made, and the code writes in front of it. The precision is an `int` that is not negative.
  pub expansion-prec_iff :
      (p w : ℕ)
      → p < 2 ^ 31
      → (expansion fl turns plain (codes "%.*u") (word p ∷ word w ∷ []) ≡ none) ↔ (35 < p)
  unfolding expansion step flagged flag at_end directive fetch_both fetch convert number_field
  expansion-prec_iff p w h =
      let e : ltb (p % 2 ^ 32) (2 ^ 31) ≡ true = ground arith in
      elim (itoa-read (long_of_int w % 2 ^ 32) 10 false (pos (p % 2 ^ 32)) (inr (inl refl))
        (omega arith)) [
          | inl (large, f) ↦ rw (e, f) (λ _. omega arith, λ _. refl)
          | inr (small, (t, f, value, some_digit, needed, few)) ↦
              let fits : length t < 36 = omega arith in
              rw (e, f, lt→ltb _ _ fits) (λ g. absurd (cc), λ g. absurd (omega arith))
        ]
