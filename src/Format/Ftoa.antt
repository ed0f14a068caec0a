-- ===== src/Format/Ftoa.antt =====
-- `ftoa` of bazelPro/src/lib/snprintf_asyncsignalsafe.cc, over the operations of `double` that it
-- uses.
pub mod Ends
use ng.Base.{
  ℕ, zero, suc, ◌+◌, ◌-◌, List, [], ◌∷◌, ◌++◌, Option, none, some, Bool, false, ◌==◌, if◌then◌else◌,
  ◌>>=◌, pos,
}
use ng.Format.Itoa.{itoa}

pub record Double (F : Type 0) : Type 0 where
  pub below_zero : F → Bool
  pub negated : F → F
  pub add : F → F → F
  pub one_half : F
  pub div_ten : F → F
  pub mul_ten : F → F
  -- At least 4294967296.0, and at least 10.0.
  pub is_large : F → Bool
  pub at_least_ten : F → Bool
  -- `(unsigned int) f`, and the subtraction of that.
  pub truncated : F → ℕ
  pub minus : F → ℕ → F

module _ {F : Type 0} (fl : Double F) where
  pub rounding : ℕ → F
  rounding zero = fl.one_half
  rounding (suc decimals) = fl.div_ten (rounding decimals)

  -- `while (f >= 10.0)`, with the rounds that it is given; `none` where these do not suffice.
  pub scale : ℕ → F → ℕ → Option (F × ℕ)
  scale zero f exp = if fl.at_least_ten f then none else some (f, exp)
  scale (suc turns) f exp =
      let rest = scale turns (fl.div_ten f) (exp + 1) in
      if fl.at_least_ten f then rest else some (f, exp)

  pub fraction : ℕ → F → List ℕ
  fraction zero f = []
  fraction (suc decimals) f =
      let f = fl.mul_ten f in
      let int_part = fl.truncated f in (b'0' + int_part) ∷ fraction decimals (fl.minus f int_part)

  pub exponent : ℕ → Option (List ℕ)
  exponent exp =
      if exp == 0 then some [] else (do digits ← itoa exp 10 false (pos 0); some (b'e' ∷ digits))

  pub ftoa : ℕ → F → ℕ → Option (List ℕ)
  ftoa turns f decimals = do
    let sign : List ℕ = if fl.below_zero f then b'-' ∷ [] else []
    let f = fl.add (if fl.below_zero f then fl.negated f else f) (rounding decimals)
    (f, exp) ← (if fl.is_large f then scale turns f 0 else some (f, 0))
    let int_part = fl.truncated f
    digits ← itoa int_part 10 false (pos 0)
    tail ← exponent exp
    some (sign ++ (digits ++ (b'.' ∷ (fraction decimals (fl.minus f int_part) ++ tail))))
