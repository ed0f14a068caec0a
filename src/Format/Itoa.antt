-- ===== src/Format/Itoa.antt =====
-- `itoa` of bazelPro/src/lib/snprintf_asyncsignalsafe.cc. The digits are made from the last to the
-- first in an array of 36 bytes, of which the last is the null byte; `none` is a write before it.
pub mod Value
use ng.Base.{
  ℕ, zero, suc, ◌+◌, ◌-◌, ◌/◌, ◌%◌, List, [], ◌∷◌, Option, none, some, Bool, true, false, ◌&&◌, not,
}
use ng.Base.{ltb, ◌==◌, if◌then◌else◌, ◌>>=◌, ℤ, pos, pos_part, ◌-ℤ◌}

abbrev pub is_empty : List ℕ → Bool
is_empty [] = true
is_empty (c ∷ cs) = false

abbrev pub digit : Bool → ℕ → ℕ
digit caps d = if ltb d 10 then b'0' + d else (if caps then b'A' + (d - 10) else b'a' + (d - 10))

-- The `for` loop: the bytes left in the array, the number, the precision and the text so far.
pub itoa_digits : ℕ → ℕ → Bool → ℕ → ℤ → List ℕ → Option (List ℕ × ℤ × ℕ)
itoa_digits zero base caps num prec s =
    if num == 0 && not (is_empty s) then some (s, prec, 0) else none
itoa_digits (suc left) base caps num prec s =
    let rest =
      itoa_digits left base caps (num / base) (prec -ℤ pos 1) (digit caps (num % base) ∷ s) in
    if num == 0 && not (is_empty s) then some (s, prec, suc left) else rest

-- The `while` loop, with the rounds left.
pub itoa_zeros : ℕ → ℕ → List ℕ → Option (List ℕ)
itoa_zeros zero left s = some s
itoa_zeros (suc prec) zero s = none
itoa_zeros (suc prec) (suc left) s = itoa_zeros prec left (b'0' ∷ s)

-- The text that `buf` gets.
unfoldable pub itoa : ℕ → ℕ → Bool → ℤ → Option (List ℕ)
unfolding itoa_digits itoa_zeros
itoa num base caps prec = do
  (s, prec, left) ← itoa_digits 35 base caps num prec []
  itoa_zeros (pos_part prec) left s
