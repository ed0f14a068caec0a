-- ===== src/Buffer/Overwrite.antt =====
-- One text written behind another in the array of bazelPro/src/lib/bufprintf.cc.
use ng.Base.{
  ℕ, zero, suc, ◌+◌, ◌-◌, ◌%◌, ◌≤◌, ◌<◌, ◌^◌, ◌≡◌, refl, sym, ap, ◌∙◌, subst, arith, List, [], ◌∷◌,
  ◌++◌, min,
}
use ng.Base.{
  leb, if◌then◌else◌, length, take, drop, length-append, length-take, length-drop, append_assoc,
  take-append_self,
}

pub take-nil : (k : ℕ) → take {A = ℕ} k [] ≡ []
take-nil zero = refl
take-nil (suc k) = refl

take-append : (k : ℕ) (xs ys : List ℕ) → take k (xs ++ ys) ≡ take k xs ++ take (k - length xs) ys
take-append k [] ys =
    let e : k - length {A = ℕ} [] ≡ k = omega arith in
    rw e (let n : take k [] ≡ [] = take-nil k in rw n refl)
take-append zero (x ∷ xs) ys = let e : zero - length (x ∷ xs) ≡ 0 = omega arith in rw e refl
take-append (suc k) (x ∷ xs) ys =
    let e : suc k - length (x ∷ xs) ≡ k - length xs = omega arith in
    rw e (ap (◌∷◌ x) (take-append k xs ys))

take-all : (k : ℕ) (xs : List ℕ) → length xs ≤ k → take k xs ≡ xs
take-all zero [] h = refl
take-all zero (x ∷ xs) h = absurd (omega arith)
take-all (suc k) [] h = refl
take-all (suc k) (x ∷ xs) h = ap (◌∷◌ x) (take-all k xs (omega arith))

take-take : (k : ℕ) (xs : List ℕ) → take k (take (suc k) xs) ≡ take k xs
take-take zero xs = refl
take-take (suc k) [] = refl
take-take (suc k) (x ∷ xs) = ap (◌∷◌ x) (take-take k xs)

-- The front of a list, from a longer front that is known.
pub take-front :
    (k : ℕ) (xs ys : List ℕ) (y : ℕ)
    → length ys ≡ k
    → take (suc k) xs ≡ ys ++ (y ∷ [])
    → take k xs ≡ ys
take-front k xs ys y l h =
    sym (take-take k xs)
    ∙ ap (take k) h
    ∙ subst (λ j. take j (ys ++ (y ∷ [])) ≡ ys) l (take-append_self ys (y ∷ []))

-- How far `data` moves on.
pub advance :
    (available len : ℕ)
    → 0 < available
    → len < 2 ^ 31
    → (if leb available (len % 2 ^ 32) then available - 1 else len % 2 ^ 32)
      ≡ min (available - 1) len
advance available len pos small = ground arith

-- A text written behind one that was cut to `k` bytes, with the room that is left.
pub shown-append :
    (k room : ℕ) (text e rest : List ℕ)
    → k - length text ≡ room
    → take
        (length (take k text ++ (take room e ++ (0 ∷ []))))
        (take k text ++ ((take room e ++ (0 ∷ [])) ++ rest))
      ≡ take k (text ++ e) ++ (0 ∷ [])
shown-append k room text e rest left =
    let all = take k text ++ (take room e ++ (0 ∷ [])) in
    ap (take (length all)) (sym (append_assoc (take k text) (take room e ++ (0 ∷ [])) rest))
    ∙ take-append_self all rest
    ∙ sym (append_assoc (take k text) (take room e) (0 ∷ []))
    ∙ ap (λ x. x ++ (0 ∷ [])) (sym (take-append k text e ∙ ap (λ j. take k text ++ take j e) left))

-- The array after a write of `bytes` at `d`.
abbrev pub overwrite : ℕ → List ℕ → List ℕ → List ℕ
overwrite d bytes output = take d output ++ (bytes ++ drop (d + length bytes) output)

pub length-overwrite :
    (d : ℕ) (bytes output : List ℕ)
    → d + length bytes ≤ length output
    → length (overwrite d bytes output) ≡ length output
length-overwrite d bytes output h =
    let rest = drop (d + length bytes) output in
    omega (
      arith,
      length-append (take d output) (bytes ++ rest),
      length-append bytes rest,
      length-take d output,
      length-drop (d + length bytes) output,
    )
