-- ===== src/Sys/Stream/Checked.antt =====
-- Words of a text for bazelPro/src/utils/sys.cc that are checked by evaluation.
use ng.Base.{ℕ, ◌≡◌, refl, List, [], ◌∷◌, Bool, true, ◌&&◌, All, Bool-cases, inl, inr}
use ng.Sys.Stream.{is_space, is_digit, is_word}
use ng.Sys.Stream.Tokens.{Plain, Digit, Token}

-- A word that can be checked by evaluation.
abbrev pub all_of : (ℕ → Bool) → List ℕ → Bool
all_of kind [] = true
all_of kind (c ∷ cs) = kind c && all_of kind cs

all_of-Plain : (w : List ℕ) → all_of is_word w ≡ true → All Plain w
all_of-Plain [] = λ h. tt
all_of-Plain (c ∷ w) = elim (Bool-cases (is_space c)) [
  | inl e ↦ rw e (λ h. absurd (cc))
  | inr e ↦ rw e (λ h. (refl, all_of-Plain w h))
]

pub checked-Plain : (c : ℕ) (w : List ℕ) → all_of is_word (c ∷ w) ≡ true → Token Plain (c ∷ w)
checked-Plain c w h = all_of-Plain (c ∷ w) h

all_of-Digit : (w : List ℕ) → all_of is_digit w ≡ true → All Digit w
all_of-Digit [] = λ h. tt
all_of-Digit (c ∷ w) = elim (Bool-cases (is_digit c)) [
  | inl e ↦ rw e (λ h. (refl, all_of-Digit w h))
  | inr e ↦ rw e (λ h. absurd (cc))
]

pub checked-Digit : (c : ℕ) (w : List ℕ) → all_of is_digit (c ∷ w) ≡ true → Token Digit (c ∷ w)
checked-Digit c w h = all_of-Digit (c ∷ w) h
