-- ===== src/Sys/Stream/Tokens.antt =====
-- What `>>` reads from a text of words between spaces.
use ng.Base.{
  ℕ, ◌^◌, ◌<◌, ◌≤◌, ◌≡◌, refl, arith, List, [], ◌∷◌, ◌++◌, Option, some, Bool, true, false, ◌==◌, ℤ,
  pos, All, Bool-cases, inl, inr, ◌⊎◌, append-nil, subst, lt→ltb, length,
}
use ng.Sys.Stream.{
  Stream, after, broken, is_space, is_digit, is_word, skip_spaces, span, get_string, get_int, value,
  int_of_digits, int_from,
}

abbrev pub Space : ℕ → Type 0
Space c = is_space c ≡ true

abbrev pub Plain : ℕ → Type 0
Plain c = is_space c ≡ false

abbrev pub Digit : ℕ → Type 0
Digit c = is_digit c ≡ true

-- A word is not empty.
abbrev pub Token : (ℕ → Type 0) → List ℕ → Type 0
Token kind [] = ⊥
Token kind (c ∷ cs) = kind c × All kind cs

-- Nothing, or what begins with a space.
abbrev pub Apart : List ℕ → Type 0
Apart [] = Unit
Apart (c ∷ cs) = Space c

skip_spaces-gap : (gap rest : List ℕ) → All Space gap → skip_spaces (gap ++ rest) ≡ skip_spaces rest
unfolding skip_spaces
skip_spaces-gap [] rest h = refl
skip_spaces-gap (c ∷ gap) rest h = rw (h.0) (skip_spaces-gap gap rest h.1)

skip_spaces-Plain : (c : ℕ) (rest : List ℕ) → Plain c → skip_spaces (c ∷ rest) ≡ c ∷ rest
unfolding skip_spaces
skip_spaces-Plain c rest h = rw h refl

span-word : (w rest : List ℕ) → All Plain w → Apart rest → span is_word (w ++ rest) ≡ (w, rest)
unfolding span
span-word [] [] h k = refl
span-word [] (c ∷ rest) h k = rw k refl
span-word (c ∷ w) rest h k = rw (h.0, span-word w rest h.1 k) refl

Digit-Plain : (c : ℕ) → Digit c → Plain c
Digit-Plain c h = ground arith

pub no_sign : (c : ℕ) → Digit c → ((c == 45) ≡ false) × ((c == 43) ≡ false)
no_sign c h = (ground arith, ground arith)

Space-no_digit : (c : ℕ) → Space c → is_digit c ≡ false
Space-no_digit c h = ground arith

pub span-digits :
    (w rest : List ℕ) → All Digit w → Apart rest → span is_digit (w ++ rest) ≡ (w, rest)
unfolding span
span-digits [] [] h k = refl
span-digits [] (c ∷ rest) h k = rw (Space-no_digit c k) refl
span-digits (c ∷ w) rest h k = rw (h.0, span-digits w rest h.1 k) refl

pub skip_spaces-number : (d : ℕ) (rest : List ℕ) → Digit d → skip_spaces (d ∷ rest) ≡ d ∷ rest
skip_spaces-number d rest h = skip_spaces-Plain d rest (Digit-Plain d h)

pub get_int-digits :
    (gap w rest : List ℕ) (old : Option ℤ)
    → All Space gap
    → Token Digit w
    → Apart rest
    → value w < 2 ^ 31
    → get_int (after (gap ++ (w ++ rest))) old ≡ (after rest, some (pos (value w)))
unfolding get_int int_from int_of_digits
get_int-digits gap [] rest old spaces h apart small = absurd h
get_int-digits gap (d ∷ ds) rest old spaces h apart small =
    let (minus, plus) = no_sign d h.0 in
    rw
      (
        skip_spaces-gap gap ((d ∷ ds) ++ rest) spaces,
        skip_spaces-Plain d (ds ++ rest) (Digit-Plain d h.0),
        minus,
        plus,
      )
      (rw (span-digits (d ∷ ds) rest h apart, lt→ltb (value (d ∷ ds)) (2 ^ 31) small) refl)

-- A word that does not begin like a number.
pub get_int-no_number :
    (gap : List ℕ) (c : ℕ) (rest : List ℕ) (old : Option ℤ)
    → All Space gap
    → Plain c
    → is_digit c ≡ false
    → (c == 45) ≡ false
    → (c == 43) ≡ false
    → get_int (after (gap ++ c ∷ rest)) old ≡ (broken (c ∷ rest), some (pos 0))
unfolding get_int int_from int_of_digits span
get_int-no_number gap c rest old spaces plain letter minus plus =
    rw (skip_spaces-gap gap (c ∷ rest) spaces, skip_spaces-Plain c rest plain, minus, plus, letter)
      refl

pub get_string-word :
    (gap w rest old : List ℕ)
    → All Space gap
    → Token Plain w
    → Apart rest
    → get_string (after (gap ++ (w ++ rest))) old ≡ (after rest, w)
unfolding get_string
get_string-word gap [] rest old spaces h apart = absurd h
get_string-word gap (c ∷ w) rest old spaces h apart =
    rw (skip_spaces-gap gap ((c ∷ w) ++ rest) spaces, skip_spaces-Plain c (w ++ rest) h.0)
      (rw (span-word (c ∷ w) rest h apart) refl)

-- Nothing is left but spaces.
pub get_string-none :
    (gap old : List ℕ) → All Space gap → get_string (after gap) old ≡ (broken [], old)
unfolding get_string skip_spaces
get_string-none gap old spaces =
    let e : skip_spaces gap ≡ [] =
      subst (λ g. skip_spaces g ≡ []) (append-nil gap) (skip_spaces-gap gap [] spaces) in
    rw e refl

-- After a failure.
pub get_string-broken : (rest old : List ℕ) → get_string (broken rest) old ≡ (broken rest, old)
unfolding get_string
get_string-broken rest old = refl

pub get_int-broken :
    (rest : List ℕ) (old : Option ℤ) → get_int (broken rest) old ≡ (broken rest, old)
unfolding get_int
get_int-broken rest old = refl

digits-Plain : (w : List ℕ) → All Digit w → All Plain w
digits-Plain [] h = tt
digits-Plain (c ∷ w) h = (Digit-Plain c h.0, digits-Plain w h.1)

pub number-Token : (w : List ℕ) → Token Digit w → Token Plain w
number-Token [] h = h
number-Token (c ∷ w) h = (Digit-Plain c h.0, digits-Plain w h.1)

skip_spaces-le : (cs : List ℕ) → length (skip_spaces cs) ≤ length cs
unfolding skip_spaces
skip_spaces-le [] = omega arith
skip_spaces-le (c ∷ cs) = ground (arith, skip_spaces-le cs)

span-le : (kind : ℕ → Bool) (cs : List ℕ) → length (span kind cs).1 ≤ length cs
unfolding span
span-le kind [] = omega arith
span-le kind (c ∷ cs) = elim (Bool-cases (kind c)) [
  | inl e ↦ rw e (omega (arith, span-le kind cs))
  | inr e ↦ rw e (omega arith)
]

-- The first character behind the spaces is of a word.
skip_spaces-head :
    (cs : List ℕ) (c : ℕ) (rest : List ℕ) → skip_spaces cs ≡ c ∷ rest → is_word c ≡ true
unfolding skip_spaces
skip_spaces-head [] c rest = λ h. absurd (cc)
skip_spaces-head (d ∷ cs) c rest = elim (Bool-cases (is_space d)) [
  | inl e ↦ rw e (skip_spaces-head cs c rest)
  | inr e ↦ rw e (λ h. let same : d ≡ c = cc in subst (λ c. is_word c ≡ true) same (rw e refl))
]

List-cases : (xs : List ℕ) → (xs ≡ []) ⊎ ((c : ℕ) × (cs : List ℕ) × (xs ≡ c ∷ cs))
List-cases [] = inl refl
List-cases (c ∷ cs) = inr (c, cs, refl)

span-shorter :
    (c : ℕ) (cs : List ℕ) → is_word c ≡ true → length (span is_word (c ∷ cs)).1 < length (c ∷ cs)
unfolding span
span-shorter c cs h = rw h (omega (arith, span-le is_word cs))

get_string-shorter_at :
    (rest old : List ℕ) (failed : Bool)
    → (get_string (record { rest = rest; failed = failed }) old).0.failed ≡ false
    → (length (get_string (record { rest = rest; failed = failed }) old).0.rest < length rest)
      × (failed ≡ false)
unfolding get_string
get_string-shorter_at rest old true = λ h. absurd (cc)
get_string-shorter_at rest old false = elim (List-cases (skip_spaces rest)) [
  | inl e ↦ rw e (λ h. absurd (cc))
  | inr (c, cs, e) ↦
      let less = span-shorter c cs (skip_spaces-head rest c cs e) in
      let le : length (c ∷ cs) ≤ length rest =
        subst (λ t. length t ≤ length rest) e (skip_spaces-le rest) in
      rw e (λ h. (omega (arith, less, le), refl))
]

-- Whenever a word is read, the text gets shorter.
pub get_string-shorter :
    (s : Stream) (old : List ℕ)
    → (get_string s old).0.failed ≡ false
    → (length (get_string s old).0.rest < length s.rest) × (s.failed ≡ false)
get_string-shorter s old h = get_string-shorter_at s.rest old s.failed h
