-- ===== src/Sys/Pid/Answer.antt =====
-- What `get_pid_with_name` of bazelPro/src/utils/sys.cc answers.
use ng.Base.{
  ℕ, zero, suc, ◌^◌, ◌≤◌, ◌<◌, ◌⊎◌, append-nil, ◌≡◌, ◌≢◌, refl, ap, ◌∙◌, arith, List, [], ◌∷◌, ◌++◌,
  Option, none, some, false, ◌==◌, ==_false, leb, length, ℤ, pos, negsuc, int32, u32, All,
  Bool-cases, inl, inr,
}
use ng.Base.{take-whole, take-append_le}
use ng.Format.Arg.{codes}
use ng.Sys.Stream.{value}
use ng.Sys.Stream.Tokens.{Digit, Token, Apart, span-digits, skip_spaces-number, no_sign}
use ng.Sys.Pid.{Ran, fgets, ulong_of, strtoul, command, pid_of, get_pid_with_name}

no_newline : (c : ℕ) → Digit c → (c == 10) ≡ false
no_newline c h = ground arith

fgets-Apart : (n : ℕ) (rest : List ℕ) → Apart rest → Apart (fgets n rest)
unfolding fgets
fgets-Apart zero rest h = tt
fgets-Apart (suc n) [] h = tt
fgets-Apart (suc n) (c ∷ cs) h = elim (Bool-cases (c == 10)) [ inl e ↦ rw e h | inr e ↦ rw e h ]

fgets-digits :
    (n : ℕ) (ds rest : List ℕ)
    → length ds ≤ n
    → All Digit ds
    → Apart rest
    → (t : List ℕ) × (fgets n (ds ++ rest) ≡ ds ++ t) × Apart t
unfolding fgets
fgets-digits n [] rest le h k = (fgets n rest, refl, fgets-Apart n rest k)
fgets-digits zero (d ∷ ds) rest le h k = absurd (omega arith)
fgets-digits (suc n) (d ∷ ds) rest le h k =
    let (t, e, apart) = fgets-digits n ds rest (omega arith) h.1 k in
    (t, rw (no_newline d h.0, e) refl, apart)

strtoul-digits :
    (ds rest : List ℕ)
    → Token Digit ds
    → Apart rest
    → value ds < 2 ^ 31
    → strtoul (ds ++ rest) ≡ value ds
unfolding strtoul ulong_of
strtoul-digits [] rest h k small = absurd h
strtoul-digits (d ∷ ds) rest h k small =
    let (minus, plus) = no_sign d h.0 in
    let less : leb (2 ^ 64) (value (d ∷ ds)) ≡ false = ground arith in
    rw
      (
        skip_spaces-number d (ds ++ rest) h.0,
        strtoul,
        minus,
        plus,
        span-digits (d ∷ ds) rest h k,
        less,
      )
      refl

-- The output starts with the number of a process, and a space or the end of the line follows.
abbrev pub Names : Ran → List ℕ → Type 0
Names ran ds =
    (rest : List ℕ) × (ran.output ≡ ds ++ rest)
    × Token Digit ds
    × (length ds ≤ 14)
    × (value ds < 2 ^ 31)
    × Apart rest

-- What a run of the command stands for.
pub data Answer : Option Ran → ℤ → Type 0 where
  no_pipe : Answer none (negsuc 0)
  failure : (ran : Ran) → ran.status ≢ 0 → Answer (some ran) (negsuc 0)
  found :
      (ran : Ran) (ds : List ℕ) → ran.status ≡ 0 → Names ran ds → Answer (some ran) (pos (value ds))

Token-All : (ds : List ℕ) → Token Digit ds → All Digit ds
Token-All [] h = absurd h
Token-All (d ∷ ds) h = h

int_of-small : (n : ℕ) → n < 2 ^ 31 → int32 (u32 n) ≡ pos n
int_of-small n h = ground arith

pid_read :
    (ran : Ran) (ds : List ℕ)
    → Names ran ds
    → int32 (u32 (strtoul (fgets 14 ran.output))) ≡ pos (value ds)
pid_read ran ds (rest, e, digits, le, small, apart) =
    let (t, f, apart_t) = fgets-digits 14 ds rest le (Token-All ds digits) apart in
    let line : fgets 14 ran.output ≡ ds ++ t = ap (fgets 14) e ∙ f in
    ap (λ l. int32 (u32 (strtoul l))) line
    ∙ ap (λ n. int32 (u32 n)) (strtoul-digits ds t digits apart_t small)
    ∙ int_of-small (value ds) small

pid_of-Answer : (ran : Option Ran) (pid : ℤ) → Answer ran pid → pid_of ran ≡ pid
unfolding pid_of
pid_of-Answer _ _ no_pipe = refl
pid_of-Answer _ _ (failure ran ne) = rw (==_false ran.status 0 ne) refl
pid_of-Answer _ _ (found ran ds ok names) = rw (ok, pid_read ran ds names) refl

-- The command of a name that is not longer than the array allows, and of one that is cut.
command-cut :
    (name more : List ℕ)
    → length name ≤ 57
    → (more ≡ []) ⊎ (length name ≡ 57)
    → command (name ++ more) ≡ codes "pidof " ++ name
command-cut name more le (inl e) =
    ap (λ t. command (name ++ t)) e
    ∙ ap command (append-nil name)
    ∙ ap (λ t. codes "pidof " ++ t) (take-whole 57 name le)
command-cut name more le (inr e) =
    ap (λ t. codes "pidof " ++ t)
      (take-append_le 57 name more (omega (arith, e)) ∙ take-whole 57 name le)

-- `get_pid_with_name` asks for the first 57 characters of a name and answers as the command does: -1
-- when it cannot be started or fails, and else the number of the process that its output starts with,
-- when that has at most 14 digits, is an `int` and is followed by a space or the end of the line.
pub get_pid_with_name-Answer :
    (popen : List ℕ → Option Ran) (name more : List ℕ) (pid : ℤ)
    → length name ≤ 57
    → (more ≡ []) ⊎ (length name ≡ 57)
    → Answer (popen (codes "pidof " ++ name)) pid
    → get_pid_with_name popen (name ++ more) ≡ pid
unfolding get_pid_with_name
get_pid_with_name-Answer popen name more pid le cut a =
    ap (λ c. pid_of (popen c)) (command-cut name more le cut)
    ∙ pid_of-Answer (popen (codes "pidof " ++ name)) pid a
