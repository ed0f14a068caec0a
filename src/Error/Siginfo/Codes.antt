-- ===== src/Error/Siginfo/Codes.antt =====
-- `strcode` of bazelPro/src/lib/prettyprint_siginfo.cc. The codes and signal numbers are those of Linux;
-- a negative code is its 32-bit pattern.
use ng.Base.{
  ℕ, ◌-◌, ◌^◌, List, [], ◌∷◌, Option, none, some, Bool, true, false, ◌==◌, ◌&&◌, if◌then◌else◌,
  length, ltb, ltb→lt, ◌≤◌, ◌≡◌, refl, arith, Bool-cases, inl, inr,
}
use ng.Format.Arg.{codes}

abbrev pub si_user : ℕ
si_user = 0

abbrev pub si_queue : ℕ
si_queue = 2 ^ 32 - 1

abbrev pub sigill : ℕ
sigill = 4

abbrev pub sigfpe : ℕ
sigfpe = 8

abbrev pub sigsegv : ℕ
sigsegv = 11

abbrev pub sigbus : ℕ
sigbus = 7

abbrev pub sigtrap : ℕ
sigtrap = 5

abbrev pub sigchld : ℕ
sigchld = 17

abbrev pub sigio : ℕ
sigio = 29

-- The cases of one `switch`: a code and its text.
abbrev pub si_codes : List (ℕ × List ℕ)
si_codes =
    (0, codes "kill or raise")
    ∷ (0x80, codes "kernel")
    ∷ (2 ^ 32 - 1, codes "sigqueue")
    ∷ (2 ^ 32 - 2, codes "POSIX timer expired")
    ∷ (2 ^ 32 - 3, codes "POSIX message queue state changed")
    ∷ (2 ^ 32 - 4, codes "AIO completed")
    ∷ (2 ^ 32 - 6, codes "tkill or tgkill")
    ∷ []

abbrev pub ill_codes : List (ℕ × List ℕ)
ill_codes =
    (1, codes "illegal opcode")
    ∷ (2, codes "illegal operand")
    ∷ (3, codes "illegal addressing mode")
    ∷ (4, codes "illegal trap")
    ∷ (5, codes "privileged opcode")
    ∷ (6, codes "privileged register")
    ∷ (7, codes "coprocessor error")
    ∷ (8, codes "internal stack error")
    ∷ []

abbrev pub fpe_codes : List (ℕ × List ℕ)
fpe_codes =
    (1, codes "integer divide by zero")
    ∷ (2, codes "integer overflow")
    ∷ (3, codes "floating-point divide by zero")
    ∷ (4, codes "floating-point overflow")
    ∷ (5, codes "floating-point underflow")
    ∷ (6, codes "floating-point inexact result")
    ∷ (7, codes "floating-point invalid operation")
    ∷ (8, codes "subscript out of range")
    ∷ []

abbrev pub segv_codes : List (ℕ × List ℕ)
segv_codes =
    (1, codes "address not mapped to object")
    ∷ (2, codes "invalid permissions for mapped object")
    ∷ []

abbrev pub bus_codes : List (ℕ × List ℕ)
bus_codes =
    (1, codes "invalid address alignment")
    ∷ (2, codes "nonexistent physical address")
    ∷ (3, codes "object-specific hardware error")
    ∷ []

abbrev pub trap_codes : List (ℕ × List ℕ)
trap_codes = (1, codes "process breakpoint") ∷ (2, codes "process trace trap") ∷ []

abbrev pub cld_codes : List (ℕ × List ℕ)
cld_codes =
    (1, codes "child has exited")
    ∷ (2, codes "child was killed")
    ∷ (3, codes "child terminated abnormally")
    ∷ (4, codes "traced child has trapped")
    ∷ (5, codes "child has stopped")
    ∷ (6, codes "stopped child has continued")
    ∷ []

abbrev pub poll_codes : List (ℕ × List ℕ)
poll_codes =
    (1, codes "data input available")
    ∷ (2, codes "output buffers available")
    ∷ (3, codes "input message available")
    ∷ (4, codes "I/O error")
    ∷ (5, codes "high priority input available")
    ∷ (6, codes "device disconnected")
    ∷ []

-- The first case for a code.
abbrev pub find_code : ℕ → List (ℕ × List ℕ) → Option (List ℕ)
find_code code [] = none
find_code code (c ∷ cases) =
    let rest = find_code code cases in if code == c.0 then some (c.1) else rest

-- The cases of the second `switch`.
abbrev pub signal_codes : ℕ → List (ℕ × List ℕ)
signal_codes signo =
    if signo == sigill
    then ill_codes
    else if signo == sigfpe
    then fpe_codes
    else if signo == sigsegv
    then segv_codes
    else if signo == sigbus
    then bus_codes
    else if signo == sigtrap
    then trap_codes
    else if signo == sigchld
    then cld_codes
    else if signo == sigio
    then poll_codes
    else []

abbrev pub or_else : Option (List ℕ) → List ℕ → List ℕ
or_else none t = t
or_else (some s) t = s

unfoldable pub strcode : ℕ → ℕ → List ℕ
strcode signo code =
    or_else (find_code code si_codes) (or_else (find_code code (signal_codes signo)) [])

-- The texts are short.
abbrev all_short : List (ℕ × List ℕ) → Bool
all_short [] = true
all_short (c ∷ cases) = ltb (length (c.1)) 64 && all_short cases

all_short-if :
    (b : Bool) (cs ds : List (ℕ × List ℕ))
    → all_short cs ≡ true
    → all_short ds ≡ true
    → all_short (if b then cs else ds) ≡ true
all_short-if true cs ds h k = h
all_short-if false cs ds h k = k

find_code-short :
    (code : ℕ) (cases : List (ℕ × List ℕ)) (t : List ℕ)
    → all_short cases ≡ true
    → length t ≤ 2 ^ 24
    → length (or_else (find_code code cases) t) ≤ 2 ^ 24
find_code-short code [] t h k = k
find_code-short code (c ∷ cases) t h k =
    let (here, rest) = both (ltb (length (c.1)) 64) (all_short cases) h in
    let small = ltb→lt (length (c.1)) 64 here in
    elim (Bool-cases (code == c.0)) [
      | inl e ↦ rw e (omega arith)
      | inr e ↦ rw e (find_code-short code cases t rest k)
    ]
  where
    both : (a b : Bool) → (a && b) ≡ true → (a ≡ true) × (b ≡ true)
    both true b h = (refl, h)
    both false b h = absurd (cc)

pub strcode-IsShort : (signo code : ℕ) → length (strcode signo code) ≤ 2 ^ 24
unfolding strcode
strcode-IsShort signo code = find_code-short code si_codes _ refl (
    find_code-short code (signal_codes signo) []
      (all_short-if (signo == sigill) _ _ refl (
        all_short-if (signo == sigfpe) _ _ refl (
          all_short-if (signo == sigsegv) _ _ refl (
            all_short-if (signo == sigbus) _ _ refl (
              all_short-if (signo == sigtrap) _ _ refl (
                all_short-if (signo == sigchld) _ _ refl
                  (all_short-if (signo == sigio) _ _ refl refl)))))))
      (omega arith))
