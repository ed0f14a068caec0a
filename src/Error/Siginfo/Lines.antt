-- ===== src/Error/Siginfo/Lines.antt =====
-- The lines that bazelPro/src/lib/prettyprint_siginfo.cc prints, described apart from the code.
use ng.Base.{
  ℕ, ◌%◌, ◌-◌, ◌^◌, sym, subst, List, [], ◌∷◌, ◌++◌, Option, some, ◌>>=◌, Bool, false, ◌==◌, ◌&&◌,
  ◌||◌, not, if◌then◌else◌,
}
use ng.Base.{append_assoc, append-nil, int32}
use ng.Dump.{c_string}
use ng.Buffer.{Buffer}
use ng.Format.Arg.{codes}
use ng.Error.Prints.{IsInt, IsNumber}
use ng.Error.Writes.{Writes, Writes-nothing, Writes-then}
use ng.Error.Siginfo.{SigInfo}
use ng.Error.Siginfo.Table.{faults, is_one_of, meaning}

-- A line with an `int` and what it means, with an `int`, with the low 32 bits of a `long` in decimal,
-- and with these in hexadecimal.
pub data Line : Type 0 where
  described : List ℕ → ℕ → List ℕ → Line
  int_line : List ℕ → ℕ → Line
  long_line : List ℕ → ℕ → Line
  hex_line : List ℕ → ℕ → Line

-- `d` stands for the number of the line.
abbrev pub IsValue : Line → List ℕ → Type 0
IsValue (described name w meaning) d = IsInt (int32 (w % 2 ^ 32)) d
IsValue (int_line name w) d = IsInt (int32 (w % 2 ^ 32)) d
IsValue (long_line name w) d = IsNumber 10 0 false (w % 2 ^ 32) d
IsValue (hex_line name w) d = IsNumber 16 0 false (w % 2 ^ 32) d

abbrev pub with_value : Line → List ℕ → List ℕ
with_value (described name w meaning) d =
    codes "- "
    ++ (name ++ (codes " = " ++ (d ++ (codes " (" ++ (c_string meaning ++ codes ")\n")))))
with_value (int_line name w) d = codes "- " ++ (name ++ (codes " = " ++ (d ++ codes "\n")))
with_value (long_line name w) d = codes "- " ++ (name ++ (codes " = " ++ (d ++ codes "\n")))
with_value (hex_line name w) d = codes "- " ++ (name ++ (codes " = 0x" ++ (d ++ codes "\n")))

-- The text is that of the lines, one after the other.
pub data AreLines : List Line → List ℕ → Type 0 where
  no_lines : AreLines [] []
  one_more :
      {l : Line} {ls : List Line} (d t : List ℕ)
      → IsValue l d
      → AreLines ls t
      → AreLines (l ∷ ls) (with_value l d ++ t)

-- Which lines a signal has: 17 and 29 are SIGCHLD and SIGIO, 0 and the pattern of -1 the codes of a
-- signal from `kill` or `raise` and from `sigqueue`.
abbrev pub lines_if : Bool → List Line → List Line
lines_if b ls = if b then ls else []

-- The lines of a fault, a child and a file; `fault` tells whether the signal is a fault.
abbrev pub field_lines : Bool → SigInfo → List Line
field_lines fault si =
    lines_if (fault && not (si.si_code == 0)) (hex_line (codes "addr") si.si_addr ∷ [])
    ++ (lines_if (si.si_signo == 17) (
          int_line (codes "status") si.si_status
          ∷ long_line (codes "utime") si.si_utime
          ∷ long_line (codes "stime") si.si_stime
          ∷ [])
        ++ lines_if (si.si_signo == 29) (int_line (codes "fd") si.si_fd ∷ []))

abbrev pub siginfo_lines : (ℕ → List ℕ) → (ℕ → List ℕ) → SigInfo → List Line
siginfo_lines strsignal strerror si =
    (described (codes "signo") si.si_signo (strsignal si.si_signo)
      ∷ described (codes "errno") si.si_errno (strerror si.si_errno)
      ∷ described (codes "code") si.si_code (meaning si.si_signo si.si_code)
      ∷ [])
    ++ (field_lines (is_one_of faults si.si_signo) si
        ++ (lines_if (si.si_signo == 17 || (si.si_code == 2 ^ 32 - 1 || si.si_code == 0))
              (long_line (codes "pid") si.si_pid ∷ long_line (codes "uid") si.si_uid ∷ [])
            ++ lines_if (si.si_code == 2 ^ 32 - 1)
                (int_line (codes "int") si.si_int ∷ hex_line (codes "ptr") si.si_ptr ∷ [])))

AreLines-append :
    (ls ms : List Line) (s t : List ℕ)
    → AreLines ls s
    → AreLines ms t
    → AreLines (ls ++ ms) (s ++ t)
AreLines-append ls ms s t no_lines w = w
AreLines-append ls ms s t (one_more {l = l} {ls = rest} d r value v) w =
    subst (AreLines (l ∷ (rest ++ ms))) (sym (append_assoc (with_value l d) r t))
      (one_more d (r ++ t) value (AreLines-append rest ms r t v w))

-- Code that adds the text of some lines to the print buffer.
abbrev pub WritesLines : (Buffer → Option Buffer) → List Line → Type 0
WritesLines f ls = (t : List ℕ) × AreLines ls t × Writes f t

pub WritesLines-nothing : WritesLines some []
WritesLines-nothing = ([], no_lines, Writes-nothing)

pub WritesLines-then :
    {f g : Buffer → Option Buffer} {ls ms : List Line}
    → WritesLines f ls
    → WritesLines g ms
    → WritesLines (λ b. f b >>= g) (ls ++ ms)
WritesLines-then {ls = ls} {ms = ms} (s, v, w) (t, v', w') =
    (s ++ t, AreLines-append ls ms s t v v', Writes-then w w')

pub WritesLines-one :
    {f : Buffer → Option Buffer} (l : Line) (d : List ℕ)
    → IsValue l d
    → Writes f (with_value l d)
    → WritesLines f (l ∷ [])
WritesLines-one {f} l d value w = (
  with_value l d ++ [],
  one_more d [] value no_lines,
  subst (Writes f) (sym (append-nil (with_value l d))) w,
)
