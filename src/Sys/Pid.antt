-- ===== src/Sys/Pid.antt =====
-- `get_pid_with_name` and `terminate_with_pid` of bazelPro/src/utils/sys.cc. What a command prints and
-- its status are a parameter.
pub mod Answer
use ng.Base.{
  ℕ, zero, suc, ◌+◌, ◌-◌, ◌%◌, ◌^◌, List, [], ◌∷◌, ◌++◌, Option, none, some, Bool, true, false, not,
  ◌==◌, leb, if◌then◌else◌, take, ℤ, pos, negsuc, int32, u32,
}
use ng.Format.Arg.{codes}
use ng.Sys.Stream.{skip_spaces, span, is_digit, value}

-- What the command writes to the pipe, and what `pclose` returns, as a 32-bit pattern.
pub record Ran : Type 0 where
  pub output : List ℕ
  pub status : ℕ

-- The characters that `fgets` stores, at most `n` and no more after the end of the line.
pub fgets : ℕ → List ℕ → List ℕ
fgets zero text = []
fgets (suc n) [] = []
fgets (suc n) (c ∷ cs) = let more = fgets n cs in if c == 10 then c ∷ [] else c ∷ more

abbrev pub ulong_max : ℕ
ulong_max = 2 ^ 64 - 1

pub ulong_of : Bool → List ℕ → ℕ
ulong_of negative ds =
    let n = value ds in
    if leb (2 ^ 64) n then ulong_max else if negative then (2 ^ 64 - n) % 2 ^ 64 else n

-- `strtoul(text, NULL, 10)`.
pub strtoul : List ℕ → ℕ
strtoul text = elim (skip_spaces text) [
  | [] ↦ 0
  | c ∷ cs ↦
      if c == 45
      then ulong_of true (span is_digit cs).0
      else if c == 43
      then ulong_of false (span is_digit cs).0
      else ulong_of false (span is_digit (c ∷ cs)).0
]

-- The command, cut off to the array with its null byte.
abbrev pub command : List ℕ → List ℕ
command name = take 63 (codes "pidof " ++ name)

-- What is made of a run of the command; `popen` gives `none` for NULL.
pub pid_of : Option Ran → ℤ
pid_of none = negsuc 0
pid_of (some ran) =
    if not (ran.status == 0) then negsuc 0 else int32 (u32 (strtoul (fgets 14 ran.output)))

pub get_pid_with_name : (List ℕ → Option Ran) → List ℕ → ℤ
get_pid_with_name popen name = pid_of (popen (command name))

-- The process and the signal given to `kill`, and the pid that is printed when `kill` fails.
pub terminate_with_pid : ℤ → ℕ → ℤ × ℕ × List ℤ
terminate_with_pid pid result = (pid, 9, if not (result == 0) then pid ∷ [] else [])
