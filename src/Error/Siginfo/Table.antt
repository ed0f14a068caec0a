-- ===== src/Error/Siginfo/Table.antt =====
-- The signals and codes of Linux, as a table apart from bazelPro/src/lib/prettyprint_siginfo.cc.
use ng.Base.{ℕ, ◌-◌, ◌^◌, List, [], ◌∷◌, Bool, true, false, ◌==◌, ◌&&◌, if◌then◌else◌}
use ng.Format.Arg.{codes}

-- The signals of a fault at an address: SIGILL, SIGFPE, SIGSEGV, SIGBUS and SIGTRAP.
abbrev pub faults : List ℕ
faults = 4 ∷ 8 ∷ 11 ∷ 7 ∷ 5 ∷ []

abbrev pub is_one_of : List ℕ → ℕ → Bool
is_one_of [] n = false
is_one_of (m ∷ ms) n = let rest = is_one_of ms n in if n == m then true else rest

-- What a code means whatever the signal is; a negative code is its 32-bit pattern.
abbrev pub of_any_signal : List (ℕ × List ℕ)
of_any_signal =
    (0, codes "kill or raise")
    ∷ (0x80, codes "kernel")
    ∷ (2 ^ 32 - 1, codes "sigqueue")
    ∷ (2 ^ 32 - 2, codes "POSIX timer expired")
    ∷ (2 ^ 32 - 3, codes "POSIX message queue state changed")
    ∷ (2 ^ 32 - 4, codes "AIO completed")
    ∷ (2 ^ 32 - 6, codes "tkill or tgkill")
    ∷ []

-- A signal, a code, and what the code means for this signal.
abbrev pub of_signal : List (ℕ × ℕ × List ℕ)
of_signal =
    (4, 1, codes "illegal opcode")
    ∷ (4, 2, codes "illegal operand")
    ∷ (4, 3, codes "illegal addressing mode")
    ∷ (4, 4, codes "illegal trap")
    ∷ (4, 5, codes "privileged opcode")
    ∷ (4, 6, codes "privileged register")
    ∷ (4, 7, codes "coprocessor error")
    ∷ (4, 8, codes "internal stack error")
    ∷ (8, 1, codes "integer divide by zero")
    ∷ (8, 2, codes "integer overflow")
    ∷ (8, 3, codes "floating-point divide by zero")
    ∷ (8, 4, codes "floating-point overflow")
    ∷ (8, 5, codes "floating-point underflow")
    ∷ (8, 6, codes "floating-point inexact result")
    ∷ (8, 7, codes "floating-point invalid operation")
    ∷ (8, 8, codes "subscript out of range")
    ∷ (11, 1, codes "address not mapped to object")
    ∷ (11, 2, codes "invalid permissions for mapped object")
    ∷ (7, 1, codes "invalid address alignment")
    ∷ (7, 2, codes "nonexistent physical address")
    ∷ (7, 3, codes "object-specific hardware error")
    ∷ (5, 1, codes "process breakpoint")
    ∷ (5, 2, codes "process trace trap")
    ∷ (17, 1, codes "child has exited")
    ∷ (17, 2, codes "child was killed")
    ∷ (17, 3, codes "child terminated abnormally")
    ∷ (17, 4, codes "traced child has trapped")
    ∷ (17, 5, codes "child has stopped")
    ∷ (17, 6, codes "stopped child has continued")
    ∷ (29, 1, codes "data input available")
    ∷ (29, 2, codes "output buffers available")
    ∷ (29, 3, codes "input message available")
    ∷ (29, 4, codes "I/O error")
    ∷ (29, 5, codes "high priority input available")
    ∷ (29, 6, codes "device disconnected")
    ∷ []

-- The first row for a code, or else `t`.
abbrev pub any_row : ℕ → List (ℕ × List ℕ) → List ℕ → List ℕ
any_row code [] t = t
any_row code (r ∷ rows) t = let rest = any_row code rows t in if code == r.0 then r.1 else rest

-- The first row for a signal and a code, or else no text.
abbrev pub row : ℕ → ℕ → List (ℕ × ℕ × List ℕ) → List ℕ
row signo code [] = []
row signo code (r ∷ rows) =
    let rest = row signo code rows in if signo == r.0 && code == r.1 then r.2 else rest

abbrev pub meaning : ℕ → ℕ → List ℕ
meaning signo code = any_row code of_any_signal (row signo code of_signal)
