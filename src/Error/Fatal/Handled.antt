-- ===== src/Error/Fatal/Handled.antt =====
-- What the handlers of fatal signals of bazelPro/src/lib/zsignal.cc write.
use ng.Base.{
  ℕ, suc, ◌+◌, ◌%◌, ◌^◌, ◌≤◌, ◌≡◌, refl, ap, arith, List, [], ◌∷◌, ◌++◌, Option, some, Bool, true,
  false, ◌==◌, ◌&&◌,
}
use ng.Base.{Bool-cases, inl, inr, ◌⊎◌, length, take, length-take}
use ng.Dump.{c_string}
use ng.Format.Arg.{Arg, codes}
use ng.Format.Ftoa.{Double}
use ng.Error.{Process, max_callstack_depth, error_custom}
use ng.Error.Prints.{IsNumber, IsShort, Prints-nil, Prints-literal, Prints-02d, Prints-08lx}
use ng.Error.Writes.{Writes, Writes-nothing, Writes-then, Prints-Writes}
use ng.Error.Shown.{Numbers, record_text, literal-Writes, error_format_record-composed}
use ng.Error.Siginfo.{SigInfo}
use ng.Error.Siginfo.Lines.{siginfo_lines, AreLines}
use ng.Error.Siginfo.Shown.{prettyprint_siginfo-WritesLines}
use ng.Error.Fatal.{
  print, write, raise, print_ips, prettyprint_ucontext, prettyprint_siginfo_and_ucontext,
  asyncsignalsafe_fatal_error_record, signal_report, fatal_signal_handler,
}

-- The lines of a call stack from the `j`-th address on: the number of the address, and its low 32
-- bits.
pub data AreIps : ℕ → List ℕ → List ℕ → Type 0 where
  no_ips : {j : ℕ} → AreIps j [] []
  one_ip :
      {j ip : ℕ} {ips : List ℕ} (number address t : List ℕ)
      → IsNumber 10 2 true (j % 2 ^ 32) number
      → IsNumber 16 8 true (ip % 2 ^ 32) address
      → AreIps (j + 1) ips t
      → AreIps j
          (ip ∷ ips)
          (codes "  ip[" ++ (number ++ (codes "]      : 0x" ++ (address ++ codes "\n"))) ++ t)

-- The data of the record of a fatal signal: the lines of the signal and those of the call stack.
pub record IsFatalData (strsignal strerror : ℕ → List ℕ) (process : Process) (si : SigInfo)
    (t : List ℕ) : Type 0 where
  pub lines : List ℕ
  pub ips : List ℕ
  pub whole :
      t
      ≡ codes "\nThe following signal was received:\n"
        ++ (lines ++ (codes "- Architecture specific information:\n" ++ ips))
  pub of_signal : AreLines (siginfo_lines strsignal strerror si) lines
  pub of_stack : AreIps 0 (take max_callstack_depth process.backtrace) ips

first : List ℕ → ℕ
first [] = 0
first (x ∷ xs) = x

others : List ℕ → List ℕ
others [] = []
others (x ∷ xs) = xs

c_string-front :
    (xs out : List ℕ) → take (suc (length xs)) out ≡ xs ++ (0 ∷ []) → c_string out ≡ c_string xs
unfolding first others
c_string-front [] [] h = refl
c_string-front [] (c ∷ out) h = let z : c ≡ 0 = ap first h in rw z refl
c_string-front (x ∷ xs) [] h = absurd (cc)
c_string-front (x ∷ xs) (c ∷ out) h =
    let same : c ≡ x = ap first h in
    let ih = c_string-front xs out (ap others h) in rw (same, ih) refl

module _ {F : Type 0} (fl : Double F) (turns : ℕ) (strsignal strerror : ℕ → List ℕ)
    (vsnprintf : ℕ → List ℕ × List (Arg F) → Option (List ℕ × ℕ)) (process : Process) where
  print_ips-Writes :
      (j : ℕ) (ips : List ℕ)
      → j + length ips ≤ 2 ^ 20
      → (t : List ℕ) × AreIps j ips t
        × Writes (print_ips fl turns strsignal strerror vsnprintf process j ips) t
  unfolding print_ips
  print_ips-Writes j [] h = ([], no_ips, Writes-nothing)
  print_ips-Writes j (ip ∷ ips) h =
      let (t, v, w) = print_ips-Writes (j + 1) ips (omega arith) in
      let end = Prints-literal fl turns (codes "\n") refl (Prints-nil fl turns []) in
      let (address, is_address, with_address) = Prints-08lx fl turns ip end in
      let middle = Prints-literal fl turns (codes "]      : 0x") refl with_address in
      let (number, is_number, with_number) = Prints-02d fl turns j (omega arith) middle in
      let line = Prints-literal fl turns (codes "  ip[") refl with_number in
      (
        codes "  ip[" ++ (number ++ (codes "]      : 0x" ++ (address ++ codes "\n"))) ++ t,
        one_ip number address t is_number is_address v,
        Writes-then (Prints-Writes fl turns line (omega arith)) w,
      )

  module _ (si : SigInfo) (signal_short : IsShort (strsignal si.si_signo))
      (error_short : IsShort (strerror si.si_errno)) where
    fatal-Writes :
        (t : List ℕ) × IsFatalData strsignal strerror process si t
        × Writes
            (λ b.
              prettyprint_siginfo_and_ucontext fl turns strsignal strerror vsnprintf process b si 0)
            t
    unfolding prettyprint_siginfo_and_ucontext prettyprint_ucontext
    fatal-Writes =
        let (lines, v, w) =
          prettyprint_siginfo-WritesLines fl turns strsignal strerror si signal_short error_short in
        let addresses = take max_callstack_depth process.backtrace in
        let (ips, v', w') =
          print_ips-Writes 0 addresses
            (omega (arith, length-take max_callstack_depth process.backtrace)) in
        (
          codes "\nThe following signal was received:\n"
              ++ (lines ++ (codes "- Architecture specific information:\n" ++ ips)),
          record { lines = lines; ips = ips; whole = refl; of_signal = v; of_stack = v' },
          Writes-then
              (literal-Writes fl turns (codes "\nThe following signal was received:\n") refl
                (omega arith))
              (Writes-then w (
                Writes-then
                  (literal-Writes fl turns (codes "- Architecture specific information:\n") refl
                    (omega arith))
                  w')),
        )

    -- A fatal signal is handled in two ways. When it is SIGABRT and `zsignal_abort` was called, it is
    -- only raised again. Otherwise a record of it is written first: the first 2047 characters of a
    -- record whose data are the described lines of the signal and of the call stack. The handler
    -- returns in both cases, on condition that the texts of the C library, the name of the thread and
    -- that of the file are at most 2^24 long, and that the array of the record has 2048 bytes.
    pub fatal_signal_handler-effects :
        (error_record file : List ℕ) (abort_expected : Bool) (signum seq_num : ℕ)
        → 2048 ≤ length error_record
        → IsShort process.thread_name
        → IsShort file
        → (((signum == 6 && abort_expected) ≡ true)
            × (fatal_signal_handler fl turns strsignal strerror vsnprintf process error_record file
                  abort_expected signum si seq_num
                ≡ some (print (codes "fatal_signal_handler \n") ∷ raise signum ∷ [], seq_num)))
          ⊎ (((signum == 6 && abort_expected) ≡ false)
              × ((t : List ℕ) × IsFatalData strsignal strerror process si t
                  × ((m : Numbers process (signal_report file 119 true si) seq_num)
                      × (fatal_signal_handler fl turns strsignal strerror vsnprintf process
                            error_record file abort_expected signum si seq_num
                          ≡ some (
                            print (codes "fatal_signal_handler \n")
                                ∷ write (codes "\n")
                                ∷ write (
                                    c_string (
                                      take 2047 (
                                        record_text process
                                          (signal_report file 119 true si)
                                          seq_num
                                          m
                                          t
                                          [])))
                                ∷ raise signum
                                ∷ [],
                            (seq_num + 1) % 2 ^ 32,
                          )))))
    unfolding fatal_signal_handler asyncsignalsafe_fatal_error_record error_custom
    fatal_signal_handler-effects error_record file abort_expected signum seq_num room name
          is_short =
        elim (Bool-cases (signum == 6 && abort_expected)) [
          | inl e ↦ inl (e, rw e refl)
          | inr e ↦
              let (t, v, w) = fatal-Writes in
              let (m, out, f, shows) =
                error_format_record-composed fl turns vsnprintf process
                  (signal_report file 119 true si)
                  (prettyprint_siginfo_and_ucontext fl turns strsignal strerror vsnprintf process)
                  seq_num t [] error_record room name (omega arith) is_short w Writes-nothing in
              let written =
                c_string-front
                  (take 2047 (record_text process (signal_report file 119 true si) seq_num m t []))
                  out shows in
              inr (e, (t, v, (m, rw (e, f, written) refl)))
        ]
