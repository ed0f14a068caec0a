-- ===== src/Error/Tests.antt =====
-- Concrete records of bazelPro/src/lib/zerror.cc and of the signals of bazelPro/src/lib/zsignal.cc.
use ng.Base.{
  ℕ, ◌+◌, ◌%◌, ◌^◌, ◌≤◌, ◌≡◌, refl, arith, List, [], ◌∷◌, ◌++◌, Option, none, some, true, false,
  ◌==◌, ◌&&◌, ◌⊎◌, length, take, replicate, length-replicate, suc, ◌↔◌, ◌*◌, ◌/◌,
}
use ng.Base.{◌<◌, ◌∙◌, append-nil, subst}
use ng.Dump.{c_string}
use ng.Buffer.{Buffer}
use ng.Format.Arg.{Arg, word, codes}
use ng.Format.Ftoa.{Double}
use ng.Error.{Process, Report, string_formatter, error_format_record}
use ng.Error.Prints.{
  IsNumber, no_percent, Prints-02d, Prints-08lx, Prints-literal, Prints-s, Prints-nil,
}
use ng.Error.Writes.{Writes, Prints-Writes, Prints-IsFormatted}
use ng.Format.Print.{vsnprintf_asyncsignalsafe}
use ng.Error.Shown.{Numbers, record_text}
use ng.Error.Stack.{IsFilled, IsVsnprintf, Gives, IsStack, ip_line, error_format_record-shows}
use ng.Buffer.Laws.{start-Shows}
use ng.Error.Hex.{hexdump_formatter}
use ng.Error.Hex.Reads.{hexdump_formatter_iff}
use ng.Error.Siginfo.{SigInfo}
use ng.Error.Fatal.{Effect, print, write, raise, signal_report, fatal_signal_handler}
use ng.Error.Fatal.Handled.{IsFatalData, fatal_signal_handler-effects}

-- No test prints a `double`: there is only one.
abbrev one_double : Double (Unit {0})
one_double = record {
  below_zero = λ f. false;
  negated = λ f. f;
  add = λ f g. f;
  one_half = tt;
  div_ten = λ f. f;
  mul_ten = λ f. f;
  is_large = λ f. false;
  at_least_ten = λ f. false;
  truncated = λ f. 0;
  minus = λ f n. f;
}

-- A handler of a fatal signal does not use the formatter of the C library.
abbrev unused : ℕ → List ℕ × List (Arg (Unit {0})) → Option (List ℕ × ℕ)
unused room call = none

abbrev main_thread : Process
main_thread = record {
  thread_id = 0x1_0000_0007;
  thread_name = codes "main";
  backtrace = 0x4000 ∷ 0x4010 ∷ [];
}

abbrev a_report : Report (List ℕ)
a_report = record {
  type = 0x20;
  app = codes "hk";
  file = codes "main.cpp";
  line = 12;
  async_signal_safe = false;
  error_data = codes "no door";
  datalen = 7;
}

abbrev a_shown : List ℕ
a_shown = codes "error info       : " ++ (c_string (codes "no door") ++ codes "\n")

a_report-Writes : Writes (λ b. string_formatter one_double 0 b (codes "no door") 7) a_shown
unfolding string_formatter
a_report-Writes =
    let end = Prints-literal one_double 0 (codes "\n") refl (Prints-nil one_double 0 []) in
    Prints-Writes one_double 0
      (Prints-literal one_double 0 (codes "error info       : ") refl
        (Prints-s one_double 0 (codes "no door") (omega arith) end))
      (omega arith)

-- A formatter for the call stack, whose addresses are below 2^32.
abbrev small_vsnprintf : ℕ → List ℕ × List (Arg (Unit {0})) → Option (List ℕ × ℕ)
small_vsnprintf = vsnprintf_asyncsignalsafe one_double 0

Gives-literal :
    (lit : List ℕ)
    → no_percent lit ≡ true
    → length lit < 2 ^ 31
    → Gives small_vsnprintf (lit, []) lit
Gives-literal lit h l =
    let p = Prints-literal one_double 0 lit h (Prints-nil one_double 0 []) in
    subst (λ t. Gives small_vsnprintf (t, []) t) (append-nil lit)
      (Prints-IsFormatted one_double 0 (lit ++ []) [] (lit ++ []) _ p (omega arith))

filled :
    (base k n : ℕ) (t : List ℕ)
    → n < 2 ^ 32
    → IsNumber base k true (n % 2 ^ 32) t
    → IsFilled base k n t
filled base k n t h v =
    let same : n % 2 ^ 32 ≡ n = omega arith in
    record { digits = v.digits; filled = v.filled; value = v.value ∙ same }

Gives-address :
    (j ip : ℕ)
    → j < 30
    → ip < 2 ^ 32
    → (number : List ℕ) × (address : List ℕ) × IsFilled 10 2 j number
      × IsFilled 16 8 ip address
      × Gives small_vsnprintf
          (codes "  ip[%02d]      : 0x%08lx\n", word j ∷ word ip ∷ [])
          (ip_line number address)
Gives-address j ip h l =
    let end = Prints-literal one_double 0 (codes "\n") refl (Prints-nil one_double 0 []) in
    let (address, is_address, with_address) = Prints-08lx one_double 0 ip end in
    let middle = Prints-literal one_double 0 (codes "]      : 0x") refl with_address in
    let (number, is_number, with_number) = Prints-02d one_double 0 j (omega arith) middle in
    let line = Prints-literal one_double 0 (codes "  ip[") refl with_number in
    (
      number,
      address,
      filled 10 2 j number (omega arith) is_number,
      filled 16 8 ip address l is_address,
      Prints-IsFormatted one_double 0 _ _ (ip_line number address) _ line (omega arith),
    )

small_vsnprintf-IsVsnprintf : IsVsnprintf small_vsnprintf main_thread
small_vsnprintf-IsVsnprintf = record {
  literal = Gives-literal;
  address =
      λ j h. (Gives-address j 0x4000 h (omega arith), (Gives-address j 0x4010 h (omega arith), tt));
}

error_format_record-shows_example :
    (stack : List ℕ) × (m : Numbers main_thread a_report 9) × (out : List ℕ) × IsStack main_thread
      false stack
    × (error_format_record one_double 0 small_vsnprintf main_thread
          (replicate 2048 1)
          a_report
          (string_formatter one_double 0)
          9
        ≡ some (out, (9 + 1) % 2 ^ 32))
    × (take (suc (length (take 2047 (record_text main_thread a_report 9 m a_shown stack)))) out
        ≡ take 2047 (record_text main_thread a_report 9 m a_shown stack) ++ (0 ∷ []))
error_format_record-shows_example =
    error_format_record-shows one_double 0 small_vsnprintf main_thread a_report
      (string_formatter one_double 0) 9 a_shown (replicate 2048 1)
      (omega (arith, length-replicate {A = ℕ} 2048 1)) (omega arith) (omega arith) (omega arith)
      a_report-Writes (λ h. small_vsnprintf-IsVsnprintf)

-- An access to an address that is not mapped.
abbrev a_fault : SigInfo
a_fault = record {
  si_signo = 11;
  si_errno = 0;
  si_code = 1;
  si_addr = 0xdead_beef;
  si_status = 0;
  si_utime = 0;
  si_stime = 0;
  si_fd = 0;
  si_pid = 0;
  si_uid = 0;
  si_int = 0;
  si_ptr = 0;
}

abbrev named : ℕ → List ℕ
named n = codes "some name"

abbrev handled : Option (List Effect × ℕ)
handled =
    fatal_signal_handler one_double 0 named named unused main_thread (replicate 2048 1)
      (codes "zsignal.cc") true 11 a_fault 9

fatal_signal_handler-effects_example :
    (((11 == 6 && true) ≡ true)
      × (handled ≡ some (print (codes "fatal_signal_handler \n") ∷ raise 11 ∷ [], 9)))
    ⊎ (((11 == 6 && true) ≡ false)
        × ((t : List ℕ) × IsFatalData named named main_thread a_fault t
            × ((m : Numbers main_thread (signal_report (codes "zsignal.cc") 119 true a_fault) 9)
                × (handled
                    ≡ some (
                      print (codes "fatal_signal_handler \n")
                          ∷ write (codes "\n")
                          ∷ write (
                              c_string (
                                take 2047 (
                                  record_text main_thread
                                    (signal_report (codes "zsignal.cc") 119 true a_fault)
                                    9
                                    m
                                    t
                                    [])))
                          ∷ raise 11
                          ∷ [],
                      (9 + 1) % 2 ^ 32,
                    )))))
fatal_signal_handler-effects_example =
    fatal_signal_handler-effects one_double 0 named named unused main_thread a_fault (omega arith)
      (omega arith) (replicate 2048 1) (codes "zsignal.cc") true 11 9
      (omega (arith, length-replicate {A = ℕ} 2048 1)) (omega arith) (omega arith)

abbrev an_empty_buffer : Buffer
an_empty_buffer = record { output = 0 ∷ replicate 7 1; data_offset = 0; available = 8 }

-- Three bytes, behind which 13 more can be read.
abbrev three_bytes : List ℕ
three_bytes = codes "abc" ++ replicate 13 0

hexdump_formatter_iff_example :
    ((c : Buffer) × (hexdump_formatter (λ c. true) one_double 0 an_empty_buffer three_bytes 3
        ≡ some c))
    ↔ ((3 + 15) / 16 * 16 ≤ length three_bytes)
hexdump_formatter_iff_example =
    hexdump_formatter_iff (λ c. true) one_double 0 8 3 three_bytes [] an_empty_buffer (omega arith)
      (start-Shows (replicate 8 1) 8 (omega arith) (omega arith))
