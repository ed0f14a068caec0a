-- ===== src/Error/Fatal.antt =====
-- The records of signals of bazelPro/src/lib/zsignal.cc, with prettyprint_ucontext.cc, and the
-- handlers that print them. What is done to the process is a list of effects.
pub mod Handled
use ng.Base.{
  ℕ, ◌+◌, ◌%◌, ◌^◌, List, [], ◌∷◌, ◌++◌, Option, none, some, ◌>>=◌, Bool, true, false, ◌==◌, ◌&&◌,
  not, if◌then◌else◌, take,
}
use ng.Dump.{c_string}
use ng.Buffer.{Buffer}
use ng.Format.Arg.{Arg, word, codes}
use ng.Format.Ftoa.{Double}
use ng.Error.{
  Process, Report, DataFormatter, max_callstack_depth, bufprintf_asyncsignalsafe, error_custom,
}
use ng.Error.Siginfo.{SigInfo, prettyprint_siginfo}

-- A text printed, a text written to the standard error, a signal led to the default handler, one
-- raised, and the end of the process.
pub data Effect : Type 0 where
  print : List ℕ → Effect
  write : List ℕ → Effect
  set_default : ℕ → Effect
  raise : ℕ → Effect
  exit : Effect

-- In bazelPro/src/lib/zlog.cc.
abbrev pub print_error_asyncsignalsafe : List ℕ → List Effect
print_error_asyncsignalsafe str = write (codes "\n") ∷ write (c_string str) ∷ []

-- `file` and `line` are those of the call.
abbrev pub signal_report : List ℕ → ℕ → Bool → SigInfo → Report SigInfo
signal_report file line async_signal_safe si = record {
  type = 0;
  app = codes "ysignal";
  file = file;
  line = line;
  async_signal_safe = async_signal_safe;
  error_data = si;
  datalen = 0;
}

module _ {F : Type 0} (fl : Double F) (turns : ℕ) (strsignal strerror : ℕ → List ℕ)
    (vsnprintf : ℕ → List ℕ × List (Arg F) → Option (List ℕ × ℕ)) (process : Process) where
  -- The rounds of the loop for the addresses from the `j`-th on.
  pub print_ips : ℕ → List ℕ → Buffer → Option Buffer
  print_ips j [] b = some b
  print_ips j (ip ∷ ips) b = do
    b ←
        bufprintf_asyncsignalsafe fl turns b (codes "  ip[%02d]      : 0x%08lx\n")
          (word j ∷ word ip ∷ [])
    print_ips (j + 1) ips b

  pub prettyprint_ucontext : Buffer → Option Buffer
  prettyprint_ucontext b = print_ips 0 (take max_callstack_depth process.backtrace) b

  pub prettyprint_siginfo_and_ucontext : DataFormatter SigInfo
  prettyprint_siginfo_and_ucontext b si datalen = do
    b ← bufprintf_asyncsignalsafe fl turns b (codes "\nThe following signal was received:\n") []
    b ← prettyprint_siginfo fl turns strsignal strerror si b
    b ← bufprintf_asyncsignalsafe fl turns b (codes "- Architecture specific information:\n") []
    prettyprint_ucontext b

  pub prettyprint_siginfo_wrap : DataFormatter SigInfo
  prettyprint_siginfo_wrap b si datalen = do
    b ← bufprintf_asyncsignalsafe fl turns b (codes "\nThe following signal was received:\n") []
    prettyprint_siginfo fl turns strsignal strerror si b

  -- The record and the new `seq_num`; `error_record` is what the array held before.
  pub asyncsignalsafe_fatal_error_record : List ℕ → List ℕ → ℕ → SigInfo → ℕ → Option (List ℕ × ℕ)
  asyncsignalsafe_fatal_error_record error_record file line si seq_num =
      error_custom fl turns vsnprintf process error_record (signal_report file line true si)
        prettyprint_siginfo_and_ucontext seq_num

  pub fatal_error_record : List ℕ → List ℕ → ℕ → SigInfo → ℕ → Option (List ℕ × ℕ)
  fatal_error_record error_record file line si seq_num =
      error_custom fl turns vsnprintf process error_record (signal_report file line false si)
        prettyprint_siginfo_wrap seq_num

  -- `__FILE__` is given. `abort_expected` is set by `zsignal_abort`; 6 is SIGABRT.
  pub fatal_signal_handler : List ℕ → List ℕ → Bool → ℕ → SigInfo → ℕ → Option (List Effect × ℕ)
  fatal_signal_handler error_record file abort_expected signum si seq_num =
      let start = print (codes "fatal_signal_handler \n") in
      if not (signum == 6 && abort_expected)
      then (do
        (text, seq_num) ← asyncsignalsafe_fatal_error_record error_record file 119 si seq_num
        some (start ∷ (print_error_asyncsignalsafe text ++ (raise signum ∷ [])), seq_num))
      else some (start ∷ raise signum ∷ [], seq_num)

  pub log_error_and_call_system_default_handler :
      List ℕ → List ℕ → SigInfo → ℕ → Option (List Effect × ℕ)
  log_error_and_call_system_default_handler error_record file si seq_num = do
    (text, seq_num) ← fatal_error_record error_record file 281 si seq_num
    some (
      print (codes "log_error_and_call_system_default_handler \n")
          ∷ (print_error_asyncsignalsafe text
              ++ (set_default (si.si_signo) ∷ raise (si.si_signo) ∷ [])),
      seq_num,
    )

-- The new `abort_expected`, and what is done.
pub zsignal_abort : Bool × List Effect
zsignal_abort =
    (true, print (codes "Abort requested, process will terminate\n") ∷ raise 6 ∷ exit ∷ [])
