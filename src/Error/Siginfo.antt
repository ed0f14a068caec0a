-- ===== src/Error/Siginfo.antt =====
-- bazelPro/src/lib/prettyprint_siginfo.cc.
pub mod Codes
pub mod Table
pub mod Lines
pub mod Meant
pub mod Shown
use ng.Base.{
  ℕ, ◌+◌, ◌-◌, ◌^◌, List, [], ◌∷◌, ◌++◌, Option, none, some, ◌>>=◌, Bool, true, false, ◌==◌, ◌&&◌,
  ◌||◌, not, if◌then◌else◌, length, ltb, ltb→lt, ◌≤◌, ◌≡◌, refl, arith, Bool-cases, inl, inr, ◌⊎◌,
}
use ng.Buffer.{Buffer}
use ng.Format.Arg.{Arg, word, text, codes}
use ng.Format.Ftoa.{Double}
use ng.Error.{bufprintf_asyncsignalsafe}
use ng.Error.Siginfo.Codes.{
  si_user, si_queue, sigill, sigfpe, sigsegv, sigbus, sigtrap, sigchld, sigio, strcode,
}

pub record SigInfo : Type 0 where
  pub si_signo : ℕ
  pub si_errno : ℕ
  pub si_code : ℕ
  pub si_addr : ℕ
  pub si_status : ℕ
  pub si_utime : ℕ
  pub si_stime : ℕ
  pub si_fd : ℕ
  pub si_pid : ℕ
  pub si_uid : ℕ
  pub si_int : ℕ
  pub si_ptr : ℕ

abbrev pub is_fault : ℕ → Bool
is_fault signo =
    signo == sigill
    || (signo == sigfpe || (signo == sigsegv || (signo == sigbus || signo == sigtrap)))

-- `strsignal` and `strerror` are those of the C library.
module _ {F : Type 0} (fl : Double F) (turns : ℕ) (strsignal strerror : ℕ → List ℕ) where
  -- The `switch` on the signal.
  unfoldable pub print_fields : SigInfo → Buffer → Option Buffer
  print_fields si b =
      let addr =
        if not (si.si_code == si_user)
        then bufprintf_asyncsignalsafe fl turns b (codes "- addr = 0x%lx\n")
            (word (si.si_addr) ∷ [])
        else some b in
      let child = (do
        b ←
            bufprintf_asyncsignalsafe fl turns b (codes "- status = %d\n")
              (word (si.si_status) ∷ [])
        b ← bufprintf_asyncsignalsafe fl turns b (codes "- utime = %lu\n") (word (si.si_utime) ∷ [])
        bufprintf_asyncsignalsafe fl turns b (codes "- stime = %lu\n") (word (si.si_stime) ∷ [])) in
      if is_fault si.si_signo
      then addr
      else if si.si_signo == sigchld
      then child
      else if si.si_signo == sigio
      then bufprintf_asyncsignalsafe fl turns b (codes "- fd = %d\n") (word (si.si_fd) ∷ [])
      else some b

  unfoldable pub print_sender : SigInfo → Buffer → Option Buffer
  print_sender si b =
      if si.si_signo == sigchld || (si.si_code == si_queue || si.si_code == si_user)
      then (do
        b ← bufprintf_asyncsignalsafe fl turns b (codes "- pid = %lu\n") (word (si.si_pid) ∷ [])
        bufprintf_asyncsignalsafe fl turns b (codes "- uid = %lu\n") (word (si.si_uid) ∷ []))
      else some b

  unfoldable pub print_value : SigInfo → Buffer → Option Buffer
  print_value si b =
      if si.si_code == si_queue
      then (do
        b ← bufprintf_asyncsignalsafe fl turns b (codes "- int = %d\n") (word (si.si_int) ∷ [])
        bufprintf_asyncsignalsafe fl turns b (codes "- ptr = 0x%lx\n") (word (si.si_ptr) ∷ []))
      else some b

  unfoldable pub prettyprint_siginfo : SigInfo → Buffer → Option Buffer
  prettyprint_siginfo si b = do
    b ←
        bufprintf_asyncsignalsafe fl turns b (codes "- signo = %d (%s)\n")
          (word (si.si_signo) ∷ text (strsignal (si.si_signo)) ∷ [])
    b ←
        bufprintf_asyncsignalsafe fl turns b (codes "- errno = %d (%s)\n")
          (word (si.si_errno) ∷ text (strerror (si.si_errno)) ∷ [])
    b ←
        bufprintf_asyncsignalsafe fl turns b (codes "- code = %d (%s)\n")
          (word (si.si_code) ∷ text (strcode (si.si_signo) (si.si_code)) ∷ [])
    b ← print_fields si b
    b ← print_sender si b
    print_value si b
