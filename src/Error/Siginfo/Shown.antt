-- ===== src/Error/Siginfo/Shown.antt =====
-- What the prints of bazelPro/src/lib/prettyprint_siginfo.cc add to the print buffer.
use ng.Base.{
  ℕ, ◌≤◌, ◌≡◌, refl, sym, subst, arith, List, [], ◌∷◌, ◌++◌, Option, some, Bool, true, false, ◌==◌,
  ◌&&◌, ◌||◌, not, if◌then◌else◌,
}
use ng.Base.{length, append-nil}
use ng.Buffer.{Buffer}
use ng.Format.Arg.{word, text, codes}
use ng.Format.Ftoa.{Double}
use ng.Error.{bufprintf_asyncsignalsafe}
use ng.Error.Prints.{
  IsShort, no_percent, Prints-nil, Prints-literal, Prints-s, Prints-d, Prints-lu, Prints-lx,
}
use ng.Error.Writes.{Prints-Writes}
use ng.Error.Siginfo.{
  SigInfo, prettyprint_siginfo, print_fields, print_sender, print_value, is_fault,
}
use ng.Error.Siginfo.Codes.{strcode-IsShort, si_user, si_queue, sigchld, sigio}
use ng.Error.Siginfo.Table.{faults, is_one_of}
use ng.Error.Siginfo.Meant.{is_fault-faults, strcode-meaning}
use ng.Error.Siginfo.Lines.{
  Line, described, int_line, long_line, hex_line, lines_if, field_lines, siginfo_lines, WritesLines,
  WritesLines-nothing, WritesLines-then, WritesLines-one,
}

module _ {F : Type 0} (fl : Double F) (turns : ℕ) where
  described-WritesLines :
      (name : List ℕ) (w : ℕ) (meaning : List ℕ)
      → no_percent name ≡ true
      → length name ≤ 10
      → IsShort meaning
      → WritesLines
          (λ b.
            bufprintf_asyncsignalsafe fl turns b
              (codes "- "
                ++ (name
                    ++ (codes " = "
                        ++ (codes "%d" ++ (codes " (" ++ (codes "%s" ++ codes ")\n"))))))
              (word w ∷ text meaning ∷ []))
          (described name w meaning ∷ [])
  described-WritesLines name w meaning h small short =
      let end = Prints-literal fl turns (codes ")\n") refl (Prints-nil fl turns []) in
      let meant = Prints-literal fl turns (codes " (") refl (Prints-s fl turns meaning short end) in
      let (d, value, number) = Prints-d fl turns w meant in
      let line =
        Prints-literal fl turns (codes "- ") refl
          (Prints-literal fl turns name h (Prints-literal fl turns (codes " = ") refl number)) in
      WritesLines-one (described name w meaning) d value (Prints-Writes fl turns line (omega arith))

  -- The same line, with an equal text.
  WritesLines-meant :
      {f : Buffer → Option Buffer} {name : List ℕ} {w : ℕ} {s t : List ℕ}
      → s ≡ t
      → WritesLines f (described name w s ∷ [])
      → WritesLines f (described name w t ∷ [])
  WritesLines-meant {f} {name} {w} e v = subst (λ t. WritesLines f (described name w t ∷ [])) e v

  int-WritesLines :
      (name : List ℕ) (w : ℕ)
      → no_percent name ≡ true
      → length name ≤ 10
      → WritesLines
          (λ b.
            bufprintf_asyncsignalsafe fl turns b
              (codes "- " ++ (name ++ (codes " = " ++ (codes "%d" ++ codes "\n"))))
              (word w ∷ []))
          (int_line name w ∷ [])
  int-WritesLines name w h small =
      let end = Prints-literal fl turns (codes "\n") refl (Prints-nil fl turns []) in
      let (d, value, number) = Prints-d fl turns w end in
      let line =
        Prints-literal fl turns (codes "- ") refl
          (Prints-literal fl turns name h (Prints-literal fl turns (codes " = ") refl number)) in
      WritesLines-one (int_line name w) d value (Prints-Writes fl turns line (omega arith))

  long-WritesLines :
      (name : List ℕ) (w : ℕ)
      → no_percent name ≡ true
      → length name ≤ 10
      → WritesLines
          (λ b.
            bufprintf_asyncsignalsafe fl turns b
              (codes "- " ++ (name ++ (codes " = " ++ (codes "%lu" ++ codes "\n"))))
              (word w ∷ []))
          (long_line name w ∷ [])
  long-WritesLines name w h small =
      let end = Prints-literal fl turns (codes "\n") refl (Prints-nil fl turns []) in
      let (d, value, number) = Prints-lu fl turns w end in
      let line =
        Prints-literal fl turns (codes "- ") refl
          (Prints-literal fl turns name h (Prints-literal fl turns (codes " = ") refl number)) in
      WritesLines-one (long_line name w) d value (Prints-Writes fl turns line (omega arith))

  hex-WritesLines :
      (name : List ℕ) (w : ℕ)
      → no_percent name ≡ true
      → length name ≤ 10
      → WritesLines
          (λ b.
            bufprintf_asyncsignalsafe fl turns b
              (codes "- " ++ (name ++ (codes " = 0x" ++ (codes "%lx" ++ codes "\n"))))
              (word w ∷ []))
          (hex_line name w ∷ [])
  hex-WritesLines name w h small =
      let end = Prints-literal fl turns (codes "\n") refl (Prints-nil fl turns []) in
      let (d, value, number) = Prints-lx fl turns w end in
      let line =
        Prints-literal fl turns (codes "- ") refl
          (Prints-literal fl turns name h (Prints-literal fl turns (codes " = 0x") refl number)) in
      WritesLines-one (hex_line name w) d value (Prints-Writes fl turns line (omega arith))

  WritesLines-if :
      (c : Bool) {f : Buffer → Option Buffer} {ls : List Line}
      → WritesLines f ls
      → WritesLines (λ b. if c then f b else some b) (lines_if c ls)
  WritesLines-if true w = w
  WritesLines-if false w = WritesLines-nothing

  -- At most one of three kinds of lines, of which the first depends on another condition.
  WritesLines-switch :
      (fault user child io : Bool) {f g h : Buffer → Option Buffer} {ls ms ns : List Line}
      → (fault ≡ true → (child ≡ false) × (io ≡ false))
      → (child ≡ true → io ≡ false)
      → WritesLines f ls
      → WritesLines g ms
      → WritesLines h ns
      → WritesLines
          (λ b.
            if fault
            then (if not user then f b else some b)
            else if child
            then g b
            else if io
            then h b
            else some b)
          (lines_if (fault && not user) ls ++ (lines_if child ms ++ lines_if io ns))
  WritesLines-switch true true child io e e' u v w =
      let (no_child, no_io) = e refl in rw (no_child, no_io) WritesLines-nothing
  WritesLines-switch true false child io {f} {ls = ls} e e' u v w =
      let (no_child, no_io) = e refl in
      rw (no_child, no_io) (subst (WritesLines f) (sym (append-nil ls)) u)
  WritesLines-switch false user true io {g = g} {ms = ms} e e' u v w =
      rw (e' refl) (subst (WritesLines g) (sym (append-nil ms)) v)
  WritesLines-switch false user false true e e' u v w = w
  WritesLines-switch false user false false e e' u v w = WritesLines-nothing

  fault_only :
      (signo : ℕ)
      → is_fault signo ≡ true
      → ((signo == sigchld) ≡ false) × ((signo == sigio) ≡ false)
  fault_only signo e = (ground arith, ground arith)

  child_only : (signo : ℕ) → (signo == sigchld) ≡ true → (signo == sigio) ≡ false
  child_only signo e = ground arith

  module _ (strsignal strerror : ℕ → List ℕ) (si : SigInfo) where
    print_fields-WritesLines :
        WritesLines
          (print_fields fl turns strsignal strerror si)
          (field_lines (is_one_of faults si.si_signo) si)
    unfolding print_fields
    print_fields-WritesLines =
        subst
          (λ fault.
            WritesLines (print_fields fl turns strsignal strerror si) (field_lines fault si))
          (is_fault-faults si.si_signo)
          (WritesLines-switch (is_fault si.si_signo) (si.si_code == si_user)
            (si.si_signo == sigchld) (si.si_signo == sigio) (fault_only si.si_signo)
            (child_only si.si_signo) (hex-WritesLines (codes "addr") si.si_addr refl (omega arith))
            (WritesLines-then (int-WritesLines (codes "status") si.si_status refl (omega arith)) (
              WritesLines-then (long-WritesLines (codes "utime") si.si_utime refl (omega arith))
                (long-WritesLines (codes "stime") si.si_stime refl (omega arith))))
            (int-WritesLines (codes "fd") si.si_fd refl (omega arith)))

    print_sender-WritesLines : WritesLines (print_sender fl turns strsignal strerror si) (
        lines_if
          (si.si_signo == sigchld || (si.si_code == si_queue || si.si_code == si_user))
          (long_line (codes "pid") si.si_pid ∷ long_line (codes "uid") si.si_uid ∷ []))
    unfolding print_sender
    print_sender-WritesLines = WritesLines-if _ (
        WritesLines-then (long-WritesLines (codes "pid") si.si_pid refl (omega arith))
          (long-WritesLines (codes "uid") si.si_uid refl (omega arith)))

    print_value-WritesLines : WritesLines (print_value fl turns strsignal strerror si) (
        lines_if
          (si.si_code == si_queue)
          (int_line (codes "int") si.si_int ∷ hex_line (codes "ptr") si.si_ptr ∷ []))
    unfolding print_value
    print_value-WritesLines = WritesLines-if _ (
        WritesLines-then (int-WritesLines (codes "int") si.si_int refl (omega arith))
          (hex-WritesLines (codes "ptr") si.si_ptr refl (omega arith)))

    pub prettyprint_siginfo-WritesLines :
        IsShort (strsignal si.si_signo)
        → IsShort (strerror si.si_errno)
        → WritesLines
            (prettyprint_siginfo fl turns strsignal strerror si)
            (siginfo_lines strsignal strerror si)
    unfolding prettyprint_siginfo
    prettyprint_siginfo-WritesLines short short' =
        WritesLines-then
          (described-WritesLines (codes "signo") si.si_signo _ refl (omega arith) short)
          (WritesLines-then
            (described-WritesLines (codes "errno") si.si_errno _ refl (omega arith) short')
            (WritesLines-then
              (WritesLines-meant (strcode-meaning si.si_signo si.si_code) (
                described-WritesLines (codes "code") si.si_code _ refl (omega arith)
                  (strcode-IsShort si.si_signo si.si_code)))
              (WritesLines-then print_fields-WritesLines
                (WritesLines-then print_sender-WritesLines print_value-WritesLines))))
