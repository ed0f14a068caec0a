-- ===== src/Sys/Cpu/Line.antt =====
-- What `get_cpu_usage` of bazelPro/src/utils/sys.cc makes of two lines as the kernel writes them.
use ng.Base.{ℕ, ◌≡◌, refl, List, [], ◌∷◌, ◌++◌, Option, some, All}
use ng.Sys.Stream.{after, ifstream}
use ng.Sys.Stream.Tokens.{Space, Plain, Digit, Token, Apart, get_string-word}
use ng.Sys.Cpu.{CpuDouble, Times, unset, read_times, active_total, get_cpu_usage}

-- The first line of /proc/stat: a name and ten numbers.
pub record Sample : Type 0 where
  pub name : List ℕ
  pub user : List ℕ
  pub nice : List ℕ
  pub sys : List ℕ
  pub idle : List ℕ
  pub iowait : List ℕ
  pub irq : List ℕ
  pub softirq : List ℕ
  pub steal : List ℕ
  pub guest : List ℕ
  pub guest_nice : List ℕ

pub record IsSample (s : Sample) : Type 0 where
  pub name_word : Token Plain s.name
  pub user_number : Token Digit s.user
  pub nice_number : Token Digit s.nice
  pub sys_number : Token Digit s.sys
  pub idle_number : Token Digit s.idle
  pub iowait_number : Token Digit s.iowait
  pub irq_number : Token Digit s.irq
  pub softirq_number : Token Digit s.softirq
  pub steal_number : Token Digit s.steal
  pub guest_number : Token Digit s.guest
  pub guest_nice_number : Token Digit s.guest_nice

abbrev pub sample_text : Sample → List ℕ → List ℕ
sample_text s rest =
    s.name
    ++ ((32 ∷ (32 ∷ s.user))
        ++ ((32 ∷ s.nice)
            ++ ((32 ∷ s.sys)
                ++ ((32 ∷ s.idle)
                    ++ ((32 ∷ s.iowait)
                        ++ ((32 ∷ s.irq)
                            ++ ((32 ∷ s.softirq)
                                ++ ((32 ∷ s.steal)
                                    ++ ((32 ∷ s.guest)
                                        ++ ((32 ∷ s.guest_nice) ++ 10 ∷ rest))))))))))

-- `>>` into a `double` reads a number of digits, over what the variable held.
abbrev pub Reads : {F : Type 0} → CpuDouble F → (List ℕ → F) → Type 0
Reads {F} fl number =
    (gap w rest : List ℕ) (old : Option F)
    → All Space gap
    → Token Digit w
    → Apart rest
    → fl.get_double (after (gap ++ (w ++ rest))) old ≡ (after rest, some (number w))

module _ {F : Type 0} (fl : CpuDouble F) (number : List ℕ → F) (reads : Reads fl number) where
  abbrev times : Sample → Times fl
  times s = record {
    user = some (number s.user);
    nice = some (number s.nice);
    sys = some (number s.sys);
    idle = some (number s.idle);
    iowait = some (number s.iowait);
    irq = some (number s.irq);
    softirq = some (number s.softirq);
    steal = some (number s.steal);
    guest = some (number s.guest);
    guest_nice = some (number s.guest_nice);
  }

  read_times-sample :
      (s : Sample) (rest : List ℕ) (old : Times fl)
      → IsSample s
      → read_times fl (after (sample_text s rest)) old ≡ (after (10 ∷ rest), times s)
  unfolding read_times
  read_times-sample s rest old is =
      let t10 = s.guest_nice ++ 10 ∷ rest in
      let t9 = s.guest ++ (32 ∷ t10) in
      let t8 = s.steal ++ (32 ∷ t9) in
      let t7 = s.softirq ++ (32 ∷ t8) in
      let t6 = s.irq ++ (32 ∷ t7) in
      let t5 = s.iowait ++ (32 ∷ t6) in
      let t4 = s.idle ++ (32 ∷ t5) in
      let t3 = s.sys ++ (32 ∷ t4) in
      let t2 = s.nice ++ (32 ∷ t3) in
      let t1 = s.user ++ (32 ∷ t2) in
      rw
        (
          get_string-word [] s.name (32 ∷ (32 ∷ t1)) [] tt is.name_word refl,
          reads (32 ∷ (32 ∷ [])) s.user (32 ∷ t2) old.user (refl, (refl, tt)) is.user_number refl,
          reads (32 ∷ []) s.nice (32 ∷ t3) old.nice (refl, tt) is.nice_number refl,
          reads (32 ∷ []) s.sys (32 ∷ t4) old.sys (refl, tt) is.sys_number refl,
          reads (32 ∷ []) s.idle (32 ∷ t5) old.idle (refl, tt) is.idle_number refl,
          reads (32 ∷ []) s.iowait (32 ∷ t6) old.iowait (refl, tt) is.iowait_number refl,
          reads (32 ∷ []) s.irq (32 ∷ t7) old.irq (refl, tt) is.irq_number refl,
          reads (32 ∷ []) s.softirq (32 ∷ t8) old.softirq (refl, tt) is.softirq_number refl,
          reads (32 ∷ []) s.steal (32 ∷ t9) old.steal (refl, tt) is.steal_number refl,
          reads (32 ∷ []) s.guest (32 ∷ t10) old.guest (refl, tt) is.guest_number refl,
          reads (32 ∷ []) s.guest_nice (10 ∷ rest) old.guest_nice (refl, tt) is.guest_nice_number
              refl,
        )
        refl

  abbrev sum : F → List (List ℕ) → F
  sum n [] = n
  sum n (w ∷ ws) = sum (fl.add n (number w)) ws

  -- The time for processes and interrupts, and the whole.
  abbrev pub active : Sample → F
  active s = sum (number s.user) (s.nice ∷ s.sys ∷ s.irq ∷ s.softirq ∷ s.steal ∷ [])

  abbrev pub total : Sample → F
  total s = sum (number s.user) (
      s.nice ∷ s.sys ∷ s.idle ∷ s.iowait ∷ s.irq ∷ s.softirq ∷ s.steal ∷ s.guest ∷ s.guest_nice
      ∷ [])

  -- The usage is the share of the active time in the whole time between the two readings.
  pub get_cpu_usage_lem :
      (a b : Sample) (rest rest' : List ℕ)
      → IsSample a
      → IsSample b
      → get_cpu_usage fl (some (sample_text a rest)) (sample_text b rest')
        ≡ some (fl.mul_hundred (fl.div (fl.sub (active b) (active a)) (fl.sub (total b) (total a))))
  unfolding get_cpu_usage active_total ifstream
  get_cpu_usage_lem a b rest rest' ia ib =
      rw (read_times-sample a rest (unset fl) ia, read_times-sample b rest' (times a) ib) refl
