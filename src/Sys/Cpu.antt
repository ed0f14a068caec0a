-- ===== src/Sys/Cpu.antt =====
-- `get_cpu_usage` of bazelPro/src/utils/sys.cc, on two readings of /proc/stat.
pub mod Line
use ng.Base.{ℕ, List, [], Option, none, some, ◌>>=◌, if◌then◌else◌}
use ng.Sys.Stream.{Stream, ifstream, get_string, after}

-- The operations of `double` that the code uses, and `>>` into one that held a value or none.
pub record CpuDouble (F : Type 0) : Type 0 where
  pub add : F → F → F
  pub sub : F → F → F
  pub div : F → F → F
  pub mul_hundred : F → F
  pub get_double : Stream → Option F → Stream × Option F

module _ {F : Type 0} (fl : CpuDouble F) where
  -- The variables, `none` where nothing was ever stored.
  pub record Times : Type 0 where
    pub user : Option F
    pub nice : Option F
    pub sys : Option F
    pub idle : Option F
    pub iowait : Option F
    pub irq : Option F
    pub softirq : Option F
    pub steal : Option F
    pub guest : Option F
    pub guest_nice : Option F

  pub unset : Times
  unset = record {
    user = none;
    nice = none;
    sys = none;
    idle = none;
    iowait = none;
    irq = none;
    softirq = none;
    steal = none;
    guest = none;
    guest_nice = none;
  }

  pub read_times : Stream → Times → Stream × Times
  read_times stat_file t =
      let user = fl.get_double (get_string stat_file []).0 t.user in
      let nice = fl.get_double user.0 t.nice in
      let sys = fl.get_double nice.0 t.sys in
      let idle = fl.get_double sys.0 t.idle in
      let iowait = fl.get_double idle.0 t.iowait in
      let irq = fl.get_double iowait.0 t.irq in
      let softirq = fl.get_double irq.0 t.softirq in
      let steal = fl.get_double softirq.0 t.steal in
      let guest = fl.get_double steal.0 t.guest in
      let guest_nice = fl.get_double guest.0 t.guest_nice in
      (
        guest_nice.0,
        record {
          user = user.1;
          nice = nice.1;
          sys = sys.1;
          idle = idle.1;
          iowait = iowait.1;
          irq = irq.1;
          softirq = softirq.1;
          steal = steal.1;
          guest = guest.1;
          guest_nice = guest_nice.1;
        },
      )

  infixl 65 ◌⊹◌
  abbrev ◌⊹◌ : F → F → F
  a ⊹ b = fl.add a b

  -- The active and the total time; `none` where a variable is used that was never set.
  pub active_total : Times → Option (F × F)
  active_total t = do
    user ← t.user
    nice ← t.nice
    sys ← t.sys
    irq ← t.irq
    softirq ← t.softirq
    steal ← t.steal
    idle ← t.idle
    iowait ← t.iowait
    guest ← t.guest
    guest_nice ← t.guest_nice
    some (
      user ⊹ nice ⊹ sys ⊹ irq ⊹ softirq ⊹ steal,
      user ⊹ nice ⊹ sys ⊹ idle ⊹ iowait ⊹ irq ⊹ softirq ⊹ steal ⊹ guest ⊹ guest_nice,
    )

  -- `seekg` does nothing after a failure; else the text is that of the file by now.
  abbrev pub seekg : Stream → List ℕ → Stream
  seekg s later = if s.failed then s else after later

  pub get_cpu_usage : Option (List ℕ) → List ℕ → Option F
  get_cpu_usage stat_file later = do
    let first = read_times (ifstream stat_file) unset
    prev ← active_total first.1
    let second = read_times (seekg first.0 later) first.1
    now ← active_total second.1
    some (fl.mul_hundred (fl.div (fl.sub now.0 prev.0) (fl.sub now.1 prev.1)))
