-- ===== src/Sys/Tests.antt =====
-- Concrete runs of bazelPro/src/utils/sys.cc.
use ng.Base.{
  ℕ, suc, ◌+◌, ◌≡◌, refl, arith, List, [], ◌∷◌, ◌++◌, Option, none, some, ℤ, pos, length,
  if◌then◌else◌, inr,
}
use ng.Format.Arg.{codes}
use ng.Base.{same_text}
use ng.Sys.Double.{Double}
use ng.Sys.Stream.{value, value_from, ifstream}
use ng.Sys.Stream.Checked.{checked-Plain, checked-Digit}
use ng.Sys.Memory.{read_memory, get_memory_usage}
use ng.Sys.Memory.Unset.{Line, IsLine, four_lines, line_text, get_memory_usage-unset}
use ng.Sys.Disk.{Statfs, get_disk_usage, find_mount}
use ng.Sys.Disk.Ends.{find_mount-ends}
use ng.Sys.Disk.Root.{Entry, IsEntry, mounts_text, usage, chosen, get_disk_usage_lem}
use ng.Sys.Pid.{Ran, get_pid_with_name}
use ng.Sys.Pid.Answer.{found, get_pid_with_name-Answer}

-- Numbers in place of `double`; the result is kept as its parts.
abbrev parts : Double (List ℤ)
parts = record { of_int = λ n. n ∷ []; div = λ a b. a ++ b; mul_hundred = λ a. pos 100 ∷ a }

abbrev total_line : Line
total_line = record { name = codes "MemTotal:"; gap = 7; number = codes "16305432" }

abbrev free_line : Line
free_line = record { name = codes "MemFree:"; gap = 9; number = codes "823440" }

abbrev available_line : Line
available_line = record { name = codes "MemAvailable:"; gap = 3; number = codes "9120552" }

abbrev buffers_line : Line
buffers_line = record { name = codes "Buffers:"; gap = 10; number = codes "540120" }

abbrev cached_line : Line
cached_line = record { name = codes "Cached:"; gap = 8; number = codes "7312400" }

total_line-IsLine : IsLine total_line
unfolding value_from
total_line-IsLine = record {
  name_plain = checked-Plain b'M' (codes "emTotal:") refl;
  number_digits = checked-Digit b'1' (codes "6305432") refl;
  small = omega arith;
}

free_line-IsLine : IsLine free_line
unfolding value_from
free_line-IsLine = record {
  name_plain = checked-Plain b'M' (codes "emFree:") refl;
  number_digits = checked-Digit b'8' (codes "23440") refl;
  small = omega arith;
}

available_line-IsLine : IsLine available_line
unfolding value_from
available_line-IsLine = record {
  name_plain = checked-Plain b'M' (codes "emAvailable:") refl;
  number_digits = checked-Digit b'9' (codes "120552") refl;
  small = omega arith;
}

buffers_line-IsLine : IsLine buffers_line
unfolding value_from
buffers_line-IsLine = record {
  name_plain = checked-Plain b'B' (codes "uffers:") refl;
  number_digits = checked-Digit b'5' (codes "40120") refl;
  small = omega arith;
}

get_memory_usage-unset_example :
    (read_memory (
        some
          (four_lines total_line free_line available_line buffers_line (line_text cached_line [])))
      ≡ record {
        total_memory = some (pos (value total_line.number));
        free_memory = some (pos (value free_line.number));
        available_memory = some (pos (value available_line.number));
        buffer = some (pos 0);
        cache = none;
        swap = none;
        free_swap = none;
      })
    × (get_memory_usage parts (
          some (
            four_lines total_line free_line available_line buffers_line (line_text cached_line [])))
        ≡ none)
unfolding value_from
get_memory_usage-unset_example =
    get_memory_usage-unset parts total_line free_line available_line buffers_line
      (line_text cached_line []) total_line-IsLine free_line-IsLine available_line-IsLine
      buffers_line-IsLine

abbrev proc_entry : Entry
proc_entry = record {
  device = codes "proc";
  point = codes "/proc";
  kind = codes "proc";
  options = codes "rw";
  dump = codes "0";
  pass = codes "0";
}

abbrev root_entry : Entry
root_entry = record {
  device = codes "/dev/sda2";
  point = codes "/";
  kind = codes "ext4";
  options = codes "rw,relatime";
  dump = codes "0";
  pass = codes "0";
}

abbrev disk : Statfs
disk = record { f_blocks = 1000; f_bfree = 400; f_bavail = 350; f_bsize = 4096 }

abbrev statfs_root : List ℕ → Option Statfs
statfs_root path = if same_text path (47 ∷ []) then some disk else none

root_entry-IsEntry : IsEntry root_entry
root_entry-IsEntry = record {
  device_word = checked-Plain b'/' (codes "dev/sda2") refl;
  point_word = checked-Plain b'/' [] refl;
  kind_word = checked-Plain b'e' (codes "xt4") refl;
  options_word = checked-Plain b'r' (codes "w,relatime") refl;
  dump_word = checked-Plain b'0' [] refl;
  pass_word = checked-Plain b'0' [] refl;
}

proc_entry-IsEntry : IsEntry proc_entry
proc_entry-IsEntry = record {
  device_word = checked-Plain b'p' (codes "roc") refl;
  point_word = checked-Plain b'/' (codes "proc") refl;
  kind_word = checked-Plain b'p' (codes "roc") refl;
  options_word = checked-Plain b'r' (codes "w") refl;
  dump_word = checked-Plain b'0' [] refl;
  pass_word = checked-Plain b'0' [] refl;
}

get_disk_usage_lem_example :
    get_disk_usage parts
      (suc (length (root_entry ∷ proc_entry ∷ []) + 5))
      (some (mounts_text (root_entry ∷ proc_entry ∷ [])))
      statfs_root
    ≡ some (usage parts (statfs_root (chosen (root_entry ∷ proc_entry ∷ []) [])))
get_disk_usage_lem_example =
    get_disk_usage_lem parts (root_entry ∷ proc_entry ∷ []) 5 statfs_root
      (root_entry-IsEntry, (proc_entry-IsEntry, tt)) (omega arith)

find_mount-ends_example :
    (found : List ℕ) × ((k : ℕ)
      → find_mount (400 + k) (ifstream (some (mounts_text (proc_entry ∷ root_entry ∷ [])))) []
        ≡ some found)
unfolding ifstream
find_mount-ends_example =
    find_mount-ends 400 (ifstream (some (mounts_text (proc_entry ∷ root_entry ∷ [])))) []
      (omega arith)

-- The command of the name of 57 characters, and of any longer one that starts with it.
abbrev long_name : List ℕ
long_name = codes "a-service-whose-name-has-fifty-seven-characters-in-it-all"

abbrev pidof : List ℕ → Option Ran
pidof command = some (record { output = codes "4711 17" ++ 10 ∷ []; status = 0 })

get_pid_with_name-Answer_example :
    get_pid_with_name pidof (long_name ++ codes "-and-more") ≡ pos (value (codes "4711"))
unfolding value_from
get_pid_with_name-Answer_example =
    get_pid_with_name-Answer pidof long_name (codes "-and-more") (pos (value (codes "4711")))
      (omega arith) (inr refl)
      (found (record { output = codes "4711 17" ++ 10 ∷ []; status = 0 }) (codes "4711") refl
        (
          codes " 17" ++ 10 ∷ [],
          refl,
          checked-Digit b'4' (codes "711") refl,
          omega arith,
          omega arith,
          refl,
        ))
