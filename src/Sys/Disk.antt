-- ===== src/Sys/Disk.antt =====
-- `get_disk_usage` of bazelPro/src/utils/sys.cc, on the text of /proc/self/mounts.
pub mod Ends
pub mod Root
use ng.Base.{
  ℕ, zero, suc, ◌+◌, ◌-◌, ◌*◌, ◌/◌, ◌%◌, ◌^◌, List, [], ◌∷◌, Option, none, some, Bool, true, false,
  ◌>>=◌, ltb, if◌then◌else◌, ℤ, pos, negsuc, ◌-ℤ◌,
}
use ng.Base.{same_text}
use ng.Sys.Double.{Double}
use ng.Sys.Stream.{Stream, ifstream, get_string}

-- What the loop's test reads: the stream behind the six words, and the mount point.
pub read_entry : Stream → List ℕ → Stream × List ℕ
read_entry s mount_point =
    let point = get_string (get_string s []).0 mount_point in
    let kind = (get_string point.0 []).0 in
    let options = (get_string kind []).0 in
    let dump = (get_string options []).0 in ((get_string dump []).0, point.1)

-- The mount point after the loop, in at most so many rounds; `none` where these do not suffice.
pub find_mount : ℕ → Stream → List ℕ → Option (List ℕ)
find_mount zero stat_file mount_point = none
find_mount (suc rounds) stat_file mount_point =
    let entry = read_entry stat_file mount_point in
    let rest = find_mount rounds entry.0 entry.1 in
    if entry.0.failed
    then some entry.1
    else if same_text entry.1 (47 ∷ [])
    then some entry.1
    else rest

pub record Statfs : Type 0 where
  pub f_blocks : ℕ
  pub f_bfree : ℕ
  pub f_bavail : ℕ
  pub f_bsize : ℕ

-- The `long long` of an `unsigned long`, and of a difference, `none` when that overflows.
abbrev pub long_of : ℕ → ℤ
long_of n = let w = n % 2 ^ 64 in if ltb w (2 ^ 63) then pos w else negsuc (2 ^ 64 - w - 1)

abbrev pub long : ℤ → Option ℤ
long (pos n) = if ltb n (2 ^ 63) then some (pos n) else none
long (negsuc n) = if ltb n (2 ^ 63) then some (negsuc n) else none

-- The result, and the three numbers that are printed. `statfs` gives `none` for -1.
pub get_disk_usage :
    {F : Type 0} → Double F → ℕ → Option (List ℕ) → (List ℕ → Option Statfs) → Option (F × List ℤ)
get_disk_usage fl rounds mounts statfs = do
  mount_point ← find_mount rounds (ifstream mounts) []
  elim (statfs mount_point) [
    | none ↦ some (fl.of_int (negsuc 0), [])
    | some fs ↦
        let total_blocks = long_of (fs.f_blocks * (fs.f_bsize / 1024)) in
        let free_blocks = long_of (fs.f_bfree * (fs.f_bsize / 1024)) in
        let available_blocks = long_of (fs.f_bavail * (fs.f_bsize / 1024)) in
        do
          used_blocks ← long (total_blocks -ℤ free_blocks)
          some (
            fl.mul_hundred (fl.div (fl.of_int used_blocks) (fl.of_int total_blocks)),
            total_blocks ∷ free_blocks ∷ available_blocks ∷ [],
          )
  ]
