-- ===== src/Sys/Disk/Root.antt =====
-- Which file system `get_disk_usage` of bazelPro/src/utils/sys.cc asks for, and what it computes.
use ng.Base.{
  ℕ, suc, ◌+◌, ◌-◌, ◌*◌, ◌/◌, ◌^◌, ◌≤◌, ◌<◌, ◌≡◌, refl, ap, ◌∙◌, arith, List, [], ◌∷◌, ◌++◌, Option,
  none, some, if◌then◌else◌, length, Bool-cases, Option-cases, inl, inr, All, ℤ, pos, negsuc, ◌-ℤ◌,
  append-nil,
}
use ng.Sys.Double.{Double}
use ng.Sys.Stream.{after, broken, get_string, ifstream}
use ng.Sys.Stream.Tokens.{Space, Plain, Token, get_string-word, get_string-none, get_string-broken}
use ng.Sys.Disk.{read_entry, find_mount, Statfs, get_disk_usage, long, long_of}
use ng.Base.{same_text, same_text→≡}

-- A line of /proc/self/mounts: six words.
pub record Entry : Type 0 where
  pub device : List ℕ
  pub point : List ℕ
  pub kind : List ℕ
  pub options : List ℕ
  pub dump : List ℕ
  pub pass : List ℕ

abbrev pub entry_text : Entry → List ℕ → List ℕ
entry_text e rest =
    e.device
    ++ ((32 ∷ e.point)
        ++ ((32 ∷ e.kind) ++ ((32 ∷ e.options) ++ ((32 ∷ e.dump) ++ ((32 ∷ e.pass) ++ 10 ∷ rest)))))

abbrev pub mounts_text : List Entry → List ℕ
mounts_text [] = []
mounts_text (e ∷ es) = entry_text e (mounts_text es)

-- The words are not empty and have no spaces in them.
pub record IsEntry (e : Entry) : Type 0 where
  pub device_word : Token Plain e.device
  pub point_word : Token Plain e.point
  pub kind_word : Token Plain e.kind
  pub options_word : Token Plain e.options
  pub dump_word : Token Plain e.dump
  pub pass_word : Token Plain e.pass

abbrev pub root : List ℕ
root = 47 ∷ []

-- The root, if it is listed, and else the last mount point.
abbrev pub chosen : List Entry → List ℕ → List ℕ
chosen [] last = last
chosen (e ∷ es) last = if same_text e.point root then root else chosen es e.point

skip_word :
    (gap w rest : List ℕ)
    → All Space gap
    → Token Plain w
    → (t : List ℕ) → (get_string (after (gap ++ (w ++ 32 ∷ rest))) t).0 ≡ after (32 ∷ rest)
skip_word gap w rest spaces h t = ap (λ r. r.0) (get_string-word gap w (32 ∷ rest) t spaces h refl)

read_entry-entry :
    (gap : List ℕ) (e : Entry) (rest old : List ℕ)
    → All Space gap
    → IsEntry e
    → read_entry (after (gap ++ entry_text e rest)) old ≡ (after (10 ∷ rest), e.point)
unfolding read_entry
read_entry-entry gap e rest old spaces is =
    let t6 = e.pass ++ 10 ∷ rest in
    let t5 = e.dump ++ (32 ∷ t6) in
    let t4 = e.options ++ (32 ∷ t5) in
    let t3 = e.kind ++ (32 ∷ t4) in
    let t2 = e.point ++ (32 ∷ t3) in
    rw
      (
        get_string-word gap e.device (32 ∷ t2) [] spaces is.device_word refl,
        get_string-word (32 ∷ []) e.point (32 ∷ t3) old (refl, tt) is.point_word refl,
        get_string-word (32 ∷ []) e.kind (32 ∷ t4) [] (refl, tt) is.kind_word refl,
        get_string-word (32 ∷ []) e.options (32 ∷ t5) [] (refl, tt) is.options_word refl,
        get_string-word (32 ∷ []) e.dump (32 ∷ t6) [] (refl, tt) is.dump_word refl,
        get_string-word (32 ∷ []) e.pass (10 ∷ rest) [] (refl, tt) is.pass_word refl,
      )
      refl

read_entry-none : (gap old : List ℕ) → All Space gap → read_entry (after gap) old ≡ (broken [], old)
unfolding read_entry
read_entry-none gap old spaces =
    rw (get_string-none gap [] spaces) (simp (get_string-broken [] [], get_string-broken [] old))

-- The loop finds what is described.
pub find_mount-chosen :
    (es : List Entry) (gap old : List ℕ) (k : ℕ)
    → All Space gap
    → All IsEntry es
    → find_mount (suc (length es + k)) (after (gap ++ mounts_text es)) old ≡ some (chosen es old)
unfolding find_mount
find_mount-chosen [] gap old k spaces is = rw (append-nil gap, read_entry-none gap old spaces) refl
find_mount-chosen (e ∷ es) gap old k spaces is =
    let next : suc (length es) + k ≡ suc (length es + k) = omega arith in
    rw (read_entry-entry gap e (mounts_text es) old spaces is.0)
      (elim (Bool-cases (same_text e.point root)) [
        | inl f ↦ rw f (ap some (same_text→≡ e.point root f))
        | inr f ↦ rw (f, next) (find_mount-chosen es (10 ∷ []) e.point k (refl, tt) is.1)
      ])

-- The size is that of blocks of 1024 bytes, and the free blocks are some of all.
abbrev pub IsStatfs : Statfs → Type 0
IsStatfs fs =
    (fs.f_bfree ≤ fs.f_blocks)
    × (fs.f_bavail ≤ fs.f_bfree)
    × (fs.f_blocks * (fs.f_bsize / 1024) < 2 ^ 63)

-- An answer of statfs that is an error or such a size.
abbrev pub Fits : Option Statfs → Type 0
Fits none = Unit
Fits (some fs) = IsStatfs fs

-- What is to be returned and printed.
abbrev pub usage : {F : Type 0} → Double F → Option Statfs → F × List ℤ
usage fl none = (fl.of_int (negsuc 0), [])
usage fl (some fs) =
    let k = fs.f_bsize / 1024 in
    (
      fl.mul_hundred (
          fl.div (fl.of_int (pos ((fs.f_blocks - fs.f_bfree) * k)))
            (fl.of_int (pos (fs.f_blocks * k)))),
      pos (fs.f_blocks * k) ∷ pos (fs.f_bfree * k) ∷ pos (fs.f_bavail * k) ∷ [],
    )

long_of-small : (n : ℕ) → n < 2 ^ 63 → long_of n ≡ pos n
long_of-small n h = ground arith

used : (a b : ℕ) → b ≤ a → a < 2 ^ 63 → long (pos a -ℤ pos b) ≡ some (pos (a - b))
used a b le h = ground arith

kept : (a b k : ℕ) → b ≤ a → b * k ≤ a * k
kept a b k h = grind arith

parted : (a b k : ℕ) → b ≤ a → (a - b) * k + b * k ≡ a * k
parted a b k h = grind arith

usage-total :
    (total free available k : ℕ)
    → free ≤ total
    → available ≤ free
    → total * k < 2 ^ 63
    → (long (long_of (total * k) -ℤ long_of (free * k)) ≡ some (pos ((total - free) * k)))
      × (long_of (total * k) ≡ pos (total * k))
      × (long_of (free * k) ≡ pos (free * k))
      × (long_of (available * k) ≡ pos (available * k))
usage-total total free available k free_le available_le small =
    let all = kept total free k free_le in
    let some_ = kept free available k available_le in
    let e1 = long_of-small (total * k) small in
    let e2 = long_of-small (free * k) (omega (arith, all)) in
    let e3 = long_of-small (available * k) (omega (arith, all, some_)) in
    let left : total * k - free * k ≡ (total - free) * k =
      omega (arith, parted total free k free_le) in
    (
      ap (λ a. long (a -ℤ long_of (free * k))) e1
          ∙ ap (λ b. long (pos (total * k) -ℤ b)) e2
          ∙ used (total * k) (free * k) all small
          ∙ ap (λ n. some (pos n)) left,
      e1,
      e2,
      e3,
    )

-- On any entries of six words each, and whatever more rounds than one for each entry and one the loop is
-- given, the usage is asked for the root when it is listed, for the last mount point when it is not
-- and for the empty path when there is none. When statfs fails, the result is -1. When it does not,
-- what is printed are the sizes in units of 1024 bytes, and the result is made of the used and the
-- total size; this is for a free size that is part of the total and a total below 2^63 units.
pub get_disk_usage_lem :
    {F : Type 0} (fl : Double F) (es : List Entry) (k : ℕ) (statfs : List ℕ → Option Statfs)
    → All IsEntry es
    → Fits (statfs (chosen es []))
    → get_disk_usage fl (suc (length es + k)) (some (mounts_text es)) statfs
      ≡ some (usage fl (statfs (chosen es [])))
unfolding get_disk_usage ifstream
get_disk_usage_lem fl es k statfs is =
    rw (find_mount-chosen es [] [] k tt is) (elim (Option-cases (statfs (chosen es []))) [
      | inl e ↦ rw e (λ h. refl)
      | inr (fs, e) ↦ rw e (λ h.
          let (sub, all, free, available) =
            usage-total fs.f_blocks fs.f_bfree fs.f_bavail (fs.f_bsize / 1024) h.0 h.1 h.2 in
          rw (sub, all, free, available) refl)
    ])
