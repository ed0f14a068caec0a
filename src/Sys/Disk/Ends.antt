-- ===== src/Sys/Disk/Ends.antt =====
-- The loop of `get_disk_usage` of bazelPro/src/utils/sys.cc ends.
use ng.Base.{
  ℕ, zero, suc, ◌+◌, ◌<◌, ◌≡◌, refl, arith, List, [], ◌∷◌, some, false, length, Bool-cases, inl,
  inr,
}
use ng.Sys.Stream.{Stream, get_string}
use ng.Sys.Stream.Tokens.{get_string-shorter}
use ng.Sys.Disk.{read_entry, find_mount}
use ng.Base.{same_text}

read_entry-shorter :
    (s : Stream) (mount_point : List ℕ)
    → (read_entry s mount_point).0.failed ≡ false
    → length (read_entry s mount_point).0.rest < length s.rest
unfolding read_entry
read_entry-shorter s mount_point h =
    let a = get_string s [] in
    let b = get_string a.0 mount_point in
    let c = get_string b.0 [] in
    let d = get_string c.0 [] in
    let e = get_string d.0 [] in
    let f6 = get_string-shorter e.0 [] h in
    let f5 = get_string-shorter d.0 [] f6.1 in
    let f4 = get_string-shorter c.0 [] f5.1 in
    let f3 = get_string-shorter b.0 [] f4.1 in
    let f2 = get_string-shorter a.0 mount_point f3.1 in
    let f1 = get_string-shorter s [] f2.1 in omega (arith, f1.0, f2.0, f3.0, f4.0, f5.0, f6.0)

-- On any text the loop ends within one round more than the text has characters, and more rounds do
-- not change what it finds.
pub find_mount-ends :
    (n : ℕ) (s : Stream) (mount_point : List ℕ)
    → length s.rest < n
    → (found : List ℕ) × ((k : ℕ) → find_mount (n + k) s mount_point ≡ some found)
unfolding find_mount
find_mount-ends zero s mount_point h = absurd (omega arith)
find_mount-ends (suc n) s mount_point h =
    let entry = read_entry s mount_point in
    let next : (k : ℕ) → suc n + k ≡ suc (n + k) = λ k. omega arith in
    elim (Bool-cases entry.0.failed) [
      | inl e ↦ (entry.1, λ k. rw (next k, e) refl)
      | inr e ↦ elim (Bool-cases (same_text entry.1 (47 ∷ []))) [
        | inl f ↦ (entry.1, λ k. rw (next k, e, f) refl)
        | inr f ↦
            let less = read_entry-shorter s mount_point e in
            let (found, g) = find_mount-ends n entry.0 entry.1 (omega (arith, less)) in
            (found, λ k. rw (next k, e, f) (g k))
      ]
    ]
