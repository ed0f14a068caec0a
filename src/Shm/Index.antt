-- ===== src/Shm/Index.antt =====
-- The index of the ring in bazelPro/src/tmp/tmp.cc: how long a message stays, and what `Get` makes
-- of an index that no `Put` wrote.
use ng.Base.{ℕ, ◌+◌, ◌-◌, ◌%◌, ◌^◌, ◌≤◌, ◌<◌, ◌≡◌, refl, subst, ◌∙◌, arith, List, [], ◌∷◌, ◌++◌}
use ng.Base.{
  Option, none, some, ◌>>=◌, negsuc, length, get_elem?, All, Option-cases, inl, inr, ltb,
  if◌then◌else◌,
}
use ng.Shm.Defs.{Context, Wrapper, sizeof_agv_info, cache_buf_max, put, get, get_current}
use ng.Shm.Ring.{IsContext, next_slot, published, put-published, published-IsContext}
use ng.Shm.Publish.{stored, published_current, published_other}

-- A run of `Put`s, each with its time, oldest first.
unfoldable pub put_all : Context → List (ℕ × List ℕ) → Option Context
put_all c [] = some c
put_all c ((t, msg) ∷ rest) = put c t msg >>= λ r. put_all r.0 rest

abbrev pub AllSized : List (ℕ × List ℕ) → Type 0
AllSized = All (λ h. length h.1 ≡ sizeof_agv_info)

put_all-append :
    (xs ys : List (ℕ × List ℕ)) (c : Context)
    → put_all c (xs ++ ys) ≡ (put_all c xs >>= λ d. put_all d ys)
unfolding put_all
put_all-append [] ys c = refl
put_all-append ((t, msg) ∷ xs) ys c = elim (Option-cases (put c t msg)) [
  | inl e ↦ rw e
  | inr (r, e) ↦ rw e (put_all-append xs ys r.0)
]

put_all_total :
    (xs : List (ℕ × List ℕ)) (c : Context)
    → IsContext c
    → AllSized xs
    → (d : Context) × (put_all c xs ≡ some d) × IsContext d
unfolding put_all
put_all_total [] c v s = (c, refl, v)
put_all_total ((t, msg) ∷ xs) c v s =
    let (d, e, w) = put_all_total xs (published c t msg) (published-IsContext c t msg v s.0) s.1 in
    (d, rw (put-published c t msg v s.0) e, w)

-- Fewer puts than there are slots leave a slot alone that was written last.
put_all_leaves :
    (ys : List (ℕ × List ℕ)) (c d : Context) (k j : ℕ) (w : Wrapper)
    → IsContext c
    → AllSized ys
    → get_elem? c.wrapper j ≡ some w
    → j ≡ (c.helper.index + cache_buf_max - k) % cache_buf_max
    → k + length ys < cache_buf_max
    → put_all c ys ≡ some d
    → (get_elem? d.wrapper j ≡ some w)
      × (j ≡ (d.helper.index + cache_buf_max - (k + length ys)) % cache_buf_max)
unfolding put_all
put_all_leaves [] c d k j w v s e f h p = (ground arith, ground arith)
put_all_leaves ((t, msg) ∷ ys) c d k j w v s e f h p =
    let (g, f') =
      put_all_leaves ys (published c t msg) d (k + 1) j w (published-IsContext c t msg v s.0) s.1
        (published_other c t msg j (omega (arith, v.current)) ∙ e) (omega (arith, v.current))
        (omega arith) (rw (put-published c t msg v s.0) at p) in
    (g, omega arith)

-- A message stays in the ring for 14 more `Put`s: after any run of them on a well-formed structure,
-- all of messages of the right size, each of the last 15 messages stands, with its time and its
-- checksum, as many slots before the current one as there were messages after it.
pub put_all_keeps :
    (c : Context) (xs ys : List (ℕ × List ℕ)) (t : ℕ) (msg : List ℕ)
    → IsContext c
    → AllSized xs
    → length msg ≡ sizeof_agv_info
    → AllSized ys
    → length ys < cache_buf_max
    → (d : Context) × (put_all c (xs ++ (t, msg) ∷ ys) ≡ some d)
      × IsContext d
      × (get_elem? d.wrapper ((d.helper.index + cache_buf_max - length ys) % cache_buf_max)
          ≡ some (stored t msg))
unfolding put_all
put_all_keeps c xs ys t msg v sx s sy h =
    let (b, e, vb) = put_all_total xs c v sx in
    let vb' = published-IsContext b t msg vb s in
    let (d, f, vd) = put_all_total ys (published b t msg) vb' sy in
    let (g, k) =
      put_all_leaves ys (published b t msg) d 0 (next_slot b.helper.index) (stored t msg) vb' sy
        (published_current b t msg vb) (omega (arith, vb.current)) (omega arith) f in
    (
      d,
      put_all-append xs ((t, msg) ∷ ys) c ∙ rw (e, put_all, put-published b t msg vb s) f,
      vd,
      subst (λ (n : ℕ). get_elem? d.wrapper n ≡ some (stored t msg)) (omega arith) g,
    )

-- The check of the index is made on an `int`. An index from 15 up to 2^31 - 1 is refused, and the
-- payload is left as it was; but one from 2^31 on, which reads as negative, passes the check, and
-- `Get` then reads outside the ring.
pub get_bad_index :
    (c : Context) (later range : ℕ) (old : List ℕ)
    → cache_buf_max ≤ c.helper.index
    → c.helper.index < 2 ^ 32
    → get c later range old ≡ (if ltb c.helper.index (2 ^ 31) then some (old, negsuc 0) else none)
unfolding get get_current
get_bad_index c later range old h k = ground arith
