-- ===== src/Thread/Life.antt =====
-- How often the threads of a `UThread` of bazelPro/src/lib/uthread.cc are joined.
use ng.Base.{ℕ, suc, ◌+◌, ◌≤◌, ◌≡◌, ◌≢◌, refl, ◌∙◌, arith, List, [], ◌∷◌, ◌++◌, Option}
use ng.Base.{◌⊎◌, inr, ==_false, ◌==◌, if◌then◌else◌, All}
use ng.Thread.{
  UThread, Call, Made, pthread_join, pthread_cancel, pthread_exit, create, exit, join, destroy,
  uthread,
}

-- A use of the object; the number is the calling thread.
pub data Use : Type 0 where
  creates : List ℕ → Option ℕ → ℕ → Made → Use
  exits : ℕ → Use
  joins : ℕ → Use

pub apply : UThread → Use → UThread × List Call
apply t (creates name cb arg made) = ((create t name cb arg made).0, [])
apply t (exits self) = exit t self
apply t (joins self) = join t self

-- All calls of a lifetime: the uses, then the destructor in the thread `self`.
pub lifetime : UThread → List Use → ℕ → List Call
lifetime t [] self = destroy t self
lifetime t (u ∷ us) self = (apply t u).1 ++ lifetime (apply t u).0 us self

abbrev pub joined : List Call → ℕ
joined [] = 0
joined (c ∷ cs) = let rest = joined cs in elim c [ pthread_join id ↦ suc rest | _ ↦ rest ]

abbrev pub created : List Use → ℕ
created [] = 0
created (u ∷ us) =
    let rest = created us in elim u [ creates name cb arg made ↦ suc rest | _ ↦ rest ]

abbrev held : UThread → ℕ
held t = if t.m_thread_id == 0 then 0 else 1

joined-append : (xs ys : List Call) → joined (xs ++ ys) ≡ joined xs + joined ys
joined-append [] ys = omega arith
joined-append (pthread_join id ∷ xs) ys = omega (arith, joined-append xs ys)
joined-append (pthread_cancel id ∷ xs) ys = joined-append xs ys
joined-append (pthread_exit ∷ xs) ys = joined-append xs ys

held-le : (t : UThread) → held t ≤ 1
held-le t = ground arith

apply-joined :
    (t : UThread) (u : Use) → joined (apply t u).1 + held (apply t u).0 ≤ held t + created (u ∷ [])
unfolding apply exit join
apply-joined t (creates name cb arg made) = omega (arith, held-le (create t name cb arg made).0)
apply-joined t (exits self) = ground arith
apply-joined t (joins self) = ground arith

lifetime-joined :
    (t : UThread) (us : List Use) (self : ℕ) → joined (lifetime t us self) ≤ held t + created us
unfolding lifetime destroy
lifetime-joined t [] self = ground arith
lifetime-joined t (creates name cb arg made ∷ us) self = omega (
  arith,
  joined-append (apply t (creates name cb arg made)).1
      (lifetime (apply t (creates name cb arg made)).0 us self),
  lifetime-joined (apply t (creates name cb arg made)).0 us self,
  apply-joined t (creates name cb arg made),
)
lifetime-joined t (exits self' ∷ us) self = omega (
  arith,
  joined-append (apply t (exits self')).1 (lifetime (apply t (exits self')).0 us self),
  lifetime-joined (apply t (exits self')).0 us self,
  apply-joined t (exits self'),
)
lifetime-joined t (joins self' ∷ us) self = omega (
  arith,
  joined-append (apply t (joins self')).1 (lifetime (apply t (joins self')).0 us self),
  lifetime-joined (apply t (joins self')).0 us self,
  apply-joined t (joins self'),
)

-- Whatever the callers do, from the constructor to the destructor `pthread_join` is called at most
-- once for each call of `create`.
pub lifetime-joins_le : (us : List Use) (self : ℕ) → joined (lifetime uthread us self) ≤ created us
unfolding uthread
lifetime-joins_le us self = omega (arith, lifetime-joined uthread us self)

-- A use from another thread than `id`, and no further `create`.
abbrev pub IsForeign : ℕ → Use → Type 0
IsForeign id (creates name cb arg made) = ⊥
IsForeign id (exits self) = self ≢ id
IsForeign id (joins self) = self ≢ id

abbrev OwnedAs : ℕ → UThread → Type 0
OwnedAs id t = (t.m_thread_id ≡ 0) ⊎ (t.m_thread_id ≡ id)

apply-held :
    (t : UThread) (u : Use) (id : ℕ)
    → IsForeign id u
    → OwnedAs id t
    → (joined (apply t u).1 + held (apply t u).0 ≡ held t) × OwnedAs id (apply t u).0
unfolding apply exit join
apply-held t (creates name cb arg made) id h own = absurd h
apply-held t (exits self) id h own = (ground arith, ground arith)
apply-held t (joins self) id h own = (ground arith, ground arith)

lifetime-held :
    (t : UThread) (us : List Use) (self id : ℕ)
    → All (IsForeign id) us
    → self ≢ id
    → OwnedAs id t
    → joined (lifetime t us self) ≡ held t
unfolding lifetime destroy
lifetime-held t [] self id h ne own = ground arith
lifetime-held t (u ∷ us) self id h ne own =
    let (count, own') = apply-held t u id h.0 own in
    omega (
      arith,
      joined-append (apply t u).1 (lifetime (apply t u).0 us self),
      lifetime-held (apply t u).0 us self id h.1 ne own',
      count,
    )

-- A thread that was created and is then used and destroyed from other threads is joined exactly
-- once, whatever order they call `join` and `exit` in, how often they do, and whether they do. The
-- `create` gets as far as `pthread_create`, which stores an id that is not 0.
pub lifetime-joins_once :
    (name : List ℕ) (cb : Option ℕ) (arg : ℕ) (made : Made) (us : List Use) (self : ℕ)
    → made.attr_init ≡ 0
    → made.setstacksize ≡ 0
    → made.id ≢ 0
    → All (IsForeign made.id) us
    → self ≢ made.id
    → joined (lifetime uthread (creates name cb arg made ∷ us) self) ≡ 1
unfolding lifetime apply create
lifetime-joins_once name cb arg made us self a b ne h foreign =
    let u = (create uthread name cb arg made).0 in
    let e : u.m_thread_id ≡ made.id = rw (a, b) refl in
    lifetime-held u us self made.id h foreign (inr e) ∙ rw (e, ==_false made.id 0 ne) refl
