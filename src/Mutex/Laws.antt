-- ===== src/Mutex/Laws.antt =====
-- What the wrappers of bazelPro/src/lib/zmutex.cc hand to pthread, for every implementation of it.
use ng.Base.{
  ℕ, ◌+◌, ◌*◌, ◌<◌, ◌≡◌, ◌≢◌, refl, arith, some, ◌==◌, ==_false, Bool-cases, inl, inr, ◌⊎◌,
}
use ng.Base.{true, false}
use ng.Mutex.{Pthread, Timespec, deadline, zmutex_create, zmutex_timedlock, timed}

-- Nanoseconds since the epoch.
abbrev pub nanoseconds : Timespec → ℕ
nanoseconds t = t.tv_sec * 1000000000 + t.tv_nsec

deadline-exact :
    (now : Timespec) (timeout_ms : ℕ)
    → now.tv_nsec < 1000000000
    → (nanoseconds (deadline now timeout_ms) ≡ nanoseconds now + timeout_ms * 1000000)
      × ((deadline now timeout_ms).tv_nsec < 1000000000)
unfolding deadline
deadline-exact now timeout_ms h = (ground arith, ground arith)

module _ {W : Type 0} (os : Pthread W) where
  -- Where the clock gives a time with less than 10⁹ nanoseconds, a lock with a timeout that is not
  -- 0 is one call of `pthread_mutex_timedlock`, in the state after the clock was read. Its deadline
  -- is exactly `timeout_ms` after that time, and is itself such a time.
  pub timedlock_deadline :
      (w : W) (timeout_ms : ℕ) (now : Timespec)
      → timeout_ms ≢ 0
      → (os.clock_gettime w).1 ≡ some now
      → now.tv_nsec < 1000000000
      → (end : Timespec) × (zmutex_timedlock os w timeout_ms
          ≡ os.mutex_timedlock end (os.clock_gettime w).0)
        × (nanoseconds end ≡ nanoseconds now + timeout_ms * 1000000)
        × (end.tv_nsec < 1000000000)
  unfolding zmutex_timedlock timed
  timedlock_deadline w timeout_ms now ne clock h =
      let (exact, small) = deadline-exact now timeout_ms h in
      (deadline now timeout_ms, rw (==_false timeout_ms 0 ne, clock) refl, exact, small)

  -- The states after the calls of `zmutex_create`, as far as it gets.
  abbrev after_settype : W → W × ℕ
  after_settype w = os.mutexattr_settype (os.mutexattr_init w).0

  abbrev after_setprotocol : W → W × ℕ
  after_setprotocol w = os.mutexattr_setprotocol (after_settype w).0

  abbrev after_init : W → W × ℕ
  after_init w = os.mutex_init (after_setprotocol w).0

  -- The state in which `zmutex_create` begins to clean up, and the error number that it returns.
  pub data Stops (w : W) : W × ℕ → Type 0 where
    at_settype : (after_settype w).1 ≢ 0 → Stops w (after_settype w)
    at_setprotocol :
        (after_settype w).1 ≡ 0 → (after_setprotocol w).1 ≢ 0 → Stops w (after_setprotocol w)
    at_init : (after_settype w).1 ≡ 0 → (after_setprotocol w).1 ≡ 0 → Stops w (after_init w)

  -- `zmutex_create` in full: where the attributes cannot be made it returns at once with that error;
  -- otherwise it goes on up to the first call that fails, destroys the attributes exactly once, last
  -- of all, and returns the error number of the last call before that. The mutex is initialised
  -- only when both attributes were set.
  pub zmutex_create_lem :
      (w : W)
      → (((os.mutexattr_init w).1 ≢ 0) × (zmutex_create os w ≡ os.mutexattr_init w))
        ⊎ (((os.mutexattr_init w).1 ≡ 0)
            × ((stop : W × ℕ) × Stops w stop
                × (zmutex_create os w ≡ ((os.mutexattr_destroy stop.0).0, stop.1))))
  unfolding zmutex_create
  zmutex_create_lem w = elim (Bool-cases ((os.mutexattr_init w).1 == 0)) [
    | inr i ↦ inl (differs i, rw i refl)
    | inl i ↦ elim (Bool-cases ((after_settype w).1 == 0)) [
      | inr t ↦ inr (equals i, (after_settype w, at_settype (differs t), rw (i, t) refl))
      | inl t ↦ elim (Bool-cases ((after_setprotocol w).1 == 0)) [
        | inr p ↦ inr (
          equals i,
          (after_setprotocol w, at_setprotocol (equals t) (differs p), rw (i, t, p) refl),
        )
        | inl p ↦ inr (equals i, (after_init w, at_init (equals t) (equals p), rw (i, t, p) refl))
      ]
    ]
  ]
    where
      equals : {n : ℕ} → (n == 0) ≡ true → n ≡ 0
      equals {n} h = ground arith

      differs : {n : ℕ} → (n == 0) ≡ false → n ≢ 0
      differs {n} h = ground arith
