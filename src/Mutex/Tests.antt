-- ===== src/Mutex/Tests.antt =====
-- Concrete runs of bazelPro/src/lib/zmutex.cc, on a system that counts its calls.
use ng.Base.{ℕ, suc, ◌+◌, ◌*◌, ◌<◌, ◌≡◌, refl, arith, some}
use ng.Mutex.{Pthread, Timespec, zmutex_create, zmutex_timedlock}
use ng.Mutex.Laws.{nanoseconds, timedlock_deadline}

abbrev now : Timespec
now = record { tv_sec = 5; tv_nsec = 900000000 }

-- `pthread_mutexattr_setprotocol` fails with ENOTSUP.
abbrev counting : Pthread ℕ
counting = record {
  mutexattr_init = λ w. (suc w, 0);
  mutexattr_settype = λ w. (suc w, 0);
  mutexattr_setprotocol = λ w. (suc w, 95);
  mutex_init = λ w. (suc w, 0);
  mutexattr_destroy = λ w. (suc w, 0);
  mutex_lock = λ w. (suc w, 0);
  mutex_trylock = λ w. (suc w, 16);
  mutex_timedlock = λ t w. (suc w, 110);
  mutex_unlock = λ w. (suc w, 0);
  mutex_destroy = λ w. (suc w, 0);
  clock_gettime = λ w. (suc w, some now);
}

created : zmutex_create counting 0 ≡ (4, 95)
unfolding zmutex_create
created = refl

timedlock_deadline_example :
    (end : Timespec) × (zmutex_timedlock counting 0 1200
      ≡ counting.mutex_timedlock end (counting.clock_gettime 0).0)
    × (nanoseconds end ≡ nanoseconds now + 1200 * 1000000)
    × (end.tv_nsec < 1000000000)
timedlock_deadline_example = timedlock_deadline counting 0 1200 now (omega arith) refl (omega arith)
