-- ===== src/Mutex.antt =====
-- The mutex wrappers of bazelPro/src/lib/zmutex.cc. The pthread calls and the clock are not code of
-- this repository: they are the fields of `Pthread`, over a state `W` of the system.
mod Laws
mod Tests
use ng.Base.{ℕ, ◌+◌, ◌-◌, ◌*◌, ◌/◌, ◌%◌, Bool, not, Option, none, some, ◌==◌, leb, if◌then◌else◌}

pub record Timespec : Type 0 where
  pub tv_sec : ℕ
  pub tv_nsec : ℕ

-- Every call changes the state and returns an error number, 0 for success. `clock_gettime` gives
-- the time, or nothing where it fails.
pub record Pthread (W : Type 0) : Type 0 where
  pub mutexattr_init : W → W × ℕ
  pub mutexattr_settype : W → W × ℕ
  pub mutexattr_setprotocol : W → W × ℕ
  pub mutex_init : W → W × ℕ
  pub mutexattr_destroy : W → W × ℕ
  pub mutex_lock : W → W × ℕ
  pub mutex_trylock : W → W × ℕ
  pub mutex_timedlock : Timespec → W → W × ℕ
  pub mutex_unlock : W → W × ℕ
  pub mutex_destroy : W → W × ℕ
  pub clock_gettime : W → W × Option Timespec

abbrev pub einval : ℕ
einval = 22

-- What is in the structure after the two additions and the carry.
pub deadline : Timespec → ℕ → Timespec
deadline now timeout_ms =
    let sec = now.tv_sec + timeout_ms / 1000 in
    let nsec = now.tv_nsec + timeout_ms % 1000 * 1000000 in
    if leb 1000000000 nsec
    then record { tv_sec = sec + 1; tv_nsec = nsec - 1000000000 }
    else record { tv_sec = sec; tv_nsec = nsec }

module _ {W : Type 0} (os : Pthread W) where
  abbrev pub cleanup : W → ℕ → W × ℕ
  cleanup w rc = ((os.mutexattr_destroy w).0, rc)

  pub zmutex_create : W → W × ℕ
  zmutex_create w =
      let init = os.mutexattr_init w in
      if not (init.1 == 0)
      then init
      else (let type = os.mutexattr_settype (init.0) in
          if not (type.1 == 0)
          then cleanup (type.0) (type.1)
          else (let protocol = os.mutexattr_setprotocol (type.0) in
              if not (protocol.1 == 0)
              then cleanup (protocol.0) (protocol.1)
              else (let made = os.mutex_init (protocol.0) in cleanup (made.0) (made.1))))

  pub zmutex_lock : W → W × ℕ
  zmutex_lock w = os.mutex_lock w

  pub zmutex_trylock : W → W × ℕ
  zmutex_trylock w = os.mutex_trylock w

  timed : W → Option Timespec → ℕ → W × ℕ
  timed w none timeout_ms = (w, einval)
  timed w (some now) timeout_ms = os.mutex_timedlock (deadline now timeout_ms) w

  pub zmutex_timedlock : W → ℕ → W × ℕ
  zmutex_timedlock w timeout_ms =
      if timeout_ms == 0
      then zmutex_lock w
      else (let clock = os.clock_gettime w in timed (clock.0) (clock.1) timeout_ms)

  pub zmutex_unlock : W → W × ℕ
  zmutex_unlock w = os.mutex_unlock w

  pub zmutex_delete : W → W × ℕ
  zmutex_delete w = os.mutex_destroy w
