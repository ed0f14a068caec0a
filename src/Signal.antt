-- ===== src/Signal.antt =====
-- The table of callbacks of bazelPro/src/lib/zsignal.cc. What a lock, `get_loop` and `raise` return
-- is given to the operations; the handlers that are installed and the signals that are raised are
-- listed in `actions`, the events for the loops in `sent`. `none` is an access outside the table.
pub mod Laws
pub mod Fatal
mod Bounds
mod Pipe
mod Tests
use ng.Base.{
  ℕ, ◌+◌, ◌-◌, List, [], ◌∷◌, ◌++◌, Option, none, some, Bool, true, false, not, ◌==◌, leb,
}
use ng.Base.{if◌then◌else◌, ◌>>=◌, ltb, length, get_elem?, set, replicate, ℤ, pos, negsuc, get_at}

abbrev pub nsig : ℕ
nsig = 65

-- `SIGFPE`, `SIGILL`, `SIGSEGV`, `SIGBUS`, `SIGABRT` and `SIGSYS`.
abbrev pub fatal_signals : List ℕ
fatal_signals = 8 ∷ 4 ∷ 11 ∷ 7 ∷ 6 ∷ 31 ∷ []

pub data Callback : Type 0 where
  do_nothing : Callback
  log_error_and_call_system_default_handler : Callback
  user_callback : ℕ → Callback

-- `none` is NULL.
pub record User : Type 0 where
  pub evbase : Option ℕ
  pub cb : Option Callback
  pub ctxt : ℕ

-- What `signal_cb` will run in the loop `base`.
pub record SignalEvent : Type 0 where
  pub base : Option ℕ
  pub user_cb : Callback
  pub si_signo : ℤ
  pub user_ctxt : ℕ

pub data Action : Type 0 where
  fatal_signal_handler : ℤ → Action
  nonfatal_signal_handler : ℤ → Action
  raise : ℤ → Action

pub record Signals : Type 0 where
  pub users : List User
  pub actions : List Action
  pub sent : List SignalEvent

abbrev pub no_user : User
no_user = record { evbase = none; cb = none; ctxt = 0 }

abbrev is_in : ℕ → List ℕ → Bool
is_in n [] = false
is_in n (m ∷ ms) = let rest = is_in n ms in if m == n then true else rest

pub is_fatal : ℤ → Bool
is_fatal (pos n) = is_in n fatal_signals
is_fatal (negsuc n) = false

-- `users[signo] = …`
abbrev pub set_user : Signals → ℤ → User → Option Signals
set_user s (pos i) u =
    if ltb i (length (s.users)) then some (record s { users = set (s.users) i u }) else none
set_user s (negsuc i) u = none

abbrev pub act : Action → Signals → Signals
act a s = record s { actions = s.actions ++ a ∷ [] }

-- The slot is taken unless its callback is NULL.
taken : Signals → ℤ → Option Callback → ℕ → Option Callback → ℕ → Option (Signals × ℤ)
taken s signo (some old) loop cb ctxt = some (s, negsuc 0)
taken s signo none loop cb ctxt = do
  s ← set_user s signo (record { evbase = some loop; cb = cb; ctxt = ctxt })
  some (act (nonfatal_signal_handler signo) s, signo)

-- `lock` is what `zmutex_lock` returns, `loop` what `get_loop` returns.
pub zsignal_register : Signals → ℕ → ℕ → ℤ → Option Callback → ℕ → Option (Signals × ℤ)
zsignal_register s lock loop signo cb ctxt =
    if is_fatal signo
    then some (s, negsuc 0)
    else if not (lock == 0)
    then some (s, negsuc 0)
    else (do user ← get_at (s.users) signo; taken s signo (user.cb) loop cb ctxt)

pub zsignal_deregister : Signals → ℕ → ℤ → Option (Signals × ℤ)
zsignal_deregister s lock signo =
    if not (lock == 0)
    then some (s, negsuc 0)
    else (do s ← set_user s signo no_user; some (s, pos 0))

-- The results of the two locks; the results of the two calls are ignored.
pub zsignal_reset_default : Signals → ℕ → ℕ → ℕ → ℤ → Option (Signals × ℤ)
zsignal_reset_default s lock lock_again loop signo = do
  r ← zsignal_deregister s lock signo
  r ←
      zsignal_register (r.0) lock_again loop signo (some log_error_and_call_system_default_handler)
        0
  some (r.0, pos 0)

-- `result` is what `raise` returns.
pub zsignal_raise : Signals → ℤ → ℤ → Signals × ℤ
zsignal_raise s result signo =
    if is_fatal signo then (s, negsuc 0) else (act (raise signo) s, result)

-- `added` tells whether `evtimer_add` succeeds: when it fails, the code prints, and the event is never
-- run.
pub send_signal_event : Signals → User → Option Callback → ℤ → Bool → Signals
send_signal_event s user none signo added = s
send_signal_event s user (some cb) signo added =
    if added
    then record s {
      sent =
          s.sent
          ++ record { base = user.evbase; user_cb = cb; si_signo = signo; user_ctxt = user.ctxt }
            ∷ [];
    }
    else s

-- The signal number that is next in the self-pipe. `full` tells whether `read` gives the whole record,
-- `lock` is what `zmutex_lock` returns, and `added` whether `evtimer_add` succeeds.
pub selfpipe_cb : Signals → Bool → ℕ → Bool → ℤ → Option Signals
selfpipe_cb s full lock added (negsuc n) = some s
selfpipe_cb s full lock added (pos signo) =
    if not full
    then some s
    else if leb nsig signo
    then some s
    else if not (lock == 0)
    then some s
    else (do
      user ← get_elem? (s.users) signo
      some (send_signal_event s user (user.cb) (pos signo) added))

install_all_fatal_signal_handlers : List ℕ → Signals → Signals
install_all_fatal_signal_handlers [] s = s
install_all_fatal_signal_handlers (f ∷ fs) s =
    install_all_fatal_signal_handlers fs (act (fatal_signal_handler (pos f)) s)

-- The numbers and callbacks of `install_default_nonfatal_signals_handlers`: `SIGPIPE`, then
-- `SIGHUP`, `SIGTERM`, `SIGINT`, `SIGQUIT`, `SIGTRAP`, `SIGIO`, `SIGALRM`, `SIGUSR1`, `SIGUSR2`.
abbrev defaults : List (ℕ × Callback)
defaults =
    (13, do_nothing)
    ∷ (1, log_error_and_call_system_default_handler)
    ∷ (15, log_error_and_call_system_default_handler)
    ∷ (2, log_error_and_call_system_default_handler)
    ∷ (3, log_error_and_call_system_default_handler)
    ∷ (5, log_error_and_call_system_default_handler)
    ∷ (29, log_error_and_call_system_default_handler)
    ∷ (14, log_error_and_call_system_default_handler)
    ∷ (10, log_error_and_call_system_default_handler)
    ∷ (12, log_error_and_call_system_default_handler)
    ∷ []

-- `locks` gives the result of the lock that is taken for a signal number.
pub register_all : (ℕ → ℕ) → ℕ → List (ℕ × Callback) → Signals → Option Signals
register_all locks loop [] s = some s
register_all locks loop (d ∷ ds) s = do
  r ← zsignal_register s (locks (d.0)) loop (pos (d.0)) (some (d.1)) 0
  register_all locks loop ds (r.0)

-- `pipe_made` tells whether `create_selfpipe` succeeds.
pub zsignal_init : Signals → Bool → (ℕ → ℕ) → ℕ → Option (Signals × ℤ)
zsignal_init s pipe_made locks loop =
    let s = record s { users = replicate nsig no_user } in
    if not pipe_made then some (s, negsuc 0) else (do
      s ← register_all locks loop defaults (install_all_fatal_signal_handlers fatal_signals s)
      some (s, pos 0))
