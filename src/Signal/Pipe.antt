-- ===== src/Signal/Pipe.antt =====
-- The self-pipe of bazelPro/src/lib/zsignal.cc: the handler in signal context writes to it, the loop of
-- the thread that made it reads from it. A write is whole or fails, since it is less than PIPE_BUF.
pub mod Delivered
pub mod Turns
pub mod Handled
use ng.Base.{
  ℕ, zero, suc, ◌+◌, ◌-◌, ◌≤◌, ◌<◌, ◌≡◌, refl, sym, ap, ◌∙◌, subst, arith, List, [], ◌∷◌, ◌++◌,
  Option, none, some, ◌>>=◌, Bool, true, false, ◌==◌, if◌then◌else◌, not,
}
use ng.Base.{
  length, leb, get_elem?, get_elem?-some, append_assoc, append-nil, Option-cases, inl, inr, All,
  All-append, get_at, ℤ, pos, negsuc,
}
use ng.Signal.{Signals, SignalEvent, User, Callback, Action, nsig, selfpipe_cb, send_signal_event}

-- `made` tells whether `selfpipe[1]` is not -1, `watched` whether the loop waits for the pipe, and
-- `pipe` are the numbers written and not read.
pub record World : Type 0 where
  pub signals : Signals
  pub made : Bool
  pub watched : Bool
  pub pipe : List ℤ

-- Whether `pipe2` and `event_add` succeed; the new world and the returned number.
pub create_selfpipe : World → Bool → Bool → World × ℤ
create_selfpipe w piped added =
    if not piped
    then (w, negsuc 0)
    else (record w { made = true; watched = added }, if added then pos 0 else negsuc 0)

-- `fits` tells whether `write` takes the whole. The record of a failure is not made: its code is
-- disabled.
pub nonfatal_signal_handler : World → ℤ → Bool → World
nonfatal_signal_handler w signum fits =
    if not w.made then w else if fits then record w { pipe = w.pipe ++ signum ∷ [] } else w

-- One round of the loop: it calls `selfpipe_cb` when there is something to read. `full` tells whether
-- `read` gives the whole record; since whole records are written, it else fails and takes nothing.
-- `lock` is what `zmutex_lock` returns, and `added` whether `evtimer_add` succeeds.
pub poll : World → Bool → ℕ → Bool → Option World
poll w full lock added = if not w.watched then some w else elim w.pipe [
  | [] ↦ some w
  | signo ∷ rest ↦ do
    signals ← selfpipe_cb (w.signals) full lock added signo
    some (record w { signals = signals; pipe = if full then rest else signo ∷ rest })
]

pub data Event : Type 0 where
  caught : ℤ → Bool → Event
  polled : Bool → ℕ → Bool → Event

pub run : World → List Event → Option World
run w [] = some w
run w (caught signum fits ∷ es) = run (nonfatal_signal_handler w signum fits) es
run w (polled full lock added ∷ es) = do w ← poll w full lock added; run w es
