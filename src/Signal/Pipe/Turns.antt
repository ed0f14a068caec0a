-- ===== src/Signal/Pipe/Turns.antt =====
-- The loops of the threads that run `signal_cb` of bazelPro/src/lib/zsignal.cc for the events that were
-- sent to them, in an order that libevent does not promise.
use ng.Base.{true, ℕ, zero, suc, List, [], ◌∷◌, ◌++◌, Option, none, some, ◌>>=◌}
use ng.Signal.{SignalEvent}
use ng.Signal.Pipe.{World, Event, polled, run}

-- The world, whose `sent` are the events that no loop has run, and the callbacks that were run, with
-- their loops and arguments.
pub record Threads : Type 0 where
  pub world : World
  pub ran : List SignalEvent

-- The callback is called, and the event is freed.
abbrev pub signal_cb : SignalEvent → List SignalEvent → Threads → Threads
signal_cb e others t = record {
  world = record t.world { signals = record (t.world.signals) { sent = others } };
  ran = t.ran ++ e ∷ [];
}

-- One of the events, and the others.
abbrev pub take_out : {A : Type 0} → ℕ → List A → Option (A × List A)
take_out k [] = none
take_out zero (x ∷ xs) = some (x, xs)
take_out (suc k) (x ∷ xs) = do r ← take_out k xs; some (r.0, x ∷ r.1)

-- Something that happens before the events are run, or a turn of a loop, which runs the `k`-th event.
pub data Turn : Type 0 where
  before : Event → Turn
  turned : ℕ → Turn

unfoldable pub take_turn : Threads → Turn → Option Threads
take_turn t (before e) = do w ← run (t.world) (e ∷ []); some (record t { world = w })
take_turn t (turned k) = elim (take_out k t.world.signals.sent) [
  | none ↦ some t
  | some r ↦ some (signal_cb (r.0) (r.1) t)
]

unfoldable pub take_turns : Threads → List Turn → Option Threads
take_turns t [] = some t
take_turns t (u ∷ us) = do t ← take_turn t u; take_turns t us

abbrev pub events : List Turn → List Event
events [] = []
events (before e ∷ us) = e ∷ events us
events (turned k ∷ us) = events us

-- So many rounds of the loop that reads the pipe, in which its calls succeed, then so many turns of the others.
abbrev pub rounds : ℕ → ℕ → List Turn
rounds zero zero = []
rounds zero (suc m) = turned 0 ∷ rounds zero m
rounds (suc n) m = before (polled true 0 true) ∷ rounds n m
