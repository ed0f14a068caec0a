-- ===== src/Signal/Pipe/Delivered.antt =====
-- What comes out of the self-pipe of bazelPro/src/lib/zsignal.cc.
use ng.Base.{
  ℕ, zero, suc, ◌+◌, ◌<◌, ◌≡◌, refl, sym, ap, ◌∙◌, arith, List, [], ◌∷◌, ◌++◌, Option, none, some,
  ◌>>=◌, true, false, Bool,
}
use ng.Base.{
  length, leb, get_elem?-some, append_assoc, append-nil, Option-cases, inl, inr, All, All-append,
  get_at, ℤ, pos, negsuc,
}
use ng.Signal.{Signals, SignalEvent, User, Callback, Action, nsig, selfpipe_cb, send_signal_event}
use ng.Signal.Pipe.{
  World, create_selfpipe, nonfatal_signal_handler, poll, Event, caught, polled, run,
}

-- The numbers that are written in a run.
abbrev pub written : List Event → List ℤ
written [] = []
written (caught signum true ∷ es) = signum ∷ written es
written (caught signum false ∷ es) = written es
written (polled full lock added ∷ es) = written es

abbrev pub polls : ℕ → List Event
polls zero = []
polls (suc n) = polled true 0 true ∷ polls n

-- A number of the table.
abbrev pub InTable : ℤ → Type 0
InTable (pos n) = n < 65
InTable (negsuc n) = ⊥

-- The signals are numbers of the table, and in each round of the loop the lock and `evtimer_add`
-- succeed; `read` may fail.
abbrev pub AllCaught : List Event → Type 0
AllCaught [] = Unit
AllCaught (caught signum fits ∷ es) = InTable signum × AllCaught es
AllCaught (polled full lock added ∷ es) = (lock ≡ 0) × (added ≡ true) × AllCaught es

-- The events that signals with these numbers are for the loops, by the table.
abbrev pub event_of : User → Option Callback → ℤ → List SignalEvent
event_of u none signo = []
event_of u (some cb) signo =
    record { base = u.evbase; user_cb = cb; si_signo = signo; user_ctxt = u.ctxt } ∷ []

abbrev pub event_at : Option User → ℤ → List SignalEvent
event_at none signo = []
event_at (some u) signo = event_of u u.cb signo

abbrev pub delivered : List User → List ℤ → List SignalEvent
delivered users [] = []
delivered users (signo ∷ rest) = event_at (get_at users signo) signo ++ delivered users rest

pub delivered-append :
    (users : List User) (xs ys : List ℤ)
    → delivered users (xs ++ ys) ≡ delivered users xs ++ delivered users ys
delivered-append users [] ys = refl
delivered-append users (x ∷ xs) ys =
    ap (λ t. event_at (get_at users x) x ++ t) (delivered-append users xs ys)
    ∙ sym (append_assoc (event_at (get_at users x) x) (delivered users xs) (delivered users ys))

sends :
    (s : Signals) (u : User) (cb : Option Callback) (signo : ℤ)
    → send_signal_event s u cb signo true ≡ record s { sent = s.sent ++ event_of u cb signo }
unfolding send_signal_event
sends s u none signo = ap (λ t. record s { sent = t }) (sym (append-nil s.sent))
sends s u (some cb) signo = refl

pub selfpipe_cb-delivers :
    (s : Signals) (signo : ℤ)
    → length s.users ≡ 65
    → InTable signo
    → selfpipe_cb s true 0 true signo
      ≡ some (record s { sent = s.sent ++ event_at (get_at s.users signo) signo })
unfolding selfpipe_cb
selfpipe_cb-delivers s (pos n) whole small =
    let inside : leb nsig n ≡ false = ground arith in
    let (u, e) = get_elem?-some s.users n (omega (arith, whole)) in
    rw (inside, e) (ap some (sends s u u.cb (pos n)))
selfpipe_cb-delivers s (negsuc n) whole small = absurd small

selfpipe_cb-fails :
    (s : Signals) (lock : ℕ) (added : Bool) (signo : ℤ)
    → selfpipe_cb s false lock added signo ≡ some s
unfolding selfpipe_cb
selfpipe_cb-fails s lock added (pos n) = refl
selfpipe_cb-fails s lock added (negsuc n) = refl

-- A world whose pipe is made and watched.
abbrev pub ready : List User → List Action → List SignalEvent → List ℤ → World
ready users actions sent pipe = record {
  signals = record { users = users; actions = actions; sent = sent };
  made = true;
  watched = true;
  pipe = pipe;
}

-- A world before the self-pipe is made.
abbrev pub unmade : List User → List Action → List SignalEvent → World
unmade users actions sent = record {
  signals = record { users = users; actions = actions; sent = sent };
  made = false;
  watched = false;
  pipe = [];
}

module _ (users : List User) (actions : List Action) (whole : length users ≡ 65) where
  -- Nothing is lost and nothing changes places: what was sent, with what is still in the pipe.
  pub run-keeps :
      (es : List Event) (sent : List SignalEvent) (pipe : List ℤ)
      → All InTable pipe
      → AllCaught es
      → (sent' : List SignalEvent) × (left : List ℤ) × (run (ready users actions sent pipe) es
          ≡ some (ready users actions sent' left))
        × (sent' ++ delivered users left ≡ sent ++ delivered users (pipe ++ written es))
        × All InTable left
  unfolding run poll nonfatal_signal_handler
  run-keeps [] sent pipe h k =
      (sent, pipe, refl, ap (λ p. sent ++ delivered users p) (sym (append-nil pipe)), h)
  run-keeps (caught signum true ∷ es) sent pipe h k =
      let (sent', left, e, f, g) =
        run-keeps es sent (pipe ++ signum ∷ []) (All-append InTable pipe (signum ∷ []) h (k.0, tt))
          k.1 in
      (
        sent',
        left,
        e,
        f ∙ ap (λ p. sent ++ delivered users p) (append_assoc pipe (signum ∷ []) (written es)),
        g,
      )
  run-keeps (caught signum false ∷ es) sent pipe h k = run-keeps es sent pipe h k.1
  run-keeps (polled full lock added ∷ es) sent [] h k = run-keeps es sent [] h k.2
  run-keeps (polled false lock added ∷ es) sent (signo ∷ pipe) h k =
      let (sent', left, e, f, g) = run-keeps es sent (signo ∷ pipe) h k.2 in
      let kept =
        selfpipe_cb-fails (record { users = users; actions = actions; sent = sent }) lock added
          signo in
      (sent', left, rw kept e, f, g)
  run-keeps (polled true lock added ∷ es) sent (signo ∷ pipe) h k =
      let now = event_at (get_at users signo) signo in
      let (sent', left, e, f, g) = run-keeps es (sent ++ now) pipe h.1 k.2 in
      let read =
        selfpipe_cb-delivers (record { users = users; actions = actions; sent = sent }) signo whole
          h.0 in
      (
        sent',
        left,
        rw (k.0, k.1, read) e,
        f ∙ append_assoc sent now (delivered users (pipe ++ written es)),
        g,
      )

  polls_nothing :
      (k : ℕ) (sent : List SignalEvent)
      → run (ready users actions sent []) (polls k) ≡ some (ready users actions sent [])
  unfolding run poll
  polls_nothing zero sent = refl
  polls_nothing (suc k) sent = polls_nothing k sent

  polls-empties :
      (k : ℕ) (sent : List SignalEvent) (pipe : List ℤ)
      → All InTable pipe
      → run (ready users actions sent pipe) (polls (length pipe + k))
        ≡ some (ready users actions (sent ++ delivered users pipe) [])
  unfolding run poll
  polls-empties k sent [] h =
      let none_left : length {A = ℤ} [] + k ≡ k = omega arith in
      rw none_left
        (polls_nothing k sent ∙ ap (λ t. some (ready users actions t [])) (sym (append-nil sent)))
  polls-empties k sent (signo ∷ pipe) h =
      let now = event_at (get_at users signo) signo in
      let read =
        selfpipe_cb-delivers (record { users = users; actions = actions; sent = sent }) signo whole
          h.0 in
      let next : length (signo ∷ pipe) + k ≡ suc (length pipe + k) = omega arith in
      rw (next, read)
        (polls-empties k (sent ++ now) pipe h.1
          ∙ ap (λ t. some (ready users actions t []))
              (append_assoc sent now (delivered users pipe)))

run-append : (es fs : List Event) (w : World) → run w (es ++ fs) ≡ run w es >>= λ v. run v fs
unfolding run
run-append [] fs w = refl
run-append (caught signum fits ∷ es) fs w = run-append es fs (nonfatal_signal_handler w signum fits)
run-append (polled full lock added ∷ es) fs w = elim (Option-cases (poll w full lock added)) [
  | inl e ↦ rw e refl
  | inr (v, e) ↦ rw e (run-append es fs v)
]

-- When the self-pipe is made, signals of the table are caught, and the loop runs in between, in any
-- order, then some number of rounds of the loop more, and any larger number, leave the pipe empty, and
-- every signal that was written was sent as an event to the callback of the table, once and in the
-- order of the writes. This is for a table that does not change, and rounds of the loop in which the
-- lock and `evtimer_add` succeed; `read` may fail in those before the last rounds.
pub run-delivers :
    (users : List User) (actions : List Action) (sent : List SignalEvent) (es : List Event)
    → length users ≡ 65
    → AllCaught es
    → (n : ℕ) × ((k : ℕ)
        → run (create_selfpipe (unmade users actions sent) true true).0 (es ++ polls (n + k))
          ≡ some (ready users actions (sent ++ delivered users (written es)) []))
unfolding create_selfpipe
run-delivers users actions sent es whole in_table =
    let (sent', left, e, f, g) = run-keeps users actions whole es sent [] tt in_table in
    (
      length left,
      λ k.
          run-append es (polls (length left + k)) (ready users actions sent [])
          ∙ rw e (
              polls-empties users actions whole k sent' left g
              ∙ ap (λ t. some (ready users actions t [])) f),
    )
