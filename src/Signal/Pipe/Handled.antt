-- ===== src/Signal/Pipe/Handled.antt =====
-- What becomes of the signals that go through the self-pipe of bazelPro/src/lib/zsignal.cc.
use mathlib.Core.List.{Perm}
use mathlib.Core.List.Perm
use ng.Base.{
  ℕ, zero, suc, ◌+◌, ◌≡◌, refl, sym, ap, ◌∙◌, subst, arith, List, [], ◌∷◌, ◌++◌, some, ◌>>=◌, true,
  false,
}
use ng.Base.{length, get_at, append_assoc, append-nil, Option-cases, inl, inr, All, ℤ}
use ng.Signal.{SignalEvent, User, Action}
use ng.Signal.Pipe.{create_selfpipe, poll, Event, caught, polled, run}
use ng.Signal.Pipe.Delivered.{
  written, InTable, AllCaught, delivered, delivered-append, event_at, selfpipe_cb-delivers, ready,
  unmade, run-keeps,
}
use ng.Signal.Pipe.Turns.{
  Threads, take_out, Turn, before, turned, take_turn, take_turns, events, rounds,
}

module _ {A : Type 0} where
  take_out-Perm :
      (k : ℕ) (xs : List A) (r : A × List A) → take_out k xs ≡ some r → Perm xs (r.0 ∷ r.1)
  take_out-Perm k [] r = λ h. absurd (cc)
  take_out-Perm zero (x ∷ xs) r =
      λ h. let e : (x, xs) ≡ r = cc in subst (λ r. Perm (x ∷ xs) (r.0 ∷ r.1)) e Perm.rfl
  take_out-Perm (suc k) (x ∷ xs) r = elim (Option-cases (take_out k xs)) [
    | inl e ↦ rw e (λ h. absurd (cc))
    | inr (q, e) ↦ rw e (λ h.
        let same : (q.0, x ∷ q.1) ≡ r = cc in
        subst (λ r. Perm (x ∷ xs) (r.0 ∷ r.1)) same
          (Perm.trans (Perm.cons x (take_out-Perm k xs q e)) (Perm.swap q.0 x q.1)))
  ]

  -- An element that moves to the front list.
  moved :
      (xs ys zs : List A) (e : A) (rest : List A)
      → Perm ys (e ∷ rest)
      → Perm ((xs ++ e ∷ []) ++ (rest ++ zs)) (xs ++ (ys ++ zs))
  moved xs ys zs e rest p =
      subst (λ l. Perm l (xs ++ (ys ++ zs))) (sym (append_assoc xs (e ∷ []) (rest ++ zs)))
        (Perm.append_left xs (Perm.append_right zs (Perm.symm p)))

split-AllCaught :
    (e : Event) (es : List Event) → AllCaught (e ∷ es) → AllCaught (e ∷ []) × AllCaught es
split-AllCaught (caught signum fits) es h = ((h.0, tt), h.1)
split-AllCaught (polled full lock added) es h = ((h.0, h.1, tt), h.2)

written-cons : (e : Event) (es : List Event) → written (e ∷ es) ≡ written (e ∷ []) ++ written es
written-cons (caught signum true) es = refl
written-cons (caught signum false) es = refl
written-cons (polled full lock added) es = refl

module _ (users : List User) (actions : List Action) (whole : length users ≡ 65) where
  abbrev pub at_work : List SignalEvent → List ℤ → List SignalEvent → Threads
  at_work sent pipe ran = record { world = ready users actions sent pipe; ran = ran }

  abbrev all : List SignalEvent → List SignalEvent → List ℤ → List SignalEvent
  all ran sent pipe = ran ++ (sent ++ delivered users pipe)

  later :
      (sent sent' : List SignalEvent) (pipe left more : List ℤ) (e : Event)
      → sent' ++ delivered users left ≡ sent ++ delivered users (pipe ++ written (e ∷ []))
      → sent' ++ delivered users (left ++ more)
        ≡ sent ++ delivered users (pipe ++ (written (e ∷ []) ++ more))
  later sent sent' pipe left more e h =
      let now = pipe ++ written (e ∷ []) in
      ap (λ d. sent' ++ d) (delivered-append users left more)
      ∙ sym (append_assoc sent' (delivered users left) (delivered users more))
      ∙ ap (λ d. d ++ delivered users more) h
      ∙ append_assoc sent (delivered users now) (delivered users more)
      ∙ ap (λ d. sent ++ d) (sym (delivered-append users now more))
      ∙ ap (λ p. sent ++ delivered users p) (append_assoc pipe (written (e ∷ [])) more)

  turns-keep :
      (us : List Turn) (sent : List SignalEvent) (pipe : List ℤ) (ran : List SignalEvent)
      → All InTable pipe
      → AllCaught (events us)
      → (sent' : List SignalEvent) × (left : List ℤ) × (ran' : List SignalEvent) × (take_turns
            (at_work sent pipe ran)
            us
          ≡ some (at_work sent' left ran'))
        × Perm (all ran' sent' left) (all ran sent (pipe ++ written (events us)))
        × All InTable left
  unfolding take_turns take_turn
  turns-keep [] sent pipe ran h k = (
    sent,
    pipe,
    ran,
    refl,
    subst (λ p. Perm (all ran sent pipe) (all ran sent p)) (sym (append-nil pipe)) Perm.rfl,
    h,
  )
  turns-keep (before e ∷ us) sent pipe ran h k =
      let (now, then_) = split-AllCaught e (events us) k in
      let (sent1, left1, f, g, h1) = run-keeps users actions whole (e ∷ []) sent pipe h now in
      let (sent', left, ran', f', p, h') = turns-keep us sent1 left1 ran h1 then_ in
      let more = written (events us) in
      (
        sent',
        left,
        ran',
        rw f f',
        subst (λ l. Perm (all ran' sent' left) (ran ++ l))
            (later sent sent1 pipe left1 more e g
              ∙ ap (λ w. sent ++ delivered users (pipe ++ w)) (sym (written-cons e (events us))))
            p,
        h',
      )
  turns-keep (turned i ∷ us) sent pipe ran h k = elim (Option-cases (take_out i sent)) [
    | inl e ↦
        let (sent', left, ran', f, p, h') = turns-keep us sent pipe ran h k in
        (sent', left, ran', rw e f, p, h')
    | inr (r, e) ↦
        let (sent', left, ran', f, p, h') = turns-keep us r.1 pipe (ran ++ r.0 ∷ []) h k in
        let more = delivered users (pipe ++ written (events us)) in
        (
          sent',
          left,
          ran',
          rw e f,
          Perm.trans p (moved ran sent more r.0 r.1 (take_out-Perm i sent r e)),
          h',
        )
  ]

  turns-empty :
      (j : ℕ) (sent ran : List SignalEvent)
      → take_turns (at_work sent [] ran) (rounds 0 (length sent + j))
        ≡ some (at_work [] [] (ran ++ sent))
  unfolding take_turns take_turn
  turns-empty zero [] ran = ap (λ r. some (at_work [] [] r)) (sym (append-nil ran))
  turns-empty (suc j) [] ran =
      let e : length {A = SignalEvent} [] + suc j ≡ suc (length {A = SignalEvent} [] + j) =
        omega arith in
      rw e (turns-empty j [] ran)
  turns-empty j (e ∷ sent) ran =
      let next : length (e ∷ sent) + j ≡ suc (length sent + j) = omega arith in
      rw next (
        turns-empty j sent (ran ++ e ∷ [])
        ∙ ap (λ r. some (at_work [] [] r)) (append_assoc ran (e ∷ []) sent))

  turns-idle :
      (k m : ℕ) (sent ran : List SignalEvent)
      → take_turns (at_work sent [] ran) (rounds k m)
        ≡ take_turns (at_work sent [] ran) (rounds 0 m)
  unfolding take_turns take_turn run poll
  turns-idle zero m sent ran = refl
  turns-idle (suc k) m sent ran = turns-idle k m sent ran

  turns-drain :
      (k m : ℕ) (sent : List SignalEvent) (pipe : List ℤ) (ran : List SignalEvent)
      → All InTable pipe
      → take_turns (at_work sent pipe ran) (rounds (length pipe + k) m)
        ≡ take_turns (at_work (sent ++ delivered users pipe) [] ran) (rounds 0 m)
  unfolding take_turns take_turn run poll
  turns-drain k m sent [] ran h =
      let none_left : length {A = ℤ} [] + k ≡ k = omega arith in
      rw (none_left, append-nil sent) (turns-idle k m sent ran)
  turns-drain k m sent (signo ∷ pipe) ran h =
      let now = event_at (get_at users signo) signo in
      let read =
        selfpipe_cb-delivers (record { users = users; actions = actions; sent = sent }) signo whole
          h.0 in
      let next : length (signo ∷ pipe) + k ≡ suc (length pipe + k) = omega arith in
      rw (next, read)
        (turns-drain k m (sent ++ now) pipe ran h.1
          ∙ ap (λ s. take_turns (at_work s [] ran) (rounds 0 m))
              (append_assoc sent now (delivered users pipe)))

take_turns-append :
    (us vs : List Turn) (t : Threads)
    → take_turns t (us ++ vs) ≡ take_turns t us >>= λ s. take_turns s vs
unfolding take_turns
take_turns-append [] vs t = refl
take_turns-append (u ∷ us) vs t = elim (Option-cases (take_turn t u)) [
  | inl e ↦ rw e refl
  | inr (s, e) ↦ rw e (take_turns-append us vs s)
]

-- When the self-pipe is made, signals of the table are caught, the loop that reads the pipe runs in
-- between, and so do the loops of the other threads, which run their events in any order, then some number
-- of rounds of the first loop and some number of turns of the others more, and any larger numbers, leave
-- no signal in the pipe and no event to run, and the callbacks that were run are, in some order, those
-- of the events from before and those of the table for every signal that was written, once each. This
-- is for a table that does not change, and rounds of the first loop in which the lock and
-- `evtimer_add` succeed; `read` may fail in those before the last rounds, and takes nothing then.
pub turns-handled :
    (users : List User) (actions : List Action) (sent : List SignalEvent) (us : List Turn)
    → length users ≡ 65
    → AllCaught (events us)
    → (n m : ℕ) × (ran : List SignalEvent) × ((k j : ℕ)
        → take_turns
            (record { world = (create_selfpipe (unmade users actions sent) true true).0; ran = [] })
            (us ++ rounds (n + k) (m + j))
          ≡ some (record { world = ready users actions [] []; ran = ran }))
      × Perm ran (sent ++ delivered users (written (events us)))
unfolding create_selfpipe
turns-handled users actions sent us whole in_table =
    let (sent', left, ran', e, p, h) = turns-keep users actions whole us sent [] [] tt in_table in
    let todo = sent' ++ delivered users left in
    (
      length left,
      length todo,
      ran' ++ todo,
      λ k j.
          take_turns-append us (rounds (length left + k) (length todo + j))
            (at_work users actions whole sent [] [])
          ∙ rw e (
              turns-drain users actions whole k (length todo + j) sent' left ran' h
              ∙ turns-empty users actions whole j todo ran'),
      p,
    )
