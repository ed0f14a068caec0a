-- ===== src/Signal/Tests.antt =====
-- Concrete runs of bazelPro/src/lib/zsignal.cc.
use ng.Base.{
  ◌≢◌, ℤ, ◌↔◌, ◌⊎◌, ◌<◌, ℕ, ◌≡◌, refl, arith, [], ◌∷◌, ◌++◌, none, some, get_elem?, replicate, pos,
  negsuc, length-replicate, true, false, List, set, ◌+◌,
}
use ng.Signal.{
  Signals, User, no_user, user_callback, do_nothing, is_fatal, zsignal_init, zsignal_register,
  zsignal_raise, selfpipe_cb, nsig,
}
use ng.Signal.Laws.{IsTable, register-selfpipe_cb}
use ng.Signal.Bounds.{register_iff}
use mathlib.Core.List.{Perm}
use ng.Signal.{SignalEvent}
use ng.Signal.Pipe.Turns.{Turn, before, turned, take_turns, rounds, events}
use ng.Signal.Pipe.Handled.{turns-handled}
use ng.Signal.Pipe.{caught, polled, create_selfpipe}
use ng.Signal.Pipe.Delivered.{unmade, ready, delivered, written}
use ng.Signal.Fatal.{registers, resets, perform_all, init-fatal_free, replicate-entry}

abbrev empty : Signals
empty = record { users = replicate nsig no_user; actions = []; sent = [] }

empty-IsTable : IsTable empty
empty-IsTable = record {
  whole = length-replicate nsig no_user;
  fatal_free = λ i u f g. ap_cb i u g;
}
  where
    ap_cb : (i : ℕ) (u : User) → get_elem? (replicate nsig no_user) i ≡ some u → u.cb ≡ none
    ap_cb i u g = rw (replicate-entry nsig i no_user u g) refl

register-selfpipe_cb_example :
    (t : Signals) × (zsignal_register empty 0 5 (pos 10) (some (user_callback 1)) 7
      ≡ some (t, pos 10))
    × (selfpipe_cb t true 0 true (pos 10)
        ≡ some (record t {
          sent =
              t.sent
              ++ record {
                base = some 5;
                user_cb = user_callback 1;
                si_signo = pos 10;
                user_ctxt = 7;
              }
                ∷ [];
        }))
    × (selfpipe_cb t true 0 false (pos 10) ≡ some t)
    × (get_elem? t.users 12 ≡ get_elem? empty.users 12)
    × (zsignal_register t 0 6 (pos 10) (some do_nothing) 8 ≡ some (t, negsuc 0))
unfolding is_fatal
register-selfpipe_cb_example =
    register-selfpipe_cb empty 5 10 (user_callback 1) 7 no_user 12 (some do_nothing) 6 8
      empty-IsTable refl refl refl (omega arith)

init-fatal_free_example :
    (start : Signals) × (t : Signals) × (zsignal_init empty true (λ i. 0) 5 ≡ some (start, pos 0))
    × (perform_all start (registers 0 5 (pos 11) (some do_nothing) 0 ∷ resets 0 0 5 (pos 11) ∷ [])
        ≡ some t)
    × (selfpipe_cb t true 0 true (pos 11) ≡ some t)
    × (zsignal_raise t (pos 0) (pos 11) ≡ (t, negsuc 0))
unfolding is_fatal
init-fatal_free_example =
    init-fatal_free empty (λ i. 0) 5
      (registers 0 5 (pos 11) (some do_nothing) 0 ∷ resets 0 0 5 (pos 11) ∷ []) 11 (pos 0)
      ((11, refl, omega arith), ((11, refl, omega arith), tt)) refl (omega arith)

register_iff_example :
    ((r : Signals × ℤ) × (zsignal_register empty 0 5 (pos 65) (some do_nothing) 0 ≡ some r))
    ↔ ((is_fatal (pos 65) ≡ true) ⊎ ((◌≢◌ {A = ℕ} 0 0) ⊎ (65 < nsig)))
register_iff_example = register_iff empty 0 5 65 (some do_nothing) 0 empty-IsTable

abbrev one_user : List User
one_user =
    set (replicate 65 no_user) 10
      (record { evbase = some 5; cb = some (user_callback 1); ctxt = 7 })

-- A read that fails, and loops that run the second event before the first.
abbrev some_turns : List Turn
some_turns =
    before (caught (pos 10) true)
    ∷ before (caught (pos 10) true)
    ∷ before (polled true 0 true)
    ∷ before (polled false 0 true)
    ∷ before (polled true 0 true)
    ∷ turned 1
    ∷ before (caught (pos 12) false)
    ∷ before (caught (pos 10) true)
    ∷ []

turns-handled_example :
    (n m : ℕ) × (ran : List SignalEvent) × ((k j : ℕ)
      → take_turns
          (record { world = (create_selfpipe (unmade one_user [] []) true true).0; ran = [] })
          (some_turns ++ rounds (n + k) (m + j))
        ≡ some (record { world = ready one_user [] [] []; ran = ran }))
    × Perm ran ([] ++ delivered one_user (written (events some_turns)))
turns-handled_example = turns-handled one_user [] [] some_turns refl (
  omega arith,
  (omega arith, (refl, refl, (refl, refl, (refl, refl, (omega arith, (omega arith, tt)))))),
)
