-- ===== src/Signal/Laws.antt =====
-- What the table of bazelPro/src/lib/zsignal.cc promises to its users.
use ng.Base.{ℕ, zero, suc, ◌<◌, ◌≡◌, ◌≢◌, refl, ◌∙◌, arith, List, [], ◌∷◌, ◌++◌, Option, none, some}
use ng.Base.{
  true, false, leb, lt→ltb, set, get_elem?, length, length-set, get_elem?-set_self,
  get_elem?-set_ne, ℤ, pos, negsuc,
}
use ng.Signal.{
  Signals, User, Callback, SignalEvent, nonfatal_signal_handler, no_user, is_fatal, act, taken,
  zsignal_register, zsignal_deregister, zsignal_reset_default, selfpipe_cb, send_signal_event, nsig,
  log_error_and_call_system_default_handler,
}

-- The table has an entry for every signal number, and none for a fatal signal has a callback.
pub record IsTable (s : Signals) : Type 0 where
  pub whole : length s.users ≡ nsig
  pub fatal_free :
      (i : ℕ) (u : User) → is_fatal (pos i) ≡ true → get_elem? s.users i ≡ some u → u.cb ≡ none

-- The event that a signal leads to: the callback of its entry, in the loop of its entry.
abbrev pub event : User → Callback → ℤ → SignalEvent
event u cb signo = record { base = u.evbase; user_cb = cb; si_signo = signo; user_ctxt = u.ctxt }

register-free :
    (s : Signals) (loop i : ℕ) (cb : Option Callback) (ctxt : ℕ) (u : User)
    → is_fatal (pos i) ≡ false
    → get_elem? s.users i ≡ some u
    → u.cb ≡ none
    → i < length s.users
    → zsignal_register s 0 loop (pos i) cb ctxt
      ≡ some (
        act (nonfatal_signal_handler (pos i)) (record s {
          users = set s.users i (record { evbase = some loop; cb = cb; ctxt = ctxt });
        }),
        pos i,
      )
unfolding zsignal_register taken
register-free s loop i cb ctxt u f g n l = rw (f, g, n, lt→ltb _ _ l) refl

get_elem?-bound : (xs : List User) (i : ℕ) (u : User) → get_elem? xs i ≡ some u → i < length xs
get_elem?-bound [] i u h = absurd cc
get_elem?-bound (x ∷ xs) zero u h = omega arith
get_elem?-bound (x ∷ xs) (suc i) u h = omega (arith, get_elem?-bound xs i u h)

selfpipe_cb-event :
    (s : Signals) (i : ℕ) (u : User) (cb : Callback)
    → i < nsig
    → get_elem? s.users i ≡ some u
    → u.cb ≡ some cb
    → selfpipe_cb s true 0 true (pos i)
      ≡ some (record s { sent = s.sent ++ event u cb (pos i) ∷ [] })
unfolding selfpipe_cb send_signal_event
selfpipe_cb-event s i u cb l g e = let b : leb nsig i ≡ false = ground arith in rw (b, g, e) refl

selfpipe_cb-lost :
    (s : Signals) (i : ℕ) (u : User) (cb : Callback)
    → i < nsig
    → get_elem? s.users i ≡ some u
    → u.cb ≡ some cb
    → selfpipe_cb s true 0 false (pos i) ≡ some s
unfolding selfpipe_cb send_signal_event
selfpipe_cb-lost s i u cb l g e = let b : leb nsig i ≡ false = ground arith in rw (b, g, e) refl

-- In a well-formed table, registering a callback for a signal that is not fatal and has none
-- succeeds and returns the number. From then on the signal leads to exactly one event, the new callback with its context in
-- the loop of the caller, when the signal is read from the pipe in full and `evtimer_add` succeeds, and
-- when that fails, to none; the entry of every other signal is what it was; and a second
-- registration is refused and changes nothing. The locks succeed.
pub register-selfpipe_cb :
    (s : Signals) (loop i : ℕ) (cb : Callback) (ctxt : ℕ) (u : User) (j : ℕ)
    (other : Option Callback) (again other_ctxt : ℕ)
    → IsTable s
    → is_fatal (pos i) ≡ false
    → get_elem? s.users i ≡ some u
    → u.cb ≡ none
    → i ≢ j
    → (t : Signals) × (zsignal_register s 0 loop (pos i) (some cb) ctxt ≡ some (t, pos i))
      × (selfpipe_cb t true 0 true (pos i)
          ≡ some (record t {
            sent =
                t.sent
                ++ record { base = some loop; user_cb = cb; si_signo = pos i; user_ctxt = ctxt }
                  ∷ [];
          }))
      × (selfpipe_cb t true 0 false (pos i) ≡ some t)
      × (get_elem? t.users j ≡ get_elem? s.users j)
      × (zsignal_register t 0 again (pos i) other other_ctxt ≡ some (t, negsuc 0))
unfolding zsignal_register taken
register-selfpipe_cb s loop i cb ctxt u j other again other_ctxt v f g n ne =
    let l = get_elem?-bound s.users i u g in
    let new : User = record { evbase = some loop; cb = some cb; ctxt = ctxt } in
    let here : get_elem? (set s.users i new) i ≡ some new = get_elem?-set_self s.users i new l in
    let t = act (nonfatal_signal_handler (pos i)) (record s { users = set s.users i new }) in
    (
      t,
      register-free s loop i (some cb) ctxt u f g n l,
      selfpipe_cb-event t i new cb (omega (arith, v.whole)) here refl,
      selfpipe_cb-lost t i new cb (omega (arith, v.whole)) here refl,
      get_elem?-set_ne s.users i j new ne,
      rw (f, here) refl,
    )

-- Clearing an entry, of any signal in the table.
deregister-some :
    (s : Signals) (i : ℕ)
    → i < length s.users
    → zsignal_deregister s 0 (pos i) ≡ some (record s { users = set s.users i no_user }, pos 0)
unfolding zsignal_deregister
deregister-some s i l = rw (lt→ltb _ _ l) refl

-- Whatever callback a signal of a well-formed table that is not fatal has, after
-- `zsignal_reset_default` it leads to one event, the handler that logs the error and calls the default of the system, and the entry of
-- every other signal is what it was. The locks succeed.
pub reset_default-selfpipe_cb :
    (s : Signals) (loop i j : ℕ)
    → IsTable s
    → i < nsig
    → is_fatal (pos i) ≡ false
    → i ≢ j
    → (t : Signals) × (zsignal_reset_default s 0 0 loop (pos i) ≡ some (t, pos 0))
      × (selfpipe_cb t true 0 true (pos i)
          ≡ some (record t {
            sent =
                t.sent
                ++ record {
                  base = some loop;
                  user_cb = log_error_and_call_system_default_handler;
                  si_signo = pos i;
                  user_ctxt = 0;
                }
                  ∷ [];
          }))
      × (get_elem? t.users j ≡ get_elem? s.users j)
unfolding zsignal_reset_default
reset_default-selfpipe_cb s loop i j v l f ne =
    let l' : i < length s.users = omega (arith, v.whole) in
    let cleared : Signals = record s { users = set s.users i no_user } in
    let l'' : i < length cleared.users = omega (arith, length-set s.users i no_user) in
    let new : User = record {
      evbase = some loop;
      cb = some log_error_and_call_system_default_handler;
      ctxt = 0;
    } in
    let t = act (nonfatal_signal_handler (pos i)) (record s { users = set cleared.users i new }) in
    (
      t,
      rw
          (
            deregister-some s i l',
            register-free cleared loop i (some log_error_and_call_system_default_handler) 0 no_user
                f (get_elem?-set_self s.users i no_user l') refl l'',
          )
          refl,
      selfpipe_cb-event t i new log_error_and_call_system_default_handler l
          (get_elem?-set_self cleared.users i new l'') refl,
      get_elem?-set_ne cleared.users i j new ne ∙ get_elem?-set_ne s.users i j no_user ne,
    )
