-- ===== src/Signal/Fatal.antt =====
-- No callback for a fatal signal ever enters the table of bazelPro/src/lib/zsignal.cc.
use ng.Base.{
  ℕ, zero, suc, ◌<◌, ◌≡◌, refl, sym, ap, ◌∙◌, subst, arith, List, [], ◌∷◌, Option, none, some,
  ◌>>=◌,
}
use ng.Base.{
  Bool, true, false, ◌==◌, ==_iff, leb, lt→ltb, set, get_elem?, replicate, length-replicate, length,
  length-set, All, get_elem?-set_ne, get_elem?-some, ℤ, pos, negsuc, Option-cases, Bool-cases, inl,
  inr,
}
use ng.Signal.{
  Signals, User, Callback, nonfatal_signal_handler, fatal_signal_handler, no_user, zsignal_raise,
  is_fatal, act, taken, zsignal_register, zsignal_deregister, zsignal_reset_default, zsignal_init,
  register_all, install_all_fatal_signal_handlers, defaults, fatal_signals, selfpipe_cb,
  send_signal_event, nsig, log_error_and_call_system_default_handler,
}
use ng.Signal.Laws.{IsTable}

-- A call of one of the functions that change the table.
pub data Request : Type 0 where
  registers : ℕ → ℕ → ℤ → Option Callback → ℕ → Request
  deregisters : ℕ → ℤ → Request
  resets : ℕ → ℕ → ℕ → ℤ → Request

abbrev pub signal_of : Request → ℤ
signal_of (registers lock loop signo cb ctxt) = signo
signal_of (deregisters lock signo) = signo
signal_of (resets lock again loop signo) = signo

pub perform : Signals → Request → Option (Signals × ℤ)
perform s (registers lock loop signo cb ctxt) = zsignal_register s lock loop signo cb ctxt
perform s (deregisters lock signo) = zsignal_deregister s lock signo
perform s (resets lock again loop signo) = zsignal_reset_default s lock again loop signo

pub perform_all : Signals → List Request → Option Signals
perform_all s [] = some s
perform_all s (r ∷ rs) = perform s r >>= λ t. perform_all (t.0) rs

-- A number that the table has an entry for.
abbrev pub InTable : ℤ → Type 0
InTable signo = (i : ℕ) × (signo ≡ pos i) × (i < nsig)

-- The call returns, and the table is still one.
abbrev Keeps : Option (Signals × ℤ) → Type 0
Keeps r = (t : Signals × ℤ) × (r ≡ some t) × IsTable t.0

set-entry : (xs : List User) (i : ℕ) (u w : User) → get_elem? (set xs i u) i ≡ some w → w ≡ u
set-entry [] i u w h = absurd cc
set-entry (x ∷ xs) zero u w h = cc
set-entry (x ∷ xs) (suc i) u w h = set-entry xs i u w h

pub replicate-entry : (n i : ℕ) (u w : User) → get_elem? (replicate n u) i ≡ some w → w ≡ u
replicate-entry zero i u w h = absurd cc
replicate-entry (suc n) zero u w h = cc
replicate-entry (suc n) (suc i) u w h = replicate-entry n i u w h

set-IsTable :
    (s : Signals) (i : ℕ) (u : User)
    → IsTable s
    → (is_fatal (pos i) ≡ true → u.cb ≡ none)
    → IsTable (record s { users = set s.users i u })
set-IsTable s i u v free = record {
  whole = length-set s.users i u ∙ v.whole;
  fatal_free = λ j w f g. elim (Bool-cases (i == j)) [
    | inl e ↦
        let same : j ≡ i = sym ((==_iff i j).0 e) in
        ap (λ x. x.cb)
          (set-entry s.users i u w (subst (λ k. get_elem? (set s.users i u) k ≡ some w) same g))
        ∙ free (subst (λ k. is_fatal (pos k) ≡ true) same f)
    | inr e ↦ v.fatal_free j w f (sym (get_elem?-set_ne s.users i j u (ground arith)) ∙ g)
  ];
}

pub register-Keeps :
    (s : Signals) (lock loop i : ℕ) (cb : Option Callback) (ctxt : ℕ)
    → IsTable s
    → i < nsig
    → Keeps (zsignal_register s lock loop (pos i) cb ctxt)
unfolding zsignal_register taken
register-Keeps s lock loop i cb ctxt v l = elim (Bool-cases (is_fatal (pos i))) [
  | inl f ↦ ((s, negsuc 0), rw f refl, v)
  | inr f ↦ elim (Bool-cases (lock == 0)) [
    | inr k ↦ ((s, negsuc 0), rw (f, k) refl, v)
    | inl k ↦
        let l' : i < length s.users = omega (arith, v.whole) in
        let (u, g) = get_elem?-some s.users i l' in
        elim (Option-cases u.cb) [
          | inr (old, e) ↦ ((s, negsuc 0), rw (f, k, g, e) refl, v)
          | inl e ↦
              let new : User = record { evbase = some loop; cb = cb; ctxt = ctxt } in
              let kept = set-IsTable s i new v (λ t. absurd cc) in
              (
                (
                  act (nonfatal_signal_handler (pos i)) (record s { users = set s.users i new }),
                  pos i,
                ),
                rw (f, k, g, e, lt→ltb _ _ l') refl,
                record { whole = kept.whole; fatal_free = kept.fatal_free },
              )
        ]
  ]
]

deregister-Keeps :
    (s : Signals) (lock i : ℕ) → IsTable s → i < nsig → Keeps (zsignal_deregister s lock (pos i))
unfolding zsignal_deregister
deregister-Keeps s lock i v l = elim (Bool-cases (lock == 0)) [
  | inr k ↦ ((s, negsuc 0), rw k refl, v)
  | inl k ↦
      let l' : i < length s.users = omega (arith, v.whole) in
      (
        (record s { users = set s.users i no_user }, pos 0),
        rw (k, lt→ltb _ _ l') refl,
        set-IsTable s i no_user v (λ t. refl),
      )
]

perform-Keeps :
    (s : Signals) (r : Request) → IsTable s → InTable (signal_of r) → Keeps (perform s r)
unfolding perform zsignal_reset_default
perform-Keeps s (registers lock loop signo cb ctxt) v (i, e, l) =
    rw e (register-Keeps s lock loop i cb ctxt v l)
perform-Keeps s (deregisters lock signo) v (i, e, l) = rw e (deregister-Keeps s lock i v l)
perform-Keeps s (resets lock again loop signo) v (i, e, l) =
    let (t, e1, v1) = deregister-Keeps s lock i v l in
    let (t', e2, v2) =
      register-Keeps t.0 again loop i (some log_error_and_call_system_default_handler) 0 v1 l in
    ((t'.0, pos 0), rw (e, e1, e2) refl, v2)

register_all-Keeps :
    (locks : ℕ → ℕ) (loop : ℕ) (ds : List (ℕ × Callback)) (s : Signals)
    → IsTable s
    → All (λ d. d.0 < nsig) ds
    → (t : Signals) × (register_all locks loop ds s ≡ some t) × IsTable t
unfolding register_all
register_all-Keeps locks loop [] s v h = (s, refl, v)
register_all-Keeps locks loop (d ∷ ds) s v h =
    let (r, e, v') = register-Keeps s (locks d.0) loop d.0 (some d.1) 0 v h.0 in
    let (t, e', v'') = register_all-Keeps locks loop ds r.0 v' h.1 in (t, rw e e', v'')

perform_all-Keeps :
    (rs : List Request) (s : Signals)
    → IsTable s
    → All (λ r. InTable (signal_of r)) rs
    → (t : Signals) × (perform_all s rs ≡ some t) × IsTable t
unfolding perform_all
perform_all-Keeps [] s v h = (s, refl, v)
perform_all-Keeps (r ∷ rs) s v h =
    let (r', e, v') = perform-Keeps s r v h.0 in
    let (t, e', v'') = perform_all-Keeps rs r'.0 v' h.1 in (t, rw e e', v'')

install-users :
    (fs : List ℕ) (s : Signals) → (install_all_fatal_signal_handlers fs s).users ≡ s.users
unfolding install_all_fatal_signal_handlers
install-users [] s = refl
install-users (f ∷ fs) s = install-users fs (act (fatal_signal_handler (pos f)) s)

users-IsTable : (s t : Signals) → t.users ≡ s.users → IsTable s → IsTable t
users-IsTable s t e v = record {
  whole = ap length e ∙ v.whole;
  fatal_free = λ i u f g. v.fatal_free i u f (ap (λ us. get_elem? us i) (sym e) ∙ g);
}

cleared-IsTable : (s : Signals) → IsTable (record s { users = replicate nsig no_user })
cleared-IsTable s = record {
  whole = length-replicate nsig no_user;
  fatal_free = λ i u f g. ap (λ x. x.cb) (replicate-entry nsig i no_user u g);
}

init-IsTable :
    (s : Signals) (locks : ℕ → ℕ) (loop : ℕ)
    → (t : Signals) × (zsignal_init s true locks loop ≡ some (t, pos 0)) × IsTable t
unfolding zsignal_init
init-IsTable s locks loop =
    let empty : Signals = record s { users = replicate nsig no_user } in
    let ready = install_all_fatal_signal_handlers fatal_signals empty in
    let (t, e, v) =
      register_all-Keeps locks loop defaults ready
        (users-IsTable empty ready (install-users fatal_signals empty) (cleared-IsTable s))
        (omega arith) in
    (t, rw e refl, v)

-- The initialisation returns whether the pipe is made or not.
pub init_any-IsTable :
    (s : Signals) (pipe_made : Bool) (locks : ℕ → ℕ) (loop : ℕ)
    → (r : Signals × ℤ) × (zsignal_init s pipe_made locks loop ≡ some r) × IsTable r.0
unfolding zsignal_init
init_any-IsTable s true locks loop = let (t, e, v) = init-IsTable s locks loop in ((t, pos 0), e, v)
init_any-IsTable s false locks loop =
    ((record s { users = replicate nsig no_user }, negsuc 0), refl, cleared-IsTable s)

-- After an initialisation with a working pipe and any calls with numbers that the table has,
-- all of them return, whichever of their locks fail; and then a fatal signal on the self-pipe leads
-- to no event, and neither does a user's attempt to raise it.
pub init-fatal_free :
    (s : Signals) (locks : ℕ → ℕ) (loop : ℕ) (rs : List Request) (f : ℕ) (result : ℤ)
    → All (λ r. InTable (signal_of r)) rs
    → is_fatal (pos f) ≡ true
    → f < nsig
    → (start : Signals) × (t : Signals) × (zsignal_init s true locks loop ≡ some (start, pos 0))
      × (perform_all start rs ≡ some t)
      × (selfpipe_cb t true 0 true (pos f) ≡ some t)
      × (zsignal_raise t result (pos f) ≡ (t, negsuc 0))
unfolding selfpipe_cb send_signal_event zsignal_raise
init-fatal_free s locks loop rs f result h fatal l =
    let (start, e, v) = init-IsTable s locks loop in
    let (t, e', v') = perform_all-Keeps rs start v h in
    let (u, g) = get_elem?-some t.users f (omega (arith, v'.whole)) in
    let b : leb nsig f ≡ false = ground arith in
    (start, t, e, e', rw (b, g, v'.fatal_free f u fatal g) refl, rw fatal refl)
