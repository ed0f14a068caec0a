-- ===== src/Signal/Bounds.antt =====
-- For which signal numbers `zsignal_register` of bazelPro/src/lib/zsignal.cc stays in its table.
use ng.Base.{
  ℕ, ◌≤◌, ◌<◌, ◌≡◌, ◌≢◌, arith, Option, some, none, true, ◌==◌, ==_false, ltb, ltb→lt,
  get_elem?-none, ℤ, pos, negsuc, Bool-cases, inl, inr, ◌⊎◌, ◌↔◌, refl,
}
use ng.Signal.{Signals, Callback, is_fatal, zsignal_register, nsig}
use ng.Signal.Laws.{IsTable}
use ng.Signal.Fatal.{register-Keeps}

module _ (s : Signals) (lock loop i : ℕ) (cb : Option Callback) (ctxt : ℕ) (v : IsTable s) where
  stays :
      (is_fatal (pos i) ≡ true) ⊎ ((lock ≢ 0) ⊎ (i < nsig))
      → (r : Signals × ℤ) × (zsignal_register s lock loop (pos i) cb ctxt ≡ some r)
  unfolding zsignal_register
  stays (inl f) = ((s, negsuc 0), rw f refl)
  stays (inr (inr l)) = let (t, e, _) = register-Keeps s lock loop i cb ctxt v l in (t, e)
  stays (inr (inl k)) = elim (Bool-cases (is_fatal (pos i))) [
    | inl f ↦ ((s, negsuc 0), rw f refl)
    | inr f ↦ ((s, negsuc 0), rw (f, ==_false lock 0 k) refl)
  ]

  -- On a well-formed table a registration by a number that is not negative returns exactly when the
  -- number is that of a fatal signal, the lock fails, or the table has an entry for it. Otherwise it
  -- uses an entry outside the table.
  pub register_iff :
      ((r : Signals × ℤ) × (zsignal_register s lock loop (pos i) cb ctxt ≡ some r))
      ↔ ((is_fatal (pos i) ≡ true) ⊎ ((lock ≢ 0) ⊎ (i < nsig)))
  unfolding zsignal_register
  register_iff = (only, stays)
    where
      only :
          (r : Signals × ℤ) × (zsignal_register s lock loop (pos i) cb ctxt ≡ some r)
          → (is_fatal (pos i) ≡ true) ⊎ ((lock ≢ 0) ⊎ (i < nsig))
      only (r, e) = elim (Bool-cases (is_fatal (pos i))) [
        | inl f ↦ inl f
        | inr f ↦ elim (Bool-cases (lock == 0)) [
          | inr k ↦ inr (inl (ground arith))
          | inl k ↦ elim (Bool-cases (ltb i nsig)) [
            | inl l ↦ inr (inr (ltb→lt i nsig l))
            | inr l ↦
                let beyond : nsig ≤ i = ground arith in
                let n = get_elem?-none s.users i (omega (arith, v.whole)) in
                let fails : zsignal_register s lock loop (pos i) cb ctxt ≡ none =
                  rw (f, k, n) refl in
                absurd cc
          ]
        ]
      ]
