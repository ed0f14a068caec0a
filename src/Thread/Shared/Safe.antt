-- ===== src/Thread/Shared/Safe.antt =====
-- What holds in every order of the steps of two threads at one `UThread` of
-- bazelPro/src/lib/uthread.cc.
use ng.Base.{
  length, take, replicate, Bool-cases, inr, ℕ, ◌≡◌, refl, ◌⊎◌, inl, arith, List, [], ◌∷◌, ◌++◌,
  Option, none, some, true, false, if◌then◌else◌, sym, ap, ◌∙◌, subst,
}
use ng.Format.Arg.{codes}
use ng.Dump.{c_string}
use ng.Thread.Name.{IsText, get_name-create}
use ng.Thread.{t_name_len, create, Made, uthread_start_fun, uthread, exit, join}
use ng.Thread.Shared.{
  Place, at_set_name, at_self_name, at_self_flag, at_running, at_choice, in_call, in_init, in_run,
  in_exit, over, get_self_name_async_signal_safe, Begun, called, on_init, on_exit, Shared,
  begin_body, advance, cancels, Step, advances, stores, exits, ends, joins, Reach, here, next,
  prepared, spawned,
}
use ng.Thread.Shared.Places.{
  body, BegunAt, is_flagged, copied, IsSafe, begun-over, begun-cancelled, begun-ends, self-over,
  self-late, exit-keeps, if-false,
}

module _ (before name : List ℕ) (cb : Option ℕ) (arg real : ℕ) where
  -- A step within the user's code.
  moved-IsSafe :
      (s : Shared) (p q : Place) (begun : List Begun)
      → s.place ≡ p
      → is_flagged p ≡ true
      → is_flagged q ≡ true
      → BegunAt cb arg s.cancelled q begun
      → IsSafe before name cb arg real s
      → IsSafe before name cb arg real (record s { place = q; begun = begun })
  moved-IsSafe s p q begun e from to b v = record {
    same_real = v.same_real;
    name_kept = v.name_kept;
    cb_kept = v.cb_kept;
    arg_kept = v.arg_kept;
    id_own = v.id_own;
    named_own = v.named_own;
    self_at =
        self-late before name q s.self_flag s.self_name to
          (self-over before name s.place s.self_flag s.self_name v.self_at);
    begun_at = b;
    not_early = λ h. absurd (cc);
    still_running = λ x y. v.still_running x (ap is_flagged e ∙ from);
    cancelled_by_exit = v.cancelled_by_exit;
  }

  begin_body-IsSafe :
      (c : Option ℕ) (s : Shared)
      → s.object.m_create_cb ≡ c
      → s.place ≡ at_choice
      → IsSafe before name cb arg real s
      → IsSafe before name cb arg real (begin_body c s)
  unfolding begin_body
  begin_body-IsSafe (some f) s e p v =
      let nothing : s.begun ≡ [] = subst (λ p. BegunAt cb arg s.cancelled p s.begun) p v.begun_at in
      let whole : s.begun ++ called f s.object.m_arg ∷ [] ≡ body cb arg =
        ap (λ b. b ++ called f s.object.m_arg ∷ []) nothing
        ∙ ap (λ a. called f a ∷ []) v.arg_kept
        ∙ ap (λ c. body c arg) (sym e ∙ v.cb_kept) in
      moved-IsSafe s at_choice in_call (s.begun ++ called f s.object.m_arg ∷ []) p refl refl whole v
  begin_body-IsSafe none s e p v =
      let nothing : s.begun ≡ [] = subst (λ p. BegunAt cb arg s.cancelled p s.begun) p v.begun_at in
      moved-IsSafe s at_choice in_init (s.begun ++ on_init ∷ []) p refl refl
        (sym v.cb_kept ∙ e, ap (λ b. b ++ on_init ∷ []) nothing) v

  advance-IsSafe :
      (p : Place) (s : Shared)
      → s.place ≡ p
      → IsSafe before name cb arg real s
      → IsSafe before name cb arg real (advance p s)
  unfolding advance
  advance-IsSafe at_set_name s e v = ground arith
  advance-IsSafe at_self_name s e v = ground arith
  advance-IsSafe at_self_flag s e v = ground arith
  advance-IsSafe at_running s e v = ground arith
  advance-IsSafe at_choice s e v = begin_body-IsSafe s.object.m_create_cb s refl e v
  advance-IsSafe in_call s e v =
      let b = subst (λ p. BegunAt cb arg s.cancelled p s.begun) e v.begun_at in
      moved-IsSafe s in_call over s.begun e refl refl (begun-over cb arg s.cancelled s.begun b) v
  advance-IsSafe in_init s e v = ground arith
  advance-IsSafe in_run s e v =
      let b = subst (λ p. BegunAt cb arg s.cancelled p s.begun) e v.begun_at in
      moved-IsSafe s in_run in_exit (s.begun ++ on_exit ∷ []) e refl refl
        (ap (λ l. l ++ on_exit ∷ []) b.1 ∙ ap (λ c. body c arg) (sym b.0)) v
  advance-IsSafe in_exit s e v =
      let b = subst (λ p. BegunAt cb arg s.cancelled p s.begun) e v.begun_at in
      moved-IsSafe s in_exit over s.begun e refl refl (begun-over cb arg s.cancelled s.begun b) v
  advance-IsSafe over s e v = v

  exit-IsSafe :
      (s : Shared) (self : ℕ)
      → IsSafe before name cb arg real s
      → IsSafe before name cb arg real (record s {
        object = (exit s.object self).0;
        exited = true;
        cancelled = if cancels (exit s.object self).1 then true else s.cancelled;
      })
  exit-IsSafe s self v =
      let (a, b, c, d, f) = exit-keeps s.object self in
      let more = if cancels (exit s.object self).1 then true else s.cancelled in
      record {
        same_real = v.same_real;
        name_kept = a ∙ v.name_kept;
        cb_kept = b ∙ v.cb_kept;
        arg_kept = c ∙ v.arg_kept;
        id_own = subst (λ i. (i ≡ 0) ⊎ (i ≡ real)) (sym d) v.id_own;
        named_own = v.named_own;
        self_at = v.self_at;
        begun_at =
            begun-cancelled cb arg s.cancelled more s.place s.begun v.begun_at
              (if-false (cancels (exit s.object self).1) s.cancelled);
        not_early = λ h. f (v.not_early h);
        still_running = λ h. absurd (cc);
        cancelled_by_exit = λ h. absurd (cc);
      }

  step-IsSafe :
      {s t : Shared}
      → Step s t
      → IsSafe before name cb arg real s
      → IsSafe before name cb arg real t
  unfolding join
  step-IsSafe (advances s) v = advance-IsSafe s.place s refl v
  step-IsSafe (stores s) v = ground arith
  step-IsSafe (exits s self ne) v = exit-IsSafe s self v
  step-IsSafe (ends s c) v = record {
    same_real = v.same_real;
    name_kept = v.name_kept;
    cb_kept = v.cb_kept;
    arg_kept = v.arg_kept;
    id_own = v.id_own;
    named_own = v.named_own;
    self_at = self-over before name s.place s.self_flag s.self_name v.self_at;
    begun_at =
        subst (λ d. BegunAt cb arg d over s.begun) (sym c)
          (begun-ends cb arg s.cancelled s.place s.begun v.begun_at);
    not_early = λ h. absurd (cc);
    still_running = λ x y. absurd (cc (v.cancelled_by_exit x));
    cancelled_by_exit = v.cancelled_by_exit;
  }
  step-IsSafe (joins s self ne done) v = ground arith

  Reach-IsSafe :
      {s t : Shared}
      → IsSafe before name cb arg real s
      → Reach s t
      → IsSafe before name cb arg real t
  Reach-IsSafe v here = v
  Reach-IsSafe v (next r st) = step-IsSafe st (Reach-IsSafe v r)

-- The name that the thread copies.
copied-shown :
    (name : List ℕ) (cb : Option ℕ) (arg : ℕ) (self_name : List ℕ)
    → IsText name
    → length self_name ≡ t_name_len
    → c_string (copied self_name (prepared uthread name cb arg).m_thread_name) ≡ take 15 name
unfolding create uthread_start_fun prepared uthread
copied-shown name cb arg self_name h k =
    let made : Made = record { attr_init = 0; setstacksize = 0; create_result = 0; id = 1 } in
    (get_name-create uthread name cb arg made self_name (replicate 15 0) 0 refl refl refl k refl
      h).0

told_name :
    (before name : List ℕ) (s : Shared)
    → (s.self_flag ≡ false) ⊎ (s.self_name ≡ copied before name)
    → (get_self_name_async_signal_safe s ≡ codes "main")
      ⊎ (get_self_name_async_signal_safe s ≡ c_string (copied before name))
unfolding get_self_name_async_signal_safe
told_name before name s (inl e) = inl (rw e refl)
told_name before name s (inr e) = elim (Bool-cases s.self_flag) [
  | inl f ↦ inr (rw f (ap c_string e))
  | inr f ↦ inl (rw f refl)
]

-- In whatever order the steps of the new thread, the store of its id and any calls of `exit` and `join`
-- from other threads come after `pthread_create` started it, the object keeps the name, the callback and the
-- argument of `create`; its id is 0 or that of the thread, as is the id that the thread gives to
-- `pthread_setname_np`; the thread begins only the callback with its argument, or `onInit`, `run` and
-- `onExit` in this order, and all of that unless it is cancelled, which only `exit` does; the flag is
-- false before the thread sets it, and stays true after that, also when the thread has ended, until
-- `exit` is called; and a signal handler in the thread is told "main" or the first 15 characters of the
-- name, never a part of them. The name has no null byte, and the array of the thread has 16 bytes.
pub created-IsSafe :
    (name : List ℕ) (cb : Option ℕ) (arg real : ℕ) (self_name : List ℕ) (s : Shared)
    → IsText name
    → length self_name ≡ t_name_len
    → Reach (spawned uthread name cb arg real self_name) s
    → IsSafe self_name (prepared uthread name cb arg).m_thread_name cb arg real s
      × ((get_self_name_async_signal_safe s ≡ codes "main")
          ⊎ (get_self_name_async_signal_safe s ≡ take 15 name))
unfolding spawned prepared uthread
created-IsSafe name cb arg real self_name s text whole r =
    let own = (prepared uthread name cb arg).m_thread_name in
    let start : IsSafe self_name own cb arg real (spawned uthread name cb arg real self_name) =
      record {
        same_real = refl;
        name_kept = refl;
        cb_kept = refl;
        arg_kept = refl;
        id_own = inl refl;
        named_own = tt;
        self_at = (refl, refl);
        begun_at = refl;
        not_early = λ h. refl;
        still_running = λ x. λ h. absurd (cc);
        cancelled_by_exit = λ h. refl;
      } in
    let safe = Reach-IsSafe self_name own cb arg real start r in
    (
      safe,
      subst
          (λ t.
            (get_self_name_async_signal_safe s ≡ codes "main")
            ⊎ (get_self_name_async_signal_safe s ≡ t))
          (copied-shown name cb arg self_name text whole)
          (told_name self_name own s
            (self-over self_name own s.place s.self_flag s.self_name safe.self_at)),
    )
