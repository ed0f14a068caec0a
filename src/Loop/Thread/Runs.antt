-- ===== src/Loop/Thread/Runs.antt =====
-- What a loop thread of bazelPro/src/lib/loopthread.cc does.
use ng.Base.{
  ℕ, zero, suc, ◌≡◌, ◌≢◌, refl, ap, List, [], ◌∷◌, ◌++◌, some, false, ==_refl, ==_false, ℤ, pos,
  negsuc, replicate,
}
use ng.Thread.{Made, create}
use ng.Thread.Shared.{Begun}
use ng.Thread.Shared.Places.{body}
use ng.Loop.{Process, update, is_zero, loop_init, get_loop, process_loop}
use ng.Loop.Thread.{LoopThread, loop_thread, loop_create, loop_on_init, run_begun}

nonzero : (rc : ℤ) → rc ≢ pos 0 → is_zero rc ≡ false
nonzero (pos n) h = ==_false n 0 (λ e. h (ap pos e))
nonzero (negsuc n) h = refl

-- The loop goes on over the zeroes and returns the first other result.
pub process_loop-first :
    (k : ℕ) (rc : ℤ) (rest : List ℤ)
    → rc ≢ pos 0
    → process_loop (replicate k (pos 0) ++ rc ∷ rest) ≡ some (rc, rest)
unfolding process_loop
process_loop-first zero rc rest h = rw (nonzero rc h) refl
process_loop-first (suc k) rc rest h = process_loop-first k rc rest h

abbrev pub new_thread : List ℕ → ℕ → ℕ → ℕ → Made → LoopThread
new_thread name init_cb arg prio made = (loop_create loop_thread name init_cb arg prio made).0

-- What the thread begins.
abbrev pub body_of : LoopThread → List Begun
body_of lt = body lt.thread.m_create_cb lt.thread.m_arg

-- A loop thread that is created and starts, for which `event_base_new` gives a base, stores this base where only it finds it, calls the callback
-- once, with its argument, when `get_loop()` already gives that base, and goes on until
-- `event_base_loop` first returns another number than 0; the loops of other threads and the signals are
-- left alone.
pub loop_thread-runs :
    (p : Process) (name : List ℕ) (init_cb arg prio : ℕ) (made : Made) (self other k : ℕ) (base : ℕ)
    (rc : ℤ) (rest : List ℤ)
    → made.attr_init ≡ 0
    → made.setstacksize ≡ 0
    → made.create_result ≡ 0
    → rc ≢ pos 0
    → other ≢ self
    → (p' : Process) × (lt : LoopThread) × (run_begun
          (body_of (new_thread name init_cb arg prio made))
          p
          (new_thread name init_cb arg prio made)
          self
          (some base)
          (replicate k (pos 0) ++ rc ∷ rest)
        ≡ some (p', lt))
      × (lt.base_loop ≡ some base)
      × (get_loop p' self ≡ some base)
      × (p'.inited
          ≡ p.inited ++ record { init_cb = init_cb; user_ctx = arg; seen = some base } ∷ [])
      × (get_loop p' other ≡ get_loop p other)
      × (p'.signals ≡ p.signals)
unfolding run_begun loop_create create loop_on_init loop_init get_loop
loop_thread-runs p name init_cb arg prio made self other k base rc rest a b c ne away =
    let first = process_loop-first k rc rest ne in
    (
      record p {
        g_loop = update p.g_loop self (some base);
        inited = p.inited ++ record { init_cb = init_cb; user_ctx = arg; seen = some base } ∷ [];
      },
      record (new_thread name init_cb arg prio made) { base_loop = some base },
      rw (a, b, ==_refl self, first) refl,
      refl,
      rw (==_refl self) refl,
      refl,
      rw (==_false other self away) refl,
      refl,
    )
