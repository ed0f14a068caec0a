-- ===== src/Loop/Program.antt =====
-- The program of bazelPro/src/libmain/main.cc with the application of bazelPro/src/libtest/libtest.cc.
use ng.Base.{
  ℕ, ◌≡◌, ◌≢◌, refl, List, ◌∷◌, ◌++◌, Option, none, some, Bool, ==_refl, ℤ, pos, negsuc, replicate,
}
use ng.Signal.{Signals, zsignal_init}
use ng.Signal.Fatal.{init_any-IsTable}
use ng.Signal.Laws.{IsTable}
use ng.Thread.{Made}
use ng.Loop.{Process, Report, create_fail, report, update, loop_init, get_loop, loop_main}
use ng.Loop.Thread.Runs.{process_loop-first}
use ng.Loop.Trial.{app_init}

-- `main` gives its arguments to `loop_main` and returns its result.
pub main :
    Process → ℕ → Option ℕ → Bool → (ℕ → ℕ) → Made → Made → List ℤ → Option (Process × ℤ × Report)
main p self made pipe_made locks first second results =
    loop_main p self made pipe_made locks (λ p. some (p, (app_init first second).2)) results

-- Without a base the program ends at once with -1. With a base, whatever the calls of the initialisation of
-- the signals and the creations of both threads give, the program stores the base for its thread, and
-- has the table that the initialisation left; it runs until `event_base_loop` first returns another
-- number than 0, and returns that.
pub main-runs :
    (p : Process) (self base : ℕ) (pipe_made : Bool) (locks : ℕ → ℕ) (first second : Made) (k : ℕ)
    (rc : ℤ) (rest : List ℤ)
    → rc ≢ pos 0
    → (p' : Process) × (s : Signals × ℤ) × (main p self
          (some base)
          pipe_made
          locks
          first
          second
          (replicate k (pos 0) ++ rc ∷ rest)
        ≡ some (p', rc, report rc))
      × (zsignal_init p.signals pipe_made locks base ≡ some s)
      × (p'.signals ≡ s.0)
      × IsTable p'.signals
      × (get_loop p' self ≡ some base)
      × ((q : Process) × (main p self none pipe_made locks first second
              (replicate k (pos 0) ++ rc ∷ rest)
            ≡ some (q, negsuc 0, create_fail)))
unfolding main loop_main loop_init get_loop app_init
main-runs p self base pipe_made locks first second k rc rest ne =
    let (s, e, table) = init_any-IsTable p.signals pipe_made locks base in
    let looped = process_loop-first k rc rest ne in
    (
      record p { g_loop = update p.g_loop self (some base); signals = s.0 },
      s,
      rw (e, looped) refl,
      e,
      refl,
      table,
      rw (==_refl self) refl,
      (record p { g_loop = update p.g_loop self none }, refl),
    )
