-- ===== src/Loop/Thread.antt =====
-- `loopThread` of bazelPro/src/lib/loopthread.cc: a `UThread` whose virtual functions run a loop.
pub mod Runs
use ng.Base.{ℕ, List, [], ◌∷◌, ◌++◌, Option, none, some, ◌>>=◌, ℤ}
use ng.Thread.{UThread, uthread, Made, create}
use ng.Thread.Shared.{Begun, called, on_init, ran, on_exit}
use ng.Loop.{Process, InitCall, loop_init, get_loop, process_loop}

pub record LoopThread : Type 0 where
  pub thread : UThread
  pub base_loop : Option ℕ
  pub init_cb : Option ℕ
  pub user_ctx : ℕ
  pub base_max_prio : ℕ

unfoldable pub loop_thread : LoopThread
loop_thread = record {
  thread = uthread;
  base_loop = none;
  init_cb = none;
  user_ctx = 0;
  base_max_prio = 1;
}

unfoldable pub loop_create : LoopThread → List ℕ → ℕ → ℕ → ℕ → Made → LoopThread × ℕ
loop_create lt thread_name init_cb arg max_prio made =
    let (thread, result) = create (lt.thread) thread_name none 0 made in
    (
      record {
        thread = thread;
        base_loop = lt.base_loop;
        init_cb = some init_cb;
        user_ctx = arg;
        base_max_prio = max_prio;
      },
      result,
    )

-- `onInit` in the thread `self`; `none` is the call of a callback that was never set.
pub loop_on_init : Process → LoopThread → ℕ → Option ℕ → Option (Process × LoopThread)
loop_on_init p lt self made = do
  let (p, base_loop) = loop_init p self made (lt.base_max_prio)
  init_cb ← lt.init_cb
  some (
    record p {
      inited =
          p.inited
          ++ record { init_cb = init_cb; user_ctx = lt.user_ctx; seen = get_loop p self } ∷ [];
    },
    record lt { base_loop = base_loop },
  )

-- What the new thread begins, one call after the other; `run` returns when its loop does, and `onExit`
-- prints. `none` is also a `run` without a base, which calls `event_base_loop` with NULL.
pub run_begun :
    List Begun → Process → LoopThread → ℕ → Option ℕ → List ℤ → Option (Process × LoopThread)
run_begun [] p lt self made results = some (p, lt)
run_begun (called cb arg ∷ more) p lt self made results = run_begun more p lt self made results
run_begun (on_init ∷ more) p lt self made results = do
  r ← loop_on_init p lt self made
  run_begun more r.0 r.1 self made results
run_begun (ran ∷ more) p lt self made results = do
  base ← lt.base_loop
  l ← process_loop results
  run_begun more p lt self made l.1
run_begun (on_exit ∷ more) p lt self made results = run_begun more p lt self made results
