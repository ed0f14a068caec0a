-- ===== src/Loop/Tests.antt =====
-- Concrete runs of bazelPro/src/lib/loop.cc, loopthread.cc and bazelPro/src/libtest/libtest.cc.
use ng.Base.{
  ◌≡◌, ◌≢◌, refl, arith, [], ◌∷◌, ◌++◌, none, some, true, false, ℤ, pos, negsuc, replicate,
}
use ng.Format.Arg.{codes}
use ng.Signal.{Signals, zsignal_init}
use ng.Signal.Laws.{IsTable}
use ng.Thread.{Made}
use ng.Loop.{Process, report, create_fail, get_loop}
use ng.Loop.Thread.{LoopThread, run_begun}
use ng.Loop.Thread.Runs.{new_thread, body_of, loop_thread-runs}
use ng.Loop.Trial.{ended, watched, thread_init_cb}
use ng.Loop.Program.{main, main-runs}

abbrev made : Made
made = record { attr_init = 0; setstacksize = 0; create_result = 0; id = 77 }

abbrev process : Process
process = record {
  g_loop = λ self. none;
  signals = record { users = []; actions = []; sent = [] };
  inited = [];
}

one_not_zero : ◌≢◌ {A = ℤ} (pos 1) (pos 0)
one_not_zero h = cc

loop_thread-runs_example :
    (p' : Process) × (lt : LoopThread) × (run_begun
        (body_of (new_thread (codes "loop_me") 2 3 4 made))
        process
        (new_thread (codes "loop_me") 2 3 4 made)
        77
        (some 9)
        (replicate 5 (pos 0) ++ pos 1 ∷ [])
      ≡ some (p', lt))
    × (lt.base_loop ≡ some 9)
    × (get_loop p' 77 ≡ some 9)
    × (p'.inited ≡ process.inited ++ record { init_cb = 2; user_ctx = 3; seen = some 9 } ∷ [])
    × (get_loop p' 1 ≡ get_loop process 1)
    × (p'.signals ≡ process.signals)
loop_thread-runs_example =
    loop_thread-runs process (codes "loop_me") 2 3 4 made 77 1 5 9 (pos 1) [] refl refl refl
      one_not_zero (omega arith)

-- The pipe of the signals is not made.
main-runs_example :
    (p' : Process) × (s : Signals × ℤ) × (main process 1
        (some 9)
        false
        (λ i. 0)
        made
        made
        (replicate 3 (pos 0) ++ pos 1 ∷ [])
      ≡ some (p', pos 1, report (pos 1)))
    × (zsignal_init process.signals false (λ i. 0) 9 ≡ some s)
    × (p'.signals ≡ s.0)
    × IsTable p'.signals
    × (get_loop p' 1 ≡ some 9)
    × ((q : Process) × (main process 1 none false
            (λ i. 0)
            made
            made
            (replicate 3 (pos 0) ++ pos 1 ∷ [])
          ≡ some (q, negsuc 0, create_fail)))
main-runs_example = main-runs process 1 9 false (λ i. 0) made made 3 (pos 1) [] one_not_zero

-- A regular file stands in the way, and a fifo is replaced.
init_run :
    thread_init_cb (record { lstat = some 0x81A4; mkfifo = true; opened = some 5 }) (some 9)
    ≡ ended (codes "lstat")
unfolding thread_init_cb
init_run = refl

fifo_run :
    thread_init_cb (record { lstat = some 0x11A4; mkfifo = true; opened = some 5 }) (some 9)
    ≡ watched 5 (some 9)
unfolding thread_init_cb
fifo_run = refl
