-- ===== src/Loop.antt =====
-- The event loops of bazelPro/src/lib/loop.cc and loopthread.cc. What libevent returns is given to the
-- operations: a new base or none, and the results of the calls of `event_base_loop` in their order.
pub mod Thread
pub mod Trial
pub mod Program
mod Tests
use ng.Base.{
  ℕ, ◌+◌, List, [], ◌∷◌, ◌++◌, Option, none, some, Bool, true, false, not, ◌||◌, ◌==◌, ◌>>=◌,
  if◌then◌else◌, ℤ, pos, negsuc,
}
use ng.Signal.{Signals, zsignal_init}

-- A call of the callback of a loop thread, with what `get_loop()` gives in it.
pub record InitCall : Type 0 where
  pub init_cb : ℕ
  pub user_ctx : ℕ
  pub seen : Option ℕ

-- `g_loop` is a variable of each thread, here under the number of the thread.
pub record Process : Type 0 where
  pub g_loop : ℕ → Option ℕ
  pub signals : Signals
  pub inited : List InitCall

abbrev pub update : (ℕ → Option ℕ) → ℕ → Option ℕ → ℕ → Option ℕ
update f k v j = if j == k then v else f j

-- `made` is the result of `event_base_new`. The priority is not used.
pub loop_init : Process → ℕ → Option ℕ → ℕ → Process × Option ℕ
loop_init p self made max_prio = (record p { g_loop = update (p.g_loop) self made }, made)

pub get_loop : Process → ℕ → Option ℕ
get_loop p self = p.g_loop self

abbrev pub is_zero : ℤ → Bool
is_zero (pos n) = n == 0
is_zero (negsuc n) = false

-- The result, and the results that are left; `none` while all are 0, when the loop goes on.
pub process_loop : List ℤ → Option (ℤ × List ℤ)
process_loop [] = none
process_loop (rc ∷ rcs) = let rest = process_loop rcs in if is_zero rc then rest else some (rc, rcs)

-- What is printed at the end.
pub data Report : Type 0 where
  create_fail : Report
  init_fail : ℤ → Report
  loop_exit : ℤ → Report
  loop_fail : ℤ → Report

abbrev pub report : ℤ → Report
report rc =
    if is_zero rc || (elim rc [ pos n ↦ n == 1 | negsuc n ↦ false ])
    then loop_exit rc
    else loop_fail rc

-- `app_init` is the function of the application; the result of `zsignal_init` is not looked at.
pub loop_main :
    Process
    → ℕ
    → Option ℕ
    → Bool
    → (ℕ → ℕ)
    → (Process → Option (Process × ℤ))
    → List ℤ
    → Option (Process × ℤ × Report)
loop_main p self made pipe_made locks app_init results =
    let (p, base_loop) = loop_init p self made 4 in
    elim base_loop [
      | none ↦ some (p, negsuc 0, create_fail)
      | some base ↦ do
        s ← zsignal_init (p.signals) pipe_made locks base
        app ← app_init (record p { signals = s.0 })
        if not (is_zero (app.1))
            then some (app.0, app.1, init_fail (app.1))
            else (do r ← process_loop results; some (app.0, r.0, report (r.0)))
    ]
