-- ===== src/Edge.antt =====
-- `test_edge` of bazelPro/src/tmp/tmp.cc, with its static variables as a record. A sample is the
-- clock in milliseconds at the call, a `uint64_t`, and the level that the caller passes.
mod Laws
mod Tests
use ng.Base.{
  ℕ, zero, ◌+◌, ◌-◌, ◌%◌, ◌^◌, List, [], ◌∷◌, Bool, true, false, not, ◌&&◌, ltb, ◌==◌,
  if◌then◌else◌,
}

pub record Edge : Type 0 where
  pub active_saving : Bool
  pub has_obstacle : Bool
  pub not_auto_mode : Bool
  pub emergency_stop : Bool
  pub last_active_save_falling_time : ℕ

abbrev pub initial_edge : Edge
initial_edge = record {
  active_saving = false;
  has_obstacle = true;
  not_auto_mode = false;
  emergency_stop = false;
  last_active_save_falling_time = 0;
}

-- The second of two falling edges in time: the checks, and the returned value.
pub second_fall : Edge → Edge × ℕ
second_fall e =
    if e.has_obstacle && not e.not_auto_mode
    then (if e.emergency_stop then (e, 2) else (record e { not_auto_mode = true }, 3))
    else (e, 4)

pub falling : ℕ → Edge → Edge × ℕ
falling now e =
    if e.last_active_save_falling_time == 0
    then (record e { last_active_save_falling_time = now }, 0)
    else if ltb 3000 ((now + 2 ^ 64 - e.last_active_save_falling_time) % 2 ^ 64)
    then (record e { last_active_save_falling_time = now }, 1)
    else second_fall (record e { last_active_save_falling_time = 0 })

-- The new values of the statics, and the returned value.
pub test_edge : Edge → ℕ → Bool → Edge × ℕ
test_edge e now active =
    if not e.active_saving && active
    then (record e { active_saving = true }, 0)
    else if e.active_saving && not active
    then falling now (record e { active_saving = false })
    else (e, 0)

-- The calls of a caller that samples again and again, with all returned values.
pub samples : Edge → List (ℕ × Bool) → Edge × List ℕ
samples e [] = (e, [])
samples e (x ∷ xs) =
    let r = test_edge e x.0 x.1 in let rest = samples (r.0) xs in (rest.0, r.1 ∷ rest.1)
