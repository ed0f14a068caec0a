-- ===== src/Thread/Tests.antt =====
-- Concrete runs of bazelPro/src/lib/uthread.cc.
use ng.Base.{
  ◌<◌, ℕ, ◌≤◌, ◌≡◌, ◌≢◌, refl, arith, List, [], ◌∷◌, ◌++◌, none, some, true, if◌then◌else◌,
  replicate, take, length, ◌⊎◌,
}
use ng.Dump.{c_string}
use ng.Thread.{uthread, Made, create, exit, is_running}
use ng.Thread.Shared.{
  Shared, spawned, prepared, advance, at_self_name, at_self_flag, at_running,
  get_self_name_async_signal_safe, Step, advances, stores, cancels, Reach, here, next,
}
use ng.Thread.Shared.Safe.{created-IsSafe}
use ng.Thread.Shared.Places.{IsSafe}
use ng.Format.Arg.{codes}
use ng.Thread.Name.{own_name, given_name, get_name-create, IsText}
use ng.Thread.Life.{Use, creates, exits, joins, lifetime, joined, lifetime-joins_once}

abbrev made : Made
made = record { attr_init = 0; setstacksize = 0; create_result = 0; id = 77 }

abbrev name : List ℕ
name = replicate 15 b'a'

-- An array that is full of `x`.
get_name-create_example :
    (c_string (own_name (create uthread name none 0 made).0 (replicate 16 0)) ≡ take 15 name)
    × (given_name (create uthread name none 0 made).0 (replicate 15 b'x' ++ (b'x' ∷ []))
        ≡ take 15 (name ++ replicate 15 0) ++ (b'x' ∷ []))
    × ((((length name < 15) ⊎ (◌≡◌ {A = ℕ} b'x' 0))
          × (c_string
                (given_name (create uthread name none 0 made).0 (replicate 15 b'x' ++ (b'x' ∷ [])))
              ≡ take 15 name))
        ⊎ ((15 ≤ length name)
            × (◌≢◌ {A = ℕ} b'x' 0)
            × IsText (
                given_name (create uthread name none 0 made).0 (replicate 15 b'x' ++ (b'x' ∷ [])))))
unfolding uthread
get_name-create_example =
    get_name-create uthread name none 0 made (replicate 16 0) (replicate 15 b'x') b'x' refl refl
      refl refl refl (omega arith)

abbrev foreign_uses : List Use
foreign_uses = joins 1 ∷ exits 2 ∷ joins 1 ∷ []

lifetime-joins_once_example :
    joined (lifetime uthread (creates name none 0 made ∷ foreign_uses) 1) ≡ 1
lifetime-joins_once_example =
    lifetime-joins_once name none 0 made foreign_uses 1 refl refl (omega arith)
      (omega arith, (omega arith, (omega arith, tt))) (omega arith)

-- The new thread gives itself the name while its id is not stored, then `exit` clears the flag that it is
-- yet to set.
abbrev started : Shared
started = spawned uthread name (some 3) 9 77 (replicate 16 0)

abbrev unnamed : Shared
unnamed = advance started.place started

abbrev known : Shared
known = record unnamed { object = record unnamed.object { m_thread_id = unnamed.real } }

abbrev stopped : Shared
stopped = record known {
  object = (exit known.object 1).0;
  exited = true;
  cancelled = if cancels (exit known.object 1).1 then true else known.cancelled;
}

abbrev flag_set : Shared
flag_set = advance at_running (advance at_self_flag (advance at_self_name stopped))

flag_set-Reach : Reach started flag_set
unfolding spawned prepared uthread advance exit cancels
flag_set-Reach =
    let exited =
      next (next (next here (advances started)) (stores unnamed))
        (Step.exits known 1 (omega arith)) in
    let copied = next exited (advances stopped) in
    next (next copied (advances (advance at_self_name stopped)))
      (advances (advance at_self_flag (advance at_self_name stopped)))

created-IsSafe_example :
    IsSafe (replicate 16 0) (prepared uthread name (some 3) 9).m_thread_name (some 3) 9 77 flag_set
    × ((get_self_name_async_signal_safe flag_set ≡ codes "main")
        ⊎ (get_self_name_async_signal_safe flag_set ≡ take 15 name))
created-IsSafe_example =
    created-IsSafe name (some 3) 9 77 (replicate 16 0) flag_set (omega arith) refl flag_set-Reach

-- The id was 0, and the flag is true after the exit.
flagged_lem :
    (flag_set.named ≡ some 0) × (flag_set.exited ≡ true) × (is_running flag_set.object ≡ true)
unfolding spawned prepared uthread advance exit cancels is_running
flagged_lem = (refl, refl, refl)
