-- ===== src/Thread/Shared/Alone.antt =====
-- The steps of bazelPro/src/lib/uthread.cc on one object, when nothing comes between them.
use ng.Base.{ℕ, ◌≡◌, refl, List, Option, some}
use ng.Thread.{UThread, Made, create, uthread_start_fun}
use ng.Thread.Shared.{
  Shared, prepared, spawned, advance, at_set_name, at_self_name, at_self_flag, at_running,
}

-- The thread is started and its id stored.
abbrev pub stored : Shared → Shared
stored s = record s { object = record s.object { m_thread_id = s.real } }

-- The first four steps of the new thread.
abbrev pub entered : Shared → Shared
entered s = advance at_running (advance at_self_flag (advance at_self_name (advance at_set_name s)))

-- When `create` succeeds, the steps of the model store what `create` does, and when nothing comes between
-- the first steps of the new thread, these do what `UThreadStartFun` does before the user's code, and
-- `pthread_setname_np` is given the id.
pub alone-create :
    (t : UThread) (name : List ℕ) (cb : Option ℕ) (arg : ℕ) (made : Made) (self_name : List ℕ)
    → made.attr_init ≡ 0
    → made.setstacksize ≡ 0
    → made.create_result ≡ 0
    → ((stored (spawned t name cb arg made.id self_name)).object ≡ (create t name cb arg made).0)
      × ((entered (stored (spawned t name cb arg made.id self_name))).object
          ≡ (uthread_start_fun (create t name cb arg made).0 self_name).0)
      × ((entered (stored (spawned t name cb arg made.id self_name))).self_name
          ≡ (uthread_start_fun (create t name cb arg made).0 self_name).1)
      × ((entered (stored (spawned t name cb arg made.id self_name))).named ≡ some made.id)
unfolding create uthread_start_fun spawned prepared advance
alone-create t name cb arg made self_name a b c = rw (a, b, c) (refl, refl, refl, refl)
