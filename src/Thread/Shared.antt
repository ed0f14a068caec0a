-- ===== src/Thread/Shared.antt =====
-- Two threads at one `UThread` of bazelPro/src/lib/uthread.cc: the new thread runs `UThreadStartFun`
-- while the thread that made it is still in `create`, or calls `exit` and `join`. A step is one access
-- of the new thread to the object, the store of the id, or a whole call of `exit` or `join` by
-- another thread, and the steps come in any order. That the accesses of one call of `exit` or `join`
-- mix with those of the new thread is not modelled.
pub mod Places
pub mod Safe
pub mod Alone
use ng.Base.{
  ℕ, ◌≡◌, ◌≢◌, List, [], ◌∷◌, ◌++◌, Option, none, some, Bool, true, false, ◌==◌, if◌then◌else◌, set,
  ◌-◌,
}
use ng.Dump.{c_string}
use ng.Format.Arg.{codes}
use ng.Thread.{UThread, Call, strncpy, t_name_len, exit, join}

-- How far the new thread is in `UThreadStartFun`: before each of its accesses, and in each of the
-- calls of the user's code.
pub data Place : Type 0 where
  at_set_name : Place
  at_self_name : Place
  at_self_flag : Place
  at_running : Place
  at_choice : Place
  in_call : Place
  in_init : Place
  in_run : Place
  in_exit : Place
  over : Place

-- The user's code that was begun.
pub data Begun : Type 0 where
  called : ℕ → ℕ → Begun
  on_init : Begun
  ran : Begun
  on_exit : Begun

-- `self_name` and `self_flag` are the variables of the new thread, `real` is its id, `named` the id that it gave to `pthread_setname_np`, and
-- `cancelled` tells whether it was cancelled.
pub record Shared : Type 0 where
  pub object : UThread
  pub real : ℕ
  pub place : Place
  pub named : Option ℕ
  pub self_name : List ℕ
  pub self_flag : Bool
  pub begun : List Begun
  pub exited : Bool
  pub cancelled : Bool

-- The object when `pthread_create` starts the thread.
unfoldable pub prepared : UThread → List ℕ → Option ℕ → ℕ → UThread
prepared t name create_cb arg = record t {
  m_thread_name = set (strncpy (t.m_thread_name) name (t_name_len - 1)) (t_name_len - 1) 0;
  m_create_cb = create_cb;
  m_arg = arg;
}

unfoldable pub spawned : UThread → List ℕ → Option ℕ → ℕ → ℕ → List ℕ → Shared
spawned t name create_cb arg real self_name = record {
  object = prepared t name create_cb arg;
  real = real;
  place = at_set_name;
  named = none;
  self_name = self_name;
  self_flag = false;
  begun = [];
  exited = false;
  cancelled = false;
}

-- The callback, or the virtual functions.
unfoldable pub begin_body : Option ℕ → Shared → Shared
begin_body (some cb) s = record s {
  begun = s.begun ++ called cb s.object.m_arg ∷ [];
  place = in_call;
}
begin_body none s = record s { begun = s.begun ++ on_init ∷ []; place = in_init }

-- What the new thread does next.
unfoldable pub advance : Place → Shared → Shared
advance at_set_name s = record s { named = some s.object.m_thread_id; place = at_self_name }
advance at_self_name s = record s {
  self_name = set (strncpy (s.self_name) (s.object.m_thread_name) t_name_len) (t_name_len - 1) 0;
  place = at_self_flag;
}
advance at_self_flag s = record s { self_flag = true; place = at_running }
advance at_running s = record s {
  object = record s.object { m_is_thread_running = true };
  place = at_choice;
}
advance at_choice s = begin_body s.object.m_create_cb s
advance in_call s = record s { place = over }
advance in_init s = record s { begun = s.begun ++ ran ∷ []; place = in_run }
advance in_run s = record s { begun = s.begun ++ on_exit ∷ []; place = in_exit }
advance in_exit s = record s { place = over }
advance over s = s

-- Whether a call of `exit` cancels the thread.
unfoldable pub cancels : List Call → Bool
cancels [] = false
cancels (c ∷ cs) = true

-- What a signal handler in the new thread is told.
pub get_self_name_async_signal_safe : Shared → List ℕ
get_self_name_async_signal_safe s = if s.self_flag then c_string s.self_name else codes "main"

pub data Step : Shared → Shared → Type 0 where
  -- The new thread.
  advances : (s : Shared) → Step s (advance s.place s)
  -- `pthread_create` stores the id, in `create`.
  stores : (s : Shared) → Step s (record s { object = record s.object { m_thread_id = s.real } })
  -- `exit` in the thread `self`.
  exits :
      (s : Shared) (self : ℕ)
      → self ≢ s.real
      → Step s (record s {
        object = (exit s.object self).0;
        exited = true;
        cancelled = if cancels (exit s.object self).1 then true else s.cancelled;
      })
  -- A cancelled thread ends.
  ends : (s : Shared) → s.cancelled ≡ true → Step s (record s { place = over })
  -- `join` in the thread `self` returns.
  joins :
      (s : Shared) (self : ℕ)
      → self ≢ s.real
      → s.place ≡ over
      → Step s (record s { object = (join s.object self).0 })

pub data Reach (s : Shared) : Shared → Type 0 where
  here : Reach s s
  next : {t u : Shared} → Reach s t → Step t u → Reach s u
