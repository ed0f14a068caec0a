-- ===== src/Thread.antt =====
-- `UThread` of bazelPro/src/lib/uthread.cc. What the pthread calls return is given to the
-- operations; the calls that matter to other threads are listed by `Call`.
pub mod Name
pub mod Shared
mod Life
mod Tests
use ng.Base.{
  ℕ, zero, suc, ◌-◌, List, [], ◌∷◌, ◌++◌, Option, none, some, Bool, true, false, not, ◌&&◌,
}
use ng.Base.{◌==◌, if◌then◌else◌, set, replicate, drop, length}

abbrev pub t_name_len : ℕ
t_name_len = 16

-- `m_thread_id` is 0 where there is no thread. `m_create_cb` names a callback, `none` is NULL.
pub record UThread : Type 0 where
  pub m_thread_id : ℕ
  pub m_is_thread_running : Bool
  pub m_thread_name : List ℕ
  pub m_create_cb : Option ℕ
  pub m_arg : ℕ

pub data Call : Type 0 where
  pthread_join : ℕ → Call
  pthread_cancel : ℕ → Call
  pthread_exit : Call

unfoldable pub uthread : UThread
uthread = record {
  m_thread_id = 0;
  m_is_thread_running = false;
  m_thread_name = replicate t_name_len 0;
  m_create_cb = none;
  m_arg = 0;
}

-- The `n` characters that `strncpy` writes: those of the string, then 0.
unfoldable pub padded : ℕ → List ℕ → List ℕ
padded zero src = []
padded (suc n) [] = 0 ∷ padded n []
padded (suc n) (c ∷ cs) = (if c == 0 then 0 ∷ padded n [] else c ∷ padded n cs)

unfoldable pub strncpy : List ℕ → List ℕ → ℕ → List ℕ
strncpy dest src n = padded n src ++ drop n dest

-- The results of `pthread_attr_init`, `pthread_attr_setstacksize` and `pthread_create`, and the id
-- that the last one stores.
pub record Made : Type 0 where
  pub attr_init : ℕ
  pub setstacksize : ℕ
  pub create_result : ℕ
  pub id : ℕ

unfoldable pub create : UThread → List ℕ → Option ℕ → ℕ → Made → UThread × ℕ
create t name create_cb arg made =
    if not (made.attr_init == 0)
    then (t, made.attr_init)
    else if not (made.setstacksize == 0)
    then (t, made.setstacksize)
    else (
      record {
        m_thread_id = made.id;
        m_is_thread_running = (if made.create_result == 0 then t.m_is_thread_running else false);
        m_thread_name = set (strncpy (t.m_thread_name) name (t_name_len - 1)) (t_name_len - 1) 0;
        m_create_cb = create_cb;
        m_arg = arg;
      },
      made.create_result,
    )

-- What the new thread does before and after the user's code: the name it gives itself, and the
-- callback that it runs, `none` for the virtual `onInit`, `run` and `onExit`.
pub uthread_start_fun : UThread → List ℕ → UThread × List ℕ × Option ℕ
uthread_start_fun t self_name = (
  record t { m_is_thread_running = true },
  set (strncpy self_name (t.m_thread_name) t_name_len) (t_name_len - 1) 0,
  t.m_create_cb,
)

-- `exit`, `join` and the destructor, called from the thread `self`. `pthread_exit` does not return.
unfoldable pub exit : UThread → ℕ → UThread × List Call
exit t self =
    if t.m_thread_id == 0
    then (t, [])
    else if self == t.m_thread_id
    then (t, pthread_exit ∷ [])
    else (record t { m_is_thread_running = false }, pthread_cancel (t.m_thread_id) ∷ [])

pub join : UThread → ℕ → UThread × List Call
join t self =
    if t.m_thread_id == 0
    then (t, [])
    else if self == t.m_thread_id
    then (t, [])
    else (record t { m_thread_id = 0 }, pthread_join (t.m_thread_id) ∷ [])

unfoldable pub destroy : UThread → ℕ → List Call
destroy t self =
    if t.m_thread_id == 0
    then []
    else if self == t.m_thread_id
    then []
    else pthread_join (t.m_thread_id) ∷ []

unfoldable pub is_running : UThread → Bool
is_running t = t.m_is_thread_running

unfoldable pub get_id : UThread → ℕ
get_id t = t.m_thread_id

-- The caller's array comes back with the new state.
unfoldable pub get_name : UThread → List ℕ → UThread × List ℕ × ℕ
get_name t name = (
  record t { m_thread_name = set (t.m_thread_name) (t_name_len - 1) 0 },
  strncpy name (t.m_thread_name) (t_name_len - 1),
  0,
)
