-- ===== src/Loop/Trial/Lives.antt =====
-- The two test functions of bazelPro/src/libtest/libtest.cc: each starts a thread, prints what its object
-- says for half a minute, and ends it. Nothing but the flag changes in between.
use ng.Base.{ℕ, ◌≡◌, ◌≢◌, refl, ap, sym, List, [], ◌∷◌, ◌++◌, some, Bool, false, map, ==_false}
use ng.Dump.{c_string}
use ng.Format.Arg.{codes}
use ng.Thread.{
  UThread, Call, pthread_cancel, pthread_join, uthread, Made, create, get_name, get_id, is_running,
  exit, destroy, strncpy, padded,
}
use ng.Loop.Thread.{loop_thread, loop_create}
use ng.Loop.Trial.{thread_cb_name, thread_init_cb_name, ctx}

-- A line that is printed.
pub record Info : Type 0 where
  pub name : List ℕ
  pub id : ℕ
  pub run : Bool

-- What both functions do with their object, whose flag is `seen` at each round; `t_name` is the array
-- for the name, and `self` the thread that calls.
pub live : UThread → ℕ → List ℕ → List Bool → List Info × List Call
live t self t_name seen =
    let (t, t_name, rc) = get_name t t_name in
    let shown = map (λ run. record { name = c_string t_name; id = get_id t; run = run }) seen in
    let (t, calls) = exit t self in
    (
      shown ++ record { name = c_string t_name; id = get_id t; run = is_running t } ∷ [],
      calls ++ destroy t self,
    )

pub test_thread : Made → ℕ → List ℕ → List Bool → List Info × List Call
test_thread made self t_name seen =
    live (create uthread (codes "me") (some thread_cb_name) ctx made).0 self t_name seen

pub test_loop_thread : Made → ℕ → List ℕ → List Bool → List Info × List Call
test_loop_thread made self t_name seen =
    live (loop_create loop_thread (codes "loop_me") thread_init_cb_name ctx 4 made).0.thread self
      t_name seen

-- What is to be printed of a thread.
abbrev pub infos : List ℕ → ℕ → List Bool → List Info
infos name id seen = map (λ run. record { name = name; id = id; run = run }) (seen ++ false ∷ [])

map-append_one :
    {A B : Type 0} (f : A → B) (xs : List A) (y : A) → map f (xs ++ y ∷ []) ≡ map f xs ++ f y ∷ []
map-append_one f [] y = refl
map-append_one f (x ∷ xs) y = ap (λ t. f x ∷ t) (map-append_one f xs y)

-- A thread that is started by either function is shown by its name and its id, with the flag as it
-- is and as not running at last, whatever the array for the name held, and it is cancelled and then joined,
-- each once.
pub test_thread-infos :
    (made : Made) (self : ℕ) (t_name : List ℕ) (seen : List Bool)
    → made.attr_init ≡ 0
    → made.setstacksize ≡ 0
    → made.id ≢ 0
    → self ≢ made.id
    → (test_thread made self t_name seen
        ≡ (infos (codes "me") made.id seen, pthread_cancel made.id ∷ pthread_join made.id ∷ []))
      × (test_loop_thread made self t_name seen ≡ (
        infos (codes "loop_me") made.id seen,
        pthread_cancel made.id ∷ pthread_join made.id ∷ [],
      ))
unfolding test_thread test_loop_thread live create loop_create get_name get_id is_running exit
    destroy strncpy padded uthread loop_thread
test_thread-infos made self t_name seen a b alive other =
    let known = ==_false made.id 0 alive in
    let calls : List Call = pthread_cancel made.id ∷ pthread_join made.id ∷ [] in
    let foreign = ==_false self made.id other in
    (
      rw (a, b, known, foreign, known, foreign)
          (ap (λ l. (l, calls))
            (sym (
              map-append_one (λ run. record { name = codes "me"; id = made.id; run = run }) seen
                false))),
      rw (a, b, known, foreign, known, foreign)
          (ap (λ l. (l, calls))
            (sym (
              map-append_one (λ run. record { name = codes "loop_me"; id = made.id; run = run })
                seen false))),
    )
