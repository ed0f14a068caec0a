-- ===== src/Loop/Trial.antt =====
-- The application of bazelPro/src/libtest/libtest.cc: it starts a thread and a loop thread, whose
-- callback makes a fifo and watches it.
pub mod Fifo
pub mod Lives
use ng.Base.{
  ℕ, ◌+◌, List, [], ◌∷◌, ◌++◌, Option, none, some, Bool, true, false, not, ltb, ◌>>=◌, ◌==◌,
  if◌then◌else◌, ℤ, pos, negsuc, length, set, drop, bit_and,
}
use ng.Dump.{c_string}
use ng.Format.Arg.{codes}
use ng.Thread.{UThread, uthread, Made, create}
use ng.Loop.{is_zero}
use ng.Loop.Thread.{LoopThread, loop_thread, loop_create}

-- What `read` gives: -1, or the bytes, of which none is the end of the file.
pub data Read : Type 0 where
  failed : Read
  got : List ℕ → Read

abbrev pub len_of : Read → ℤ
len_of failed = negsuc 0
len_of (got bytes) = pos (length bytes)

abbrev pub bytes_of : Read → List ℕ
bytes_of failed = []
bytes_of (got bytes) = bytes

abbrev pub is_minus_one : ℤ → Bool
is_minus_one (pos n) = false
is_minus_one (negsuc n) = n == 0

-- A write to an array at an `int`; `none` is a write out of bounds.
abbrev pub set_at : List ℕ → ℤ → ℕ → Option (List ℕ)
set_at xs (pos i) v = if ltb i (length xs) then some (set xs i v) else none
set_at xs (negsuc i) v = none

-- The texts that are printed, for the array `buf`. Since the statement after `else if (len == 0)` is
-- disabled, `return` belongs to that test, and a failure goes on behind it.
pub fifo_read : List ℕ → Read → Option (List (List ℕ))
fifo_read buf r =
    let len = len_of r in
    let buf = bytes_of r ++ drop (length (bytes_of r)) buf in
    let perror = if is_minus_one len then codes "read" ∷ [] else [] in
    if is_zero len then some [] else (do
      buf ← set_at buf len 0
      some (perror ++ (codes "Read: " ++ (c_string buf ++ 10 ∷ [])) ∷ []))

-- The mode that `lstat` gives, if it succeeds, whether `mkfifo` succeeds, and the result of `open`.
pub record Calls : Type 0 where
  pub lstat : Option ℕ
  pub mkfifo : Bool
  pub opened : Option ℕ

-- The process ends with 1 after `perror` of a call, or an event for a descriptor is added to a loop.
pub data Inited : Type 0 where
  ended : List ℕ → Inited
  watched : ℕ → Option ℕ → Inited

-- `S_IFMT` and `S_IFREG`.
abbrev pub is_regular : Option ℕ → Bool
is_regular none = false
is_regular (some mode) = bit_and mode 0xF000 == 0x8000

-- `loop` is what `get_loop()` gives.
unfoldable pub thread_init_cb : Calls → Option ℕ → Inited
thread_init_cb calls loop =
    if is_regular calls.lstat
    then ended (codes "lstat")
    else if not calls.mkfifo
    then ended (codes "mkfifo")
    else elim calls.opened [ none ↦ ended (codes "open") | some socket ↦ watched socket loop ]

-- The names of the callbacks and of the argument of the code.
abbrev pub thread_cb_name : ℕ
thread_cb_name = 1

abbrev pub thread_init_cb_name : ℕ
thread_init_cb_name = 2

abbrev pub ctx : ℕ
ctx = 3

-- The two threads, and the result; what `create` returns is not looked at.
unfoldable pub app_init : Made → Made → UThread × LoopThread × ℤ
app_init first second = (
  (create uthread (codes "me") (some thread_cb_name) ctx first).0,
  (loop_create loop_thread (codes "loop_me") thread_init_cb_name ctx 4 second).0,
  pos 0,
)
