-- ===== src/Loop/Trial/Fifo.antt =====
-- What `fifo_read` and `thread_init_cb` of bazelPro/src/libtest/libtest.cc do.
use ng.Base.{
  ℕ, ◌≤◌, ◌<◌, ◌≡◌, ◌↔◌, refl, ap, arith, List, [], ◌∷◌, ◌++◌, Option, none, some, true, false,
  ◌==◌, length, set, drop, ltb, lt→ltb, length-append, length-drop, Bool-cases, inl, inr,
}
use ng.Dump.{c_string}
use ng.Format.Arg.{codes}
use ng.Loop.Trial.{failed, got, fifo_read, Calls, watched, is_regular, thread_init_cb}

-- The text that was read is terminated, whatever the array held.
c_string-terminated :
    (xs rest : List ℕ) → 0 < length rest → c_string (set (xs ++ rest) (length xs) 0) ≡ c_string xs
c_string-terminated [] [] h = absurd (omega arith)
c_string-terminated [] (r ∷ rest) h = refl
c_string-terminated (x ∷ xs) rest h = elim (Bool-cases (x == 0)) [
  | inl e ↦ rw e refl
  | inr e ↦ rw e (ap (λ t. x ∷ t) (c_string-terminated xs rest h))
]

-- What is to be printed.
abbrev pub shown : List ℕ → List (List ℕ)
shown [] = []
shown (b ∷ bs) = (codes "Read: " ++ (c_string (b ∷ bs) ++ 10 ∷ [])) ∷ []

room :
    (bs buf : List ℕ)
    → length bs < length buf
    → (0 < length (drop (length bs) buf))
      × (ltb (length bs) (length (bs ++ drop (length bs) buf)) ≡ true)
room bs buf h =
    let left : 0 < length (drop (length bs) buf) = omega (arith, length-drop (length bs) buf) in
    (
      left,
      lt→ltb (length bs) (length (bs ++ drop (length bs) buf))
          (omega (arith, left, length-append bs (drop (length bs) buf))),
    )

-- Any read of at most 254 bytes into the array of 255 returns and prints the text up to its first null byte,
-- or nothing at the end of the file, whatever the array held. A read that fails writes before the array.
pub fifo_read-shown :
    (buf bytes : List ℕ)
    → length buf ≡ 255
    → length bytes ≤ 254
    → (fifo_read buf (got bytes) ≡ some (shown bytes)) × (fifo_read buf failed ≡ none)
unfolding fifo_read
fifo_read-shown buf [] whole small = (refl, refl)
fifo_read-shown buf (b ∷ bs) whole small =
    let (left, inside) = room (b ∷ bs) buf (omega (arith, whole)) in
    let more : (length (b ∷ bs) == 0) ≡ false = ground arith in
    (rw (more, inside, c_string-terminated (b ∷ bs) (drop (length (b ∷ bs)) buf) left) refl, refl)

-- The fifo is watched by the loop of the thread exactly when no regular file has its name, and `mkfifo`
-- and `open` succeed; the event is for the descriptor of `open`.
pub thread_init_cb-watched :
    (calls : Calls) (loop : Option ℕ) (socket : ℕ)
    → (thread_init_cb calls loop ≡ watched socket loop)
      ↔ ((is_regular calls.lstat ≡ false) × (calls.mkfifo ≡ true) × (calls.opened ≡ some socket))
unfolding thread_init_cb
thread_init_cb-watched calls loop socket = ground arith
