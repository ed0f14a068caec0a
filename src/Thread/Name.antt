-- ===== src/Thread/Name.antt =====
-- The names of a `UThread` of bazelPro/src/lib/uthread.cc.
use ng.Base.{
  ℕ, zero, suc, ◌≤◌, ◌<◌, ◌≡◌, ◌≢◌, refl, sym, ap, ◌∙◌, subst, append-nil, ==_iff, ◌⊎◌, inl, inr,
  Bool-cases, ltb, ltb→lt, arith, List, [], ◌∷◌, ◌++◌, Option,
}
use ng.Base.{◌==◌, ==_false, set, replicate, drop, take, length, All}
use ng.Dump.{c_string}
use ng.Thread.{UThread, Made, t_name_len, padded, strncpy, create, get_name, uthread_start_fun}

-- A string without its terminator.
abbrev pub IsText : List ℕ → Type 0
IsText = All (λ c. c ≢ 0)

length-padded : (n : ℕ) (src : List ℕ) → length (padded n src) ≡ n
unfolding padded
length-padded zero src = refl
length-padded (suc n) [] = ap suc (length-padded n [])
length-padded (suc n) (c ∷ cs) = ground (arith, length-padded n [], length-padded n cs)

c_string-padded :
    (n : ℕ) (src rest : List ℕ) → IsText src → c_string (padded n src ++ (0 ∷ rest)) ≡ take n src
unfolding padded
c_string-padded zero src rest h = refl
c_string-padded (suc n) [] rest h = refl
c_string-padded (suc n) (c ∷ cs) rest h =
    rw (==_false c 0 h.0, c_string-padded n cs rest h.1) (rw (==_false c 0 h.0) refl)

-- A text that leaves room is terminated whatever lies behind.
c_string-padded_short :
    (n : ℕ) (src rest : List ℕ)
    → IsText src
    → length src < n
    → c_string (padded n src ++ rest) ≡ take n src
unfolding padded
c_string-padded_short zero src rest h l = absurd (omega arith)
c_string-padded_short (suc n) [] rest h l = refl
c_string-padded_short (suc n) (c ∷ cs) rest h l =
    rw (==_false c 0 h.0, c_string-padded_short n cs rest h.1 (omega arith))
      (rw (==_false c 0 h.0) refl)

padded-IsText :
    (n : ℕ) (src rest : List ℕ)
    → IsText src
    → IsText rest
    → n ≤ length src
    → IsText (padded n src ++ rest)
unfolding padded
padded-IsText zero src rest h k l = k
padded-IsText (suc n) [] rest h k l = absurd (omega arith)
padded-IsText (suc n) (c ∷ cs) rest h k l =
    rw (==_false c 0 h.0) (h.0, padded-IsText n cs rest h.1 k (omega arith))

-- A copy of what was copied before.
padded-padded :
    (n : ℕ) (src rest : List ℕ) → IsText src → padded n (padded n src ++ rest) ≡ padded n src
unfolding padded
padded-padded zero src rest h = refl
padded-padded (suc n) [] rest h = refl
padded-padded (suc n) (c ∷ cs) rest h =
    rw (==_false c 0 h.0) (rw (==_false c 0 h.0, padded-padded n cs rest h.1) refl)

padded-nil : (n : ℕ) → padded (suc n) [] ≡ padded n [] ++ (0 ∷ [])
unfolding padded
padded-nil zero = refl
padded-nil (suc n) = ap (◌∷◌ 0) (padded-nil n)

padded-padded_end :
    (n : ℕ) (src : List ℕ)
    → IsText src
    → padded (suc n) (padded n src ++ (0 ∷ [])) ≡ padded n src ++ (0 ∷ [])
unfolding padded
padded-padded_end zero src h = refl
padded-padded_end (suc n) [] h = ap (◌∷◌ 0) (padded-nil n)
padded-padded_end (suc n) (c ∷ cs) h =
    rw (==_false c 0 h.0) (rw (==_false c 0 h.0) (ap (◌∷◌ c) (padded-padded_end n cs h.1)))

set-append : (xs : List ℕ) (v x : ℕ) → set (xs ++ (x ∷ [])) (length xs) v ≡ xs ++ (v ∷ [])
set-append [] v x = refl
set-append (y ∷ ys) v x = ap (◌∷◌ y) (set-append ys v x)

set-padded :
    (n : ℕ) (src : List ℕ) (v x : ℕ) → set (padded n src ++ (x ∷ [])) n v ≡ padded n src ++ (v ∷ [])
set-padded n src v x =
    subst (λ k. set (padded n src ++ (x ∷ [])) k v ≡ padded n src ++ (v ∷ [])) (length-padded n src)
      (set-append (padded n src) v x)

-- The last byte alone is left of an array of `n + 1`.
drop-last : (n : ℕ) (xs : List ℕ) → length xs ≡ suc n → (x : ℕ) × (drop n xs ≡ x ∷ [])
drop-last n [] h = absurd (omega arith)
drop-last zero (x ∷ []) h = (x, refl)
drop-last zero (x ∷ (y ∷ ys)) h = absurd (omega arith)
drop-last (suc n) (x ∷ xs) h = drop-last n xs (omega arith)

drop-all : (n : ℕ) (xs : List ℕ) → length xs ≡ n → drop n xs ≡ []
drop-all zero [] h = refl
drop-all zero (x ∷ xs) h = absurd (omega arith)
drop-all (suc n) [] h = refl
drop-all (suc n) (x ∷ xs) h = drop-all n xs (omega arith)

create-name :
    (t : UThread) (name : List ℕ) (cb : Option ℕ) (arg : ℕ) (made : Made)
    → length t.m_thread_name ≡ t_name_len
    → made.attr_init ≡ 0
    → made.setstacksize ≡ 0
    → (create t name cb arg made).0.m_thread_name ≡ padded 15 name ++ (0 ∷ [])
unfolding create strncpy
create-name t name cb arg made l a b =
    let (x, e) = drop-last 15 t.m_thread_name l in rw (a, b, e) (set-padded 15 name 0 x)

-- The name that a new thread gives itself, in a variable that holds `self_name`.
abbrev pub own_name : UThread → List ℕ → List ℕ
own_name t self_name = (uthread_start_fun t self_name).1

-- What `getName` leaves in the caller's array.
abbrev pub given_name : UThread → List ℕ → List ℕ
given_name t name = (get_name t name).1

own_name-stored :
    (t : UThread) (name self_name : List ℕ)
    → t.m_thread_name ≡ padded 15 name ++ (0 ∷ [])
    → length self_name ≡ t_name_len
    → IsText name
    → own_name t self_name ≡ padded 15 name ++ (0 ∷ [])
unfolding uthread_start_fun strncpy
own_name-stored t name self_name e k h =
    rw
      (
        e,
        padded-padded_end 15 name h,
        drop-all 16 self_name k,
        append-nil (padded 15 name ++ (0 ∷ [])),
      )
      (set-padded 15 name 0 0)

drop-front :
    (n : ℕ) (front : List ℕ) (b : ℕ) → length front ≡ n → drop n (front ++ (b ∷ [])) ≡ b ∷ []
drop-front zero [] b h = refl
drop-front zero (x ∷ xs) b h = absurd (omega arith)
drop-front (suc n) [] b h = absurd (omega arith)
drop-front (suc n) (x ∷ xs) b h = drop-front n xs b (omega arith)

given_name-stored :
    (t : UThread) (name front : List ℕ) (b : ℕ)
    → t.m_thread_name ≡ padded 15 name ++ (0 ∷ [])
    → length front ≡ 15
    → IsText name
    → given_name t (front ++ (b ∷ [])) ≡ padded 15 name ++ (b ∷ [])
unfolding get_name strncpy
given_name-stored t name front b e k h =
    rw (e, padded-padded 15 name (0 ∷ []) h, drop-front 15 front b k) refl

Terminated : List ℕ → List ℕ → ℕ → Type 0
Terminated array name b =
    (((length name < 15) ⊎ (b ≡ 0)) × (c_string array ≡ take 15 name))
    ⊎ ((15 ≤ length name) × (b ≢ 0) × IsText array)

padded-Terminated :
    (name : List ℕ) (b : ℕ) → IsText name → Terminated (padded 15 name ++ (b ∷ [])) name b
unfolding Terminated
padded-Terminated name b h = elim (Bool-cases (ltb (length name) 15)) [
  | inl l ↦ inl (inl (ltb→lt _ _ l), c_string-padded_short 15 name (b ∷ []) h (ltb→lt _ _ l))
  | inr l ↦ elim (Bool-cases (b == 0)) [
    | inl z ↦ inl (
      inr ((==_iff b 0).0 z),
      subst (λ x. c_string (padded 15 name ++ (x ∷ [])) ≡ take 15 name) (sym ((==_iff b 0).0 z))
          (c_string-padded 15 name [] h),
    )
    | inr z ↦
        let ne : b ≢ 0 = ground arith in
        inr (ground arith, ne, padded-IsText 15 name (b ∷ []) h (ne, tt) (ground arith))
  ]
]

-- A copy of a string, filled with null bytes.
padded-take :
    (n m : ℕ) (src : List ℕ) → IsText src → n ≤ m → padded n src ≡ take n (src ++ replicate m 0)
unfolding padded
padded-take zero m src h l = refl
padded-take (suc n) zero [] h l = absurd (omega arith)
padded-take (suc n) (suc m) [] h l = ap (◌∷◌ 0) (padded-take n m [] tt (omega arith))
padded-take (suc n) m (c ∷ cs) h l =
    rw (==_false c 0 h.0) (ap (◌∷◌ c) (padded-take n m cs h.1 (omega arith)))

-- After a `create` that gets as far as `pthread_create`, whatever the object was before, the thread
-- names itself by the first 15 characters of the name that it was given. `getName` leaves in the
-- array of the caller these characters, null bytes up to 15, and the last byte that the array had.
-- So either the name is shorter than 15 or this byte is 0, and the array holds the same text, or
-- neither is so, and the array has no terminator. All arrays have 16 bytes, and the name has no null
-- byte.
pub get_name-create :
    (t : UThread) (name : List ℕ) (cb : Option ℕ) (arg : ℕ) (made : Made) (self_name : List ℕ)
    (front : List ℕ) (b : ℕ)
    → length t.m_thread_name ≡ t_name_len
    → made.attr_init ≡ 0
    → made.setstacksize ≡ 0
    → length self_name ≡ t_name_len
    → length front ≡ 15
    → IsText name
    → (c_string (own_name (create t name cb arg made).0 self_name) ≡ take 15 name)
      × (given_name (create t name cb arg made).0 (front ++ (b ∷ []))
          ≡ take 15 (name ++ replicate 15 0) ++ (b ∷ []))
      × ((((length name < 15) ⊎ (b ≡ 0))
            × (c_string (given_name (create t name cb arg made).0 (front ++ (b ∷ [])))
                ≡ take 15 name))
          ⊎ ((15 ≤ length name)
              × (b ≢ 0)
              × IsText (given_name (create t name cb arg made).0 (front ++ (b ∷ [])))))
unfolding Terminated
get_name-create t name cb arg made self_name front b l a s k f h =
    let u = (create t name cb arg made).0 in
    let e = create-name t name cb arg made l a s in
    (
      ap c_string (own_name-stored u name self_name e k h) ∙ c_string-padded 15 name [] h,
      given_name-stored u name front b e f h
          ∙ ap (λ p. p ++ (b ∷ [])) (padded-take 15 15 name h (omega arith)),
      subst (λ array. Terminated array name b) (sym (given_name-stored u name front b e f h))
          (padded-Terminated name b h),
    )
