-- ===== src/Format/Contract.antt =====
-- What room does to `vsnprintf_asyncsignalsafe` of bazelPro/src/lib/snprintf_asyncsignalsafe.cc:
-- the text that a format and its arguments stand for is cut off, and the number is that of all.
use ng.Base.{
  ℕ, zero, suc, ◌-◌, ◌≤◌, ◌<◌, ◌≡◌, ◌≢◌, refl, sym, ap, ◌∙◌, subst, arith, List, [], ◌∷◌, ◌++◌,
  Option, none, some, Bool, true, false,
}
use ng.Base.{
  ◌>>=◌, Option-cases, Bool-cases, inl, inr, ◌⊎◌, length, take, length-append, length-take,
  append_assoc, append-nil, ◌^◌, if◌then◌else◌, ltb, ltb→lt, ltb_false→le, ==_false,
}
use ng.Format.Arg.{Arg}
use ng.Format.Ftoa.{Double}
use ng.Format.Print.{
  Mode, plain, Out, step, at_end, note, store, store_all, print_from, vsnprintf_asyncsignalsafe,
}

-- The first `room` characters of a text are written, and all of them are counted.
pub record InRoom (room : ℕ) (text : List ℕ) (o : Out) : Type 0 where
  pub cut : o.written ≡ take room text
  pub count : o.n ≡ length text

take-snoc_less :
    (room : ℕ) (xs : List ℕ) (c : ℕ)
    → length (take room xs) < room
    → take room (xs ++ c ∷ []) ≡ take room xs ++ c ∷ []
take-snoc_less zero xs c h = absurd (omega arith)
take-snoc_less (suc room) [] c h = rw (the_nil room)
  where
    the_nil : (room : ℕ) → take {A = ℕ} room [] ≡ []
    the_nil zero = refl
    the_nil (suc room) = refl
take-snoc_less (suc room) (x ∷ xs) c h = ap (◌∷◌ x) (take-snoc_less room xs c (omega arith))

take-snoc_full :
    (room : ℕ) (xs : List ℕ) (c : ℕ) → room ≤ length xs → take room (xs ++ c ∷ []) ≡ take room xs
take-snoc_full zero xs c h = refl
take-snoc_full (suc room) [] c h = absurd (omega arith)
take-snoc_full (suc room) (x ∷ xs) c h = ap (◌∷◌ x) (take-snoc_full room xs c (omega arith))

store-InRoom :
    (room c : ℕ) (text : List ℕ) (o : Out)
    → InRoom room text o
    → InRoom room (text ++ c ∷ []) (store room c o)
unfolding store
store-InRoom room c text o v = elim (Bool-cases (ltb (length o.written) room)) [
  | inl e ↦ rw e record {
    cut =
        ap (λ w. w ++ c ∷ []) v.cut
        ∙ sym (take-snoc_less room text c (subst (λ w. length w < room) v.cut (ltb→lt _ _ e)));
    count = omega (arith, v.count, length-append text (c ∷ []));
  }
  | inr e ↦ rw e record {
    cut = v.cut ∙ sym (take-snoc_full room text c (full e));
    count = omega (arith, v.count, length-append text (c ∷ []));
  }
]
  where
    full : ltb (length o.written) room ≡ false → room ≤ length text
    full e = omega (arith, ltb_false→le _ _ e, ap length v.cut, length-take room text)

store_all-InRoom :
    (room : ℕ) (cs text : List ℕ) (o : Out)
    → InRoom room text o
    → InRoom room (text ++ cs) (store_all room cs o)
unfolding store_all
store_all-InRoom room [] text o v = subst (λ t. InRoom room t o) (sym (append-nil text)) v
store_all-InRoom room (c ∷ cs) text o v =
    subst (λ t. InRoom room t (store_all room cs (store room c o))) (append_assoc text (c ∷ []) cs)
      (store_all-InRoom room cs (text ++ c ∷ []) (store room c o) (store-InRoom room c text o v))

note-InRoom :
    (room : ℕ) (counts : Bool) (text : List ℕ) (o : Out)
    → InRoom room text o
    → InRoom room text (note counts o)
note-InRoom room true text o v = record { cut = v.cut; count = v.count }
note-InRoom room false text o v = v

module _ {F : Type 0} (fl : Double F) (turns : ℕ) where
  -- The text that what is left of a format stands for, where no room is short.
  unfoldable pub expansion : Mode → List ℕ → List (Arg F) → Option (List ℕ)
  expansion mode [] args = do r ← at_end fl turns mode args; some []
  expansion mode (c ∷ fmt) args = do
    r ← step fl turns mode c fmt args
    rest ← expansion (r.mode) fmt (r.args)
    some (r.chars ++ rest)

  -- Both fail, or the output grows by the text.
  Agrees : ℕ → List ℕ → Option (List ℕ) → Option Out → Type 0
  Agrees room before none r = r ≡ none
  Agrees room before (some text) r = (o : Out) × (r ≡ some o) × InRoom room (before ++ text) o

  Agrees-chars :
      (room : ℕ) (before chars : List ℕ) (x : Option (List ℕ)) (r : Option Out)
      → Agrees room (before ++ chars) x r
      → Agrees room before (x >>= λ rest. some (chars ++ rest)) r
  unfolding Agrees
  Agrees-chars room before chars none r h = h
  Agrees-chars room before chars (some text) r (o, e, v) =
      (o, e, subst (λ t. InRoom room t o) (append_assoc before chars text) v)

  print_from-Agrees :
      (room : ℕ) (mode : Mode) (fmt before : List ℕ) (args : List (Arg F)) (o : Out)
      → InRoom room before o
      → Agrees room before (expansion mode fmt args) (print_from fl turns room mode fmt args o)
  unfolding expansion print_from Agrees
  print_from-Agrees room mode [] before args o v = elim (Option-cases (at_end fl turns mode args)) [
    | inl e ↦ rw e refl
    | inr (r, e) ↦ rw e (o, refl, subst (λ t. InRoom room t o) (sym (append-nil before)) v)
  ]
  print_from-Agrees room mode (c ∷ fmt) before args o v =
      elim (Option-cases (step fl turns mode c fmt args)) [
        | inl e ↦ rw e refl
        | inr (r, e) ↦
            let o' = store_all room r.chars (note r.counts o) in
            let v' =
              store_all-InRoom room r.chars before (note r.counts o)
                (note-InRoom room r.counts before o v) in
            let ih = print_from-Agrees room r.mode fmt (before ++ r.chars) r.args o' v' in
            rw e (Agrees-chars room before r.chars (expansion r.mode fmt r.args) _ ih)
      ]

  start-InRoom : (room : ℕ) → InRoom room [] (record { written = []; n = 0; noted = [] })
  start-InRoom zero = record { cut = refl; count = refl }
  start-InRoom (suc room) = record { cut = refl; count = refl }

  -- A format with its arguments either stands for a text, which does not depend on the room: then in
  -- any room of at least one byte the call returns, has written as much of the text as leaves a byte
  -- for the null byte, and the null byte, and returns the length of the whole text, unless an `int`
  -- does not hold this. Or it stands for none, and then the call fails in any room.
  pub vsnprintf-contract :
      (size : ℕ) (fmt : List ℕ) (args : List (Arg F))
      → size ≢ 0
      → ((expansion plain fmt args ≡ none)
          × (vsnprintf_asyncsignalsafe fl turns size (fmt, args) ≡ none))
        ⊎ ((text : List ℕ) × (expansion plain fmt args ≡ some text)
            × (vsnprintf_asyncsignalsafe fl turns size (fmt, args) ≡ (
                if ltb (length text) (2 ^ 31)
                then some (take (size - 1) text ++ 0 ∷ [], length text)
                else none)))
  unfolding vsnprintf_asyncsignalsafe Agrees
  vsnprintf-contract size fmt args ne =
      let start : Out = record { written = []; n = 0; noted = [] } in
      let run = print_from fl turns (size - 1) plain fmt args start in
      let h : Agrees (size - 1) [] (expansion plain fmt args) run =
        print_from-Agrees (size - 1) plain fmt [] args start (start-InRoom (size - 1)) in
      elim (Option-cases (expansion plain fmt args)) [
        | inl e ↦
            let fails : run ≡ none = subst (λ x. Agrees (size - 1) [] x run) e h in
            inl (e, rw (==_false size 0 ne, fails) refl)
        | inr (text, e) ↦
            let returns : (o : Out) × (run ≡ some o) × InRoom (size - 1) text o =
              subst (λ x. Agrees (size - 1) [] x run) e h in
            inr (text, e, rw (==_false size 0 ne, returns.1, returns.2.cut, returns.2.count) refl)
      ]
