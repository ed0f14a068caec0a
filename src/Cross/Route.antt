-- ===== src/Cross/Route.antt =====
-- The way through the crossings of one rule of bazelPro/src/tmp/tmp.cc, described apart from the code.
use mathlib.Core.List.{reverse, reverse-append}
use ng.Base.{
  ℕ, zero, suc, ◌+◌, ◌-◌, ◌<◌, ◌≡◌, refl, sym, ap, ◌∙◌, arith, List, [], ◌∷◌, ◌++◌, Option, some,
  ◌>>=◌, Bool, true, if◌then◌else◌, length, take, drop, get_elem?, get_elem?-some, ltb,
}
use ng.Cross.{Documents, load_point, id_at, found_then, load_up, load_down}

-- The ids from one place to the other, the later place first when the way goes back.
abbrev pub route : List (List ℕ) → ℕ → ℕ → List (List ℕ)
route ids i k =
    if ltb i k then take (suc (k - i)) (drop i ids) else reverse (take (suc (i - k)) (drop k ids))

module _ {V : Type 0} (docs : Documents V) where
  -- Every crossing of the way is loaded with its next one. The first that is not found ends the way.
  abbrev pub load_route : List (List ℕ) → Option (Bool × List (List ℕ))
  load_route [] = some (true, [])
  load_route (id ∷ []) = some (true, [])
  load_route (id ∷ next ∷ rest) = do
    p ← load_point docs id next
    found_then docs p (load_route (next ∷ rest))

  -- The values are strings.
  pub data Strings : List V → List (List ℕ) → Type 0 where
    no_strings : Strings [] []
    one_string :
        {v : V} {vs : List V} {s : List ℕ} {ss : List (List ℕ)}
        → docs.get_string v ≡ some s
        → Strings vs ss
        → Strings (v ∷ vs) (s ∷ ss)

  id_at-Strings :
      (vs : List V) (ids : List (List ℕ)) (k : ℕ)
      → Strings vs ids
      → id_at docs vs k ≡ get_elem? ids k
  id_at-Strings vs ids k no_strings = refl
  id_at-Strings vs ids zero (one_string e s) = e
  id_at-Strings vs ids (suc k) (one_string {vs = ws} {ss = ss} e s) = id_at-Strings ws ss k s

module _ {A : Type 0} where
  drop-cons :
      (xs : List A) (k : ℕ) (x : A) → get_elem? xs k ≡ some x → drop k xs ≡ x ∷ drop (suc k) xs
  drop-cons [] k x h = absurd (cc)
  drop-cons (y ∷ xs) zero x h = ap (λ z. z ∷ xs) (cc)
  drop-cons (y ∷ xs) (suc k) x h = drop-cons xs k x h

  get_elem?-drop : (t n : ℕ) (xs : List A) → get_elem? (drop t xs) n ≡ get_elem? xs (t + n)
  get_elem?-drop zero n xs = ap (get_elem? xs) (omega arith)
  get_elem?-drop (suc t) n [] = refl
  get_elem?-drop (suc t) n (x ∷ xs) =
      let e : suc t + n ≡ suc (t + n) = omega arith in rw e (get_elem?-drop t n xs)

  take-snoc :
      (n : ℕ) (xs : List A) (y : A)
      → get_elem? xs n ≡ some y
      → take (suc n) xs ≡ take n xs ++ (y ∷ [])
  take-snoc n [] y h = absurd (cc)
  take-snoc zero (x ∷ xs) y h = ap (λ z. z ∷ []) (cc)
  take-snoc (suc n) (x ∷ xs) y h = ap (◌∷◌ x) (take-snoc n xs y h)

  reverse-take :
      (n : ℕ) (xs : List A) (y : A)
      → get_elem? xs n ≡ some y
      → reverse (take (suc n) xs) ≡ y ∷ reverse (take n xs)
  reverse-take n xs y h = ap reverse (take-snoc n xs y h) ∙ reverse-append (take n xs) (y ∷ [])

module _ {V : Type 0} (docs : Documents V) (vs : List V) (ids : List (List ℕ))
    (s : Strings docs vs ids) where
  load_route-one : (xs : List (List ℕ)) → load_route docs (take 1 xs) ≡ some (true, [])
  load_route-one [] = refl
  load_route-one (x ∷ xs) = refl

  load_route-back_one :
      (xs : List (List ℕ)) → load_route docs (reverse (take 1 xs)) ≡ some (true, [])
  load_route-back_one [] = refl
  load_route-back_one (x ∷ xs) = refl

  pub load_up-route :
      (n k : ℕ)
      → k + n < length ids
      → load_up docs n k vs ≡ load_route docs (take (suc n) (drop k ids))
  unfolding load_up
  load_up-route zero k h = sym (load_route-one (drop k ids))
  load_up-route (suc n) k h =
      let (x, e) = get_elem?-some ids k (omega arith) in
      let (y, f) = get_elem?-some ids (suc k) (omega arith) in
      let next : k + 1 ≡ suc k = omega arith in
      let here = drop-cons ids k x e in
      let there = drop-cons ids (suc k) y f in
      let rest = load_up-route n (suc k) (omega arith) in
      rw
        (
          next,
          id_at-Strings docs vs ids k s ∙ e,
          id_at-Strings docs vs ids (suc k) s ∙ f,
          rest,
          here,
          there,
        )
        refl

  pub load_down-route :
      (n t : ℕ)
      → t + n < length ids
      → load_down docs n (t + n) vs ≡ load_route docs (reverse (take (suc n) (drop t ids)))
  unfolding load_down
  load_down-route zero t h = sym (load_route-back_one (drop t ids))
  load_down-route (suc n) t h =
      let (x, e) = get_elem?-some ids (t + suc n) h in
      let (y, f) = get_elem?-some ids (t + n) (omega arith) in
      let next : t + suc n - 1 ≡ t + n = omega arith in
      let here = reverse-take (suc n) (drop t ids) x (get_elem?-drop t (suc n) ids ∙ e) in
      let there = reverse-take n (drop t ids) y (get_elem?-drop t n ids ∙ f) in
      let rest = load_down-route n t (omega arith) in
      rw
        (
          next,
          id_at-Strings docs vs ids (t + suc n) s ∙ e,
          id_at-Strings docs vs ids (t + n) s ∙ f,
          rest,
          here,
          there,
        )
        refl
