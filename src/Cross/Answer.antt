-- ===== src/Cross/Answer.antt =====
-- What `test_cross_map` of bazelPro/src/tmp/tmp.cc answers, described apart from the code.
use ng.Base.{
  ℕ, suc, ◌+◌, ◌-◌, ◌<◌, ◌≡◌, refl, sym, ap, ◌∙◌, arith, List, [], ◌∷◌, Option, none, some, Bool,
  true, false, if◌then◌else◌, inl, inr,
}
use ng.Base.{length, Bool-cases, Option-cases, ltb, ltb→lt, ltb_false→le, ℤ, pos, negsuc}
use ng.Format.Arg.{codes}
use ng.Base.{same_text}
use ng.Cross.{Documents, document, find_ids, walk, scan_rules, test_cross_map, load_down}
use ng.Cross.Route.{
  Strings, no_strings, one_string, route, load_route, load_up-route, load_down-route,
}

-- The last place at which an id stands.
abbrev pub last_index : List ℕ → List (List ℕ) → Option ℕ
last_index x [] = none
last_index x (id ∷ ids) = elim (last_index x ids) [
  | some i ↦ some (suc i)
  | none ↦ if same_text id x then some 0 else none
]

-- The first rule with both ids decides: every crossing of its way is loaded.
module _ {V : Type 0} (docs : Documents V) (from to : List ℕ) where
  abbrev pub answer_by :
      Option ℕ
      → Option ℕ
      → List (List ℕ)
      → Option (Bool × List (List ℕ))
      → Option (Bool × List (List ℕ))
  answer_by none k ids others = others
  answer_by (some i) none ids others = others
  answer_by (some i) (some k) ids others = load_route docs (route ids i k)

  abbrev pub answer : List (List (List ℕ)) → Option (Bool × List (List ℕ))
  answer [] = some (false, [])
  answer (ids ∷ rules) = answer_by (last_index from ids) (last_index to ids) ids (answer rules)

-- The elements are objects, each with an array of strings for its rule.
pub data Rules {V : Type 0} (docs : Documents V) : List V → List (List (List ℕ)) → Type 0 where
  no_rules : Rules docs [] []
  one_rule :
      {d r : V} {ds : List V} {ids : List (List ℕ)} {rules : List (List (List ℕ))}
      → docs.member (codes "rule") d ≡ some r
      → docs.is_array r ≡ true
      → Strings docs (docs.elements r) ids
      → Rules docs ds rules
      → Rules docs (d ∷ ds) (ids ∷ rules)

-- The index that the loop over a rule finds, from `j` on, where `found` was found before.
abbrev place : ℕ → ℤ → Option ℕ → ℤ
place j found none = found
place j found (some i) = pos (j + i)

place-last :
    (x id : List ℕ) (ids : List (List ℕ)) (j : ℕ) (found : ℤ)
    → place (j + 1) (if same_text id x then pos j else found) (last_index x ids)
      ≡ place j found (last_index x (id ∷ ids))
place-last x id ids j found = elim (Option-cases (last_index x ids)) [
  | inr (i, e) ↦ rw e (ap pos (omega arith))
  | inl e ↦ rw e (elim (Bool-cases (same_text id x)) [
    | inl f ↦ rw f (ap pos (omega arith))
    | inr f ↦ rw f refl
  ])
]

last_index-lt :
    (x : List ℕ) (ids : List (List ℕ)) (i : ℕ) → last_index x ids ≡ some i → i < length ids
last_index-lt x [] i = λ h. absurd (cc)
last_index-lt x (id ∷ ids) i = elim (Option-cases (last_index x ids)) [
  | inr (j, e) ↦
      rw e (λ h. let same : suc j ≡ i = cc in let ih = last_index-lt x ids j e in omega arith)
  | inl e ↦ rw e (elim (Bool-cases (same_text id x)) [
    | inl f ↦ rw f (λ h. let same : 0 ≡ i = cc in omega arith)
    | inr f ↦ rw f (λ h. absurd (cc))
  ])
]

module _ {V : Type 0} (docs : Documents V) where
  find_ids-last :
      (from to : List ℕ) (j : ℕ) (a b : ℤ) (vs : List V) (ids : List (List ℕ))
      → Strings docs vs ids
      → find_ids docs from to j a b vs
        ≡ some (place j a (last_index from ids), place j b (last_index to ids))
  unfolding find_ids
  find_ids-last from to j a b vs ids no_strings = refl
  find_ids-last from to j a b vs ids (one_string {vs = ws} {s = id} {ss = rest} e s) =
      let here = if same_text id from then pos j else a in
      let there = if same_text id to then pos j else b in
      rw
        (
          e,
          find_ids-last from to (j + 1) here there ws rest s,
          place-last from id rest j a,
          place-last to id rest j b,
        )
        refl

  walk-route :
      (i k : ℕ) (vs : List V) (ids : List (List ℕ))
      → Strings docs vs ids
      → i < length ids
      → k < length ids
      → walk docs (pos i) (pos k) vs ≡ load_route docs (route ids i k)
  unfolding walk
  walk-route i k vs ids s h h' =
      let same : i + 0 ≡ i = omega arith in
      let same' : k + 0 ≡ k = omega arith in
      elim (Bool-cases (ltb i k)) [
        | inl e ↦
            let less = ltb→lt i k e in
            rw (same, same', e) (load_up-route docs vs ids s (k - i) i (omega arith))
        | inr e ↦
            let le = ltb_false→le i k e in
            let back : k + (i - k) ≡ i = omega arith in
            rw (same, same', e)
              (ap (λ m. load_down docs (i - k) m vs) (sym back)
                ∙ load_down-route docs vs ids s (i - k) k (omega arith))
      ]

  scan_rules-answer :
      (from to : List ℕ) (ds : List V) (rules : List (List (List ℕ)))
      → Rules docs ds rules
      → scan_rules docs from to ds ≡ answer docs from to rules
  unfolding scan_rules
  scan_rules-answer from to ds rules no_rules = refl
  scan_rules-answer from to (d ∷ ds) (ids ∷ rules) (one_rule {r = r} e f s rest) =
      let found = find_ids-last from to 0 (negsuc 0) (negsuc 0) (docs.elements r) ids s in
      let others = scan_rules-answer from to ds rules rest in
      rw (e, f, found, others)
        (elim (Option-cases (last_index from ids)) [
          | inl g ↦ rw g refl
          | inr (i, g) ↦ elim (Option-cases (last_index to ids)) [
            | inl g' ↦ rw (g, g') refl
            | inr (k, g') ↦
                rw (g, g')
                  (let first : 0 + i ≡ i = omega arith in
                    let last : 0 + k ≡ k = omega arith in
                    rw (first, last)
                      (walk-route i k (docs.elements r) ids s (last_index-lt from ids i g)
                        (last_index-lt to ids k g')))
          ]
        ])

  -- When the rules are an array of objects, each with an array of strings, `test_cross_map` answers as
  -- the first rule decides in which both places stand: by loading, in the order of the way from the one
  -- to the other, forwards or backwards through the rule, every crossing with its next one. It succeeds
  -- with their infos, fails at the first that is not found, and fails without such a rule. Where a
  -- place stands twice in a rule, its last place counts.
  pub test_cross_map-answer :
      (from to : List ℕ) (d : V) (rules : List (List (List ℕ)))
      → docs.read (codes "./map_cross/cross_rule.json") ≡ document d
      → docs.is_array d ≡ true
      → Rules docs (docs.elements d) rules
      → test_cross_map docs from to ≡ answer docs from to rules
  unfolding test_cross_map
  test_cross_map-answer from to d rules e f r =
      rw (test_cross_map, e, f) (scan_rules-answer from to (docs.elements d) rules r)
