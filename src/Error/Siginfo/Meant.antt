-- ===== src/Error/Siginfo/Meant.antt =====
-- The tests and texts of bazelPro/src/lib/prettyprint_siginfo.cc are those of the table.
use ng.Base.{
  ℕ, ◌≡◌, refl, sym, ap, ◌∙◌, subst, List, [], ◌∷◌, Bool, true, false, ◌==◌, ◌||◌, if◌then◌else◌,
  Bool-cases, inl, inr, ==_iff,
}
use ng.Error.Siginfo.{is_fault}
use ng.Error.Siginfo.Codes.{
  strcode, find_code, or_else, signal_codes, si_codes, ill_codes, fpe_codes, segv_codes, bus_codes,
  trap_codes, cld_codes, poll_codes,
}
use ng.Error.Siginfo.Table.{faults, is_one_of, of_any_signal, of_signal, any_row, row, meaning}

or_chain :
    (a b c d e : Bool)
    → (a || (b || (c || (d || e)))) ≡ (
        if a
        then true
        else if b
        then true
        else if c
        then true
        else if d
        then true
        else if e
        then true
        else false)
or_chain true b c d e = refl
or_chain false true c d e = refl
or_chain false false true d e = refl
or_chain false false false true e = refl
or_chain false false false false true = refl
or_chain false false false false false = refl

pub is_fault-faults : (signo : ℕ) → is_fault signo ≡ is_one_of faults signo
is_fault-faults signo = or_chain (signo == 4) (signo == 8) (signo == 11) (signo == 7) (signo == 5)

any_row-find_code :
    (code : ℕ) (cases : List (ℕ × List ℕ)) (t : List ℕ)
    → or_else (find_code code cases) t ≡ any_row code cases t
any_row-find_code code [] t = refl
any_row-find_code code (c ∷ cases) t = elim (Bool-cases (code == c.0)) [
  | inl e ↦ rw e refl
  | inr e ↦ rw e (any_row-find_code code cases t)
]

-- The rows of one signal.
abbrev tagged : ℕ → List (ℕ × List ℕ) → List (ℕ × ℕ × List ℕ)
tagged s [] = []
tagged s (c ∷ cases) = (s, c.0, c.1) ∷ tagged s cases

row-tagged :
    (s code : ℕ) (cases : List (ℕ × List ℕ))
    → (s == s) ≡ true
    → or_else (find_code code cases) [] ≡ row s code (tagged s cases)
row-tagged s code [] h = refl
row-tagged s code (c ∷ cases) h = elim (Bool-cases (code == c.0)) [
  | inl e ↦ rw (h, e) refl
  | inr e ↦ rw (h, e) (row-tagged s code cases h)
]

Agree : ℕ → ℕ → Type 0
Agree code signo = or_else (find_code code (signal_codes signo)) [] ≡ row signo code of_signal

row-signal_codes : (signo code : ℕ) → Agree code signo
unfolding Agree
row-signal_codes signo code = elim (Bool-cases (signo == 4)) [
  | inl e ↦ subst (Agree code) (sym ((==_iff signo 4).0 e)) (row-tagged 4 code ill_codes refl)
  | inr e4 ↦ elim (Bool-cases (signo == 8)) [
    | inl e ↦ subst (Agree code) (sym ((==_iff signo 8).0 e)) (row-tagged 8 code fpe_codes refl)
    | inr e8 ↦ elim (Bool-cases (signo == 11)) [
      | inl e ↦
          subst (Agree code) (sym ((==_iff signo 11).0 e)) (row-tagged 11 code segv_codes refl)
      | inr e11 ↦ elim (Bool-cases (signo == 7)) [
        | inl e ↦ subst (Agree code) (sym ((==_iff signo 7).0 e)) (row-tagged 7 code bus_codes refl)
        | inr e7 ↦ elim (Bool-cases (signo == 5)) [
          | inl e ↦
              subst (Agree code) (sym ((==_iff signo 5).0 e)) (row-tagged 5 code trap_codes refl)
          | inr e5 ↦ elim (Bool-cases (signo == 17)) [
            | inl e ↦
                subst (Agree code) (sym ((==_iff signo 17).0 e)) (row-tagged 17 code cld_codes refl)
            | inr e17 ↦ elim (Bool-cases (signo == 29)) [
              | inl e ↦
                  subst (Agree code) (sym ((==_iff signo 29).0 e))
                    (row-tagged 29 code poll_codes refl)
              | inr e29 ↦ rw (e4, e8, e11, e7, e5, e17, e29) refl
            ]
          ]
        ]
      ]
    ]
  ]
]

pub strcode-meaning : (signo code : ℕ) → strcode signo code ≡ meaning signo code
unfolding strcode Agree
strcode-meaning signo code =
    any_row-find_code code si_codes (or_else (find_code code (signal_codes signo)) [])
    ∙ ap (any_row code of_any_signal) (row-signal_codes signo code)
