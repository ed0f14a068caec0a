-- ===== src/Error/Writes.antt =====
-- Code that adds a text to the print buffer of bazelPro/src/lib/bufprintf.cc, and how such pieces of
-- code compose.
use ng.Base.{
  ℕ, ◌-◌, ◌<◌, ◌^◌, ◌≡◌, refl, sym, ap, ◌∙◌, subst, arith, List, [], ◌∷◌, ◌++◌, Option, none, some,
  ◌>>=◌, inl, inr, All,
}
use ng.Base.{ltb, lt→ltb, true, if◌then◌else◌, length, take, append_assoc, append-nil}
use ng.Buffer.{Buffer, bufprintf_all}
use ng.Buffer.Laws.{IsFormatted, Shows, bufprintf-Shows, All-Shows, texts}
use ng.Format.Arg.{Arg}
use ng.Format.Ftoa.{Double}
use ng.Format.Print.{vsnprintf_asyncsignalsafe}
use ng.Format.Contract.{vsnprintf-contract}
use ng.Error.{bufprintf_asyncsignalsafe}
use ng.Error.Prints.{Prints}

-- On any buffer with room for a null byte, `f` returns and has added `text`, as far as there is room.
abbrev pub Writes : (Buffer → Option Buffer) → List ℕ → Type 0
Writes f text =
    (n : ℕ) (before : List ℕ) (b : Buffer)
    → 0 < n
    → Shows n before b
    → (c : Buffer) × (f b ≡ some c) × Shows n (before ++ text) c

pub Writes-nothing : Writes some []
Writes-nothing n before b pos v = (b, refl, subst (λ t. Shows n t b) (sym (append-nil before)) v)

pub Writes-then :
    {f g : Buffer → Option Buffer} {s t : List ℕ}
    → Writes f s
    → Writes g t
    → Writes (λ b. f b >>= g) (s ++ t)
Writes-then {f} {g} {s} {t} wf wg n before b pos v =
    let (c, e, v') = wf n before b pos v in
    let (d, e', v'') = wg n (before ++ s) c pos v' in
    (d, rw e e', subst (λ x. Shows n x d) (append_assoc before s t) v'')

pub Writes-All :
    {A : Type 0} (formatter : ℕ → A → Option (List ℕ × ℕ)) (expand : A → List ℕ) (calls : List A)
    → All (IsFormatted formatter expand) calls
    → Writes (λ b. bufprintf_all formatter b calls) (texts expand calls)
Writes-All formatter expand calls h n before b pos v =
    All-Shows formatter expand n before b calls h pos v

module _ {F : Type 0} (fl : Double F) (turns : ℕ) where
  pub Prints-IsFormatted :
      (fmt : List ℕ) (args : List (Arg F)) (t : List ℕ) (most : ℕ)
      → Prints fl turns fmt args t most
      → most < 2 ^ 31
      → IsFormatted (vsnprintf_asyncsignalsafe fl turns) (λ call. t) (fmt, args)
  Prints-IsFormatted fmt args t most p h = record {
    prints = λ room pos. elim (vsnprintf-contract fl turns room fmt args (omega arith)) [
      | inl (e, f) ↦ absurd (none_some (sym e ∙ p.whole))
      | inr (s, e, f) ↦
          let same : some s ≡ some t = sym e ∙ p.whole in
          let whole = ap value same in
          let holds : ltb (length t) (2 ^ 31) ≡ true = lt→ltb _ _ (omega (arith, p.bound)) in
          f
          ∙ ap
              (λ x.
                if ltb (length x) (2 ^ 31)
                then some (take (room - 1) x ++ 0 ∷ [], length x)
                else none)
              whole
          ∙ rw holds refl
    ];
    small = omega (arith, p.bound);
  }
    where
      value : Option (List ℕ) → List ℕ
      value none = []
      value (some x) = x

      none_some : none ≡ some t → ⊥
      none_some e = absurd (cc)

  pub Prints-Writes :
      {fmt : List ℕ} {args : List (Arg F)} {t : List ℕ} {most : ℕ}
      → Prints fl turns fmt args t most
      → most < 2 ^ 31
      → Writes (λ b. bufprintf_asyncsignalsafe fl turns b fmt args) t
  unfolding bufprintf_asyncsignalsafe
  Prints-Writes {fmt} {args} {t} {most} p h n before b pos v =
      let (r, e, v') =
        bufprintf-Shows (vsnprintf_asyncsignalsafe fl turns) (λ call. t) n before b (fmt, args)
          (Prints-IsFormatted fmt args t most p h) pos v in
      (r.0, rw e refl, v')
