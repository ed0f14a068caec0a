-- ===== src/Format/Ftoa/Ends.antt =====
-- When the division loop of `ftoa` of bazelPro/src/lib/snprintf_asyncsignalsafe.cc ends.
use ng.Base.{ℕ, zero, suc, ◌+◌, ◌≤◌, ◌≡◌, refl, arith, some, false, ◌↔◌, Bool-cases, inl, inr}
use ng.Format.Ftoa.{Double, scale}

module _ {F : Type 0} (fl : Double F) where
  -- So many divisions by ten.
  abbrev pub divided : ℕ → F → F
  divided zero f = f
  divided (suc k) f = divided k (fl.div_ten f)

  -- Enough rounds are enough, however many more are given.
  scale-some :
      (k turns exp : ℕ) (f : F)
      → fl.at_least_ten (divided k f) ≡ false
      → k ≤ turns
      → (r : F × ℕ) × (scale fl turns f exp ≡ some r) × (fl.at_least_ten r.0 ≡ false)
  unfolding scale
  scale-some zero zero exp f small h = ((f, exp), rw small refl, small)
  scale-some zero (suc turns) exp f small h = ((f, exp), rw small refl, small)
  scale-some (suc k) zero exp f small h = absurd (omega arith)
  scale-some (suc k) (suc turns) exp f small h = elim (Bool-cases (fl.at_least_ten f)) [
    | inl e ↦ rw e (scale-some k turns (exp + 1) (fl.div_ten f) small (omega arith))
    | inr e ↦ ((f, exp), rw e refl, e)
  ]

  scale_inv :
      (turns exp : ℕ) (f : F) (r : F × ℕ)
      → scale fl turns f exp ≡ some r
      → (k : ℕ) × (fl.at_least_ten (divided k f) ≡ false)
  unfolding scale
  scale_inv zero exp f r = elim (Bool-cases (fl.at_least_ten f)) [
    | inl e ↦ rw e (λ h. absurd (cc))
    | inr e ↦ λ h. (0, e)
  ]
  scale_inv (suc turns) exp f r = elim (Bool-cases (fl.at_least_ten f)) [
    | inl e ↦
        rw e (λ h. let (k, small) = scale_inv turns (exp + 1) (fl.div_ten f) r h in (suc k, small))
    | inr e ↦ λ h. (0, e)
  ]

  -- The division loop ends, in some number of rounds, exactly for the numbers that some number of
  -- divisions brings below ten; so it never ends for another number, such as an infinity.
  pub scale_iff :
      (f : F) (exp : ℕ)
      → ((turns : ℕ) × (r : F × ℕ) × (scale fl turns f exp ≡ some r))
        ↔ ((k : ℕ) × (fl.at_least_ten (divided k f) ≡ false))
  scale_iff f exp = (
    λ h. scale_inv h.0 exp f h.1 h.2,
    λ h. let (r, e, _) = scale-some h.0 h.0 exp f h.1 (omega arith) in (h.0, r, e),
  )
