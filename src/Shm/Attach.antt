-- ===== src/Shm/Attach.antt =====
-- The constructor of `Hk_Shm` in bazelPro/src/tmp/tmp.h, on memory that may hold anything.
use ng.Base.{ℕ, ◌≡◌, refl, arith, length-replicate, All-replicate}
use ng.Base.{◌⊎◌, inl, inr, ◌==◌, not, ◌||◌, false, true, Bool, Bool-cases}
use ng.Shm.Defs.{Context, sizeof_agv_info, attach, tagged, zeroed, zero_slot}
use ng.Shm.Ring.{IsContext, IsSized}

-- The tags and the version that the constructor looks for.
abbrev pub IsTagged : Context → Type 0
IsTagged c = (c.helper.tag1 ≡ 0x5A5A5A5A) × (c.helper.tag2 ≡ 0xA5A5A5A5) × (c.helper.version ≡ 1)

fresh-IsContext : IsContext (tagged zeroed)
fresh-IsContext = record {
  slots = length-replicate 15 zero_slot;
  current = omega arith;
  sized = All-replicate IsSized 15 zero_slot (length-replicate {A = ℕ} sizeof_agv_info 0);
}

abbrev untagged : Context → Bool
untagged c =
    not (c.helper.tag1 == 0x5A5A5A5A)
    || not (c.helper.tag2 == 0xA5A5A5A5)
    || not (c.helper.version == 1)

untagged-true : (c : Context) → untagged c ≡ true → ¬ IsTagged c
untagged-true c e h = ground arith

untagged-false : (c : Context) → untagged c ≡ false → IsTagged c
untagged-false c e = ground arith

-- Whatever the memory holds, after the constructor it is tagged, and a second process that
-- attaches to it changes nothing. Memory that was tagged is kept as it is; memory that was not is
-- made a well-formed structure.
pub attach_lem :
    (c : Context)
    → IsTagged (attach c)
      × (attach (attach c) ≡ attach c)
      × (((attach c ≡ c) × IsTagged c) ⊎ (¬ IsTagged c × IsContext (attach c)))
unfolding attach
attach_lem c = elim (Bool-cases (untagged c)) [
  | inl e ↦ rw e ((refl, refl, refl), refl, inr (untagged-true c e, fresh-IsContext))
  | inr e ↦ rw e (untagged-false c e, rw e, inl (refl, untagged-false c e))
]
