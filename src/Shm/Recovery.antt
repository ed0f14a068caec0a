-- ===== src/Shm/Recovery.antt =====
-- Damaged records: what `Get` of bazelPro/src/tmp/tmp.cc never returns as good, and when it falls
-- back on the message before.
use ng.Base.{ℕ, ◌+◌, ◌-◌, ◌^◌, ◌%◌, ◌≤◌, ◌≡◌, arith, List, some, pos}
use ng.Base.{ℤ, negsuc, get_elem?}
use ng.Base.{◌⊎◌, Option}
use ng.Shm.Crc.Detect.{checksum}
use ng.Shm.Defs.{Context, Wrapper, cache_buf_max, get}
use ng.Shm.Ring.{IsContext, former_slot, get-chosen, slot_at, chosen}

-- `w` can be given to a reader at the time `later`: its checksum fits its bytes, and it is not
-- older than the range.
abbrev pub IsGood : ℕ → ℕ → Wrapper → Type 0
IsGood later range w =
    (checksum w.agv_info ≡ w.crc) × ((later % 2 ^ 32 + 2 ^ 32 - w.timestamp) % 2 ^ 32 ≤ range)

-- What `Get` may deliver from two slots: nothing (-1), or the bytes of a good one of them (0).
abbrev pub Delivers : ℕ → ℕ → Wrapper → Wrapper → List ℕ → Option (List ℕ × ℤ) → Type 0
Delivers later range w former p r =
    (r ≡ some (p, negsuc 0))
    ⊎ ((r ≡ some (p, pos 0))
        × ((IsGood later range w × (p ≡ w.agv_info))
            ⊎ (IsGood later range former × (p ≡ former.agv_info))))

chosen-Delivers :
    (w former : Wrapper) (later range : ℕ) (old : List ℕ)
    → Delivers later range w former
        (chosen w former later range old).0
        (some (chosen w former later range old))
chosen-Delivers w former later range old = ground arith

-- On a well-formed structure `Get` returns, with 0 or -1; and where it returns 0 the payload is
-- that of the current slot or of the one before it, whose checksum fits its bytes and whose age is
-- within the range.
pub get_sound :
    (c : Context) (later range : ℕ) (old : List ℕ)
    → IsContext c
    → (w : Wrapper) × (former : Wrapper) × (p : List ℕ) × (get_elem? c.wrapper c.helper.index
        ≡ some w)
      × (get_elem? c.wrapper ((c.helper.index + 14) % cache_buf_max) ≡ some former)
      × Delivers later range w former p (get c later range old)
get_sound c later range old v =
    let (w, e) = slot_at c c.helper.index v v.current in
    let (former, f) = slot_at c (former_slot c.helper.index) v (omega arith) in
    (
      w,
      former,
      (chosen w former later range old).0,
      e,
      f,
      rw (get-chosen c later range w former old v e f) (chosen-Delivers w former later range old),
    )
