-- ===== src/Shm/Ring.antt =====
-- The ring of bazelPro/src/tmp/tmp.cc: the invariant that the constructor and `Put` keep, and what
-- `Put` and `Get` compute under it.
use ng.Base.{ℕ, zero, suc, ◌+◌, ◌%◌, ◌<◌, ◌≡◌, refl, ap, subst, arith, List, [], ◌∷◌, some}
use ng.Base.{false, ◌==◌, if◌then◌else◌, length, modify, length-modify, get_elem?, All, u16, u32}
use ng.Base.{ℤ, pos, negsuc, int32, get_elem?-some}
use ng.Shm.Crc.{crc32}
use ng.Shm.Crc.Detect.{checksum, crc32-checksum}
use ng.Shm.Defs.{
  Context, Wrapper, sizeof_agv_info, cache_buf_max, next_index, retry_index, in_bounds, at_least,
  put, get, get_current, get_former, put_writes, run_writes, too_old,
}

abbrev pub IsSized : Wrapper → Type 0
IsSized w = length w.agv_info ≡ sizeof_agv_info

-- A mapped structure with a current slot.
pub record IsContext (c : Context) : Type 0 where
  pub slots : length c.wrapper ≡ cache_buf_max
  pub current : c.helper.index < cache_buf_max
  pub sized : All IsSized c.wrapper

abbrev pub next_slot : ℕ → ℕ
next_slot i = (i + 1) % cache_buf_max

-- The memory that `Put` leaves.
abbrev pub published : Context → ℕ → List ℕ → Context
published c clock msg =
    run_writes (put_writes (next_slot c.helper.index) (u32 clock) (checksum msg) msg) c

pub crc32-sized :
    (msg : List ℕ)
    → length msg ≡ sizeof_agv_info
    → crc32 msg (u16 sizeof_agv_info) ≡ some (checksum msg)
crc32-sized msg h = subst (λ (n : ℕ). crc32 msg n ≡ some (checksum msg)) h (crc32-checksum msg)

pub next_in_bounds :
    (c : Context)
    → IsContext c
    → in_bounds (next_index c) (length c.wrapper) ≡ some (next_slot c.helper.index)
next_in_bounds c v = ground arith

pub put-published :
    (c : Context) (clock : ℕ) (msg : List ℕ)
    → IsContext c
    → length msg ≡ sizeof_agv_info
    → put c clock msg ≡ some (published c clock msg, pos 0)
unfolding put
put-published c clock msg v h = rw (crc32-sized msg h, next_in_bounds c v)

pub All-modify :
    (ws : List Wrapper) (i : ℕ) (f : Wrapper → Wrapper)
    → ((w : Wrapper) → IsSized w → IsSized (f w))
    → All IsSized ws
    → All IsSized (modify ws i f)
All-modify [] i f h a = a
All-modify (w ∷ ws) zero f h a = (h w a.0, a.1)
All-modify (w ∷ ws) (suc i) f h a = (a.0, All-modify ws i f h a.1)

pub published-IsContext :
    (c : Context) (clock : ℕ) (msg : List ℕ)
    → IsContext c
    → length msg ≡ sizeof_agv_info
    → IsContext (published c clock msg)
published-IsContext c clock msg v h = record {
  slots = rw (length-modify, length-modify, length-modify) v.slots;
  current = omega arith;
  sized =
      All-modify _ i _ (λ w _. h)
        (All-modify _ i _ (λ w s. s) (All-modify c.wrapper i _ (λ w s. s) v.sized));
}
  where
    i : ℕ
    i = next_slot c.helper.index

-- What `Get` does once the current slot and the one before it are known.
abbrev pub chosen : Wrapper → Wrapper → ℕ → ℕ → List ℕ → List ℕ × ℤ
chosen w former clock range payload =
    if too_old clock w range
    then (payload, negsuc 0)
    else if checksum w.agv_info == w.crc
    then (w.agv_info, pos 0)
    else if too_old clock former range
    then (w.agv_info, negsuc 0)
    else if checksum former.agv_info == former.crc
    then (former.agv_info, pos 0)
    else (former.agv_info, negsuc 0)

-- The slot before a slot.
abbrev pub former_slot : ℕ → ℕ
former_slot i = (i + 14) % cache_buf_max

IsSized-at :
    (ws : List Wrapper) (i : ℕ) (w : Wrapper) → All IsSized ws → get_elem? ws i ≡ some w → IsSized w
IsSized-at [] i w a e = cc
IsSized-at (x ∷ ws) zero w a e = let same : x ≡ w = cc in subst IsSized same a.0
IsSized-at (x ∷ ws) (suc i) w a e = IsSized-at ws i w a.1 e

get_former_lem :
    (c : Context) (clock range i : ℕ) (w : Wrapper) (payload : List ℕ)
    → IsContext c
    → get_elem? c.wrapper i ≡ some w
    → get_former c clock range (pos i) payload
      ≡ some (
          if too_old clock w range
          then (payload, negsuc 0)
          else if checksum w.agv_info == w.crc
          then (w.agv_info, pos 0)
          else (w.agv_info, negsuc 0))
unfolding get_former
get_former_lem c clock range i w payload v e =
    rw (e, crc32-sized w.agv_info (IsSized-at c.wrapper i w v.sized e)) (ground arith)

retry_former : (i : ℕ) → i < cache_buf_max → retry_index (pos i) ≡ pos (former_slot i)
retry_former zero h = refl
retry_former (suc i) h = ap pos (omega arith)

get_current_lem :
    (c : Context) (clock range i : ℕ) (w former : Wrapper) (payload : List ℕ)
    → IsContext c
    → i < cache_buf_max
    → get_elem? c.wrapper i ≡ some w
    → get_elem? c.wrapper (former_slot i) ≡ some former
    → get_current c clock range (pos i) payload ≡ some (chosen w former clock range payload)
unfolding get_current
get_current_lem c clock range i w former payload v h e f =
    rw
      (
        e,
        crc32-sized w.agv_info (IsSized-at c.wrapper i w v.sized e),
        retry_former i h,
        get_former_lem c clock range (former_slot i) former w.agv_info v f,
      )
      (ground arith)

-- `Get` on a well-formed structure returns, and does what `chosen` says.
pub get-chosen :
    (c : Context) (clock range : ℕ) (w former : Wrapper) (payload : List ℕ)
    → IsContext c
    → get_elem? c.wrapper c.helper.index ≡ some w
    → get_elem? c.wrapper (former_slot c.helper.index) ≡ some former
    → get c clock range payload ≡ some (chosen w former clock range payload)
unfolding get
get-chosen c clock range w former payload v e f =
    let i : int32 c.helper.index ≡ pos c.helper.index = ground arith in
    let inside : at_least (pos c.helper.index) cache_buf_max ≡ false = ground arith in
    rw (i, inside) (get_current_lem c clock range c.helper.index w former payload v v.current e f)

-- The two slots that `Get` looks at.
pub slot_at :
    (c : Context) (i : ℕ)
    → IsContext c
    → i < cache_buf_max
    → (w : Wrapper) × (get_elem? c.wrapper i ≡ some w)
slot_at c i v h = get_elem?-some c.wrapper i (rw v.slots h)

pub slot-IsSized :
    (c : Context) (i : ℕ) (w : Wrapper) → IsContext c → get_elem? c.wrapper i ≡ some w → IsSized w
slot-IsSized c i w v e = IsSized-at c.wrapper i w v.sized e
