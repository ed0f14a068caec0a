-- ===== src/Shm/Publish.antt =====
-- What a reader gets after, and in the middle of, a `Put` of bazelPro/src/tmp/tmp.cc.
use ng.Base.{
  ℕ, zero, suc, ◌+◌, ◌-◌, ◌%◌, ◌^◌, ◌<◌, ◌≤◌, ◌≡◌, ◌≢◌, refl, sym, ap, ◌∙◌, arith, List, some, take,
}
use ng.Base.{
  length, get_elem?, length-modify, get_elem?-modify_self, get_elem?-modify_ne, u32, pos, ==_refl,
}
use ng.Base.{false, le→ltb_false}
use ng.Shm.Crc.Detect.{checksum}
use ng.Shm.Defs.{
  Context, Wrapper, sizeof_agv_info, put, get, put_writes, run_writes, too_old, at_slot, in_bounds,
  next_index,
}
use ng.Shm.Ring.{
  IsContext, next_slot, former_slot, published, put-published, published-IsContext, get-chosen,
  slot_at, chosen, IsSized, All-modify, next_in_bounds,
}

-- The record of a message that was put at a time.
abbrev pub stored : ℕ → List ℕ → Wrapper
stored clock msg = record { timestamp = u32 clock; crc = checksum msg; agv_info = msg }

-- The age of a record that was put at `clock`, as `Get` computes it at `later`.
abbrev pub age : ℕ → ℕ → ℕ
age clock later = (u32 later + 2 ^ 32 - u32 clock) % 2 ^ 32

pub published_current :
    (c : Context) (clock : ℕ) (msg : List ℕ)
    → IsContext c
    → get_elem? (published c clock msg).wrapper (next_slot c.helper.index) ≡ some (stored clock msg)
published_current c clock msg v =
    let i = next_slot c.helper.index in
    let (w, e) = slot_at c i v (omega arith) in
    get_elem?-modify_self _ i _ _
      (get_elem?-modify_self _ i _ _ (get_elem?-modify_self c.wrapper i _ w e))

pub published_other :
    (c : Context) (clock : ℕ) (msg : List ℕ) (j : ℕ)
    → next_slot c.helper.index ≢ j
    → get_elem? (published c clock msg).wrapper j ≡ get_elem? c.wrapper j
published_other c clock msg j ne =
    let i = next_slot c.helper.index in
    get_elem?-modify_ne _ i j _ ne
    ∙ get_elem?-modify_ne _ i j _ ne
    ∙ get_elem?-modify_ne c.wrapper i j _ ne

chosen_fresh :
    (former : Wrapper) (clock later range : ℕ) (msg old : List ℕ)
    → age clock later ≤ range
    → chosen (stored clock msg) former later range old ≡ (msg, pos 0)
chosen_fresh former clock later range msg old h =
    let fresh : too_old later (stored clock msg) range ≡ false = le→ltb_false _ _ h in
    rw (fresh, ==_refl (checksum msg))

-- On a well-formed structure and a message of the right size, `Put` returns 0 and leaves a
-- well-formed structure, and every `Get` that follows returns 0 with exactly that message, as long
-- as its age on the 32-bit clock is within the reader's range.
pub get-put :
    (c : Context) (clock later range : ℕ) (msg old : List ℕ)
    → IsContext c
    → length msg ≡ sizeof_agv_info
    → age clock later ≤ range
    → (c' : Context) × (put c clock msg ≡ some (c', pos 0))
      × IsContext c'
      × (get c' later range old ≡ some (msg, pos 0))
get-put c clock later range msg old v sized h =
    let v' = published-IsContext c clock msg v sized in
    let (f, e) =
      slot_at (published c clock msg) (former_slot (next_slot c.helper.index)) v' (omega arith) in
    (
      published c clock msg,
      put-published c clock msg v sized,
      v',
      get-chosen _ later range (stored clock msg) f old v' (published_current c clock msg v) e
          ∙ ap some (chosen_fresh f clock later range msg old h),
    )

-- A write to a slot that is neither the current one nor the one before it.
module _ (i : ℕ) (f : Wrapper → Wrapper) (keeps : (w : Wrapper) → IsSized w → IsSized (f w)) where
  at_slot-IsContext : (c : Context) → IsContext c → IsContext (at_slot i f c)
  at_slot-IsContext c v = record {
    slots = rw length-modify v.slots;
    current = v.current;
    sized = All-modify c.wrapper i f keeps v.sized;
  }

  get-at_slot :
      (c : Context) (later range : ℕ) (old : List ℕ)
      → IsContext c
      → i ≢ c.helper.index
      → i ≢ former_slot c.helper.index
      → get (at_slot i f c) later range old ≡ get c later range old
  get-at_slot c later range old v ne ne' =
      let (w, e) = slot_at c c.helper.index v v.current in
      let (u, g) = slot_at c (former_slot c.helper.index) v (omega arith) in
      get-chosen (at_slot i f c) later range w u old (at_slot-IsContext c v)
        (get_elem?-modify_ne c.wrapper i _ f ne ∙ e) (get_elem?-modify_ne c.wrapper i _ f ne' ∙ g)
      ∙ sym (get-chosen c later range w u old v e g)

-- A reader that runs while a `Put` is under way, after fewer than all of its four writes (made in
-- the order of the code), gets what it would have got before the `Put` began: the slot being
-- written is neither the current one nor the one that is tried again, and the index is last.
pub get_during_put :
    (c : Context) (k index time crc later range : ℕ) (msg old : List ℕ)
    → IsContext c
    → length msg ≡ sizeof_agv_info
    → in_bounds (next_index c) (length c.wrapper) ≡ some index
    → k < 4
    → get (run_writes (take k (put_writes index time crc msg)) c) later range old
      ≡ get c later range old
get_during_put c k index time crc later range msg old v sized e h = after k h
  where
    there : index ≡ next_slot c.helper.index
    there = ground (arith, next_in_bounds c v)

    ne : index ≢ c.helper.index
    ne = omega (arith, there, v.current)

    ne' : index ≢ former_slot c.helper.index
    ne' = omega (arith, there, v.current)

    stamped : Context
    stamped = at_slot index (λ w. record w { timestamp = time }) c

    v1 : IsContext stamped
    v1 = at_slot-IsContext index _ (λ w s. s) c v

    g1 : get stamped later range old ≡ get c later range old
    g1 = get-at_slot index _ (λ w s. s) c later range old v ne ne'

    summed : Context
    summed = at_slot index (λ w. record w { crc = crc }) stamped

    v2 : IsContext summed
    v2 = at_slot-IsContext index _ (λ w s. s) stamped v1

    g2 : get summed later range old ≡ get c later range old
    g2 = get-at_slot index _ (λ w s. s) stamped later range old v1 ne ne' ∙ g1

    after :
        (k : ℕ)
        → k < 4
        → get (run_writes (take k (put_writes index time crc msg)) c) later range old
          ≡ get c later range old
    after zero h = refl
    after (suc zero) h = g1
    after (suc (suc zero)) h = g2
    after (suc (suc (suc zero))) h =
        get-at_slot index _ (λ w _. sized) summed later range old v2 ne ne' ∙ g2
    after (suc (suc (suc (suc k)))) h = absurd (omega arith)
