-- ===== src/Shm/Defs.antt =====
-- The shared structure, `Put`, `Get` and the constructor.
use ng.Base.{ℕ, zero, suc, ◌+◌, ◌-◌, ◌%◌, ◌^◌, List, [], ◌∷◌, Option, none, some, Bool, false}
use ng.Base.{not, ◌||◌, ltb, leb, ◌==◌, if◌then◌else◌, ◌>>=◌, replicate, length, modify}
use ng.Base.{ℤ, pos, negsuc, u16, u32, int32, rem, get_at}
use ng.Layout.{Shape, struct, array, int32_t}
use ng.Shm.Crc.{crc32}

abbrev agv_path_s : Shape
agv_path_s = struct (int32_t ∷ int32_t ∷ [])

abbrev trp_lock_s : Shape
trp_lock_s = struct (int32_t ∷ int32_t ∷ int32_t ∷ int32_t ∷ int32_t ∷ int32_t ∷ [])

abbrev agv_msg_s : Shape
agv_msg_s =
    struct (int32_t ∷ int32_t ∷ int32_t ∷ int32_t ∷ int32_t ∷ trp_lock_s ∷ array 15 agv_path_s ∷ [])

abbrev agv_info_s : Shape
agv_info_s = struct (int32_t ∷ array 15 agv_msg_s ∷ [])

abbrev pub sizeof_agv_info : ℕ
sizeof_agv_info = agv_info_s.size

abbrev pub cache_buf_max : ℕ
cache_buf_max = 15

pub record Helper : Type 0 where
  pub tag1 : ℕ
  pub version : ℕ
  pub tag2 : ℕ
  pub index : ℕ

pub record Wrapper : Type 0 where
  pub timestamp : ℕ
  pub crc : ℕ
  pub agv_info : List ℕ

pub record Context : Type 0 where
  pub helper : Helper
  pub wrapper : List Wrapper

abbrev pub zero_slot : Wrapper
zero_slot = record { timestamp = 0; crc = 0; agv_info = replicate sizeof_agv_info 0 }

-- The memory after `memset(&context, 0, sizeof(agv_buf_s))`.
abbrev pub zeroed : Context
zeroed = record {
  helper = record { tag1 = 0; version = 0; tag2 = 0; index = 0 };
  wrapper = replicate cache_buf_max zero_slot;
}

abbrev pub tagged : Context → Context
tagged c = record c {
  helper = record { tag1 = 0x5A5A5A5A; version = 1; tag2 = 0xA5A5A5A5; index = c.helper.index };
}

-- The constructor, on the memory that it maps.
unfoldable pub attach : Context → Context
attach c =
    if not (c.helper.tag1 == 0x5A5A5A5A)
      || not (c.helper.tag2 == 0xA5A5A5A5)
      || not (c.helper.version == 1)
    then tagged zeroed
    else c

-- A subscript of the ring.
abbrev pub in_bounds : ℤ → ℕ → Option ℕ
in_bounds (pos i) n = if ltb i n then some i else none
in_bounds (negsuc i) n = none

-- `context.agvs.wrapper[index].… = …`, at an index in bounds.
abbrev pub at_slot : ℕ → (Wrapper → Wrapper) → Context → Context
at_slot i f c = record c { wrapper = modify c.wrapper i f }

-- The writes of `Put`, in the order of the code: a reader may run between any two of them.
abbrev pub put_writes : ℕ → ℕ → ℕ → List ℕ → List (Context → Context)
put_writes index time crc msg =
    at_slot index (λ w. record w { timestamp = time })
    ∷ at_slot index (λ w. record w { crc = crc })
    ∷ at_slot index (λ w. record w { agv_info = msg })
    ∷ (λ c. record c { helper = record (c.helper) { index = index } })
    ∷ []

abbrev pub run_writes : List (Context → Context) → Context → Context
run_writes [] c = c
run_writes (w ∷ ws) c = run_writes ws (w c)

-- The slot after the current one, as the code computes it in `int`.
abbrev pub next_index : Context → ℤ
next_index c = rem (int32 (u32 (c.helper.index + 1))) cache_buf_max

-- The new memory and the returned value.
unfoldable pub put : Context → ℕ → List ℕ → Option (Context × ℤ)
put c clock msg = do
  crc ← crc32 msg (u16 sizeof_agv_info)
  index ← in_bounds (next_index c) (length c.wrapper)
  some (run_writes (put_writes index (u32 clock) crc msg) c, pos 0)

-- `read_time - timestamp > time_range`, in `uint32_t`.
abbrev pub too_old : ℕ → Wrapper → ℕ → Bool
too_old clock w range = ltb range ((u32 clock + 2 ^ 32 - w.timestamp) % 2 ^ 32)

abbrev pub retry_index : ℤ → ℤ
retry_index (pos zero) = pos (cache_buf_max - 1)
retry_index (pos (suc i)) = pos i
retry_index (negsuc i) = negsuc (i + 1)

-- Every result is the caller's payload after the call, and the returned value.
unfoldable pub get_former : Context → ℕ → ℕ → ℤ → List ℕ → Option (List ℕ × ℤ)
get_former c clock range index payload = do
  w ← get_at c.wrapper index
  if too_old clock w range then some (payload, negsuc 0) else do
    crc_again ← crc32 w.agv_info (u16 sizeof_agv_info)
    if not (crc_again == w.crc) then some (w.agv_info, negsuc 0) else some (w.agv_info, pos 0)

unfoldable pub get_current : Context → ℕ → ℕ → ℤ → List ℕ → Option (List ℕ × ℤ)
get_current c clock range index payload = do
  w ← get_at c.wrapper index
  if too_old clock w range then some (payload, negsuc 0) else do
    crc ← crc32 w.agv_info (u16 sizeof_agv_info)
    if not (crc == w.crc)
        then get_former c clock range (retry_index index) w.agv_info
        else some (w.agv_info, pos 0)

abbrev pub at_least : ℤ → ℕ → Bool
at_least (pos i) n = leb n i
at_least (negsuc i) n = false

unfoldable pub get : Context → ℕ → ℕ → List ℕ → Option (List ℕ × ℤ)
get c clock range payload =
    let index = int32 c.helper.index in
    if at_least index cache_buf_max
    then some (payload, negsuc 0)
    else get_current c clock range index payload
