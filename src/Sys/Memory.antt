-- ===== src/Sys/Memory.antt =====
-- `get_memory_usage` of bazelPro/src/utils/sys.cc, on the text of /proc/meminfo.
pub mod Unset
use ng.Base.{
  ℕ, ◌+◌, ◌-◌, ◌^◌, List, [], ◌∷◌, Option, none, some, Bool, true, false, ◌&&◌, ◌>>=◌, ltb, leb,
  if◌then◌else◌, ℤ, pos, negsuc, ◌+ℤ◌, ◌-ℤ◌,
}
use ng.Sys.Double.{Double}
use ng.Sys.Stream.{Stream, ifstream, get_string, get_int}

-- The variables, `none` where nothing was ever stored.
pub record Memory : Type 0 where
  pub total_memory : Option ℤ
  pub free_memory : Option ℤ
  pub available_memory : Option ℤ
  pub buffer : Option ℤ
  pub cache : Option ℤ
  pub swap : Option ℤ
  pub free_swap : Option ℤ

-- `>> ignore` or `>> unit`: the word is not used.
abbrev pub ignore : Stream → Stream
ignore s = (get_string s []).0

-- A number and its unit.
pub amount : Stream → Stream × Option ℤ
amount s = let r = get_int s none in (ignore r.0, r.1)

pub read_memory : Option (List ℕ) → Memory
read_memory mem_file =
    let total = amount (ignore (ifstream mem_file)) in
    let free = amount (ignore total.0) in
    let available = amount (ignore free.0) in
    let buffers = amount (ignore (ignore available.0)) in
    let cached = amount (ignore (ignore buffers.0)) in
    let swaps = amount (ignore (ignore (ignore (ignore cached.0)))) in
    let free_swaps = amount (ignore (ignore (ignore (ignore swaps.0)))) in
    record {
      total_memory = total.1;
      free_memory = free.1;
      available_memory = available.1;
      buffer = buffers.1;
      cache = cached.1;
      swap = swaps.1;
      free_swap = free_swaps.1;
    }

-- The value of an `int` operation, `none` when it overflows.
abbrev pub int : ℤ → Option ℤ
int (pos n) = if ltb n (2 ^ 31) then some (pos n) else none
int (negsuc n) = if ltb n (2 ^ 31) then some (negsuc n) else none

-- `none` where a variable is used that was never set, or an `int` overflows.
pub get_memory_usage : {F : Type 0} → Double F → Option (List ℕ) → Option F
get_memory_usage fl mem_file = do
  let m = read_memory mem_file
  total_memory ← m.total_memory
  free_memory ← m.free_memory
  taken ← int (total_memory -ℤ free_memory)
  buffer ← m.buffer
  cache ← m.cache
  kept ← int (buffer +ℤ cache)
  used_memory ← int (taken -ℤ kept)
  some (fl.mul_hundred (fl.div (fl.of_int used_memory) (fl.of_int total_memory)))
