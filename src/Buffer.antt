-- ===== src/Buffer.antt =====
-- `bufinit` of bazelPro/src/lib/bufprintf.h and `__bufprintf` of bazelPro/src/lib/bufprintf.cc. The
-- formatter is an argument, as in the code: from the room and the arguments of type `A` it gives the
-- bytes that it writes and the number that it returns. `none` is a write outside the array.
mod Overwrite
pub mod Laws
mod Tests
use ng.Base.{
  ℕ, ◌+◌, ◌-◌, List, [], ◌∷◌, ◌++◌, Option, none, some, ◌>>=◌, leb, ltb, if◌then◌else◌, length,
  take, drop, set, u32,
}

-- The array, and the offset in it that the pointer `data` has.
pub record Buffer : Type 0 where
  pub output : List ℕ
  pub data_offset : ℕ
  pub available : ℕ

pub bufinit : List ℕ → ℕ → Option Buffer
bufinit output size =
    if ltb 0 (length output)
    then some (record { output = set output 0 0; data_offset = 0; available = size })
    else none

-- The bytes that the formatter writes at `data`.
pub format_at : Buffer → List ℕ → Option (List ℕ)
format_at b bytes =
    if leb (b.data_offset + length bytes) (length b.output)
    then some
        (take b.data_offset b.output ++ (bytes ++ drop (b.data_offset + length bytes) b.output))
    else none

module _ {A : Type 0} (formatter : ℕ → A → Option (List ℕ × ℕ)) where
  -- The new buffer and the returned number.
  pub bufprintf : Buffer → A → Option (Buffer × ℕ)
  bufprintf b args = do
    r ← formatter (b.available) args
    let nc = u32 (r.1)
    let nc = if leb b.available nc then b.available - 1 else nc
    output ← format_at b (r.0)
    some (
      record { output = output; data_offset = b.data_offset + nc; available = b.available - nc },
      nc,
    )

  -- One call after the other.
  unfoldable pub bufprintf_all : Buffer → List A → Option Buffer
  bufprintf_all b [] = some b
  bufprintf_all b (args ∷ rest) = do r ← bufprintf b args; bufprintf_all (r.0) rest
