-- ===== src/Layout.antt =====
-- The size of a C structure on the program's platform: each field at the next offset that its
-- alignment allows, and the whole rounded up to the largest alignment. `sizeof` in the messages of
-- bazelPro/src/hk and in the shared memory of bazelPro/src/tmp/tmp.h is computed by it.
use Prim.Native.Nat.{max}
use ng.Base.{ℕ, ◌+◌, ◌-◌, ◌*◌, ◌/◌, List, [], ◌∷◌}

pub record Shape : Type 0 where
  pub size : ℕ
  pub align : ℕ

abbrev round_up : ℕ → ℕ → ℕ
round_up n a = (n + a - 1) / a * a

abbrev end_offset : ℕ → List Shape → ℕ
end_offset offset [] = offset
end_offset offset (f ∷ fs) = end_offset (round_up offset f.align + f.size) fs

abbrev max_align : List Shape → ℕ
max_align [] = 1
max_align (f ∷ fs) = max f.align (max_align fs)

abbrev pub struct : List Shape → Shape
struct fields = record {
  size = round_up (end_offset 0 fields) (max_align fields);
  align = max_align fields;
}

abbrev pub array : ℕ → Shape → Shape
array n elem = record { size = n * elem.size; align = elem.align }

abbrev pub char : Shape
char = record { size = 1; align = 1 }

abbrev pub int16_t : Shape
int16_t = record { size = 2; align = 2 }

abbrev pub int32_t : Shape
int32_t = record { size = 4; align = 4 }
