-- ===== src/Sys/Double.antt =====
-- The floating-point numbers of bazelPro/src/utils/sys.cc.
use ng.Base.{ℤ}

-- The operations of `double` that the code uses, over the type `F` of the values.
pub record Double (F : Type 0) : Type 0 where
  pub of_int : ℤ → F
  pub div : F → F → F
  pub mul_hundred : F → F
