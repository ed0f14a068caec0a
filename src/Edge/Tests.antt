-- ===== src/Edge/Tests.antt =====
-- The two tests of bazelPro/src/tmp/test.cc, one second between the samples.
use ng.Base.{◌≡◌, refl, arith, ◌++◌, replicate, [], ◌∷◌, true, false}
use ng.Edge.Laws.{level, second, samples-two_falls}
use ng.Edge.{Edge, initial_edge, samples, test_edge, falling, second_fall}

test_run :
    (samples initial_edge (
      (1000, true)
      ∷ (2000, false)
      ∷ (3000, true)
      ∷ (4000, false)
      ∷ (4000, true)
      ∷ (5000, false)
      ∷ (6000, true)
      ∷ (7000, false)
      ∷ [])).1
    ≡ 0 ∷ 0 ∷ 0 ∷ 3 ∷ 0 ∷ 0 ∷ 0 ∷ 4 ∷ []
unfolding samples test_edge falling second_fall
test_run = refl

abbrev armed : Edge
armed = record {
  active_saving = true;
  has_obstacle = true;
  not_auto_mode = false;
  emergency_stop = false;
  last_active_save_falling_time = 0;
}

samples-two_falls_example :
    (samples armed (
      (2000, false)
      ∷ (level false (2500 ∷ [])
          ++ ((3000, true) ∷ (level true (3500 ∷ []) ++ ((4000, false) ∷ [])))))).1
    ≡ 0 ∷ (replicate 1 0 ++ (0 ∷ (replicate 1 0 ++ (second armed 2000 4000 ∷ []))))
samples-two_falls_example =
    samples-two_falls armed 2000 3000 4000 (2500 ∷ []) (3500 ∷ []) refl refl (omega arith)
      (omega arith) (omega arith)
