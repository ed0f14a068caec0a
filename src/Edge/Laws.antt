-- ===== src/Edge/Laws.antt =====
-- What a run of samples through `test_edge` of bazelPro/src/tmp/tmp.cc returns.
use ng.Base.{ℕ, suc, ◌+◌, ◌-◌, ◌≤◌, ◌<◌, ◌^◌, ◌≡◌, ◌≢◌, refl, ap, ◌∙◌, arith, List, [], ◌∷◌, ◌++◌}
use ng.Base.{Bool, true, false, not, ◌&&◌, ltb, ◌==◌, if◌then◌else◌, replicate, length}
use ng.Edge.{Edge, second_fall, falling, test_edge, samples}

-- How often 3, the event for the app, is returned.
abbrev pub events : List ℕ → ℕ
events [] = 0
events (r ∷ rs) = let rest = events rs in if r == 3 then suc rest else rest

abbrev pub latched : Edge → ℕ
latched e = if e.not_auto_mode then 1 else 0

test_edge-latched :
    (e : Edge) (now : ℕ) (active : Bool)
    → events ((test_edge e now active).1 ∷ []) + latched e ≡ latched (test_edge e now active).0
unfolding test_edge falling second_fall
test_edge-latched e now active = ground arith

-- However long a run is and whatever the clock does, the event for the app is sent at most once:
-- the number of times 3 is returned is 1 when the run sets the flag of manual mode, and 0 otherwise.
pub samples-latched :
    (e : Edge) (xs : List (ℕ × Bool))
    → events (samples e xs).1 + latched e ≡ latched (samples e xs).0
unfolding samples
samples-latched e [] = omega arith
samples-latched e (x ∷ xs) =
    let here = test_edge-latched e x.0 x.1 in
    let later = samples-latched (test_edge e x.0 x.1).0 xs in ground arith

-- Samples of one level, at any times.
abbrev pub level : Bool → List ℕ → List (ℕ × Bool)
level b [] = []
level b (t ∷ ts) = (t, b) ∷ level b ts

quiet : (e : Edge) (now : ℕ) (b : Bool) → e.active_saving ≡ b → test_edge e now b ≡ (e, 0)
unfolding test_edge
quiet e now true h = rw h refl
quiet e now false h = rw h refl

samples-level_then :
    (e : Edge) (b : Bool) (ts : List ℕ) (rest : List (ℕ × Bool))
    → e.active_saving ≡ b
    → (samples e (level b ts ++ rest)).1 ≡ replicate (length ts) 0 ++ (samples e rest).1
unfolding samples
samples-level_then e b [] rest h = refl
samples-level_then e b (t ∷ ts) rest h =
    rw (quiet e t b h) (ap (◌∷◌ 0) (samples-level_then e b ts rest h))

-- The returned value at a falling edge at `t2`, when the one before it was at `t1`.
abbrev pub second : Edge → ℕ → ℕ → ℕ
second e t1 t2 =
    if ltb 3000 (t2 - t1)
    then 1
    else if e.has_obstacle && not e.not_auto_mode
    then (if e.emergency_stop then 2 else 3)
    else 4

fall_first :
    (e : Edge) (t : ℕ)
    → e.active_saving ≡ true
    → e.last_active_save_falling_time ≡ 0
    → test_edge e t false
      ≡ (record e { active_saving = false; last_active_save_falling_time = t }, 0)
unfolding test_edge falling
fall_first e t a z = rw (a, z) refl

fall_second :
    (e : Edge) (t1 t2 : ℕ)
    → e.active_saving ≡ true
    → e.last_active_save_falling_time ≡ t1
    → t1 ≢ 0
    → t1 ≤ t2
    → t2 < 2 ^ 64
    → (test_edge e t2 false).1 ≡ second e t1 t2
unfolding test_edge falling second_fall
fall_second e t1 t2 a z ne le lt = ground arith

rise :
    (e : Edge) (t : ℕ)
    → e.active_saving ≡ false
    → test_edge e t true ≡ (record e { active_saving = true }, 0)
unfolding test_edge
rise e t a = rw a refl

-- A falling edge at `t1`, then a low, a rising edge and a high of any length, then a falling edge
-- at `t2`: only the last call returns anything but 0. It returns 1 when more than 3000 ms have
-- passed, and otherwise what the three flags say, 2 or 3 with an obstacle in automatic mode, and 4
-- without. The level was high before and no earlier falling edge is remembered; `t1` is not 0, and
-- `t2` is not before `t1` and is a `uint64_t`.
pub samples-two_falls :
    (e : Edge) (t1 h t2 : ℕ) (lows highs : List ℕ)
    → e.active_saving ≡ true
    → e.last_active_save_falling_time ≡ 0
    → t1 ≢ 0
    → t1 ≤ t2
    → t2 < 2 ^ 64
    → (samples e (
        (t1, false)
        ∷ (level false lows ++ ((h, true) ∷ (level true highs ++ ((t2, false) ∷ [])))))).1
      ≡ 0
        ∷ (replicate (length lows) 0 ++ (0 ∷ (replicate (length highs) 0 ++ (second e t1 t2 ∷ []))))
unfolding samples
samples-two_falls e t1 h t2 lows highs a z ne le lt =
    let low : Edge = record e { active_saving = false; last_active_save_falling_time = t1 } in
    let high : Edge = record low { active_saving = true } in
    let last : List (ℕ × Bool) = (t2, false) ∷ [] in
    let climb : List (ℕ × Bool) = (h, true) ∷ (level true highs ++ last) in
    let end : List ℕ = second e t1 t2 ∷ [] in
    let s3 : (samples high (level true highs ++ last)).1 ≡ replicate (length highs) 0 ++ end =
      samples-level_then high true highs last refl
      ∙ ap (λ r. replicate (length highs) 0 ++ (r ∷ []))
          (fall_second high t1 t2 refl refl ne le lt) in
    let s2 : (samples low climb).1 ≡ 0 ∷ (replicate (length highs) 0 ++ end) =
      rw (rise low h refl) (ap (◌∷◌ 0) s3) in
    let s1 : (samples low (level false lows ++ climb)).1
        ≡ replicate (length lows) 0 ++ (0 ∷ (replicate (length highs) 0 ++ end)) =
      samples-level_then low false lows climb refl ∙ ap (◌++◌ (replicate (length lows) 0)) s2 in
    rw (fall_first e t1 a z) (ap (◌∷◌ 0) s1)
