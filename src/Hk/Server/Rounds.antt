-- ===== src/Hk/Server/Rounds.antt =====
-- Whole runs of the server of bazelPro/src/hk/main.cpp.
use ng.Base.{ℕ, IsByte, ◌+◌, ◌/◌, ◌≡◌, ◌≢◌, List, [], ◌∷◌}
use ng.Base.{◌==◌, if◌then◌else◌, length, All}
use ng.Hk.Server.{Server}
use ng.Hk.Server.Reply.{IsReady}
use ng.Hk.Server.Answers.{field, be_value}
use ng.Hk.Server.Round.{Round}

-- How many of some sent frames have a type.
abbrev pub count_kind : ℕ → List (List ℕ) → ℕ
count_kind k [] = 0
count_kind k (d ∷ ds) = (if be_value (field d 8 2) == k then 1 else 0) + count_kind k ds

-- What has been sent so far, against the counters.
pub record Counts (s : Server) : Type 0 where
  pub ready : IsReady s
  pub flips : s.flip ≡ s.tick / 3
  pub interrupts : count_kind 19 s.outbox ≡ s.tick / 3
  pub doors : count_kind 13 s.outbox ≡ (if s.if_send_door_info then 1 else 0)

abbrev pub IsDatagram : List ℕ → Type 0
IsDatagram d = All IsByte d × (length d ≢ 0)
