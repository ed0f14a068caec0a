-- ===== src/Hk/Server/Tests.antt =====
-- Concrete runs of the server of bazelPro/src/hk/main.cpp and of its message generator.
use ng.Base.{ℕ, IsByte, ◌≡◌, refl, arith, List, [], ◌∷◌, ◌++◌, some, replicate, inl, inr, All}
use ng.Base.{length, length-replicate, All-replicate, take, false}
use ng.Hk.Frame.{frame_of, door, clean_area}
use ng.Hk.Frame.Generated.{generate, generate_lem, sent}
use ng.Hk.Frame.Parse.{parse, parse-generate}
use ng.Hk.Server.{Server, step}
use ng.Hk.Server.Reply.{IsReady}
use ng.Hk.Server.Answers.{field}
use ng.Hk.Server.Round.{Round, step-Round}
use ng.Hk.Server.Echo.{FirstSent, step_echoes}

abbrev blank : List ℕ
blank = replicate 1024 0

blank-size : length blank ≡ 1024
blank-size = length-replicate {A = ℕ} 1024 0

blank-bytes : All IsByte blank
blank-bytes = All-replicate IsByte 1024 0 (omega arith)

abbrev start : Server
start = record {
  tick = 0;
  registered = false;
  if_send_door_info = false;
  flip = 0;
  buffer = blank;
  sendbuffer = blank;
  outbox = [];
}

start-IsReady : IsReady start
start-IsReady = record {
  buffer_size = blank-size;
  sendbuffer_size = blank-size;
  bytes = blank-bytes;
}

-- A request for door 7, with order number 0x01020304.
abbrev door_request : List ℕ
door_request =
    0x44 ∷ 0x42 ∷ 0x48 ∷ 0x4b ∷ 1 ∷ 2 ∷ 3 ∷ 4 ∷ 0 ∷ 9 ∷ 0 ∷ 32 ∷ 48 ∷ 48 ∷ 48 ∷ 48 ∷ 23 ∷ 113 ∷ 0
    ∷ 1 ∷ 0 ∷ 0 ∷ 0 ∷ 7 ∷ 0 ∷ 0 ∷ 0 ∷ 5 ∷ 0 ∷ 0 ∷ 0 ∷ 6 ∷ []

door_request-bytes : All IsByte door_request
door_request-bytes = omega arith

generate_lem_example : generate (clean_area 9) blank ≡ some (sent (clean_area 9) blank)
generate_lem_example = generate_lem (clean_area 9) blank (omega arith) (rw blank-size (omega arith))

parse-generate_example :
    (after : List ℕ) × (n : ℕ) × (generate (door 1 2 3 4) blank ≡ some (after, n))
    × (parse (take n after) ≡ some (frame_of (door 1 2 3 4)))
parse-generate_example = parse-generate (door 1 2 3 4) blank tt (rw blank-size (omega arith))

step-Round_example : (t : Server) × (step start door_request ≡ some t) × Round start door_request t
step-Round_example = step-Round start door_request start-IsReady door_request-bytes (omega arith)

step_echoes_example :
    FirstSent start door_request (λ answer. field answer 20 4 ≡ field door_request 20 4)
step_echoes_example =
    step_echoes start door_request start-IsReady door_request-bytes (omega arith) 20 (omega arith)
      (omega arith) (inr (refl, inr (inl refl)))

-- The buffer still holds the door request.
abbrev used : Server
used = record start { buffer = door_request ++ replicate 992 0 }
