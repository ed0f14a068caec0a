-- ===== src/Jw.antt =====
-- The test server bazelPro/src/jw/srv.cc, over documents of a type `V` with what the code asks
-- rapidjson for. `none` is a failed assertion of rapidjson, a write outside an array or an overflow of
-- one of the two counters. A text of 1024 bytes without a null byte, behind which the code reads on, is
-- taken to end there.
pub mod Described
pub mod Told
mod Tests
use ng.Base.{
  ℕ, zero, suc, ◌+◌, ◌%◌, ◌^◌, ltb, List, [], ◌∷◌, ◌++◌, Option, none, some, ◌>>=◌, Bool, true,
  false, ◌==◌, if◌then◌else◌, leb, length, take, drop, replicate, ℤ, pos,
}
use ng.Dump.{c_string}
use ng.Format.Arg.{codes}
use ng.Base.{same_text}

-- `parse` is `none` for a parse error. `find_member`, `get_string` and `get_int` are `none` where an
-- assertion fails, and `find_member` is `some none` for a name that is not there. The others make
-- values and write them as text.
pub record Json (V : Type 0) : Type 0 where
  pub parse : List ℕ → Option V
  pub find_member : List ℕ → V → Option (Option V)
  pub get_string : V → Option (List ℕ)
  pub get_int : V → Option ℤ
  pub string : List ℕ → V
  pub int : ℤ → V
  pub array : List V → V
  pub object : List (List ℕ × V) → V
  pub write : V → List ℕ
  -- `std::to_string`
  pub to_string : ℕ → List ℕ

-- The static variables, and the datagrams sent.
pub record Srv : Type 0 where
  pub buffer : List ℕ
  pub global_path_tick : ℕ
  pub block_tick : ℕ
  pub sent : List (List ℕ)

abbrev pub initial : Srv
initial = record { buffer = replicate 1024 0; global_path_tick = 0; block_tick = 0; sent = [] }

-- `for (int i = 0; …)`, with the rounds left.
abbrev pub collect : {V : Type 0} → (ℕ → V) → ℕ → ℕ → List V
collect f zero i = []
collect f (suc left) i = f i ∷ collect f left (i + 1)

-- `n++` of an `int`.
abbrev pub next_int : ℕ → Option ℕ
next_int n = if ltb (n + 1) (2 ^ 31) then some (n + 1) else none

module _ {V : Type 0} (json : Json V) where
  abbrev number : ℕ → V
  number n = json.int (pos n)

  abbrev pub points : V
  points = json.array (
      collect
        (λ i. json.object ((codes "x", number (700 + i)) ∷ (codes "y", number (800 + i)) ∷ [])) 5 0)

  -- `tick` is `block_tick` before it is counted on.
  abbrev result_member : ℕ → List (List ℕ × V)
  result_member tick =
      if tick % 4 == 0
      then (codes "result", number 0) ∷ []
      else if tick % 4 == 1
      then (codes "result", number 1) ∷ []
      else if tick % 4 == 2
      then (codes "result", number 2) ∷ []
      else []

  abbrev block_member : ℕ → List (List ℕ × V)
  block_member tick = if tick % 2 == 0 then (codes "block", points) ∷ [] else []

  unfoldable pub path_resp : ℤ → ℕ → V
  path_resp id tick = json.object (
      (codes "type", json.string (codes "pathResp"))
      ∷ (codes "id", json.int id)
      ∷ (result_member tick ++ block_member (tick + 1)))

  abbrev agv : ℕ → V
  agv i = json.object (
      (codes "name", json.string (codes "ubot-" ++ json.to_string (300 + i)))
      ∷ (codes "x", number (10000 + i))
      ∷ (codes "y", number (20000 + i))
      ∷ (
        codes "path",
        json.array (collect (λ j. json.string (codes "p" ++ json.to_string (100 + j))) 5 0),
      )
      ∷ [])

  abbrev pub hot_info : V
  hot_info = json.object (
      (codes "type", json.string (codes "hotInfo"))
      ∷ (codes "data", json.array (collect agv 5 0))
      ∷ [])

  abbrev pub global_path : ℕ → V
  global_path tick = json.object (
      (codes "type", json.string (codes "globalpath"))
      ∷ (codes "serverpathid", number tick)
      ∷ (codes "point", points)
      ∷ [])

  -- `strncpy` of a text into an array of 1024 bytes.
  abbrev pub copy_text : List ℕ → List ℕ → Option (List ℕ)
  copy_text text array =
      if leb (length text) 1024 then some (text ++ drop (length text) array) else none

  unfoldable pub on_path_req : V → Srv → Option Srv
  on_path_req d s = do
    id ← json.find_member (codes "id") d
    id ← id
    id ← json.get_int id
    let resp = json.write (path_resp id (s.block_tick))
    block_tick ← next_int (s.block_tick)
    buffer ← copy_text resp (s.buffer)
    some (record s { buffer = buffer; block_tick = block_tick; sent = s.sent ++ (resp ∷ []) })

  unfoldable pub on_info : Srv → Option Srv
  on_info s = do
    let hot = json.write hot_info
    b ← copy_text hot []
    some (record s { sent = s.sent ++ (hot ∷ []) })

  unfoldable pub on_tick : Srv → Option Srv
  on_tick s = do
    tick ← next_int (s.global_path_tick)
    let glob = json.write (global_path tick)
    if tick % 3 == 0
        then (do
          b ← copy_text glob []
          some (record s { global_path_tick = tick; sent = s.sent ++ (glob ∷ []) }))
        else some (record s { global_path_tick = tick })

  unfoldable pub on_type : List ℕ → V → Srv → Option Srv
  on_type type d s =
      if same_text type (codes "pathReq")
      then on_path_req d s
      else if same_text type (codes "info")
      then on_info s
      else some s

  -- The two early returns leave the counters as they are.
  unfoldable pub handle_doc : V → Srv → Option Srv
  handle_doc d s = do
    found ← json.find_member (codes "type") d
    elim found [
      | none ↦ some s
      | some v ↦ do type ← json.get_string v; s ← on_type type d s; on_tick s
    ]

  unfoldable pub handle_msg : List ℕ → Srv → Option Srv
  handle_msg buf s =
      if leb (length buf) 1024
      then elim (json.parse (c_string buf)) [ none ↦ some s | some d ↦ handle_doc d s ]
      else none

  -- The loop of `main`, over the datagrams; of each at most 1024 bytes are received.
  pub run : List (List ℕ) → Srv → Option Srv
  run [] s = some s
  run (m ∷ ms) s = do
    let buf = take 1024 m
    s ← handle_msg buf (record s { buffer = buf ++ drop (length buf) (s.buffer) })
    run ms s
