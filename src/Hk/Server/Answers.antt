-- ===== src/Hk/Server/Answers.antt =====
-- What the server of bazelPro/src/hk/main.cpp answers, described apart from the code: a request as
-- it stands on the wire, and the messages that go out for it.
use ng.Base.{ℕ, IsByte, zero, suc, ◌+◌, ◌*◌, ◌^◌, ◌≤◌, ◌<◌, ◌≡◌, ap, arith, List, [], ◌∷◌}
use ng.Base.{some, Bool, true, false, not, ◌==◌, if◌then◌else◌, length, take, drop, le→leb}
use ng.Base.{length-take, length-drop, All, All-take, All-drop, get_elem?}
use ng.Hk.Wire.{bswap_16, bswap_32, le_value, read_le}
use ng.Hk.Wire.Swap.{bswap_16-sum, bswap_32-sum}
use ng.Hk.Frame.{
  Message, path_plan, trp_ctrl, door_info, robot_status, register, plan, offline, traffic, door,
  clean_area,
}
use ng.Hk.Server.{Server}
use ng.Hk.Server.Reply.{IsReady, sent_message}

pub data Request : Type 0 where
  asks_register other : Request
  reports_status : Bool → Request
  asks_clean_area : ℕ → Request
  asks_door : ℕ → ℕ → ℕ → ℕ → Request
  asks_traffic : ℕ → ℕ → Request
  asks_offline : ℕ → Request
  asks_plan : ℕ → Bool → Request

-- Some bytes of a datagram, and their value in network order.
abbrev pub field : List ℕ → ℕ → ℕ → List ℕ
field buffer at n = take n (drop at buffer)

abbrev be_from : ℕ → List ℕ → ℕ
be_from acc [] = acc
be_from acc (b ∷ bs) = be_from (acc * 256 + b) bs

abbrev pub be_value : List ℕ → ℕ
be_value = be_from 0

-- The request of a type that stands in the buffer. What is only sent back is kept as it was received.
abbrev pub request_of : ℕ → List ℕ → Request
request_of kind buffer =
    let order = le_value (field buffer 4 4) in
    let id = le_value (field buffer 20 4) in
    if kind == 1
    then asks_register
    else if kind == 5
    then reports_status (not (be_value (field buffer 22 1) == 0))
    else if kind == 3
    then asks_clean_area (be_value (field buffer 20 4))
    else if kind == 9
    then asks_door id (le_value (field buffer 24 4)) (le_value (field buffer 28 4)) order
    else if kind == 11
    then asks_traffic order id
    else if kind == 15
    then asks_offline order
    else if kind == 21
    then asks_plan order (be_value (field buffer 34 2) == 1)
    else other

abbrev pub request : List ℕ → Request
request buffer = request_of (be_value (field buffer 8 2)) buffer

-- The answers; `doors`: whether the doors were sent before.
abbrev pub answers : Bool → Request → List Message
answers doors asks_register = register ∷ []
answers doors (reports_status true) =
    robot_status ∷ trp_ctrl ∷ (if doors then [] else door_info ∷ [])
answers doors (reports_status false) = robot_status ∷ (if doors then [] else door_info ∷ [])
answers doors (asks_clean_area area) = clean_area area ∷ []
answers doors (asks_door id x y order) = door id x y order ∷ []
answers doors (asks_traffic order area) = traffic order area ∷ []
answers doors (asks_offline order) = offline order ∷ []
answers doors (asks_plan order true) = plan order ∷ path_plan ∷ []
answers doors (asks_plan order false) = plan order ∷ []
answers doors other = []

-- What the server remembers of a request.
abbrev pub marked : Request → Server → Server
marked asks_register s = s
marked (reports_status needs) s = record s { registered = true; if_send_door_info = true }
marked (asks_clean_area area) s = s
marked (asks_door id x y order) s = s
marked (asks_traffic order area) s = s
marked (asks_offline order) s = s
marked (asks_plan order wants) s = s
marked other s = s

abbrev pub deliver : List Message → Server → Server
deliver [] s = s
deliver (m ∷ ms) s = deliver ms (sent_message m s)

abbrev pub answered : Request → Server → Server
answered r s = marked r (deliver (answers s.if_send_door_info r) s)

pub read :
    (s : Server) (at n : ℕ)
    → IsReady s
    → at + n ≤ 1024
    → read_le s.buffer at n ≡ some (le_value (field s.buffer at n))
read s at n v h = rw (le→leb (at + n) (length s.buffer) (rw v.buffer_size h))

pub swap16 : (xs : List ℕ) → length xs ≡ 2 → All IsByte xs → bswap_16 (le_value xs) ≡ be_value xs
swap16 [] h a = absurd (omega arith)
swap16 (x ∷ []) h a = absurd (omega arith)
swap16 (x ∷ y ∷ []) h a = omega (arith, bswap_16-sum (x + 256 * (y + 256 * 0)) (omega arith))
swap16 (x ∷ y ∷ z ∷ xs) h a = absurd (omega arith)

pub swap32 :
    (xs : List ℕ)
    → length xs ≡ 4
    → All IsByte xs
    → (bswap_32 (le_value xs) ≡ be_value xs) × (be_value xs < 2 ^ 32)
swap32 [] h a = absurd (omega arith)
swap32 (x ∷ []) h a = absurd (omega arith)
swap32 (x ∷ y ∷ []) h a = absurd (omega arith)
swap32 (x ∷ y ∷ z ∷ []) h a = absurd (omega arith)
swap32 (x ∷ y ∷ z ∷ t ∷ []) h a = (
  omega (arith, bswap_32-sum (x + 256 * (y + 256 * (z + 256 * (t + 256 * 0)))) (omega arith)),
  omega arith,
)
swap32 (x ∷ y ∷ z ∷ t ∷ u ∷ xs) h a = absurd (omega arith)

pub field_lem :
    (buffer : List ℕ) (at n : ℕ)
    → length buffer ≡ 1024
    → All IsByte buffer
    → at + n ≤ 1024
    → (length (field buffer at n) ≡ n) × All IsByte (field buffer at n)
field_lem buffer at n e a h = (
  omega (arith, length-take n (drop at buffer), length-drop at buffer),
  All-take IsByte n (drop at buffer) (All-drop IsByte at buffer a),
)

pub byte_at :
    (xs : List ℕ) (i : ℕ) → i < length xs → get_elem? xs i ≡ some (be_value (field xs i 1))
byte_at [] i h = absurd (omega arith)
byte_at (x ∷ xs) zero h = ap some (omega arith)
byte_at (x ∷ xs) (suc i) h = byte_at xs i (omega arith)
