-- ===== src/Udp.antt =====
-- The two trial programs bazelPro/src/udp/client.cc and srv.cc: one sends a JSON text, the other prints
-- a member of what it receives. What the server asks rapidjson for is a parameter; `none` is a failed
-- assertion of rapidjson. A text without a null byte in the array, behind which the server reads on, is
-- taken to end there.
pub mod Told
mod Tests
use ng.Base.{ℕ, ◌+◌, List, [], ◌∷◌, ◌++◌, Option, none, some, ◌>>=◌, length, take, drop}
use ng.Dump.{c_string}
use ng.Format.Arg.{codes}
use ng.Jw.{Json}

abbrev pub hello_text : List ℕ
hello_text = codes "{\"hello\":\"jacob\"}"

-- The datagram of the client, whose `buffer` holds `garbage`: all of the array is sent.
pub client : List ℕ → List ℕ
client garbage = (hello_text ++ 0 ∷ []) ++ drop (length hello_text + 1) garbage

-- `recvfrom` into the 1024 bytes of `buffer`; what lies behind the datagram stays.
pub arrive : List ℕ → List ℕ → List ℕ
arrive buffer datagram = take 1024 datagram ++ drop (length (take 1024 datagram)) buffer

-- What is printed for a text; a parse error leaves no object.
pub hello_of : {V : Type 0} → Json V → List ℕ → Option (List ℕ)
hello_of json text = do
  d ← json.parse text
  member ← json.find_member (codes "hello") d
  v ← member
  hello ← json.get_string v
  some (codes "hello = " ++ (c_string hello ++ 10 ∷ []))

-- One round of the loop: the array, and what is printed.
pub round : {V : Type 0} → Json V → List ℕ → List ℕ → Option (List ℕ × List ℕ)
round json buffer datagram =
    let buffer = arrive buffer datagram in
    do text ← hello_of json (c_string buffer); some (buffer, text)

-- The loop, over the datagrams, with all that is printed.
pub serve : {V : Type 0} → Json V → List ℕ → List (List ℕ) → Option (List ℕ)
serve json buffer [] = some []
serve json buffer (m ∷ ms) = do
  r ← round json buffer m
  more ← serve json r.0 ms
  some (r.1 ++ more)
