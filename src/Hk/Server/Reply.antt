-- ===== src/Hk/Server/Reply.antt =====
-- One answer of the server of bazelPro/src/hk/main.cpp: the frame of the message goes out.
use ng.Base.{ℕ, IsByte, ◌≤◌, ◌≡◌, ◌≢◌, refl, arith, List, [], ◌∷◌, ◌++◌, Option, some, true}
use ng.Base.{length, drop, length-append, length-drop, take-append_self, All}
use ng.Dump.{hexdump}
use ng.Dump.Total.{hexdump_iff}
use ng.Hk.Frame.{
  frame_bytes, frame_of, Message, path_plan, trp_ctrl, door_info, robot_status, register, plan,
  offline, traffic, door, clean_area, interrupt,
}
use ng.Hk.Frame.Generated.{sent}
use ng.Hk.Server.{Server, reply, reply_undumped}

-- The bytes of a message on the wire.
abbrev pub wire : Message → List ℕ
wire m = frame_bytes (frame_of m)

wire-size : (m : Message) → (16 ≤ length (wire m)) × (length (wire m) ≤ 56)
wire-size path_plan = omega arith
wire-size trp_ctrl = omega arith
wire-size door_info = omega arith
wire-size robot_status = omega arith
wire-size register = omega arith
wire-size (plan order) = omega arith
wire-size (offline order) = omega arith
wire-size (traffic order area) = omega arith
wire-size (door id x y order) = omega arith
wire-size (clean_area area) = omega arith
wire-size (interrupt flip) = omega arith

-- Both buffers have their size, and what was received are bytes.
pub record IsReady (s : Server) : Type 0 where
  pub buffer_size : length s.buffer ≡ 1024
  pub sendbuffer_size : length s.sendbuffer ≡ 1024
  pub bytes : All IsByte s.buffer

-- The server after it has sent a message.
abbrev pub sent_message : Message → Server → Server
sent_message m s = record s {
  sendbuffer = (sent m s.sendbuffer).0;
  outbox = s.outbox ++ (wire m ∷ []);
}

pub length-sent :
    (m : Message) (buffer : List ℕ) → length buffer ≡ 1024 → length (sent m buffer).0 ≡ 1024
length-sent m buffer h = omega (
  arith,
  length-append (wire m) (drop (length (wire m)) buffer),
  length-drop (length (wire m)) buffer,
  wire-size m,
)

pub sent_message-IsReady : (m : Message) (s : Server) → IsReady s → IsReady (sent_message m s)
sent_message-IsReady m s v = record {
  buffer_size = v.buffer_size;
  sendbuffer_size = length-sent m s.sendbuffer v.sendbuffer_size;
  bytes = v.bytes;
}

dumps :
    (buffer : List ℕ) (n : ℕ)
    → n ≢ 0
    → n ≤ length buffer
    → (text : List ℕ) × (hexdump true buffer n ≡ some text)
dumps buffer n ne h = let (text, e, _) = (hexdump_iff true buffer n h).1 (ne, refl) in (text, e)

pub received_dumps :
    (buffer : List ℕ) (n : ℕ)
    → n ≢ 0
    → n ≤ length buffer
    → (text : List ℕ) × (hexdump true buffer n ≡ some text)
received_dumps = dumps

module _ (gen : List ℕ → Option (List ℕ × ℕ)) (m : Message) (s : Server) (v : IsReady s)
    (generates : gen s.sendbuffer ≡ some (sent m s.sendbuffer)) where
  pub reply_undumped-sent : reply_undumped gen s ≡ some (sent_message m s)
  unfolding reply_undumped
  reply_undumped-sent =
      rw (generates, take-append_self (wire m) (drop (length (wire m)) s.sendbuffer))

  pub reply-sent : reply gen s ≡ some (sent_message m s)
  unfolding reply
  reply-sent =
      let (text, e) =
        dumps (sent m s.sendbuffer).0 (length (wire m)) (omega (arith, wire-size m))
          (omega (arith, wire-size m, length-sent m s.sendbuffer v.sendbuffer_size)) in
      rw (generates, e, take-append_self (wire m) (drop (length (wire m)) s.sendbuffer))
