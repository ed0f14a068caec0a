-- ===== src/Hk/Server/Round.antt =====
-- One whole round of the loop of bazelPro/src/hk/main.cpp.
use ng.Base.{ℕ, IsByte, ◌+◌, ◌%◌, ◌≡◌, ◌≢◌, refl, sym, ap, ◌∙◌, arith, List, [], ◌∷◌, ◌++◌, map}
use ng.Base.{
  some, Bool, true, false, ◌||◌, ◌==◌, if◌then◌else◌, length, take, drop, append_assoc, append-nil,
  take-append_self,
}
use ng.Base.{
  length-append, length-take, length-drop, All, All-take, All-drop, All-append, Bool-cases, inl,
  inr,
}
use ng.Hk.Frame.{Message, interrupt}
use ng.Hk.Frame.Generated.{interrupt-sent}
use ng.Hk.Server.{Server, interrupt_third, recvfrom, step}
use ng.Hk.Server.Reply.{
  IsReady, wire, sent_message, sent_message-IsReady, length-sent, received_dumps,
}
use ng.Hk.Server.Refine.{dispatch-answered}
use ng.Hk.Server.Answers.{
  Request, asks_register, other, reports_status, asks_clean_area, asks_door, asks_traffic,
  asks_offline, asks_plan, field, be_value, request, answers, deliver, answered, read, swap16,
  field_lem,
}

-- The message that every third round adds.
abbrev pub third : ℕ → ℕ → List Message
third tick flip = if tick % 3 == 0 then interrupt flip ∷ [] else []

abbrev pub is_status : Request → Bool
is_status asks_register = false
is_status (reports_status needs) = true
is_status (asks_clean_area area) = false
is_status (asks_door id x y order) = false
is_status (asks_traffic order area) = false
is_status (asks_offline order) = false
is_status (asks_plan order wants) = false
is_status other = false

-- What `deliver` leaves alone, and what it adds.
record Delivered (ms : List Message) (s t : Server) : Type 0 where
  ready : IsReady t
  tick : t.tick ≡ s.tick
  flip : t.flip ≡ s.flip
  doors : t.if_send_door_info ≡ s.if_send_door_info
  buffer : t.buffer ≡ s.buffer
  outbox : t.outbox ≡ s.outbox ++ map wire ms

deliver-Delivered : (ms : List Message) (s : Server) → IsReady s → Delivered ms s (deliver ms s)
deliver-Delivered [] s v = record {
  ready = v;
  tick = refl;
  flip = refl;
  doors = refl;
  buffer = refl;
  outbox = sym (append-nil s.outbox);
}
deliver-Delivered (m ∷ ms) s v =
    let d = deliver-Delivered ms (sent_message m s) (sent_message-IsReady m s v) in
    record {
      ready = d.ready;
      tick = d.tick;
      flip = d.flip;
      doors = d.doors;
      buffer = d.buffer;
      outbox = d.outbox ∙ append_assoc s.outbox (wire m ∷ []) (map wire ms);
    }

-- The state that answering a request leaves.
record Answered (r : Request) (s t : Server) : Type 0 where
  ready : IsReady t
  tick : t.tick ≡ s.tick
  flip : t.flip ≡ s.flip
  doors : t.if_send_door_info ≡ (is_status r || s.if_send_door_info)
  outbox : t.outbox ≡ s.outbox ++ map wire (answers s.if_send_door_info r)

unmarked :
    (r : Request) (s t : Server)
    → is_status r ≡ false
    → Delivered (answers s.if_send_door_info r) s t
    → Answered r s t
unmarked r s t e d = record {
  ready = d.ready;
  tick = d.tick;
  flip = d.flip;
  doors = rw e d.doors;
  outbox = d.outbox;
}

answered-Answered : (r : Request) (s : Server) → IsReady s → Answered r s (answered r s)
answered-Answered asks_register s v = unmarked asks_register s _ refl (deliver-Delivered _ s v)
answered-Answered other s v = unmarked other s _ refl (deliver-Delivered _ s v)
answered-Answered (reports_status needs) s v =
    let d = deliver-Delivered (answers s.if_send_door_info (reports_status needs)) s v in
    record {
      ready = record {
        buffer_size = d.ready.buffer_size;
        sendbuffer_size = d.ready.sendbuffer_size;
        bytes = d.ready.bytes;
      };
      tick = d.tick;
      flip = d.flip;
      doors = refl;
      outbox = d.outbox;
    }
answered-Answered (asks_clean_area area) s v =
    unmarked (asks_clean_area area) s _ refl (deliver-Delivered _ s v)
answered-Answered (asks_door id x y order) s v =
    unmarked (asks_door id x y order) s _ refl (deliver-Delivered _ s v)
answered-Answered (asks_traffic order area) s v =
    unmarked (asks_traffic order area) s _ refl (deliver-Delivered _ s v)
answered-Answered (asks_offline order) s v =
    unmarked (asks_offline order) s _ refl (deliver-Delivered _ s v)
answered-Answered (asks_plan order wants) s v =
    unmarked (asks_plan order wants) s _ refl (deliver-Delivered _ s v)

-- The buffer once a datagram has come in over what was there.
abbrev pub received : Server → List ℕ → List ℕ
received s datagram = (recvfrom s datagram).buffer

recvfrom-IsReady :
    (s : Server) (d : List ℕ)
    → IsReady s
    → All IsByte d
    → IsReady (recvfrom (record s { tick = s.tick + 1 }) d)
recvfrom-IsReady s d v a = record {
  buffer_size = omega (
    arith,
    length-append (take 1024 d) (drop (length (take 1024 d)) s.buffer),
    length-drop (length (take 1024 d)) s.buffer,
    length-take 1024 d,
    v.buffer_size,
  );
  sendbuffer_size = v.sendbuffer_size;
  bytes =
      All-append IsByte (take 1024 d) (drop (length (take 1024 d)) s.buffer)
        (All-take IsByte 1024 d a) (All-drop IsByte (length (take 1024 d)) s.buffer v.bytes);
}

-- What a round does, seen from outside.
pub record Round (s : Server) (datagram : List ℕ) (t : Server) : Type 0 where
  pub ready : IsReady t
  pub tick : t.tick ≡ s.tick + 1
  pub flip : t.flip ≡ (if (s.tick + 1) % 3 == 0 then s.flip + 1 else s.flip)
  pub doors :
      t.if_send_door_info ≡ (is_status (request (received s datagram)) || s.if_send_door_info)
  pub outbox :
      t.outbox
      ≡ s.outbox
        ++ map wire (answers s.if_send_door_info (request (received s datagram)))
        ++ map wire (third (s.tick + 1) s.flip)

interrupt_third-Round :
    (s a : Server) (d : List ℕ)
    → Answered (request (received s d)) (recvfrom (record s { tick = s.tick + 1 }) d) a
    → (t : Server) × (interrupt_third a ≡ some t) × Round s d t
unfolding interrupt_third
interrupt_third-Round s a d w = elim (Bool-cases ((s.tick + 1) % 3 == 0)) [
  | inl e ↦ (
    record (sent_message (interrupt a.flip) a) { flip = a.flip + 1 },
    rw (
      w.tick,
      e,
      interrupt-sent a.flip a.sendbuffer (omega (arith, w.ready.sendbuffer_size)),
      take-append_self (wire (interrupt a.flip))
          (drop (length (wire (interrupt a.flip))) a.sendbuffer),
    ),
    record {
      ready = record {
        buffer_size = w.ready.buffer_size;
        sendbuffer_size = length-sent (interrupt a.flip) a.sendbuffer w.ready.sendbuffer_size;
        bytes = w.ready.bytes;
      };
      tick = w.tick;
      flip = rw e (ap (λ (n : ℕ). n + 1) w.flip);
      doors = w.doors;
      outbox = rw e (cc (w.outbox, w.flip));
    },
  )
  | inr e ↦ (
    a,
    rw (w.tick, e),
    record {
      ready = w.ready;
      tick = w.tick;
      flip = rw e w.flip;
      doors = w.doors;
      outbox = rw e (w.outbox ∙ sym (append-nil _));
    },
  )
]

-- A server that has its buffers answers every datagram of at least one byte: the round returns, and
-- sends exactly the frames of the answers to the request that stands in the buffer, in their order,
-- and after every third datagram that of an interrupt command; it counts the datagram, and
-- remembers that the doors were sent once a robot has reported its status.
pub step-Round :
    (s : Server) (datagram : List ℕ)
    → IsReady s
    → All IsByte datagram
    → length datagram ≢ 0
    → (t : Server) × (step s datagram ≡ some t) × Round s datagram t
unfolding step
step-Round s d v a ne =
    let r = recvfrom (record s { tick = s.tick + 1 }) d in
    let v' = recvfrom-IsReady s d v a in
    let (l, b) = field_lem r.buffer 8 2 v'.buffer_size v'.bytes (omega arith) in
    let (text, dumped) =
      received_dumps r.buffer (length (take 1024 d)) (omega (arith, length-take 1024 d))
        (omega (arith, length-take 1024 d, v'.buffer_size)) in
    let (t, e, w) =
      interrupt_third-Round s (answered (request r.buffer) r) d
        (answered-Answered (request r.buffer) r v') in
    (
      t,
      rw
          (
            read r 8 2 v' (omega arith),
            dumped,
            swap16 (field r.buffer 8 2) l b,
            dispatch-answered (be_value (field r.buffer 8 2)) r v',
          )
          e,
      w,
    )
