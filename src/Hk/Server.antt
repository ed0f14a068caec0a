-- ===== src/Hk/Server.antt =====
-- The server loop of bazelPro/src/hk/main.cpp, one round for each datagram that is received. The
-- datagrams that `sendto` was given are kept in `outbox`, oldest first. `none` is an access outside
-- a buffer, or the fault of `hexdump` on an empty datagram. The counters do not wrap, and the
-- `calloc` of a dump returns memory.
mod Reply
pub mod Answers
mod Refine
pub mod Round
pub mod Echo
pub mod Rounds
pub mod Stale
mod Tests
use ng.Base.{
  ℕ, zero, suc, ◌+◌, ◌-◌, ◌%◌, List, [], ◌∷◌, ◌++◌, Option, none, some, Bool, true, false,
}
use ng.Base.{not, ◌&&◌, ◌==◌, if◌then◌else◌, ◌>>=◌, length, take, drop, get_elem?, replicate}
use ng.Dump.{hexdump}
use ng.Hk.Wire.{bswap_16, bswap_32, read_le}
use ng.Hk.Types
use ng.Hk.Types.{GsMsgType, msg_type_code}
use ng.Hk.Gen.{
  gen_path_plan_req, gen_apply_plan_resp, gen_apply_offine_resp, gen_apply_traffic_res_resp,
  gen_apply_for_door_resp, gen_apply_clean_area_resp, gen_trp_ctrl_req, gen_robot_status_resp,
  gen_door_info, gen_register_resp, gen_interrupt_ctrl_req,
}

pub record Server : Type 0 where
  pub tick : ℕ
  pub registered : Bool
  pub if_send_door_info : Bool
  pub flip : ℕ
  pub buffer : List ℕ
  pub sendbuffer : List ℕ
  pub outbox : List (List ℕ)

-- Before the first datagram; `garbage` is what the stack buffer holds.
unfoldable pub initial : List ℕ → Server
initial garbage = record {
  tick = 0;
  registered = false;
  if_send_door_info = false;
  flip = 0;
  buffer = garbage;
  sendbuffer = replicate 1024 0;
  outbox = [];
}

-- `recvfrom` into the 1024 bytes of `buffer`; what lies behind the datagram stays.
abbrev pub recvfrom : Server → List ℕ → Server
recvfrom s datagram = record s {
  buffer = take 1024 datagram ++ drop (length (take 1024 datagram)) s.buffer;
}

abbrev pub sendto : Server → ℕ → Server
sendto s send_len = record s { outbox = s.outbox ++ (take send_len s.sendbuffer ∷ []) }

-- Generate, dump, send.
pub reply : (List ℕ → Option (List ℕ × ℕ)) → Server → Option Server
reply gen s = do
  r ← gen s.sendbuffer
  _ ← hexdump true r.0 r.1
  some (sendto (record s { sendbuffer = r.0 }) r.1)

-- Generate and send.
pub reply_undumped : (List ℕ → Option (List ℕ × ℕ)) → Server → Option Server
reply_undumped gen s = do r ← gen s.sendbuffer; some (sendto (record s { sendbuffer = r.0 }) r.1)

pub on_register : Server → Option Server
on_register s = reply gen_register_resp s

pub send_doors : Server → Option Server
send_doors s =
    if not s.if_send_door_info && s.registered
    then reply gen_door_info (record s { if_send_door_info = true })
    else some s

pub on_robot_status : Server → Option Server
on_robot_status s = do
  s ← reply gen_robot_status_resp s
  need_plan ← get_elem? s.buffer (16 + 6)
  s ← (if need_plan == 0 then some s else reply gen_trp_ctrl_req s)
  send_doors (record s { registered = true })

pub on_clean_area : Server → Option Server
on_clean_area s = do
  area_id ← read_le s.buffer 20 4
  reply (gen_apply_clean_area_resp (bswap_32 area_id)) s

pub on_door : Server → Option Server
on_door s = do
  n_order ← read_le s.buffer 4 4
  n_door_id ← read_le s.buffer 20 4
  n_x ← read_le s.buffer 24 4
  n_y ← read_le s.buffer 28 4
  reply (gen_apply_for_door_resp n_door_id n_x n_y n_order) s

pub on_traffic : Server → Option Server
on_traffic s = do
  n_order ← read_le s.buffer 4 4
  n_area_id ← read_le s.buffer 20 4
  reply (gen_apply_traffic_res_resp n_order n_area_id) s

pub on_offline : Server → Option Server
on_offline s = do n_order ← read_le s.buffer 4 4; reply (gen_apply_offine_resp n_order) s

-- Only the two bytes that are copied into `type` are swapped.
pub on_plan : Server → Option Server
on_plan s = do
  n_order ← read_le s.buffer 4 4
  type ← read_le s.buffer (Types.hk_header_s.size + Types.plan_req_s.size - 2) 2
  s ← reply_undumped (gen_apply_plan_resp n_order) s
  if bswap_16 type == 1 then reply_undumped gen_path_plan_req s else some s

pub dispatch : ℕ → Server → Option Server
dispatch type s =
    if type == msg_type_code Types.register_req
    then on_register s
    else if type == msg_type_code Types.robot_status_req
    then on_robot_status s
    else if type == msg_type_code Types.apply_clean_area_req
    then on_clean_area s
    else if type == msg_type_code Types.apply_for_door_req
    then on_door s
    else if type == msg_type_code Types.apply_traffic_res_req
    then on_traffic s
    else if type == msg_type_code Types.apply_offline_req
    then on_offline s
    else if type == msg_type_code Types.apply_plan_req
    then on_plan s
    else some s

pub interrupt_third : Server → Option Server
interrupt_third s =
    if s.tick % 3 == 0
    then (do
      r ← gen_interrupt_ctrl_req s.flip s.sendbuffer
      some (sendto (record s { flip = r.0; sendbuffer = r.1 }) r.2))
    else some s

-- One round of the loop.
unfoldable pub step : Server → List ℕ → Option Server
step s datagram = do
  let s = recvfrom (record s { tick = s.tick + 1 }) datagram
  type ← read_le s.buffer 8 2
  _ ← hexdump true s.buffer (length (take 1024 datagram))
  s ← dispatch (bswap_16 type) s
  interrupt_third s

unfoldable pub run_server : Server → List (List ℕ) → Option Server
run_server s [] = some s
run_server s (d ∷ ds) = step s d >>= λ s'. run_server s' ds
