-- ===== src/Hk/Frame.antt =====
-- What the messages of bazelPro/src/hk are on the wire, described apart from the code: a frame with
-- its fields in network order, and a parser of frames.
pub mod Generated
pub mod Parse
use ng.Base.{ℕ, ◌+◌, ◌%◌, ◌^◌, ◌<◌, ◌≡◌, List, [], ◌∷◌, ◌++◌, length}
use ng.Hk.Wire.Swap.{be16, be32}
use ng.Hk.Wire.{le_bytes}
use ng.Hk.Types

-- The order number stands in a frame as four bytes, since most answers copy those of the request.
pub record Frame : Type 0 where
  pub order : List ℕ
  pub kind : ℕ
  pub body : List ℕ

abbrev pub frame_bytes : Frame → List ℕ
frame_bytes f =
    0x44
    ∷ 0x42
    ∷ 0x48
    ∷ 0x4b
    ∷ (f.order
        ++ (be16 f.kind ++ (be16 (16 + length f.body) ++ (b'0' ∷ b'0' ∷ b'0' ∷ b'0' ∷ f.body))))

-- Every message that the server sends, with what it is made from.
pub data Message : Type 0 where
  path_plan trp_ctrl door_info robot_status register : Message
  plan offline : ℕ → Message
  traffic : ℕ → ℕ → Message
  door : ℕ → ℕ → ℕ → ℕ → Message
  clean_area : ℕ → Message
  interrupt : ℕ → Message

abbrev pub kind_of : Message → Types.GsMsgType
kind_of path_plan = Types.path_plan_req
kind_of trp_ctrl = Types.trp_ctrl_req
kind_of door_info = Types.door_config_req
kind_of robot_status = Types.robot_status_rsp
kind_of register = Types.register_rsp
kind_of (plan order) = Types.apply_plan_rsp
kind_of (offline order) = Types.apply_offline_rsp
kind_of (traffic order area) = Types.apply_traffic_res_rsp
kind_of (door id x y order) = Types.apply_for_door_rsp
kind_of (clean_area area) = Types.apply_clean_area_rsp
kind_of (interrupt flip) = Types.interrupt_ctrl_req

abbrev one : List ℕ
one = be32 1

abbrev pub order_of : Message → List ℕ
order_of path_plan = one
order_of trp_ctrl = one
order_of door_info = one
order_of robot_status = one
order_of register = one
order_of (plan order) = le_bytes 4 order
order_of (offline order) = le_bytes 4 order
order_of (traffic order area) = le_bytes 4 order
order_of (door id x y order) = le_bytes 4 order
order_of (clean_area area) = one
order_of (interrupt flip) = one

abbrev pub body_of : Message → List ℕ
body_of path_plan =
    be16 6001
    ++ be16 2
    ++ be32 11111
    ++ be32 22222
    ++ be16 33
    ++ be16 1
    ++ be32 33333
    ++ be32 44444
    ++ be32 1201
body_of trp_ctrl = be16 6001 ++ be16 1 ++ be32 11 ++ be32 22 ++ be16 33 ++ be16 100 ++ be32 1201
body_of door_info =
    be16 6001
    ++ be16 3
    ++ be32 1
    ++ be32 1
    ++ be32 1
    ++ be32 2
    ++ be32 2
    ++ be32 2
    ++ be32 3
    ++ be32 3
    ++ be32 3
body_of robot_status = be32 200 ++ be16 6001 ++ be16 0
body_of register = be32 200 ++ be16 6001 ++ be16 0
body_of (plan order) = be32 200 ++ be16 6001 ++ be16 0
body_of (offline order) = be32 200 ++ be16 6001 ++ be16 0
body_of (traffic order area) = be16 200 ++ be16 6001 ++ le_bytes 4 area ++ be32 0
body_of (door id x y order) =
    be16 6001 ++ be16 200 ++ le_bytes 4 id ++ le_bytes 4 x ++ le_bytes 4 y ++ be32 1
body_of (clean_area area) = be16 200 ++ be16 6001 ++ be32 area
body_of (interrupt flip) = be16 6001 ++ be16 ((flip + 1) % 3)

abbrev pub frame_of : Message → Frame
frame_of m = record { order = order_of m; kind = Types.msg_type_code (kind_of m); body = body_of m }
