-- ===== src/Hk/Types.antt =====
-- bazelPro/src/hk/msg_type.h: the numbers of the message types and the sizes of the structures.
use ng.Base.{ℕ, [], ◌∷◌}
use ng.Layout.{Shape, struct, array, char, int16_t, int32_t}

pub data GsMsgType : Type 0 where
  register_req register_rsp apply_clean_area_req apply_clean_area_rsp robot_status_req
        robot_status_rsp trp_ctrl_req trp_ctrl_rsp apply_for_door_req apply_for_door_rsp
        apply_traffic_res_req apply_traffic_res_rsp door_config_req door_config_rsp
        apply_offline_req apply_offline_rsp path_upload_req path_upload_rsp interrupt_ctrl_req
        interrupt_ctrl_rsp apply_plan_req apply_plan_rsp path_plan_req path_plan_rsp unknown :
      GsMsgType

abbrev pub msg_type_code : GsMsgType → ℕ
msg_type_code register_req = 1
msg_type_code register_rsp = 2
msg_type_code apply_clean_area_req = 3
msg_type_code apply_clean_area_rsp = 4
msg_type_code robot_status_req = 5
msg_type_code robot_status_rsp = 6
msg_type_code trp_ctrl_req = 7
msg_type_code trp_ctrl_rsp = 8
msg_type_code apply_for_door_req = 9
msg_type_code apply_for_door_rsp = 10
msg_type_code apply_traffic_res_req = 11
msg_type_code apply_traffic_res_rsp = 12
msg_type_code door_config_req = 13
msg_type_code door_config_rsp = 14
msg_type_code apply_offline_req = 15
msg_type_code apply_offline_rsp = 16
msg_type_code path_upload_req = 17
msg_type_code path_upload_rsp = 18
msg_type_code interrupt_ctrl_req = 19
msg_type_code interrupt_ctrl_rsp = 20
msg_type_code apply_plan_req = 21
msg_type_code apply_plan_rsp = 22
msg_type_code path_plan_req = 23
msg_type_code path_plan_rsp = 24
msg_type_code unknown = 25

-- `uint8_t` has the shape of `char`, `uint16_t` that of `int16_t`. An array of no elements takes
-- no room.

abbrev pub hk_header_s : Shape
hk_header_s = struct (array 4 char ∷ int32_t ∷ int16_t ∷ int16_t ∷ char ∷ char ∷ array 2 char ∷ [])

abbrev pub door_info_s : Shape
door_info_s = struct (int32_t ∷ int32_t ∷ int32_t ∷ [])

abbrev pub interrupt_cmd_s : Shape
interrupt_cmd_s = struct (int16_t ∷ int16_t ∷ [])

abbrev pub path_plan_req_s : Shape
path_plan_req_s =
    struct
      (int16_t ∷ int16_t ∷ int32_t ∷ int32_t ∷ int16_t ∷ int16_t ∷ int32_t ∷ int32_t ∷ int32_t ∷ [])

abbrev pub common_resp_s : Shape
common_resp_s = struct (int32_t ∷ int16_t ∷ array 2 char ∷ [])

abbrev pub plan_req_s : Shape
plan_req_s = struct (int16_t ∷ int16_t ∷ int32_t ∷ int32_t ∷ int32_t ∷ int16_t ∷ int16_t ∷ [])

abbrev pub point_s : Shape
point_s = struct (int32_t ∷ int32_t ∷ [])

abbrev pub trp_ctrl_req_s : Shape
trp_ctrl_req_s = struct (int16_t ∷ int16_t ∷ point_s ∷ int16_t ∷ int16_t ∷ int32_t ∷ [])

abbrev pub apply_door_resp_s : Shape
apply_door_resp_s = struct (int16_t ∷ int16_t ∷ int32_t ∷ point_s ∷ int32_t ∷ [])

abbrev pub agv_info_s : Shape
agv_info_s = struct (int32_t ∷ point_s ∷ int32_t ∷ array 0 point_s ∷ [])

abbrev pub apply_traffic_res_resp_s : Shape
apply_traffic_res_resp_s = struct (int16_t ∷ int16_t ∷ int32_t ∷ int32_t ∷ array 0 agv_info_s ∷ [])

abbrev pub apply_offline_resp_s : Shape
apply_offline_resp_s = struct (int32_t ∷ int16_t ∷ array 2 char ∷ [])
