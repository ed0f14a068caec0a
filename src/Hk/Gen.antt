-- ===== src/Hk/Gen.antt =====
-- The functions of bazelPro/src/hk/msg_gen.cpp that write a message into the send buffer. Each is
-- the run of its writes, in order; the result is the buffer and the returned length.
use ng.Base.{ℕ, ◌+◌, ◌*◌, ◌%◌, List, [], ◌∷◌, ◌++◌, Option, some, ◌>>=◌}
use ng.Hk.Wire.{bswap_16, bswap_32, le_bytes, store_all}
use ng.Hk.Types

-- `temp16 = bswap_16(v); memcpy(&send_buffer[msg_len], &temp16, 2)`, and so for 32 bits.
abbrev pub put16 : ℕ → List ℕ
put16 v = le_bytes 2 (bswap_16 v)

abbrev pub put32 : ℕ → List ℕ
put32 v = le_bytes 4 (bswap_32 v)

-- A variable that is copied as it is.
abbrev pub raw16 : ℕ → List ℕ
raw16 v = le_bytes 2 v

abbrev pub raw32 : ℕ → List ℕ
raw32 v = le_bytes 4 v

-- The writes of the header, the same in each function but for the order, the type and the length.
abbrev pub header_writes : List ℕ → Types.GsMsgType → ℕ → List (List ℕ)
header_writes msg_order msg_type msg_length =
    (0x44 ∷ [])
    ∷ (0x42 ∷ [])
    ∷ (0x48 ∷ [])
    ∷ (0x4b ∷ [])
    ∷ msg_order
    ∷ put16 (Types.msg_type_code msg_type)
    ∷ put16 msg_length
    ∷ (b'0' ∷ [])
    ∷ (b'0' ∷ [])
    ∷ (b'0' ∷ b'0' ∷ [])
    ∷ []

abbrev pub run : List (List ℕ) → List ℕ → Option (List ℕ × ℕ)
run writes buffer = do
  s ← store_all writes (record { send_buffer = buffer; msg_len = 0 })
  some (s.send_buffer, s.msg_len)

unfoldable pub gen_path_plan_req : List ℕ → Option (List ℕ × ℕ)
gen_path_plan_req buffer =
    run
      (header_writes (put32 1) Types.path_plan_req
          (Types.hk_header_s.size + Types.path_plan_req_s.size)
        ++ (put16 6001
            ∷ put16 2
            ∷ put32 11111
            ∷ put32 22222
            ∷ put16 33
            ∷ put16 1
            ∷ put32 33333
            ∷ put32 44444
            ∷ put32 1201
            ∷ []))
      buffer

unfoldable pub gen_apply_plan_resp : ℕ → List ℕ → Option (List ℕ × ℕ)
gen_apply_plan_resp n_order buffer =
    run
      (header_writes (raw32 n_order) Types.apply_plan_rsp (16 + Types.common_resp_s.size)
        ++ (put32 200 ∷ put16 6001 ∷ raw16 0 ∷ []))
      buffer

unfoldable pub gen_apply_offine_resp : ℕ → List ℕ → Option (List ℕ × ℕ)
gen_apply_offine_resp n_order buffer =
    run
      (header_writes (raw32 n_order) Types.apply_offline_rsp (16 + Types.apply_offline_resp_s.size)
        ++ (put32 200 ∷ put16 6001 ∷ raw16 0 ∷ []))
      buffer

unfoldable pub gen_apply_traffic_res_resp : ℕ → ℕ → List ℕ → Option (List ℕ × ℕ)
gen_apply_traffic_res_resp n_order n_area_id buffer =
    run
      (header_writes (raw32 n_order) Types.apply_traffic_res_rsp
          (16 + Types.apply_traffic_res_resp_s.size)
        ++ (put16 200 ∷ put16 6001 ∷ raw32 n_area_id ∷ raw32 0 ∷ []))
      buffer

unfoldable pub gen_apply_for_door_resp : ℕ → ℕ → ℕ → ℕ → List ℕ → Option (List ℕ × ℕ)
gen_apply_for_door_resp n_door_id n_x n_y n_order buffer =
    run
      (header_writes (raw32 n_order) Types.apply_for_door_rsp (16 + Types.apply_door_resp_s.size)
        ++ (put16 6001 ∷ put16 200 ∷ raw32 n_door_id ∷ raw32 n_x ∷ raw32 n_y ∷ put32 1 ∷ []))
      buffer

unfoldable pub gen_apply_clean_area_resp : ℕ → List ℕ → Option (List ℕ × ℕ)
gen_apply_clean_area_resp area_id buffer =
    run
      (header_writes (put32 1) Types.apply_clean_area_rsp (16 + 8)
        ++ (put16 200 ∷ put16 6001 ∷ put32 area_id ∷ []))
      buffer

unfoldable pub gen_trp_ctrl_req : List ℕ → Option (List ℕ × ℕ)
gen_trp_ctrl_req buffer =
    run
      (header_writes (put32 1) Types.trp_ctrl_req
          (Types.hk_header_s.size + Types.trp_ctrl_req_s.size)
        ++ (put16 6001 ∷ put16 1 ∷ put32 11 ∷ put32 22 ∷ put16 33 ∷ put16 100 ∷ put32 1201 ∷ []))
      buffer

unfoldable pub gen_robot_status_resp : List ℕ → Option (List ℕ × ℕ)
gen_robot_status_resp buffer =
    run
      (header_writes (put32 1) Types.robot_status_rsp (16 + 8)
        ++ (put32 200 ∷ put16 6001 ∷ raw16 0 ∷ []))
      buffer

unfoldable pub gen_door_info : List ℕ → Option (List ℕ × ℕ)
gen_door_info buffer =
    run
      (header_writes (put32 1) Types.door_config_req (16 + 4 + Types.door_info_s.size * 3)
        ++ (put16 6001
            ∷ put16 3
            ∷ put32 1
            ∷ put32 1
            ∷ put32 1
            ∷ put32 2
            ∷ put32 2
            ∷ put32 2
            ∷ put32 3
            ∷ put32 3
            ∷ put32 3
            ∷ []))
      buffer

-- The last write is not followed by a step of `msg_len`, and the returned length is a constant.
unfoldable pub gen_register_resp : List ℕ → Option (List ℕ × ℕ)
gen_register_resp buffer = do
  r ←
      run
        (header_writes (put32 1) Types.register_rsp (16 + 8)
          ++ (put32 200 ∷ put16 6001 ∷ raw16 0 ∷ []))
        buffer
  some (r.0, 16 + 8)

-- The static counter `flip`, the buffer and the length after the call.
unfoldable pub gen_interrupt_ctrl_req : ℕ → List ℕ → Option (ℕ × List ℕ × ℕ)
gen_interrupt_ctrl_req flip buffer = do
  r ←
      run
        (header_writes (put32 1) Types.interrupt_ctrl_req
            (Types.hk_header_s.size + Types.interrupt_cmd_s.size)
          ++ (put16 6001 ∷ put16 ((flip + 1) % 3) ∷ []))
        buffer
  some (flip + 1, r.0, r.1)
