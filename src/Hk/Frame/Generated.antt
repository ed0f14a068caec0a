-- ===== src/Hk/Frame/Generated.antt =====
-- Each function of bazelPro/src/hk/msg_gen.cpp writes the frame of its message.
use ng.Base.{
  ℕ, ◌+◌, ◌^◌, ◌<◌, ◌≤◌, ◌≡◌, ap, ◌∙◌, ◌%◌, arith, List, [], ◌∷◌, ◌++◌, Option, some, ◌>>=◌, length,
  drop,
}
use ng.Hk.Wire.{bswap_16, bswap_32}
use ng.Hk.Wire.Swap.{le_bytes-bswap_16, le_bytes-bswap_32}
use ng.Hk.Wire.Stores.{joined, store_all-joined}
use ng.Hk.Types
use ng.Hk.Gen.{
  run, header_writes, put16, put32, raw16, gen_path_plan_req, gen_apply_plan_resp,
  gen_apply_offine_resp, gen_apply_traffic_res_resp, gen_apply_for_door_resp,
  gen_apply_clean_area_resp, gen_trp_ctrl_req, gen_robot_status_resp, gen_door_info,
  gen_register_resp, gen_interrupt_ctrl_req,
}
use ng.Hk.Frame.{
  frame_bytes, Message, path_plan, trp_ctrl, door_info, robot_status, register, plan, offline,
  traffic, door, clean_area, interrupt, frame_of,
}

-- The function that generates a message.
unfoldable pub generate : Message → List ℕ → Option (List ℕ × ℕ)
generate path_plan buffer = gen_path_plan_req buffer
generate trp_ctrl buffer = gen_trp_ctrl_req buffer
generate door_info buffer = gen_door_info buffer
generate robot_status buffer = gen_robot_status_resp buffer
generate register buffer = gen_register_resp buffer
generate (plan order) buffer = gen_apply_plan_resp order buffer
generate (offline order) buffer = gen_apply_offine_resp order buffer
generate (traffic order area) buffer = gen_apply_traffic_res_resp order area buffer
generate (door id x y order) buffer = gen_apply_for_door_resp id x y order buffer
generate (clean_area area) buffer = gen_apply_clean_area_resp area buffer
generate (interrupt flip) buffer = gen_interrupt_ctrl_req flip buffer >>= λ r. some (r.1, r.2)

-- The arguments are values of `int`, as 32-bit patterns.
abbrev pub IsWord : Message → Type 0
IsWord (clean_area area) = area < 2 ^ 32
IsWord _ = Unit

-- The buffer that a message is written over, and the returned length.
abbrev pub sent : Message → List ℕ → List ℕ × ℕ
sent m buffer =
    let bytes = frame_bytes (frame_of m) in (bytes ++ drop (length bytes) buffer, length bytes)

run-joined :
    (writes : List (List ℕ)) (buffer : List ℕ)
    → length (joined writes) ≤ length buffer
    → run writes buffer
      ≡ some (joined writes ++ drop (length (joined writes)) buffer, length (joined writes))
run-joined writes buffer h = rw (store_all-joined writes buffer h)

clean_area-sent :
    (area : ℕ) (buffer : List ℕ)
    → area < 2 ^ 32
    → 56 ≤ length buffer
    → gen_apply_clean_area_resp area buffer ≡ some (sent (clean_area area) buffer)
unfolding gen_apply_clean_area_resp
clean_area-sent area buffer w h =
    ap
      (λ b.
        run
          (header_writes (put32 1) Types.apply_clean_area_rsp (16 + 8)
            ++ (put16 200 ∷ put16 6001 ∷ b ∷ []))
          buffer)
      (le_bytes-bswap_32 area w)
    ∙ (unfold bswap_16 bswap_32 in run-joined _ buffer (omega arith))

pub interrupt-sent :
    (flip : ℕ) (buffer : List ℕ)
    → 56 ≤ length buffer
    → gen_interrupt_ctrl_req flip buffer
      ≡ some (flip + 1, (sent (interrupt flip) buffer).0, (sent (interrupt flip) buffer).1)
unfolding gen_interrupt_ctrl_req
interrupt-sent flip buffer h = ap (λ r. r >>= λ (s : List ℕ × ℕ). some (flip + 1, s.0, s.1)) written
  where
    frame_of_cmd : List ℕ → List (List ℕ)
    frame_of_cmd cmd =
        header_writes (put32 1) Types.interrupt_ctrl_req
          (Types.hk_header_s.size + Types.interrupt_cmd_s.size)
        ++ (put16 6001 ∷ cmd ∷ [])

    written :
        run (frame_of_cmd (put16 ((flip + 1) % 3))) buffer ≡ some (sent (interrupt flip) buffer)
    written =
        ap (λ b. run (frame_of_cmd b) buffer) (le_bytes-bswap_16 ((flip + 1) % 3) (omega arith))
        ∙ (unfold bswap_16 bswap_32 in run-joined _ buffer (omega arith))

register-sent :
    (buffer : List ℕ) → 56 ≤ length buffer → gen_register_resp buffer ≡ some (sent register buffer)
unfolding gen_register_resp bswap_16 bswap_32
register-sent buffer h =
    ap (λ r. r >>= λ (s : List ℕ × ℕ). some (s.0, 24))
      (run-joined
        (header_writes (put32 1) Types.register_rsp (16 + 8)
          ++ (put32 200 ∷ put16 6001 ∷ raw16 0 ∷ []))
        buffer (omega arith))

-- Each function of the message generator writes, over the start of a buffer of at least 56 bytes,
-- exactly the frame of its message, leaves the rest of the buffer alone, stays inside it, and
-- returns the length of the frame.
pub generate_lem :
    (m : Message) (buffer : List ℕ)
    → IsWord m
    → 56 ≤ length buffer
    → generate m buffer ≡ some (sent m buffer)
unfolding generate bswap_16 bswap_32
generate_lem path_plan buffer w h = unfold gen_path_plan_req in run-joined _ buffer (omega arith)
generate_lem trp_ctrl buffer w h = unfold gen_trp_ctrl_req in run-joined _ buffer (omega arith)
generate_lem door_info buffer w h = unfold gen_door_info in run-joined _ buffer (omega arith)
generate_lem robot_status buffer w h =
    unfold gen_robot_status_resp in run-joined _ buffer (omega arith)
generate_lem register buffer w h = register-sent buffer h
generate_lem (plan order) buffer w h =
    unfold gen_apply_plan_resp in run-joined _ buffer (omega arith)
generate_lem (offline order) buffer w h =
    unfold gen_apply_offine_resp in run-joined _ buffer (omega arith)
generate_lem (traffic order area) buffer w h =
    unfold gen_apply_traffic_res_resp in run-joined _ buffer (omega arith)
generate_lem (door id x y order) buffer w h =
    unfold gen_apply_for_door_resp in run-joined _ buffer (omega arith)
generate_lem (clean_area area) buffer w h = clean_area-sent area buffer w h
generate_lem (interrupt flip) buffer w h = rw (interrupt-sent flip buffer h)
