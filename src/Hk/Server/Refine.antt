-- ===== src/Hk/Server/Refine.antt =====
-- The handlers of bazelPro/src/hk/main.cpp refine the description in Answers.
use ng.Base.{ℕ, ◌≤◌, ◌≡◌, refl, arith, [], ◌∷◌}
use ng.Base.{some, true, not, ◌==◌, if◌then◌else◌, length}
use ng.Base.{Bool-cases, inl, inr}
use ng.Hk.Wire.{le_value}
use ng.Hk.Frame.{
  path_plan, trp_ctrl, door_info, robot_status, register, plan, offline, traffic, door, clean_area,
}
use ng.Hk.Frame.Generated.{generate, generate_lem}
use ng.Hk.Gen.{gen_apply_plan_resp, gen_path_plan_req}
use ng.Hk.Server.{
  Server, on_register, on_robot_status, on_clean_area, on_door, on_traffic, on_offline, on_plan,
  send_doors, dispatch,
}
use ng.Hk.Server.Reply.{
  IsReady, sent_message, sent_message-IsReady, reply-sent, reply_undumped-sent,
}
use ng.Hk.Server.Answers.{
  asks_register, reports_status, asks_clean_area, asks_door, asks_traffic, asks_offline, asks_plan,
  field, be_value, request_of, deliver, answered, read, swap16, swap32, field_lem, byte_at,
}

module _ (s : Server) (v : IsReady s) where
  room : 56 ≤ length s.sendbuffer
  room = omega (arith, v.sendbuffer_size)

  on_register-answered : on_register s ≡ some (answered asks_register s)
  unfolding on_register generate
  on_register-answered = reply-sent _ register s v (generate_lem register s.sendbuffer tt room)

  on_clean_area-answered :
      on_clean_area s ≡ some (answered (asks_clean_area (be_value (field s.buffer 20 4))) s)
  unfolding on_clean_area generate
  on_clean_area-answered =
      let (l, a) = field_lem s.buffer 20 4 v.buffer_size v.bytes (omega arith) in
      let (e, h) = swap32 (field s.buffer 20 4) l a in
      rw (read s 20 4 v (omega arith), e)
        (reply-sent _ (clean_area (be_value (field s.buffer 20 4))) s v
          (generate_lem (clean_area (be_value (field s.buffer 20 4))) s.sendbuffer h room))

  on_door-answered :
      on_door s
      ≡ some (
          answered
            (asks_door
              (le_value (field s.buffer 20 4))
              (le_value (field s.buffer 24 4))
              (le_value (field s.buffer 28 4))
              (le_value (field s.buffer 4 4)))
            s)
  unfolding on_door generate
  on_door-answered =
      rw
        (
          read s 4 4 v (omega arith),
          read s 20 4 v (omega arith),
          read s 24 4 v (omega arith),
          read s 28 4 v (omega arith),
        )
        (reply-sent _ (door _ _ _ _) s v (generate_lem (door _ _ _ _) s.sendbuffer tt room))

  on_traffic-answered :
      on_traffic s
      ≡ some (
          answered
            (asks_traffic (le_value (field s.buffer 4 4)) (le_value (field s.buffer 20 4)))
            s)
  unfolding on_traffic generate
  on_traffic-answered =
      rw (read s 4 4 v (omega arith), read s 20 4 v (omega arith))
        (reply-sent _ (traffic _ _) s v (generate_lem (traffic _ _) s.sendbuffer tt room))

  on_offline-answered :
      on_offline s ≡ some (answered (asks_offline (le_value (field s.buffer 4 4))) s)
  unfolding on_offline generate
  on_offline-answered =
      rw (read s 4 4 v (omega arith))
        (reply-sent _ (offline _) s v (generate_lem (offline _) s.sendbuffer tt room))

  on_plan-answered :
      on_plan s
      ≡ some (
          answered
            (asks_plan (le_value (field s.buffer 4 4)) (be_value (field s.buffer 34 2) == 1))
            s)
  unfolding on_plan generate
  on_plan-answered =
      let order = le_value (field s.buffer 4 4) in
      let (l, a) = field_lem s.buffer 34 2 v.buffer_size v.bytes (omega arith) in
      let e = swap16 (field s.buffer 34 2) l a in
      let first =
        reply_undumped-sent (gen_apply_plan_resp order) (plan order) s v
          (generate_lem (plan order) s.sendbuffer tt room) in
      let v' = sent_message-IsReady (plan order) s v in
      let second =
        reply_undumped-sent gen_path_plan_req path_plan (sent_message (plan order) s) v' (
          generate_lem path_plan (sent_message (plan order) s).sendbuffer tt
            (omega (arith, v'.sendbuffer_size))) in
      rw (read s 4 4 v (omega arith), read s 34 2 v (omega arith), first, e)
        (elim (Bool-cases (be_value (field s.buffer 34 2) == 1)) [
          | inl wants ↦ rw wants second
          | inr no_path ↦ rw no_path
        ])

send_doors-answered :
    (s : Server)
    → IsReady s
    → send_doors (record s { registered = true })
      ≡ some (record (deliver (if s.if_send_door_info then [] else door_info ∷ []) s) {
        registered = true;
        if_send_door_info = true;
      })
unfolding send_doors generate
send_doors-answered s v = elim (Bool-cases s.if_send_door_info) [
  | inl done ↦ rw done refl
  | inr first ↦ rw first (
      reply-sent _ door_info (record s { registered = true; if_send_door_info = true })
        (record {
          buffer_size = v.buffer_size;
          sendbuffer_size = v.sendbuffer_size;
          bytes = v.bytes;
        })
        (generate_lem door_info s.sendbuffer tt (omega (arith, v.sendbuffer_size))))
]

on_robot_status-answered :
    (s : Server)
    → IsReady s
    → on_robot_status s
      ≡ some (answered (reports_status (not (be_value (field s.buffer 22 1) == 0))) s)
unfolding on_robot_status generate
on_robot_status-answered s v =
    let s' = sent_message robot_status s in
    let v' = sent_message-IsReady robot_status s v in
    let v'' = sent_message-IsReady trp_ctrl s' v' in
    rw
      (
        reply-sent _ robot_status s v
            (generate_lem robot_status s.sendbuffer tt (omega (arith, v.sendbuffer_size))),
        byte_at s.buffer 22 (omega (arith, v.buffer_size)),
      )
      (elim (Bool-cases (be_value (field s.buffer 22 1) == 0)) [
        | inl z ↦ rw z (send_doors-answered s' v')
        | inr needs ↦
            rw
              (
                needs,
                reply-sent _ trp_ctrl s' v'
                    (generate_lem trp_ctrl s'.sendbuffer tt (omega (arith, v'.sendbuffer_size))),
              )
              (send_doors-answered (sent_message trp_ctrl s') v'')
      ])

pub dispatch-answered :
    (kind : ℕ) (s : Server)
    → IsReady s
    → dispatch kind s ≡ some (answered (request_of kind s.buffer) s)
unfolding dispatch
dispatch-answered kind s v = elim (Bool-cases (kind == 1)) [
  | inl is ↦ rw is (on_register-answered s v)
  | inr is_not ↦ rw is_not (elim (Bool-cases (kind == 5)) [
    | inl is ↦ rw is (on_robot_status-answered s v)
    | inr is_not ↦ rw is_not (elim (Bool-cases (kind == 3)) [
      | inl is ↦ rw is (on_clean_area-answered s v)
      | inr is_not ↦ rw is_not (elim (Bool-cases (kind == 9)) [
        | inl is ↦ rw is (on_door-answered s v)
        | inr is_not ↦ rw is_not (elim (Bool-cases (kind == 11)) [
          | inl is ↦ rw is (on_traffic-answered s v)
          | inr is_not ↦ rw is_not (elim (Bool-cases (kind == 15)) [
            | inl is ↦ rw is (on_offline-answered s v)
            | inr is_not ↦ rw is_not (elim (Bool-cases (kind == 21)) [
              | inl is ↦ rw is (on_plan-answered s v)
              | inr is_not ↦ rw is_not (refl)
            ])
          ])
        ])
      ])
    ])
  ])
]
