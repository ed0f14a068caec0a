-- ===== src/Hk/Frame/Parse.antt =====
-- A reader of frames, which knows nothing of the generator, and the round trip through it.
use ng.Base.{
  ℕ, ◌+◌, ◌*◌, ◌/◌, ◌%◌, ◌^◌, ◌<◌, ◌≤◌, ◌≡◌, ap, ◌∙◌, arith, List, [], ◌∷◌, Option, none, some,
}
use ng.Base.{◌==◌, ◌&&◌, if◌then◌else◌, ==_refl, length, take, drop, take-append_self}
use ng.Hk.Frame.{
  Frame, frame_bytes, Message, path_plan, trp_ctrl, door_info, robot_status, register, plan,
  offline, traffic, door, clean_area, interrupt, frame_of,
}
use ng.Hk.Frame.Generated.{generate, generate_lem, IsWord, sent}

-- A datagram is a frame if it begins with the mark and its length field is its length.
unfoldable pub parse : List ℕ → Option Frame
parse (d ∷ b ∷ h ∷ k ∷ o0 ∷ o1 ∷ o2 ∷ o3 ∷ t1 ∷ t0 ∷ l1 ∷ l0 ∷ version ∷ crypt ∷ r0 ∷ r1 ∷ body) =
    if d == 0x44 && (b == 0x42 && (h == 0x48 && (k == 0x4b && l1 * 256 + l0 == 16 + length body)))
    then some (record { order = o0 ∷ o1 ∷ o2 ∷ o3 ∷ []; kind = t1 * 256 + t0; body = body })
    else none
parse _ = none

parse-frame_bytes :
    (o0 o1 o2 o3 kind : ℕ) (body : List ℕ)
    → kind < 2 ^ 16
    → 16 + length body < 2 ^ 16
    → parse (frame_bytes (record { order = o0 ∷ o1 ∷ o2 ∷ o3 ∷ []; kind = kind; body = body }))
      ≡ some (record { order = o0 ∷ o1 ∷ o2 ∷ o3 ∷ []; kind = kind; body = body })
unfolding parse
parse-frame_bytes o0 o1 o2 o3 kind body h l =
    let size : (16 + length body) / 256 % 256 * 256 + (16 + length body) % 256 ≡ 16 + length body =
      omega arith in
    let type : kind / 256 % 256 * 256 + kind % 256 ≡ kind = omega arith in
    rw (size, type, ==_refl (16 + length body))

parse-message : (m : Message) → parse (frame_bytes (frame_of m)) ≡ some (frame_of m)
parse-message path_plan = parse-frame_bytes _ _ _ _ _ _ (omega arith) (omega arith)
parse-message trp_ctrl = parse-frame_bytes _ _ _ _ _ _ (omega arith) (omega arith)
parse-message door_info = parse-frame_bytes _ _ _ _ _ _ (omega arith) (omega arith)
parse-message robot_status = parse-frame_bytes _ _ _ _ _ _ (omega arith) (omega arith)
parse-message register = parse-frame_bytes _ _ _ _ _ _ (omega arith) (omega arith)
parse-message (plan order) = parse-frame_bytes _ _ _ _ _ _ (omega arith) (omega arith)
parse-message (offline order) = parse-frame_bytes _ _ _ _ _ _ (omega arith) (omega arith)
parse-message (traffic order area) = parse-frame_bytes _ _ _ _ _ _ (omega arith) (omega arith)
parse-message (door id x y order) = parse-frame_bytes _ _ _ _ _ _ (omega arith) (omega arith)
parse-message (clean_area area) = parse-frame_bytes _ _ _ _ _ _ (omega arith) (omega arith)
parse-message (interrupt flip) = parse-frame_bytes _ _ _ _ _ _ (omega arith) (omega arith)

-- Whichever message is generated, over whatever a buffer of at least 56 bytes holds: the call
-- returns, and the bytes that are then sent, as many as it says, are read back as the message's
-- frame, with its type, its order number and its body, and with a length field that is the number
-- of bytes sent.
pub parse-generate :
    (m : Message) (buffer : List ℕ)
    → IsWord m
    → 56 ≤ length buffer
    → (after : List ℕ) × (n : ℕ) × (generate m buffer ≡ some (after, n))
      × (parse (take n after) ≡ some (frame_of m))
parse-generate m buffer w h = (
  (sent m buffer).0,
  (sent m buffer).1,
  generate_lem m buffer w h,
  ap parse (
        take-append_self (frame_bytes (frame_of m))
          (drop (length (frame_bytes (frame_of m))) buffer))
      ∙ parse-message m,
)
