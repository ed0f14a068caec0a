-- ===== src/Hk/Server/Echo.antt =====
-- What an answer of bazelPro/src/hk/main.cpp copies from its request.
use ng.Base.{
  ℕ, IsByte, zero, suc, ◌+◌, ◌≤◌, ◌≡◌, ◌≢◌, refl, ap, sym, subst, ◌∙◌, arith, List, [], ◌∷◌, ◌++◌,
  map,
}
use ng.Base.{
  some, Bool, true, false, ◌==◌, length, take, drop, length-take, length-drop, All, All-take,
  All-drop, inl, inr, ◌⊎◌, append_assoc,
}
use ng.Hk.Wire.{le_bytes, le_value}
use ng.Hk.Wire.Swap.{be32}
use ng.Hk.Frame.{Message, plan, offline, traffic, door, clean_area}
use ng.Hk.Server.{Server, step}
use ng.Hk.Server.Reply.{IsReady, wire}
use ng.Hk.Server.Answers.{asks_plan, request, request_of, answers, field, be_value}
use ng.Hk.Server.Round.{step-Round, third, received}

-- A field that lies inside the datagram is the datagram's.
field-append :
    (xs ys : List ℕ) (at n : ℕ) → at + n ≤ length xs → field (xs ++ ys) at n ≡ field xs at n
field-append xs ys zero zero h = refl
field-append [] ys zero (suc n) h = absurd (omega arith)
field-append (x ∷ xs) ys zero (suc n) h = ap (◌∷◌ x) (field-append xs ys zero n (omega arith))
field-append [] ys (suc at) n h = absurd (omega arith)
field-append (x ∷ xs) ys (suc at) n h = field-append xs ys at n (omega arith)

take-all : (n : ℕ) (xs : List ℕ) → length xs ≤ n → take n xs ≡ xs
take-all zero [] h = refl
take-all zero (x ∷ xs) h = absurd (omega arith)
take-all (suc n) [] h = refl
take-all (suc n) (x ∷ xs) h = ap (◌∷◌ x) (take-all n xs (omega arith))

pub field-received :
    (s : Server) (d : List ℕ) (at n : ℕ)
    → length d ≤ 1024
    → at + n ≤ length d
    → field (received s d) at n ≡ field d at n
field-received s d at n h k = rw (take-all 1024 d h) (field-append d _ at n k)

le_bytes-value : (xs : List ℕ) → length xs ≡ 4 → All IsByte xs → le_bytes 4 (le_value xs) ≡ xs
le_bytes-value [] h a = absurd (omega arith)
le_bytes-value (x ∷ []) h a = absurd (omega arith)
le_bytes-value (x ∷ y ∷ []) h a = absurd (omega arith)
le_bytes-value (x ∷ y ∷ z ∷ []) h a = absurd (omega arith)
le_bytes-value (x ∷ y ∷ z ∷ t ∷ []) h a = ground arith
le_bytes-value (x ∷ y ∷ z ∷ t ∷ u ∷ xs) h a = absurd (omega arith)

be32-value : (xs : List ℕ) → length xs ≡ 4 → All IsByte xs → be32 (be_value xs) ≡ xs
be32-value [] h a = absurd (omega arith)
be32-value (x ∷ []) h a = absurd (omega arith)
be32-value (x ∷ y ∷ []) h a = absurd (omega arith)
be32-value (x ∷ y ∷ z ∷ []) h a = absurd (omega arith)
be32-value (x ∷ y ∷ z ∷ t ∷ []) h a = ground arith
be32-value (x ∷ y ∷ z ∷ t ∷ u ∷ xs) h a = absurd (omega arith)

-- An answer that begins with the message `m`.
StartsWith : Server → List ℕ → Message → Type 0
StartsWith s d m =
    (ms : List Message) × (answers s.if_send_door_info (request (received s d)) ≡ m ∷ ms)

door_answer :
    (s : Server) (d : List ℕ)
    → be_value (field (received s d) 8 2) ≡ 9
    → StartsWith s d (
        door
          (le_value (field (received s d) 20 4))
          (le_value (field (received s d) 24 4))
          (le_value (field (received s d) 28 4))
          (le_value (field (received s d) 4 4)))
unfolding StartsWith
door_answer s d e = ([], ap (λ k. answers s.if_send_door_info (request_of k (received s d))) e)

traffic_answer :
    (s : Server) (d : List ℕ)
    → be_value (field (received s d) 8 2) ≡ 11
    → StartsWith s d
        (traffic (le_value (field (received s d) 4 4)) (le_value (field (received s d) 20 4)))
unfolding StartsWith
traffic_answer s d e = ([], ap (λ k. answers s.if_send_door_info (request_of k (received s d))) e)

offline_answer :
    (s : Server) (d : List ℕ)
    → be_value (field (received s d) 8 2) ≡ 15
    → StartsWith s d (offline (le_value (field (received s d) 4 4)))
unfolding StartsWith
offline_answer s d e = ([], ap (λ k. answers s.if_send_door_info (request_of k (received s d))) e)

plan_answer :
    (s : Server) (d : List ℕ)
    → be_value (field (received s d) 8 2) ≡ 21
    → StartsWith s d (plan (le_value (field (received s d) 4 4)))
unfolding StartsWith
plan_answer s d e =
    both (be_value (field (received s d) 34 2) == 1)
      (ap (λ k. answers s.if_send_door_info (request_of k (received s d))) e)
  where
    both :
        (b : Bool)
        → answers s.if_send_door_info (request (received s d))
          ≡ answers s.if_send_door_info (asks_plan (le_value (field (received s d) 4 4)) b)
        → (ms : List Message) × (answers s.if_send_door_info (request (received s d))
            ≡ plan (le_value (field (received s d) 4 4)) ∷ ms)
    both true h = (_, h)
    both false h = (_, h)

clean_area_answer :
    (s : Server) (d : List ℕ)
    → be_value (field (received s d) 8 2) ≡ 3
    → StartsWith s d (clean_area (be_value (field (received s d) 20 4)))
unfolding StartsWith
clean_area_answer s d e =
    ([], ap (λ k. answers s.if_send_door_info (request_of k (received s d))) e)

-- The first frame that a round sends.
abbrev pub FirstSent : Server → List ℕ → (List ℕ → Type 0) → Type 0
FirstSent s d P =
    (t : Server) × (answer : List ℕ) × (rest : List (List ℕ)) × (step s d ≡ some t)
    × (t.outbox ≡ s.outbox ++ (answer ∷ rest))
    × P answer

first_sent :
    (s : Server) (d : List ℕ) (m : Message) (P : List ℕ → Type 0)
    → IsReady s
    → All IsByte d
    → length d ≢ 0
    → StartsWith s d m
    → P (wire m)
    → FirstSent s d P
unfolding StartsWith
first_sent s d m P v a ne (ms, e) p =
    let (t, f, r) = step-Round s d v a ne in
    (
      t,
      wire m,
      map wire ms ++ map wire (third (s.tick + 1) s.flip),
      f,
      r.outbox
          ∙ ap (λ l. s.outbox ++ map wire l ++ map wire (third (s.tick + 1) s.flip)) e
          ∙ append_assoc s.outbox (wire m ∷ map wire ms) (map wire (third (s.tick + 1) s.flip)),
      p,
    )

module _ (s : Server) (d : List ℕ) (v : IsReady s) (bytes : All IsByte d)
    (most : length d ≤ 1024) where
  abbrev pub kind : ℕ
  kind = be_value (field d 8 2)

  same_kind : 10 ≤ length d → be_value (field (received s d) 8 2) ≡ kind
  same_kind h = ap be_value (field-received s d 8 2 most h)

  four : (at : ℕ) → at + 4 ≤ length d → (length (field d at 4) ≡ 4) × All IsByte (field d at 4)
  four at h = (
    omega (arith, length-take 4 (drop at d), length-drop at d),
    All-take IsByte 4 (drop at d) (All-drop IsByte at d bytes),
  )

  word :
      (at : ℕ)
      → at + 4 ≤ length d
      → le_bytes 4 (le_value (field (received s d) at 4)) ≡ field d at 4
  word at h =
      ap (λ l. le_bytes 4 (le_value l)) (field-received s d at 4 most h)
      ∙ le_bytes-value (field d at 4) (four at h).0 (four at h).1

  word_be :
      (at : ℕ) → at + 4 ≤ length d → be32 (be_value (field (received s d) at 4)) ≡ field d at 4
  word_be at h =
      ap (λ l. be32 (be_value l)) (field-received s d at 4 most h)
      ∙ be32-value (field d at 4) (four at h).0 (four at h).1

  -- A request of at least 10 bytes for a door, a traffic resource, to go offline or for a plan is
  -- answered, and the first frame that goes out has the order number of the request, byte by byte.
  step_echoes_order :
      10 ≤ length d
      → (kind ≡ 9) ⊎ ((kind ≡ 11) ⊎ ((kind ≡ 15) ⊎ (kind ≡ 21)))
      → FirstSent s d (λ answer. field answer 4 4 ≡ field d 4 4)
  step_echoes_order h (inl e) =
      first_sent s d _ _ v bytes (omega arith) (door_answer s d (same_kind h ∙ e))
        (word 4 (omega arith))
  step_echoes_order h (inr (inl e)) =
      first_sent s d _ _ v bytes (omega arith) (traffic_answer s d (same_kind h ∙ e))
        (word 4 (omega arith))
  step_echoes_order h (inr (inr (inl e))) =
      first_sent s d _ _ v bytes (omega arith) (offline_answer s d (same_kind h ∙ e))
        (word 4 (omega arith))
  step_echoes_order h (inr (inr (inr e))) =
      first_sent s d _ _ v bytes (omega arith) (plan_answer s d (same_kind h ∙ e))
        (word 4 (omega arith))

  -- A request of at least 24 bytes for a clean area, a door or a traffic resource is answered, and
  -- the first frame that goes out names, at the same place, the area or door of the request.
  step_echoes_id :
      24 ≤ length d
      → (kind ≡ 3) ⊎ ((kind ≡ 9) ⊎ (kind ≡ 11))
      → FirstSent s d (λ answer. field answer 20 4 ≡ field d 20 4)
  step_echoes_id h (inl e) =
      first_sent s d _ _ v bytes (omega arith) (clean_area_answer s d (same_kind (omega arith) ∙ e))
        (word_be 20 (omega arith))
  step_echoes_id h (inr (inl e)) =
      first_sent s d _ _ v bytes (omega arith) (door_answer s d (same_kind (omega arith) ∙ e))
        (word 20 (omega arith))
  step_echoes_id h (inr (inr e)) =
      first_sent s d _ _ v bytes (omega arith) (traffic_answer s d (same_kind (omega arith) ∙ e))
        (word 20 (omega arith))

  -- The places of a request that are copied: the order number, at 4, and the id, at 20.
  abbrev pub IsCopied : ℕ → Type 0
  IsCopied at =
      ((at ≡ 4) × ((kind ≡ 9) ⊎ ((kind ≡ 11) ⊎ ((kind ≡ 15) ⊎ (kind ≡ 21)))))
      ⊎ ((at ≡ 20) × ((kind ≡ 3) ⊎ ((kind ≡ 9) ⊎ (kind ≡ 11))))

  -- A request of at least 10 bytes for a door, a traffic resource, to go offline or for a plan is
  -- answered, and the first frame that goes out has, at the same place, the order number of the request,
  -- byte by byte; so is one of at least 24 bytes for a clean area, a door or a traffic resource, with
  -- the id of the area, door or resource.
  pub step_echoes :
      (at : ℕ)
      → 10 ≤ length d
      → at + 4 ≤ length d
      → IsCopied at
      → FirstSent s d (λ answer. field answer at 4 ≡ field d at 4)
  step_echoes at h inside (inl (e, asks)) =
      subst (λ at. FirstSent s d (λ answer. field answer at 4 ≡ field d at 4)) (sym e)
        (step_echoes_order h asks)
  step_echoes at h inside (inr (e, asks)) =
      subst (λ at. FirstSent s d (λ answer. field answer at 4 ≡ field d at 4)) (sym e)
        (step_echoes_id (omega (arith, inside, e)) asks)
