-- ===== src/Jw/Told.antt =====
-- The server bazelPro/src/jw/srv.cc sends what is described.
use ng.Base.{
  ℕ, zero, suc, ◌+◌, ◌%◌, ◌<◌, ◌≡◌, refl, sym, ◌∙◌, arith, List, [], ◌∷◌, ◌++◌, some, true, ◌==◌,
}
use ng.Base.{
  ◌^◌, ◌≤◌, lt→ltb, leb, le→leb, length, take, drop, length-take, Bool-cases, inl, inr, ◌⊎◌,
  append_assoc, append-nil, ℤ,
}
use ng.Format.Arg.{codes}
use ng.Jw.{
  Json, hot_info, Srv, initial, path_resp, on_path_req, on_info, on_tick, on_type, handle_doc,
  handle_msg, run,
}
use ng.Jw.Described.{
  Message, path_req, info, no_document, no_type, a_path_req, an_info, another, AllSay, none_said,
  one_said, described_resp, answer_to, third, told, Fit,
}

remainders :
    (n : ℕ)
    → ((n % 4 ≡ 0) × ((n + 1) % 2 ≡ 1))
      ⊎ (((n % 4 ≡ 1) × ((n + 1) % 2 ≡ 0))
          ⊎ (((n % 4 ≡ 2) × ((n + 1) % 2 ≡ 1)) ⊎ ((n % 4 ≡ 3) × ((n + 1) % 2 ≡ 0))))
remainders n = elim (below_four (n % 4) (omega arith)) [
  | inl e ↦ inl (e, omega arith)
  | inr (inl e) ↦ inr (inl (e, omega arith))
  | inr (inr (inl e)) ↦ inr (inr (inl (e, omega arith)))
  | inr (inr (inr e)) ↦ inr (inr (inr (e, omega arith)))
]
  where
    below_four : (r : ℕ) → r < 4 → (r ≡ 0) ⊎ ((r ≡ 1) ⊎ ((r ≡ 2) ⊎ (r ≡ 3)))
    below_four zero h = inl refl
    below_four (suc zero) h = inr (inl refl)
    below_four (suc (suc zero)) h = inr (inr (inl refl))
    below_four (suc (suc (suc r))) h = inr (inr (inr (omega arith)))

Fit-append : (xs ys : List (List ℕ)) → Fit (xs ++ ys) → Fit xs × Fit ys
Fit-append [] ys h = (tt, h)
Fit-append (x ∷ xs) ys h = let (left, right) = Fit-append xs ys h.1 in ((h.0, left), right)

module _ {V : Type 0} (json : Json V) where
  path_resp-described : (id : ℤ) (n : ℕ) → path_resp json id n ≡ described_resp json id n
  unfolding path_resp
  path_resp-described id n = elim (remainders n) [
    | inl (e, f) ↦ rw (path_resp, described_resp, e, f) refl
    | inr (inl (e, f)) ↦ rw (path_resp, described_resp, e, f) refl
    | inr (inr (inl (e, f))) ↦ rw (path_resp, described_resp, e, f) refl
    | inr (inr (inr (e, f))) ↦ rw (path_resp, described_resp, e, f) refl
  ]

  -- The server after so many typed messages and requests for a path.
  abbrev after : List ℕ → ℕ → ℕ → List (List ℕ) → Srv
  after buffer typed paths sent = record {
    buffer = buffer;
    global_path_tick = typed;
    block_tick = paths;
    sent = sent;
  }

  on_tick-third :
      (buffer : List ℕ) (typed paths : ℕ) (sent : List (List ℕ))
      → typed + 1 < 2 ^ 31
      → Fit (third json (typed + 1))
      → on_tick json (after buffer typed paths sent)
        ≡ some (after buffer (typed + 1) paths (sent ++ third json (typed + 1)))
  unfolding on_tick
  on_tick-third buffer typed paths sent small = elim (Bool-cases ((typed + 1) % 3 == 0)) [
    | inl e ↦ rw e (λ fit. rw (lt→ltb _ _ small, e, le→leb _ _ fit.0) refl)
    | inr e ↦ rw e (λ fit. rw (lt→ltb _ _ small, e, append-nil sent) refl)
  ]

  on_path_req-answer_to :
      (d i : V) (id : ℤ) (buffer : List ℕ) (typed paths : ℕ) (sent : List (List ℕ))
      → json.find_member (codes "id") d ≡ some (some i)
      → json.get_int i ≡ some id
      → paths + 1 < 2 ^ 31
      → length (json.write (described_resp json id paths)) ≤ 1024
      → (b : List ℕ) × (on_path_req json d (after buffer typed paths sent)
          ≡ some (after b typed (paths + 1) (sent ++ answer_to json paths (path_req id))))
  unfolding on_path_req
  on_path_req-answer_to d i id buffer typed paths sent e f small fit =
      let resp = json.write (described_resp json id paths) in
      (
        resp ++ drop (length resp) buffer,
        rw (e, f, path_resp-described id paths, lt→ltb _ _ small, le→leb _ _ fit) refl,
      )

  on_info-answer_to :
      (buffer : List ℕ) (typed paths : ℕ) (sent : List (List ℕ))
      → length (json.write (hot_info json)) ≤ 1024
      → on_info json (after buffer typed paths sent)
        ≡ some (after buffer typed paths (sent ++ answer_to json paths info))
  unfolding on_info
  on_info-answer_to buffer typed paths sent fit = rw (le→leb _ _ fit) refl

  received : (m : List ℕ) → leb (length (take 1024 m)) 1024 ≡ true
  received m = le→leb _ _ (omega (arith, length-take 1024 m))

  -- The buffer when a datagram was received.
  abbrev arrived : List ℕ → List ℕ → List ℕ
  arrived m buffer = take 1024 m ++ drop (length (take 1024 m)) buffer

  run-told :
      (ms : List (List ℕ)) (ks : List Message) (buffer : List ℕ) (typed paths : ℕ)
      (sent : List (List ℕ))
      → AllSay json ms ks
      → typed + length ms < 2 ^ 31
      → paths + length ms < 2 ^ 31
      → Fit (told json paths typed ks)
      → (s : Srv) × (run json ms (after buffer typed paths sent) ≡ some s)
        × (s.sent ≡ sent ++ told json paths typed ks)
  unfolding run handle_msg handle_doc on_type
  run-told ms ks buffer typed paths sent none_said l l' fit = (_, refl, sym (append-nil sent))
  run-told (m ∷ ms) (k ∷ ks) buffer typed paths sent (one_said (no_document e) rest) l l' fit =
      let (s, f, g) =
        run-told ms ks (arrived m buffer) typed paths sent rest (omega arith) (omega arith) fit in
      (s, rw (received m, e) f, g)
  run-told (m ∷ ms) (k ∷ ks) buffer typed paths sent (one_said (no_type e e') rest) l l' fit =
      let (s, f, g) =
        run-told ms ks (arrived m buffer) typed paths sent rest (omega arith) (omega arith) fit in
      (s, rw (received m, e, e') f, g)
  run-told (m ∷ ms) (k ∷ ks) buffer typed paths sent
        (one_said (a_path_req {d = d} {i = i} {id = id} e e' t u v) rest) l l' fit =
      let (b, r) =
        on_path_req-answer_to d i id (arrived m buffer) typed paths sent u v (omega arith) fit.0 in
      let sent' = sent ++ answer_to json paths (path_req id) in
      let (now, later) = Fit-append (third json (typed + 1)) _ fit.1 in
      let third_told = on_tick-third b typed (paths + 1) sent' (omega arith) now in
      let (s, f, g) =
        run-told ms ks b (typed + 1) (paths + 1) (sent' ++ third json (typed + 1)) rest
          (omega arith) (omega arith) later in
      (
        s,
        rw (received m, e, e', t, r, third_told) f,
        g
            ∙ append_assoc sent' (third json (typed + 1)) _
            ∙ append_assoc sent (answer_to json paths (path_req id)) _,
      )
  run-told (m ∷ ms) (k ∷ ks) buffer typed paths sent (one_said (an_info e e' t) rest) l l' fit =
      let b = arrived m buffer in
      let r = on_info-answer_to b typed paths sent fit.0 in
      let sent' = sent ++ answer_to json paths info in
      let (now, later) = Fit-append (third json (typed + 1)) _ fit.1 in
      let third_told = on_tick-third b typed paths sent' (omega arith) now in
      let (s, f, g) =
        run-told ms ks b (typed + 1) paths (sent' ++ third json (typed + 1)) rest (omega arith)
          (omega arith) later in
      (
        s,
        rw (received m, e, e', t, r, third_told) f,
        g
            ∙ append_assoc sent' (third json (typed + 1)) _
            ∙ append_assoc sent (answer_to json paths info) _,
      )
  run-told (m ∷ ms) (k ∷ ks) buffer typed paths sent (one_said (another e e' t u v) rest) l l' fit =
      let b = arrived m buffer in
      let (now, later) = Fit-append (third json (typed + 1)) _ fit in
      let third_told = on_tick-third b typed paths sent (omega arith) now in
      let (s, f, g) =
        run-told ms ks b (typed + 1) paths (sent ++ third json (typed + 1)) rest (omega arith)
          (omega arith) later in
      (
        s,
        rw (received m, e, e', t, u, v, third_told) f,
        g ∙ append_assoc sent (third json (typed + 1)) _,
      )

  -- On any datagrams that say something, the server returns, and has sent what the description
  -- tells: the answers to the requests for a path go through a table of four, of which the last has
  -- no result; the vehicles are sent when they are asked for; and behind the answer to every third
  -- message that has a type comes a path for all. This is on condition that the described texts of
  -- this run fit the arrays of 1024 bytes, and that there are less than 2^31 datagrams, which an `int`
  -- counts.
  pub run_tells :
      (ms : List (List ℕ)) (ks : List Message)
      → AllSay json ms ks
      → length ms < 2 ^ 31
      → Fit (told json 0 0 ks)
      → (s : Srv) × (run json ms initial ≡ some s) × (s.sent ≡ told json 0 0 ks)
  run_tells ms ks said few fit =
      run-told ms ks initial.buffer 0 0 [] said (omega arith) (omega arith) fit
