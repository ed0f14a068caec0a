-- ===== src/Hk/Wire/Stores.antt =====
-- A run of writes from the start of a buffer puts the written bytes there, one after the other,
-- and leaves the rest of the buffer alone.
use ng.Base.{
  ℕ, zero, suc, ◌+◌, ◌≤◌, ◌≡◌, refl, sym, ap, ◌∙◌, arith, List, [], ◌∷◌, ◌++◌, some, append_assoc,
}
use ng.Base.{
  length, drop, length-append, length-drop, take-append_self, drop-append_more, le→leb, append-nil,
}
use ng.Hk.Wire.{Sender, store, store_all}

abbrev pub joined : List (List ℕ) → List ℕ
joined [] = []
joined (w ∷ ws) = w ++ joined ws

empty : (n : ℕ) → drop {A = ℕ} n [] ≡ []
empty zero = refl
empty (suc n) = refl

drop-drop : (m n : ℕ) (xs : List ℕ) → drop n (drop m xs) ≡ drop (m + n) xs
drop-drop zero n xs = ap (λ (k : ℕ). drop k xs) (omega arith)
drop-drop (suc m) n [] = empty n ∙ sym (empty (suc m + n))
drop-drop (suc m) n (x ∷ xs) =
    let e : suc m + n ≡ suc (m + n) = omega arith in rw e (drop-drop m n xs)

-- The sender that has written `out` over the start of `buffer`.
abbrev written : List ℕ → List ℕ → Sender
written out buffer = record { send_buffer = out ++ drop (length out) buffer; msg_len = length out }

store-written :
    (out w buffer : List ℕ)
    → length out + length w ≤ length buffer
    → store w (written out buffer) ≡ some (written (out ++ w) buffer)
unfolding store
store-written out w buffer h = rw (
  le→leb (length out + length w) (length (out ++ drop (length out) buffer)) room,
  take-append_self out (drop (length out) buffer),
  drop-append_more (length w) out (drop (length out) buffer),
  drop-drop (length out) (length w) buffer,
  length-append out w,
  append_assoc,
)
  where
    room : length out + length w ≤ length (out ++ drop (length out) buffer)
    room =
        omega (arith, length-append out (drop (length out) buffer), length-drop (length out) buffer)

store_all-written :
    (ws : List (List ℕ)) (out buffer : List ℕ)
    → length out + length (joined ws) ≤ length buffer
    → store_all ws (written out buffer) ≡ some (written (out ++ joined ws) buffer)
unfolding store_all
store_all-written [] out buffer h = rw (append-nil out)
store_all-written (w ∷ ws) out buffer h = rw (
  store-written out w buffer (omega (arith, length-append w (joined ws))),
  store_all-written ws (out ++ w) buffer
      (omega (arith, length-append w (joined ws), length-append out w)),
  append_assoc out w (joined ws),
)

pub store_all-joined :
    (ws : List (List ℕ)) (buffer : List ℕ)
    → length (joined ws) ≤ length buffer
    → store_all ws (record { send_buffer = buffer; msg_len = 0 })
      ≡ some (record {
        send_buffer = joined ws ++ drop (length (joined ws)) buffer;
        msg_len = length (joined ws);
      })
store_all-joined ws buffer h = store_all-written ws [] buffer (omega arith)
