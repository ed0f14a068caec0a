-- ===== src/Udp/Told.antt =====
-- What bazelPro/src/udp/srv.cc makes of datagrams.
use ng.Base.{
  ℕ, ◌+◌, ◌≤◌, ◌≡◌, refl, ap, ◌∙◌, arith, List, [], ◌∷◌, ◌++◌, some, length, length-drop, map, drop,
  All, ==_false, append_assoc, append-nil, length-append,
}
use ng.Base.{take-whole}
use ng.Dump.{c_string}
use ng.Format.Arg.{codes}
use ng.Jw.{Json}
use ng.Thread.Name.{IsText}
use ng.Udp.{hello_text, client, arrive, hello_of, round, serve}

c_string-text : (xs rest : List ℕ) → IsText xs → c_string (xs ++ rest) ≡ xs ++ c_string rest
c_string-text [] rest h = refl
c_string-text (x ∷ xs) rest h = rw (==_false x 0 h.0) (ap (λ t. x ∷ t) (c_string-text xs rest h.1))

-- The text that the server reads after a datagram: one with a null byte is read up to it, and one without
-- is read with what an earlier datagram left behind it.
pub arrive-text :
    (buffer text rest : List ℕ)
    → length (text ++ 0 ∷ rest) ≤ 1024
    → IsText text
    → (c_string (arrive buffer (text ++ 0 ∷ rest)) ≡ text)
      × (c_string (arrive buffer text) ≡ text ++ c_string (drop (length text) buffer))
unfolding arrive
arrive-text buffer text rest small h =
    let whole = text ++ 0 ∷ rest in
    let len : length text ≤ 1024 = omega (arith, length-append text (0 ∷ rest)) in
    (
      ap (λ t. c_string (t ++ drop (length t) buffer)) (take-whole 1024 whole small)
          ∙ ap c_string (append_assoc text (0 ∷ rest) (drop (length whole) buffer))
          ∙ c_string-text text (0 ∷ (rest ++ drop (length whole) buffer)) h
          ∙ append-nil text,
      ap (λ t. c_string (t ++ drop (length t) buffer)) (take-whole 1024 text len)
          ∙ c_string-text text (drop (length text) buffer) h,
    )

-- So often the line for "jacob".
abbrev pub lines : List (List ℕ) → List ℕ
lines [] = []
lines (g ∷ gs) = (codes "hello = " ++ (codes "jacob" ++ 10 ∷ [])) ++ lines gs

-- What the parser makes of the text of the client.
abbrev pub Reads : {V : Type 0} → Json V → Type 0
Reads {V} json =
    (d : V) × (v : V) × (json.parse hello_text ≡ some d)
    × (json.find_member (codes "hello") d ≡ some (some v))
    × (json.get_string v ≡ some (codes "jacob"))

client-text :
    (buffer garbage : List ℕ)
    → length garbage ≡ 1024
    → c_string (arrive buffer (client garbage)) ≡ hello_text
unfolding client
client-text buffer garbage whole =
    let rest = drop (length hello_text + 1) garbage in
    ap (λ t. c_string (arrive buffer t)) (append_assoc hello_text (0 ∷ []) rest)
    ∙ (arrive-text buffer hello_text rest
        (omega (
          arith,
          whole,
          length-drop (length hello_text + 1) garbage,
          length-append hello_text (0 ∷ rest),
        ))
        (omega arith)).0

-- Whatever the arrays of the server and of any number of clients held, the server prints what each of them
-- says, and of every datagram the bytes behind the first 18 are those that the array of its client held.
-- The arrays of the clients have 1024 bytes, and the parser reads the text of the client as an object
-- whose member "hello" is the string "jacob".
pub serve-clients :
    {V : Type 0} (json : Json V) (buffer : List ℕ) (garbages : List (List ℕ))
    → Reads json
    → All (λ g. length g ≡ 1024) garbages
    → (serve json buffer (map client garbages) ≡ some (lines garbages))
      × All (λ g. drop 18 (client g) ≡ drop 18 g) garbages
unfolding serve round hello_of client
serve-clients json buffer [] reads whole = (refl, tt)
serve-clients json buffer (g ∷ gs) reads whole =
    let (d, v, parsed, found, string) = reads in
    let (more, kept) = serve-clients json (arrive buffer (client g)) gs reads whole.1 in
    (rw (client-text buffer g whole.0, parsed, found, string, more) refl, (refl, kept))
