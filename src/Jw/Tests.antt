-- ===== src/Jw/Tests.antt =====
-- A run of the server bazelPro/src/jw/srv.cc.
use ng.Base.{ℕ, ◌≡◌, refl, arith, List, [], ◌∷◌, Option, none, some, ℤ, pos, ◌==◌, if◌then◌else◌}
use ng.Base.{same_text, zero, suc, ◌+◌, ◌/◌, ◌%◌, ◌++◌, ltb, negsuc}
use ng.Format.Arg.{codes}
use ng.Jw.{Json, Srv, initial, run}
use ng.Jw.Described.{
  Message, ignored, path_req, info, other, none_said, one_said, no_document, a_path_req, an_info,
  another, told, Fit,
}
use ng.Jw.Told.{run_tells}

-- A message is a letter, p for a request for a path and i for one for the vehicles; a text that is
-- empty is no document. What is sent is written as JSON.
data Value : Type 0 where
  message : ℕ → Value
  name : List ℕ → Value
  id : ℤ → Value
  written : List ℕ → Value

abbrev first_letter : List ℕ → Option Value
first_letter [] = none
first_letter (c ∷ cs) = some (message c)

abbrev type_of : ℕ → Value
type_of c =
    if c == b'p'
    then name (codes "pathReq")
    else if c == b'i'
    then name (codes "info")
    else name (codes "x")

abbrev member_of : List ℕ → Value → Option (Option Value)
member_of n (message c) =
    if same_text n (codes "type") then some (some (type_of c)) else some (some (id (pos 7)))
member_of n (name s) = none
member_of n (id i) = none
member_of n (written t) = none

abbrev string_of : Value → Option (List ℕ)
string_of (message c) = none
string_of (name s) = some s
string_of (id i) = none
string_of (written t) = none

abbrev int_of : Value → Option ℤ
int_of (message c) = none
int_of (name s) = none
int_of (id i) = some i
int_of (written t) = none

-- The decimal digits of a number of at most so many.
abbrev decimal : ℕ → ℕ → List ℕ
decimal zero n = []
decimal (suc k) n =
    let front = decimal k (n / 10) in
    if ltb n 10 then (b'0' + n) ∷ [] else front ++ ((b'0' + n % 10) ∷ [])

abbrev shown_int : ℤ → List ℕ
shown_int (pos n) = decimal 20 n
shown_int (negsuc n) = b'-' ∷ decimal 20 (n + 1)

abbrev text_of : Value → List ℕ
text_of (message c) = []
text_of (name s) = s
text_of (id i) = shown_int i
text_of (written t) = t

abbrev quoted : List ℕ → List ℕ
quoted s = 34 ∷ (s ++ 34 ∷ [])

abbrev elements : List Value → List ℕ
elements [] = []
elements (v ∷ []) = text_of v
elements (v ∷ (w ∷ vs)) = text_of v ++ codes "," ++ elements (w ∷ vs)

abbrev members : List (List ℕ × Value) → List ℕ
members [] = []
members (m ∷ []) = quoted m.0 ++ codes ":" ++ text_of m.1
members (m ∷ (n ∷ ms)) = quoted m.0 ++ codes ":" ++ text_of m.1 ++ codes "," ++ members (n ∷ ms)

abbrev letters : Json Value
letters = record {
  parse = first_letter;
  find_member = member_of;
  get_string = string_of;
  get_int = int_of;
  string = λ s. written (quoted s);
  int = λ i. written (shown_int i);
  array = λ vs. written (codes "[" ++ elements vs ++ codes "]");
  object = λ ms. written (codes "{" ++ members ms ++ codes "}");
  write = text_of;
  to_string = decimal 20;
}

abbrev the_datagrams : List (List ℕ)
the_datagrams = codes "p" ∷ [] ∷ codes "i" ∷ codes "x" ∷ []

abbrev the_messages : List Message
the_messages = path_req (pos 7) ∷ ignored ∷ info ∷ other ∷ []

told-Fit : Fit (told letters 0 0 the_messages)
told-Fit = (omega arith, (omega arith, (omega arith, tt)))

run_tells_example :
    (s : Srv) × (run letters the_datagrams initial ≡ some s)
    × (s.sent ≡ told letters 0 0 the_messages)
run_tells_example =
    run_tells letters the_datagrams the_messages
      (one_said (a_path_req refl refl refl refl refl) (
        one_said (no_document refl) (
          one_said (an_info refl refl refl)
            (one_said (another refl refl refl refl refl) none_said))))
      (omega arith) told-Fit
