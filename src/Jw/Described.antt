-- ===== src/Jw/Described.antt =====
-- What the server bazelPro/src/jw/srv.cc sends, described by the messages that it was sent before.
use ng.Base.{
  ℕ, zero, suc, ◌+◌, ◌%◌, ◌≤◌, ◌≡◌, List, [], ◌∷◌, ◌++◌, none, some, false, ◌==◌, if◌then◌else◌,
}
use ng.Base.{length, take, ℤ, pos, All}
use ng.Dump.{c_string}
use ng.Format.Arg.{codes}
use ng.Base.{same_text}
use ng.Jw.{Json, points, hot_info, global_path}

-- A message that is ignored, one that asks for a path, one that asks for the vehicles, and another.
pub data Message : Type 0 where
  ignored : Message
  path_req : ℤ → Message
  info : Message
  other : Message

module _ {V : Type 0} (json : Json V) where
  -- What a datagram says.
  pub data Says : List ℕ → Message → Type 0 where
    no_document : {m : List ℕ} → json.parse (c_string (take 1024 m)) ≡ none → Says m ignored
    no_type :
        {m : List ℕ} {d : V}
        → json.parse (c_string (take 1024 m)) ≡ some d
        → json.find_member (codes "type") d ≡ some none
        → Says m ignored
    a_path_req :
        {m : List ℕ} {d v i : V} {id : ℤ}
        → json.parse (c_string (take 1024 m)) ≡ some d
        → json.find_member (codes "type") d ≡ some (some v)
        → json.get_string v ≡ some (codes "pathReq")
        → json.find_member (codes "id") d ≡ some (some i)
        → json.get_int i ≡ some id
        → Says m (path_req id)
    an_info :
        {m : List ℕ} {d v : V}
        → json.parse (c_string (take 1024 m)) ≡ some d
        → json.find_member (codes "type") d ≡ some (some v)
        → json.get_string v ≡ some (codes "info")
        → Says m info
    another :
        {m : List ℕ} {d v : V} {type : List ℕ}
        → json.parse (c_string (take 1024 m)) ≡ some d
        → json.find_member (codes "type") d ≡ some (some v)
        → json.get_string v ≡ some type
        → same_text type (codes "pathReq") ≡ false
        → same_text type (codes "info") ≡ false
        → Says m other

  pub data AllSay : List (List ℕ) → List Message → Type 0 where
    none_said : AllSay [] []
    one_said :
        {m : List ℕ} {ms : List (List ℕ)} {k : Message} {ks : List Message}
        → Says m k
        → AllSay ms ks
        → AllSay (m ∷ ms) (k ∷ ks)

  -- The answer to the `n`-th request for a path, by a table of four: its result and whether it has a
  -- block.
  abbrev result_is : ℕ → List (List ℕ × V)
  result_is r = (codes "result", json.int (pos r)) ∷ []

  abbrev block : List (List ℕ × V)
  block = (codes "block", points json) ∷ []

  abbrev in_table : ℕ → List (List ℕ × V)
  in_table zero = result_is 0
  in_table (suc zero) = result_is 1 ++ block
  in_table (suc (suc zero)) = result_is 2
  in_table (suc (suc (suc n))) = block

  abbrev pub described_resp : ℤ → ℕ → V
  described_resp id n = json.object (
      (codes "type", json.string (codes "pathResp")) ∷ (codes "id", json.int id) ∷ in_table (n % 4))

  -- What is sent for a message that is not ignored, when `paths` requests for a path and `typed`
  -- messages that were not ignored came before.
  abbrev pub answer_to : ℕ → Message → List (List ℕ)
  answer_to paths ignored = []
  answer_to paths (path_req id) = json.write (described_resp id paths) ∷ []
  answer_to paths info = json.write (hot_info json) ∷ []
  answer_to paths other = []

  abbrev pub third : ℕ → List (List ℕ)
  third typed = if typed % 3 == 0 then json.write (global_path json typed) ∷ [] else []

  abbrev pub told : ℕ → ℕ → List Message → List (List ℕ)
  told paths typed [] = []
  told paths typed (ignored ∷ ks) = told paths typed ks
  told paths typed (path_req id ∷ ks) =
      answer_to paths (path_req id) ++ (third (typed + 1) ++ told (paths + 1) (typed + 1) ks)
  told paths typed (info ∷ ks) =
      answer_to paths info ++ (third (typed + 1) ++ told paths (typed + 1) ks)
  told paths typed (other ∷ ks) = third (typed + 1) ++ told paths (typed + 1) ks

-- The texts fit the arrays of 1024 bytes.
abbrev pub Fit : List (List ℕ) → Type 0
Fit = All (λ text. length text ≤ 1024)
