-- ===== src/Cross.antt =====
-- `load_point` and `test_cross_map` of bazelPro/src/tmp/tmp.cc, over documents of a type `V` with what
-- the code asks rapidjson for. `none` is a failed assertion of rapidjson.
pub mod Route
pub mod Answer
mod Tests
use ng.Base.{
  ℕ, zero, suc, ◌+◌, ◌-◌, List, [], ◌∷◌, ◌++◌, Option, none, some, ◌>>=◌, Bool, true, false, ◌==◌,
  ◌&&◌, ◌||◌, if◌then◌else◌, same_text, get_elem?, ℤ, pos, negsuc, pos_part, ltb_ℤ,
}
use ng.Format.Arg.{codes}

-- A file that cannot be opened, one that cannot be parsed, and a document.
pub data File (V : Type 0) : Type 0 where
  no_file : File V
  parse_error : File V
  document : V → File V

-- The files under a path, and `IsArray`, the elements of an array, the member of a name and
-- `GetString`, where these are there.
pub record Documents (V : Type 0) : Type 0 where
  pub read : List ℕ → File V
  pub is_array : V → Bool
  pub elements : V → List V
  pub member : List ℕ → V → Option V
  pub get_string : V → Option (List ℕ)

module _ {V : Type 0} (docs : Documents V) where
  -- The loop over the points of a crossing.
  pub find_point : List ℕ → List V → Option (Bool × List ℕ)
  find_point neighbor [] = some (false, [])
  find_point neighbor (d ∷ ds) =
      let rest = find_point neighbor ds in
      (do
        n ← docs.member (codes "neighbor") d
        n ← docs.get_string n
        if same_text n neighbor
            then (do
              point ← docs.member (codes "point") d
              info ← docs.member (codes "info") point
              info ← docs.get_string info
              some (true, info))
            else rest)

  unfoldable pub load_point : List ℕ → List ℕ → Option (Bool × List ℕ)
  load_point id neighbor = elim (docs.read (codes "./map_cross/" ++ (id ++ codes "/cross.json"))) [
    | no_file ↦ some (false, [])
    | parse_error ↦ some (false, [])
    | document d ↦
        if docs.is_array d then find_point neighbor (docs.elements d) else some (false, [])
  ]

  -- The loop over the ids of a rule, from the `j`-th on, with `from_index` and `to_index`.
  pub find_ids : List ℕ → List ℕ → ℕ → ℤ → ℤ → List V → Option (ℤ × ℤ)
  find_ids from to j from_index to_index [] = some (from_index, to_index)
  find_ids from to j from_index to_index (v ∷ r) = do
    id ← docs.get_string v
    let from_index = if same_text id from then pos j else from_index
    let to_index = if same_text id to then pos j else to_index
    find_ids from to (j + 1) from_index to_index r

  -- `r[k].GetString()`
  abbrev pub id_at : List V → ℕ → Option (List ℕ)
  id_at r k = get_elem? r k >>= docs.get_string

  -- One call of `load_point` in a loop: its `rest` is run when a point is found.
  abbrev pub found_then :
      Bool × List ℕ → Option (Bool × List (List ℕ)) → Option (Bool × List (List ℕ))
  found_then p rest =
      if p.0
      then (do (found, result) ← rest; some (found, if found then p.1 ∷ result else []))
      else some (false, [])

  -- The loops from `k` up and down, with the rounds left.
  pub load_up : ℕ → ℕ → List V → Option (Bool × List (List ℕ))
  load_up zero k r = some (true, [])
  load_up (suc left) k r =
      let rest = load_up left (k + 1) r in
      (do id ← id_at r k; next ← id_at r (k + 1); p ← load_point id next; found_then p rest)

  pub load_down : ℕ → ℕ → List V → Option (Bool × List (List ℕ))
  load_down zero k r = some (true, [])
  load_down (suc left) k r =
      let rest = load_down left (k - 1) r in
      (do id ← id_at r k; next ← id_at r (k - 1); p ← load_point id next; found_then p rest)

  pub walk : ℤ → ℤ → List V → Option (Bool × List (List ℕ))
  walk from_index to_index r =
      if ltb_ℤ from_index to_index
      then load_up (pos_part to_index - pos_part from_index) (pos_part from_index) r
      else load_down (pos_part from_index - pos_part to_index) (pos_part from_index) r

  abbrev pub is_missing : ℤ → Bool
  is_missing (pos n) = false
  is_missing (negsuc n) = n == 0

  -- The loop over the rules.
  pub scan_rules : List ℕ → List ℕ → List V → Option (Bool × List (List ℕ))
  scan_rules from to [] = some (false, [])
  scan_rules from to (d ∷ ds) =
      let rest = scan_rules from to ds in
      (do
        r ← docs.member (codes "rule") d
        if docs.is_array r
            then (do
              (from_index, to_index) ← find_ids from to 0 (negsuc 0) (negsuc 0) (docs.elements r)
              if is_missing from_index || is_missing to_index
                  then rest
                  else walk from_index to_index (docs.elements r))
            else rest)

  -- What is returned, and the infos that are printed with a success.
  unfoldable pub test_cross_map : List ℕ → List ℕ → Option (Bool × List (List ℕ))
  test_cross_map from to = elim (docs.read (codes "./map_cross/cross_rule.json")) [
    | no_file ↦ some (false, [])
    | parse_error ↦ some (false, [])
    | document d ↦ if docs.is_array d then scan_rules from to (docs.elements d) else some (true, [])
  ]
