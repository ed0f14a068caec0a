-- ===== src/Cross/Tests.antt =====
-- One map of crossings, as bazelPro/src/tmp/tmp.cc reads it.
use ng.Base.{ℕ, ◌≡◌, refl, List, [], ◌∷◌, Option, none, some, Bool, true, false, if◌then◌else◌}
use ng.Format.Arg.{codes}
use ng.Base.{same_text}
use ng.Cross.{
  Documents, File, no_file, document, find_point, load_point, find_ids, load_up, load_down, walk,
  scan_rules, test_cross_map,
}
use ng.Cross.Route.{no_strings, one_string}
use ng.Cross.Answer.{answer, no_rules, one_rule, test_cross_map-answer}

mutual
  data Value : Type 0 where
    string : List ℕ → Value
    array : Values → Value
    object : Members → Value

  data Values : Type 0 where
    no_values : Values
    one_value : Value → Values → Values

  data Members : Type 0 where
    no_members : Members
    one_member : List ℕ → Value → Members → Members

abbrev listed : Values → List Value
listed no_values = []
listed (one_value v vs) = v ∷ listed vs

abbrev is_array : Value → Bool
is_array (string s) = false
is_array (array vs) = true
is_array (object ms) = false

abbrev elements : Value → List Value
elements (string s) = []
elements (array vs) = listed vs
elements (object ms) = []

abbrev find_member : List ℕ → Members → Option Value
find_member name no_members = none
find_member name (one_member n v ms) =
    let rest = find_member name ms in if same_text n name then some v else rest

abbrev member : List ℕ → Value → Option Value
member name (string s) = none
member name (array vs) = none
member name (object ms) = find_member name ms

abbrev get_string : Value → Option (List ℕ)
get_string (string s) = some s
get_string (array vs) = none
get_string (object ms) = none

-- One rule with the crossings a, b and c.
abbrev the_rule : Value
the_rule = array (
    one_value (string (codes "a"))
      (one_value (string (codes "b")) (one_value (string (codes "c")) no_values)))

abbrev the_rules : Value
the_rules = array (one_value (object (one_member (codes "rule") the_rule no_members)) no_values)

-- A crossing with one point, towards a neighbor.
abbrev a_crossing : List ℕ → List ℕ → Value
a_crossing neighbor info = array (
    one_value
      (object (
        one_member (codes "neighbor") (string neighbor) (
          one_member (codes "point") (object (one_member (codes "info") (string info) no_members))
            no_members)))
      no_values)

abbrev the_files : List ℕ → File Value
the_files path =
    if same_text path (codes "./map_cross/cross_rule.json")
    then document the_rules
    else if same_text path (codes "./map_cross/c/cross.json")
    then document (a_crossing (codes "b") (codes "left"))
    else if same_text path (codes "./map_cross/b/cross.json")
    then document (a_crossing (codes "a") (codes "right"))
    else no_file

abbrev the_documents : Documents Value
the_documents = record {
  read = the_files;
  is_array = is_array;
  elements = elements;
  member = member;
  get_string = get_string;
}

-- Back from c to a.
way_back :
    test_cross_map the_documents (codes "c") (codes "a")
    ≡ some (true, codes "left" ∷ codes "right" ∷ [])
unfolding test_cross_map scan_rules find_ids walk load_up load_down load_point find_point
way_back = refl

-- No point leads from a to b.
no_way : test_cross_map the_documents (codes "a") (codes "b") ≡ some (false, [])
unfolding test_cross_map scan_rules find_ids walk load_up load_down load_point find_point
no_way = refl

test_cross_map-answer_example :
    test_cross_map the_documents (codes "c") (codes "a")
    ≡ answer the_documents (codes "c") (codes "a") ((codes "a" ∷ codes "b" ∷ codes "c" ∷ []) ∷ [])
test_cross_map-answer_example =
    test_cross_map-answer the_documents (codes "c") (codes "a") the_rules
      ((codes "a" ∷ codes "b" ∷ codes "c" ∷ []) ∷ []) refl refl
      (one_rule refl refl (one_string refl (one_string refl (one_string refl no_strings))) no_rules)
