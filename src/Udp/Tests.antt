-- ===== src/Udp/Tests.antt =====
-- A run of the programs of bazelPro/src/udp.
use ng.Base.{ℕ, ◌≡◌, refl, List, [], ◌∷◌, none, some, All, drop, map, replicate, if◌then◌else◌}
use ng.Base.{same_text}
use ng.Format.Arg.{codes}
use ng.Jw.{Json}
use ng.Udp.{hello_text, client, serve}
use ng.Udp.Told.{lines, serve-clients}

-- A value is the text of a member.
abbrev parser : Json (List ℕ)
parser = record {
  parse = λ t. if same_text t hello_text then some (codes "jacob") else none;
  find_member = λ n d. some (if same_text n (codes "hello") then some d else none);
  get_string = λ v. some v;
  get_int = λ v. none;
  string = λ s. s;
  int = λ i. [];
  array = λ vs. [];
  object = λ ms. [];
  write = λ v. v;
  to_string = λ n. [];
}

serve-clients_example :
    (serve parser
        (replicate 1024 b'x')
        (map client (replicate 1024 b'y' ∷ replicate 1024 b'z' ∷ []))
      ≡ some (lines (replicate 1024 b'y' ∷ replicate 1024 b'z' ∷ [])))
    × All (λ g. drop 18 (client g) ≡ drop 18 g) (replicate 1024 b'y' ∷ replicate 1024 b'z' ∷ [])
serve-clients_example =
    serve-clients parser (replicate 1024 b'x') (replicate 1024 b'y' ∷ replicate 1024 b'z' ∷ [])
      (codes "jacob", codes "jacob", refl, refl, refl) (refl, (refl, tt))
