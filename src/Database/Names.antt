-- ===== src/Database/Names.antt =====
-- The sets of names of internal/server/app.go: a map of keys is a list without repetition.
use self_hosted_deployer.Common.{
  String, Bool, List, [], ◌∷◌, not, ◌&&◌, ◌==◌, any, all, length, nat_eq, if◌then◌else◌, trim_space,
  is_empty,
}

abbrev pub contains_name : String → List String → Bool
contains_name name names = any (λ other. other == name) names

-- unique[value] = struct{}{}
abbrev pub add_name : String → List String → List String
add_name name names = if contains_name name names then names else name ∷ names

abbrev pub unique_non_empty_strings : List String → List String
unique_non_empty_strings [] = []
unique_non_empty_strings (v ∷ vs) =
    let rest = unique_non_empty_strings vs in
    if is_empty (trim_space v) then rest else add_name (trim_space v) rest

-- The replicas: the running instances but the primary.
abbrev pub expected_standby_names : String → List String → List String
expected_standby_names primary [] = []
expected_standby_names primary (v ∷ vs) =
    let rest = expected_standby_names primary vs in
    if not (is_empty (trim_space v)) && not (trim_space v == primary)
    then add_name (trim_space v) rest
    else rest

abbrev pub equal_string_sets : List String → List String → Bool
equal_string_sets left right =
    nat_eq (length left) (length right) && all (λ value. contains_name value right) left
