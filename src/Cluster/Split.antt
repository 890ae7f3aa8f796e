-- ===== src/Cluster/Split.antt =====
-- strings.Split at commas.
use Prim.Native.Char.{code}
use Prim.Native.String.{[], ◌∷◌}
use self_hosted_deployer.Common.{String, List, nat_eq, if◌then◌else◌}
use self_hosted_deployer.Cluster.Types.{one_part, new_part, onto_first}

-- strings.Split(s, ",")
unfoldable pub split_commas : String → List String
split_commas [] = one_part
split_commas (c ∷ s) =
    let rest = split_commas s in
    if nat_eq (code c) 44 then new_part rest else onto_first (c ∷ "") rest
