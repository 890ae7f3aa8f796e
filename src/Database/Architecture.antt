-- ===== src/Database/Architecture.antt =====
-- `postgresArchitecture` of internal/server/app.go.
use Prim.Native.Char.{code}
use Prim.Native.String.{[], ◌∷◌}
use self_hosted_deployer.Common.{
  String, Bool, false, ◌≡◌, refl, ◌||◌, nat_eq, if◌then◌else◌, trim_space,
}

-- What stands behind the last slash.
abbrev pub has_slash : String → Bool
has_slash [] = false
has_slash (c ∷ s) = nat_eq (code c) b'/' || has_slash s

unfoldable pub after_last_slash : String → String
after_last_slash [] = []
after_last_slash (c ∷ s) =
    let rest = after_last_slash s in
    if has_slash s then rest else if nat_eq (code c) b'/' then s else c ∷ s

abbrev pub postgres_architecture : String → String
postgres_architecture placement = after_last_slash (trim_space placement)

after_last_slash_run : after_last_slash "kubernetes.io/linux/amd64" ≡ "amd64"
unfolding after_last_slash
after_last_slash_run = refl
