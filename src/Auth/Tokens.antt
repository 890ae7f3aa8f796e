-- ===== src/Auth/Tokens.antt =====
-- internal/security/tokens.go.
pub mod RoundTrip
use self_hosted_deployer.Common.{
  Bool-cases, inl, inr, eq_iff, arith, ℕ, suc, ◌+◌, String, Bool, true, false, Option, none, some,
  List, [], ◌∷◌, ◌≡◌, refl, ◌==◌, ◌&&◌, ◌||◌, any, ltb, is_empty, char_count, has_prefix, concat,
  if◌then◌else◌,
}

abbrev pub admin_token_prefix : String
admin_token_prefix = "dep_admin"

abbrev pub join_token_prefix : String
join_token_prefix = "dep_join"

abbrev pub agent_token_prefix : String
agent_token_prefix = "dep_agent"

abbrev pub known_prefixes : List String
known_prefixes = admin_token_prefix ∷ join_token_prefix ∷ agent_token_prefix ∷ []

unfoldable pub valid_prefix : String → Bool
valid_prefix prefix = any (λ known. prefix == known) known_prefixes

-- A token has a prefix if something stands behind its underscore.
abbrev pub bears : String → String → Bool
bears token prefix =
    has_prefix token (concat prefix "_") && ltb (char_count prefix + 1) (char_count token)

unfoldable pub first_prefix : String → List String → Option String
first_prefix token [] = none
first_prefix token (prefix ∷ rest) =
    if bears token prefix then some prefix else first_prefix token rest

-- Prefix
unfoldable pub token_prefix : String → Option String
unfolding first_prefix
token_prefix token = first_prefix token known_prefixes

-- NewToken, for an encoding of the random bytes; `none` is one of its two errors.
unfoldable pub new_token : String → Option String → Option String
unfolding valid_prefix
new_token prefix random =
    if valid_prefix prefix
    then elim random [ none ↦ none | some encoded ↦ some (concat prefix (concat "_" encoded)) ]
    else none
