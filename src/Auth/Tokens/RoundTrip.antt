-- ===== src/Auth/Tokens/RoundTrip.antt =====
-- `NewToken` and `Prefix` of internal/security/tokens.go.
use Prim.Native.String.{[], ◌∷◌}
use self_hosted_deployer.Common.{
  Bool-cases, inl, inr, eq_iff, arith, String, false, some, ◌≡◌, ◌==◌, is_empty, concat,
}
use self_hosted_deployer.Auth.Tokens.{
  admin_token_prefix, join_token_prefix, agent_token_prefix, token_prefix, new_token,
}

admin_round_trip :
    (encoded : String)
    → is_empty encoded ≡ false
    → token_prefix (concat admin_token_prefix (concat "_" encoded)) ≡ some admin_token_prefix
unfolding token_prefix
admin_round_trip [] h = cc
admin_round_trip (c ∷ s) h = ground arith

join_round_trip :
    (encoded : String)
    → is_empty encoded ≡ false
    → token_prefix (concat join_token_prefix (concat "_" encoded)) ≡ some join_token_prefix
unfolding token_prefix
join_round_trip [] h = cc
join_round_trip (c ∷ s) h = ground arith

agent_round_trip :
    (encoded : String)
    → is_empty encoded ≡ false
    → token_prefix (concat agent_token_prefix (concat "_" encoded)) ≡ some agent_token_prefix
unfolding token_prefix
agent_round_trip [] h = cc
agent_round_trip (c ∷ s) h = ground arith

-- The prefix of a new token whose encoding is not empty is the one that it was made with.
pub new_token-prefix :
    (prefix encoded token : String)
    → is_empty encoded ≡ false
    → new_token prefix (some encoded) ≡ some token
    → token_prefix token ≡ some prefix
unfolding new_token
new_token-prefix prefix encoded token n h = elim (Bool-cases (prefix == admin_token_prefix)) [
  | inl is_admin ↦
      let same = (eq_iff prefix admin_token_prefix).0 is_admin in
      let made : concat prefix (concat "_" encoded) ≡ token = ground arith in
      rw (← made, same) (admin_round_trip encoded n)
  | inr not_admin ↦ elim (Bool-cases (prefix == join_token_prefix)) [
    | inl is_join ↦
        let same = (eq_iff prefix join_token_prefix).0 is_join in
        let made : concat prefix (concat "_" encoded) ≡ token = ground arith in
        rw (← made, same) (join_round_trip encoded n)
    | inr not_join ↦ elim (Bool-cases (prefix == agent_token_prefix)) [
      | inl is_agent ↦
          let same = (eq_iff prefix agent_token_prefix).0 is_agent in
          let made : concat prefix (concat "_" encoded) ≡ token = ground arith in
          rw (← made, same) (agent_round_trip encoded n)
      | inr unknown ↦ ground arith
    ]
  ]
]
