-- ===== src/Auth/Authenticate.antt =====
-- `Authenticator` of internal/server/auth.go. A store answers the queries of its token repositories.
use Prim.Native.String.{[], ◌∷◌}
use Prim.Native.Char.{code}
use self_hosted_deployer.Common.{
  ℕ, String, Bool, true, false, Option, none, some, ◌==◌, not, ◌||◌, nat_eq, is_empty, trim_space,
  has_prefix, if◌then◌else◌, Result, ok, err, ◌>>=◌, ◌>>◌, refuse, require,
}
use self_hosted_deployer.Auth.Tokens.{
  token_prefix, admin_token_prefix, agent_token_prefix, join_token_prefix,
}

-- domain.AdminToken and domain.AgentToken
pub record AdminToken : Type 0 where
  pub token_hash : String
  pub revoked_at : Option ℕ

pub record AgentToken : Type 0 where
  pub token_hash : String
  pub node_id : String
  pub revoked_at : Option ℕ

-- A query of one row: the row, ErrNotFound, or another error.
pub data Lookup (A : Type 0) : Type 0 where
  found : A → Lookup A
  missing : Lookup A
  failed : Lookup A

-- TokenRepositories: FindByHash, and whether MarkUsed succeeds.
pub record TokenStore : Type 0 where
  pub find_admin : String → Lookup AdminToken
  pub mark_admin : String → Bool
  pub find_agent : String → Lookup AgentToken
  pub mark_agent : String → Bool

-- `HashToken` with the key, `strings.EqualFold`, and the digest of `opaqueTokenID`.
pub record Hashing : Type 0 where
  pub hash_token : String → Option String
  pub equal_fold : String → String → Bool
  pub digest : String → String

pub data Caller : Type 0 where
  admin : (token_id : String) → Caller
  agent : (node_id token_id : String) → Caller

-- The status codes.
pub data AuthError : Type 0 where
  unauthenticated permission_denied internal : AuthError

unfoldable pub is_public_method : String → Bool
is_public_method method =
    method == "/deployer.v1.PlatformService/GetVersion"
    || method == "/deployer.v1.NodeService/JoinNode"
    || has_prefix method "/grpc.health.v1.Health/"

unfoldable pub is_agent_only_method : String → Bool
is_agent_only_method method =
    method == "/deployer.v1.NodeService/HeartbeatNode"
    || method == "/deployer.v1.NodeService/GetWorkerBootstrap"

unfoldable pub is_admin_only_method : String → Bool
is_admin_only_method method = not (is_agent_only_method method)

-- strings.Cut(value, " ")
unfoldable pub cut_space : String → Option (String × String)
cut_space [] = none
cut_space (c ∷ s) =
    let rest = cut_space s in
    if nat_eq (code c) 32
    then some ("", s)
    else elim rest [ none ↦ none | some (before, after) ↦ some (c ∷ before, after) ]

abbrev pub is_revoked : Option ℕ → Bool
is_revoked none = false
is_revoked (some _) = true

abbrev pub one_row : {A : Type 0} → Lookup A → Result AuthError A
one_row (found a) = ok a
one_row missing = err unauthenticated
one_row failed = err internal

abbrev pub need : {A : Type 0} → AuthError → Option A → Result AuthError A
need e none = err e
need e (some a) = ok a

module _ (h : Hashing) (store : TokenStore) where
  open h use {hash_token, equal_fold, digest}
  open store use {find_admin, mark_admin, find_agent, mark_agent}

  -- bearerToken, from the first value of the header
  unfoldable pub bearer_token : Option String → Result AuthError String
  bearer_token header = do
    value ← need unauthenticated header
    (scheme, token) ← need unauthenticated (cut_space (trim_space value))
    refuse (not (equal_fold scheme "Bearer") || is_empty (trim_space token)) unauthenticated
    ok (trim_space token)

  unfoldable pub authenticate_admin : String → String → Result AuthError Caller
  authenticate_admin token_hash method = do
    refuse (is_agent_only_method method) permission_denied
    token ← one_row (find_admin token_hash)
    refuse (is_revoked token.revoked_at) permission_denied
    require (mark_admin token_hash) internal
    ok (admin (digest token_hash))

  unfoldable pub authenticate_agent : String → String → Result AuthError Caller
  authenticate_agent token_hash method = do
    token ← one_row (find_agent token_hash)
    refuse (is_revoked token.revoked_at) permission_denied
    refuse (is_admin_only_method method) permission_denied
    require (mark_agent token_hash) internal
    ok (agent token.node_id (digest token_hash))

  -- The switch on the prefix.
  unfoldable pub authenticate_token : String → String → String → Result AuthError Caller
  unfolding authenticate_admin authenticate_agent
  authenticate_token prefix token_hash method =
      if prefix == admin_token_prefix
      then authenticate_admin token_hash method
      else if prefix == agent_token_prefix
      then authenticate_agent token_hash method
      else if prefix == join_token_prefix
      then err permission_denied
      else err unauthenticated

  unfoldable pub authenticate : Option String → String → Result AuthError Caller
  unfolding bearer_token authenticate_token
  authenticate header method = do
    raw ← bearer_token header
    prefix ← need unauthenticated (token_prefix raw)
    token_hash ← need internal (hash_token raw)
    authenticate_token prefix token_hash method

  -- UnaryInterceptor and StreamInterceptor: what the handler is called with, a caller or none.
  unfoldable pub intercept : Option String → String → Result AuthError (Option Caller)
  unfolding authenticate
  intercept header method =
      if is_public_method method
      then ok none
      else authenticate header method >>= λ caller. ok (some caller)
