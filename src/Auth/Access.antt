-- ===== src/Auth/Access.antt =====
-- What a call that `Authenticator` of internal/server/auth.go lets through has shown.
use self_hosted_deployer.Common.{
  Bool-cases, >>=-ok, >>-ok, refuse-ok, require-ok, inl, inr, ℕ, String, true, false, Option, none,
  some, ◌⊎◌, has_prefix, ◌≡◌, refl, arith, ◌==◌, Result, ok, ◌>>=◌, ◌>>◌, refuse, require, eq_iff,
}
use self_hosted_deployer.Auth.Tokens.{token_prefix, admin_token_prefix, agent_token_prefix}
use self_hosted_deployer.Auth.Authenticate.{
  AdminToken, AgentToken, Lookup, found, missing, failed, TokenStore, Hashing, Caller, admin, agent,
  AuthError, permission_denied, internal, unauthenticated, is_public_method, is_agent_only_method,
  is_admin_only_method, one_row, need, is_revoked, bearer_token, authenticate_admin,
  authenticate_agent, authenticate_token, authenticate, intercept,
}

module _ {A : Type 0} where
  one_row-ok : (l : Lookup A) (a : A) → one_row l ≡ ok a → l ≡ found a
  one_row-ok (found b) a h = ground arith
  one_row-ok missing a h = cc
  one_row-ok failed a h = cc

  need-ok : (e : AuthError) (o : Option A) (a : A) → need e o ≡ ok a → o ≡ some a
  need-ok e none a h = cc
  need-ok e (some b) a h = ground arith

not_revoked : (r : Option ℕ) → is_revoked r ≡ false → r ≡ none
not_revoked none h = refl
not_revoked (some x) h = cc

-- The token of a caller: an administrator's or an agent's, found by its hash, not revoked, marked as
-- used, on a method of its kind.
abbrev pub Admitted : Hashing → TokenStore → String → String → Caller → Type 0
Admitted h store raw method (admin id) =
    (token_hash : String) × (token : AdminToken) × (token_prefix raw ≡ some admin_token_prefix)
    × (h.hash_token raw ≡ some token_hash)
    × (store.find_admin token_hash ≡ found token)
    × (token.revoked_at ≡ none)
    × (store.mark_admin token_hash ≡ true)
    × (is_agent_only_method method ≡ false)
    × (id ≡ h.digest token_hash)
Admitted h store raw method (agent node id) =
    (token_hash : String) × (token : AgentToken) × (token_prefix raw ≡ some agent_token_prefix)
    × (h.hash_token raw ≡ some token_hash)
    × (store.find_agent token_hash ≡ found token)
    × (token.revoked_at ≡ none)
    × (store.mark_agent token_hash ≡ true)
    × (is_agent_only_method method ≡ true)
    × (node ≡ token.node_id)
    × (id ≡ h.digest token_hash)

module _ (h : Hashing) (store : TokenStore) (raw method : String) where
  admin-Admitted :
      (token_hash : String) (caller : Caller)
      → token_prefix raw ≡ some admin_token_prefix
      → h.hash_token raw ≡ some token_hash
      → authenticate_admin h store token_hash method ≡ ok caller
      → Admitted h store raw method caller
  unfolding authenticate_admin
  admin-Admitted token_hash caller p q e =
      let reply : Result AuthError Caller = ok (admin (h.digest token_hash)) in
      let marked : Result AuthError (Unit {0}) = require (store.mark_admin token_hash) internal in
      let live = λ (t : AdminToken). refuse (is_revoked t.revoked_at) permission_denied in
      let check = λ (t : AdminToken). live t >> (marked >> reply) in
      let row = one_row (store.find_admin token_hash) in
      let (g1, e1) =
        >>-ok (refuse (is_agent_only_method method) permission_denied) (row >>= check) e in
      let (token, ft, e2) = >>=-ok row check e1 in
      let (g3, e3) = >>-ok (live token) (marked >> reply) e2 in
      let (g4, e4) = >>-ok marked reply e3 in
      let same : admin (h.digest token_hash) ≡ caller = ground arith in
      rw (← same) (
        token_hash,
        token,
        p,
        q,
        one_row-ok _ token ft,
        not_revoked _ (refuse-ok (is_revoked token.revoked_at) permission_denied g3),
        require-ok (store.mark_admin token_hash) internal g4,
        refuse-ok (is_agent_only_method method) permission_denied g1,
        refl,
      )

  agent-Admitted :
      (token_hash : String) (caller : Caller)
      → token_prefix raw ≡ some agent_token_prefix
      → h.hash_token raw ≡ some token_hash
      → authenticate_agent h store token_hash method ≡ ok caller
      → Admitted h store raw method caller
  unfolding authenticate_agent is_admin_only_method
  agent-Admitted token_hash caller p q e =
      let reply : AgentToken → Result AuthError Caller =
        λ t. ok (agent t.node_id (h.digest token_hash)) in
      let marked : Result AuthError (Unit {0}) = require (store.mark_agent token_hash) internal in
      let live = λ (t : AgentToken). refuse (is_revoked t.revoked_at) permission_denied in
      let kind : Result AuthError (Unit {0}) =
        refuse (is_admin_only_method method) permission_denied in
      let row = one_row (store.find_agent token_hash) in
      let (token, ft, e2) = >>=-ok row (λ t. live t >> (kind >> (marked >> reply t))) e in
      let (g3, e3) = >>-ok (live token) (kind >> (marked >> reply token)) e2 in
      let (g1, e4) = >>-ok kind (marked >> reply token) e3 in
      let (g4, e5) = >>-ok marked (reply token) e4 in
      let r = refuse-ok (is_admin_only_method method) permission_denied g1 in
      let same : agent token.node_id (h.digest token_hash) ≡ caller = ground arith in
      rw (← same) (
        token_hash,
        token,
        p,
        q,
        one_row-ok _ token ft,
        not_revoked _ (refuse-ok (is_revoked token.revoked_at) permission_denied g3),
        require-ok (store.mark_agent token_hash) internal g4,
        ground arith,
        refl,
        refl,
      )

  token-Admitted :
      (prefix token_hash : String) (caller : Caller)
      → token_prefix raw ≡ some prefix
      → h.hash_token raw ≡ some token_hash
      → authenticate_token h store prefix token_hash method ≡ ok caller
      → Admitted h store raw method caller
  unfolding authenticate_token
  token-Admitted prefix token_hash caller p q e = elim (Bool-cases (prefix == admin_token_prefix)) [
    | inl is_admin ↦
        let same = (eq_iff prefix admin_token_prefix).0 is_admin in
        admin-Admitted token_hash caller (rw p (rw same refl)) q (ground arith)
    | inr other ↦ elim (Bool-cases (prefix == agent_token_prefix)) [
      | inl is_agent ↦
          let same = (eq_iff prefix agent_token_prefix).0 is_agent in
          agent-Admitted token_hash caller (rw p (rw same refl)) q (ground arith)
      | inr neither ↦ ground arith
    ]
  ]

-- A caller that is authenticated has shown a token that bears an administrator's or an agent's
-- prefix and that the store knows by its hash; the token is not revoked, its use has been recorded,
-- and the method is one for its kind: the agents' methods for an agent, all others for an
-- administrator.
pub authenticate-Admitted :
    (h : Hashing) (store : TokenStore) (header : Option String) (method : String) (caller : Caller)
    → authenticate h store header method ≡ ok caller
    → (raw : String) × (bearer_token h store header ≡ ok raw) × Admitted h store raw method caller
unfolding authenticate
authenticate-Admitted h store header method caller e =
    let switch =
      λ (raw prefix token_hash : String). authenticate_token h store prefix token_hash method in
    let hashed = λ (raw prefix : String). need internal (h.hash_token raw) >>= switch raw prefix in
    let prefixed = λ (raw : String). need unauthenticated (token_prefix raw) >>= hashed raw in
    let (raw, er, e1) = >>=-ok (bearer_token h store header) prefixed e in
    let (prefix, ep, e2) = >>=-ok (need unauthenticated (token_prefix raw)) (hashed raw) e1 in
    let (token_hash, eh, e3) = >>=-ok (need internal (h.hash_token raw)) (switch raw prefix) e2 in
    (
      raw,
      er,
      token-Admitted h store raw method prefix token_hash caller (need-ok _ _ prefix ep)
          (need-ok _ _ token_hash eh) e3,
    )

-- The methods that anyone may call.
abbrev pub IsPublic : String → Type 0
IsPublic method =
    (method ≡ "/deployer.v1.PlatformService/GetVersion")
    ⊎ (method ≡ "/deployer.v1.NodeService/JoinNode")
    ⊎ (has_prefix method "/grpc.health.v1.Health/" ≡ true)

IsPublic-of_test : (method : String) → is_public_method method ≡ true → IsPublic method
unfolding is_public_method
IsPublic-of_test method h =
    elim (Bool-cases (method == "/deployer.v1.PlatformService/GetVersion")) [
      | inl e ↦ inl ((eq_iff _ _).0 e)
      | inr d ↦ elim (Bool-cases (method == "/deployer.v1.NodeService/JoinNode")) [
        | inl e ↦ inr (inl ((eq_iff _ _).0 e))
        | inr f ↦ inr (inr (ground arith))
      ]
    ]

-- A call whose handler runs is one of a public method, and then the handler sees no caller, or one
-- whose caller, the one that the handler sees, has shown the token of an administrator or of an agent
-- that the store knows, that is not revoked, and that is of the kind that the method needs.
pub intercept-Admitted :
    (h : Hashing) (store : TokenStore) (header : Option String) (method : String)
    (o : Option Caller)
    → intercept h store header method ≡ ok o
    → (IsPublic method × (o ≡ none))
      ⊎ ((caller : Caller) × (raw : String) × (o ≡ some caller)
          × (bearer_token h store header ≡ ok raw)
          × Admitted h store raw method caller)
unfolding intercept
intercept-Admitted h store header method o e = elim (Bool-cases (is_public_method method)) [
  | inl p ↦ inl (IsPublic-of_test method p, ground arith)
  | inr p ↦
      let e' : (authenticate h store header method >>= λ c. ok (some c)) ≡ ok o = ground arith in
      let (caller, ec, eo) = >>=-ok _ _ e' in
      let (raw, er, admitted) = authenticate-Admitted h store header method caller ec in
      inr (caller, raw, ground arith, er, admitted)
]
