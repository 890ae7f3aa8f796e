-- ===== src/Auth/JoinTokens.antt =====
-- internal/db/join_token_repository.go. A time is a number; `Consume` reads the row and then writes it
-- in a statement of its own, so that other calls may run in between.
use self_hosted_deployer.Common.{
  ℕ, String, Bool, true, false, Option, none, some, List, [], ◌∷◌, ◌++◌, ◌==◌, not, ◌&&◌, any, ltb,
  find?, update, remove, if◌then◌else◌, Result, ok, err,
}

-- domain.JoinToken
pub record JoinToken : Type 0 where
  pub token_hash : String
  pub intended_node_name : String
  pub labels_json : String
  pub created_at : ℕ
  pub expires_at : ℕ
  pub used_at : Option ℕ

pub data JoinError : Type 0 where
  not_found expired already_used constraint : JoinError

abbrev pub is_unused : JoinToken → Bool
is_unused t = elim t.used_at [ none ↦ true | some _ ↦ false ]

abbrev pub has_hash : String → JoinToken → Bool
has_hash hash t = t.token_hash == hash

-- INSERT, with the primary key of the hash
unfoldable pub create : JoinToken → List JoinToken → Result JoinError (List JoinToken)
create token rows =
    if any (has_hash token.token_hash) rows then err constraint else ok (rows ++ token ∷ [])

unfoldable pub find_by_hash : String → List JoinToken → Result JoinError JoinToken
find_by_hash hash rows = elim (find? (has_hash hash) rows) [ none ↦ err not_found | some t ↦ ok t ]

-- What `Consume` decides from the row that it has read.
unfoldable pub check_token : JoinToken → ℕ → Result JoinError (Unit {0})
check_token token used_at =
    if not (is_unused token)
    then err already_used
    else if ltb used_at token.expires_at
    then ok tt
    else err expired

-- UPDATE ... SET used_at = ? WHERE token_hash = ? AND used_at IS NULL
unfoldable pub mark_used : String → ℕ → List JoinToken → Result JoinError (List JoinToken)
mark_used hash used_at rows =
    if any (λ t. has_hash hash t && is_unused t) rows
    then ok (
        update (λ t. has_hash hash t && is_unused t) (λ t. record t { used_at = some used_at })
          rows)
    else err already_used

-- The write of `Consume` behind the row that was read earlier.
unfoldable pub consume_read :
    JoinToken → String → ℕ → List JoinToken → Result JoinError (JoinToken × List JoinToken)
unfolding check_token mark_used
consume_read token hash used_at rows = elim (check_token token used_at) [
  | err e ↦ err e
  | ok _ ↦ elim (mark_used hash used_at rows) [
    | err e ↦ err e
    | ok rows' ↦ ok (record token { used_at = some used_at }, rows')
  ]
]

-- Consume, undisturbed.
unfoldable pub consume : String → ℕ → List JoinToken → Result JoinError (JoinToken × List JoinToken)
unfolding find_by_hash consume_read
consume hash used_at rows = elim (find_by_hash hash rows) [
  | err e ↦ err e
  | ok token ↦ consume_read token hash used_at rows
]

-- DELETE ... WHERE intended_node_name = ?
unfoldable pub delete_by_node_name : String → List JoinToken → List JoinToken
delete_by_node_name node rows = remove (λ t. t.intended_node_name == node) rows
