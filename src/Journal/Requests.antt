-- ===== src/Journal/Requests.antt =====
-- internal/db/deployment_request_repository.go.
use self_hosted_deployer.Common.{
  ℕ, String, Bool, true, false, Option, none, some, ◌==◌, not, ◌&&◌, ◌||◌, any, is_empty,
  valid_revision, find?, update, if◌then◌else◌, Result, ok, err,
}
use self_hosted_deployer.Journal.Types.{
  RequestState, pending, App, DeployRequest, CandidateBinding, Tables, JournalError, not_found,
  request_identity,
}
use self_hosted_deployer.Journal.Env.{Env}
use self_hosted_deployer.Journal.Transaction.{
  Tx, ◌>>=◌, ◌>>◌, pure, gets, or_missing, transact, refuse_tx, is_pending, is_request,
  is_pending_of, insert_request,
}

-- `report_withdrawal` compared as Booleans.
abbrev pub same_flag : Bool → Bool → Bool
same_flag true b = b
same_flag false b = not b

-- SELECT ... WHERE app_name = ? AND request_id = ?
abbrev pub select_request : String → String → Tables → Option DeployRequest
select_request app request t = find? (is_request app request) t.requests

abbrev pub is_live_app : String → App → Bool
is_live_app name app = app.name == name && elim app.deleted_at [ none ↦ true | some _ ↦ false ]

-- SELECT ... FROM apps WHERE name = ? AND deleted_at IS NULL
abbrev pub select_live_app : String → Tables → Option App
select_live_app name t = find? (is_live_app name) t.apps

abbrev pub is_binding : String → String → CandidateBinding → Bool
is_binding app request b = b.app_name == app && b.request_id == request

-- A repeated request returns the saved one if it asks for the same.
unfoldable pub saved_request : DeployRequest → DeployRequest → Tx (DeployRequest × Bool)
saved_request req existing = do
  refuse_tx
      (not (existing.requested_state == req.requested_state)
        || not (same_flag existing.report_withdrawal req.report_withdrawal))
      request_identity
  pure (existing, false)

-- The live application, if there is one, becomes the predecessor.
abbrev pub with_previous : DeployRequest → Option App → DeployRequest
with_previous req none = record req { previous_app_id = none; previous_state = none }
with_previous req (some app) = record req {
  previous_app_id = some app.id;
  previous_state = some app.desired_state_json;
}

-- The row that is inserted is pending and has no reply.
abbrev pub pending_row : DeployRequest → DeployRequest
pending_row req = record req { state = pending; response_json = none }

unfoldable pub begin_new : DeployRequest → Tx (DeployRequest × Bool)
begin_new req = do
  previous ← gets (select_live_app req.app_name)
  insert_request (pending_row (with_previous req previous))
  pure (with_previous req previous, true)

unfoldable pub begin_with : DeployRequest → Option DeployRequest → Tx (DeployRequest × Bool)
begin_with req none = begin_new req
begin_with req (some existing) = saved_request req existing

-- The UPDATE of `Complete` matches a pending request that has no candidate binding.
abbrev pub completable : String → String → Tables → DeployRequest → Bool
completable app request t r =
    is_request app request r
    && is_pending r.state
    && not (any (is_binding r.app_name r.request_id) t.bindings)

-- What a request's row becomes when it is settled.
abbrev pub settled : RequestState → String → ℕ → DeployRequest → DeployRequest
settled state response now r = record r {
  state = state;
  response_json = some response;
  updated_at = now;
}

unfoldable pub complete_row : String → String → RequestState → String → ℕ → Tx (Unit {0})
complete_row app request state response now t =
    if any (completable app request t) t.requests
    then ok (
      tt,
      record t {
        requests = update (completable app request t) (settled state response now) t.requests;
      },
    )
    else err not_found

module _ (env : Env) where
  open env use {valid_json}

  unfoldable pub begin_tx : DeployRequest → Tx (DeployRequest × Bool)
  unfolding insert_request
  begin_tx req = do
    refuse_tx
        (is_empty req.app_name
          || not (valid_revision req.request_id)
          || not (valid_json req.requested_state))
        request_identity
    existing ← gets (select_request req.app_name req.request_id)
    begin_with req existing

  unfoldable pub begin :
      DeployRequest → Tables → Result JournalError (DeployRequest × Bool) × Tables
  unfolding begin_tx
  begin req = transact (begin_tx req)

  unfoldable pub find_tx : String → String → Tx DeployRequest
  find_tx app request = do row ← gets (select_request app request); or_missing row

  unfoldable pub find : String → String → Tables → Result JournalError DeployRequest × Tables
  unfolding find_tx
  find app request = transact (find_tx app request)

  unfoldable pub pending_by_app_tx : String → Tx DeployRequest
  pending_by_app_tx app = do row ← gets λ t. find? (is_pending_of app) t.requests; or_missing row

  unfoldable pub pending_by_app : String → Tables → Result JournalError DeployRequest × Tables
  unfolding pending_by_app_tx
  pending_by_app app = transact (pending_by_app_tx app)

  unfoldable pub complete_tx : String → String → RequestState → String → ℕ → Tx (Unit {0})
  unfolding complete_row
  complete_tx app request state response now = do
    refuse_tx (is_pending state || not (valid_json response) || response == "null") request_identity
    complete_row app request state response now

  unfoldable pub complete :
      String → String → RequestState → String → ℕ → Tables → Result JournalError (Unit {0}) × Tables
  unfolding complete_tx
  complete app request state response now = transact (complete_tx app request state response now)
