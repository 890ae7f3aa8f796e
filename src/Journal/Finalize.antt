-- ===== src/Journal/Finalize.antt =====
-- internal/db/candidate_finalization_repository.go: the outcome of a candidate, its application,
-- its deployment, its route and the reply are written in one transaction.
pub mod Rows
unfoldable pub use Rows.*
use self_hosted_deployer.Common.{
  ℕ, String, Bool, true, false, Option, none, some, [], ◌∷◌, ◌++◌, ◌==◌, not, ◌&&◌, ◌||◌, any,
  nat_eq, is_empty, valid_revision, find?, update, remove, if◌then◌else◌, Result, ok, err,
}
use self_hosted_deployer.AppConfig.Types.{Config}
use self_hosted_deployer.AppConfig.Parse.{from_json}
use self_hosted_deployer.AppConfig.Validate.{validate, is_hosted}
use self_hosted_deployer.Journal.Types.{
  RequestState, pending, applied, withdrawn, Stage, activated, DeploymentStatus, healthy, failed,
  App, Deployment, Route, DeployRequest, CandidateBinding, RuntimeCheckpoint, Tables, JournalError,
  not_found, constraint, finalization_conflict, invalid_state, encoding,
}
use self_hosted_deployer.Journal.Env.{IntentIdentity, Env}
use self_hosted_deployer.Journal.Transaction.{
  Tx, ◌>>=◌, ◌>>◌, pure, fail, gets, or_missing, lift_option, transact, refuse_tx, modify,
  is_pending, is_request,
}
use self_hosted_deployer.Journal.Requests.{settled, select_request}
use self_hosted_deployer.Journal.Checkpoints.{stage_eq, select_checkpoint}
use self_hosted_deployer.Journal.Bindings.{select_binding, is_deleted, text_or_empty, is_ok}
use Rows.{
  state_eq, status_is_pending, wanted_stage, select_app_by_id, select_deployment,
  predecessor_changed, half_predecessor, settled_app, settled_deployment, upsert_route,
  delete_route, update_app, update_deployment, settle_request, settle_route, drop_stale_route,
  settle_app,
}

module _ (env : Env) where
  open env use {externals, codec, valid_json, read_intent, encode_reply}

  -- A request that is settled already: its reply, if the outcome is the same.
  unfoldable pub settled_reply : RequestState → DeployRequest → Tx String
  settled_reply outcome request = elim request.response_json [
    | none ↦ fail finalization_conflict
    | some reply ↦
        if state_eq request.state outcome && valid_json reply
        then pure reply
        else fail finalization_conflict
  ]

  -- The saved intent is of this request and asks for the requested state.
  abbrev pub intent_agrees : DeployRequest → Option IntentIdentity → Bool
  intent_agrees request none = false
  intent_agrees request (some intent) =
      intent.app_name == request.app_name
      && intent.request_id == request.request_id
      && intent.requested_state == request.requested_state

  -- What the checkpoint and the requested configuration have to be.
  unfoldable pub check_checkpoint :
      RequestState → String → DeployRequest → RuntimeCheckpoint → Tx Config
  check_checkpoint outcome gate request checkpoint = do
    refuse_tx
        (not (stage_eq checkpoint.stage (wanted_stage outcome))
          || not (checkpoint.gate_json == gate))
        finalization_conflict
    refuse_tx (not (intent_agrees request (read_intent checkpoint.intent_json)))
        finalization_conflict
    c ← lift_option invalid_state (from_json codec request.requested_state)
    refuse_tx (not (is_ok (validate externals c))) invalid_state
    refuse_tx
        (not (c.name == request.app_name)
          || not (is_hosted c.hosting)
          || not (c.state.mode == "stateless"))
        finalization_conflict
    pure c

  -- The application and the deployment that the binding names.
  unfoldable pub check_rows : DeployRequest → CandidateBinding → Tx (App × Deployment)
  check_rows request binding = do
    app_row ← gets (select_app_by_id binding.app_id)
    app ← or_missing app_row
    refuse_tx
        (not (app.name == request.app_name)
          || half_predecessor request
          || predecessor_changed request app)
        finalization_conflict
    deployment_row ← gets (select_deployment binding.deployment_id)
    deployment ← or_missing deployment_row
    refuse_tx
        (not (deployment.app_id == binding.app_id) || not (status_is_pending deployment.status))
        finalization_conflict
    pure (app, deployment)

  -- The writes, and the reply.
  unfoldable pub settle :
      RequestState → DeployRequest → Config → App → Deployment → Bool → ℕ → Tx String
  unfolding upsert_route
  settle outcome request c app deployment tls now = do
    settle_app env outcome request c app tls now
    update_deployment (settled_deployment outcome now deployment)
    result ←
        lift_option invalid_state
          (from_json codec (settled_app outcome request c now app).desired_state_json)
    reply ← lift_option encoding (
        encode_reply (record {
          app = settled_app outcome request c now app;
          config = result;
          deployment = settled_deployment outcome now deployment;
          requested_state = request.requested_state;
          withdrawal_confirmed = state_eq outcome withdrawn;
        }))
    settle_request request.app_name request.request_id outcome reply now
    pure reply

  unfoldable pub finalize_pending :
      RequestState → String → Bool → ℕ → DeployRequest → CandidateBinding → Tx String
  finalize_pending outcome gate tls now request binding = do
    row ← gets (select_checkpoint request.app_name request.request_id)
    checkpoint ← or_missing row
    c ← check_checkpoint outcome gate request checkpoint
    (app, deployment) ← check_rows request binding
    settle outcome request c app deployment tls now

  unfoldable pub finalize_tx : String → String → RequestState → String → Bool → ℕ → Tx String
  finalize_tx app_name request_id outcome gate tls now = do
    refuse_tx
        (is_empty app_name
          || not (valid_revision request_id)
          || is_pending outcome
          || is_empty gate
          || nat_eq now 0)
        finalization_conflict
    found ← gets (select_request app_name request_id)
    request ← or_missing found
    bound ← gets (select_binding app_name request_id)
    binding ← or_missing bound
    (if is_pending request.state
        then finalize_pending outcome gate tls now request binding
        else settled_reply outcome request)

  unfoldable pub finalize :
      String
      → String
      → RequestState
      → String
      → Bool
      → ℕ
      → Tables
      → Result JournalError String × Tables
  unfolding finalize_tx
  finalize app_name request_id outcome gate tls now =
      transact (finalize_tx app_name request_id outcome gate tls now)
