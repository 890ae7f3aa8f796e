-- ===== src/Journal/Bindings/Bind.antt =====
-- `Bind` of internal/db/candidate_binding_repository.go: a binding for a request that is pending
-- already.
use self_hosted_deployer.Common.{
  ℕ, String, Bool, true, false, Option, none, some, ◌==◌, not, ◌&&◌, ◌||◌, is_empty, if◌then◌else◌,
  Result, ok, err,
}
use self_hosted_deployer.AppConfig.Types.{Config}
use self_hosted_deployer.AppConfig.Parse.{from_json}
use self_hosted_deployer.AppConfig.Validate.{validate, is_hosted}
use self_hosted_deployer.Journal.Types.{
  App, DeployRequest, CandidateBinding, Tables, JournalError, binding_conflict,
}
use self_hosted_deployer.Journal.Env.{Env}
use self_hosted_deployer.Journal.Transaction.{
  Tx, ◌>>=◌, ◌>>◌, pure, gets, or_missing, lift, transact, refuse_tx, is_pending,
}
use self_hosted_deployer.Journal.Requests.{select_request}
use self_hosted_deployer.Journal.Bindings.{
  select_binding, select_app, is_deleted, text_or_empty, is_ok, is_canonical, insert_binding,
  insert_app, insert_deployment, check_predecessor,
}
use self_hosted_deployer.Journal.Bindings.Begin.{bad_identity}

-- Both parts of the predecessor, or none.
abbrev pub half_predecessor : Option String → Option String → Bool
half_predecessor none none = false
half_predecessor none (some state) = true
half_predecessor (some id) none = true
half_predecessor (some id) (some state) =
    is_empty id && not (is_empty state) || not (is_empty id) && is_empty state

-- The application that the binding is for; a new row is provisional.
unfoldable pub bind_app : String → String → DeployRequest → Config → ℕ → Option App → Tx (Unit {0})
unfolding insert_app
bind_app app app_id r c now none =
    refuse_tx (not (is_empty (text_or_empty r.previous_app_id))) binding_conflict
    >> insert_app (record {
      id = app_id;
      name = app;
      image = c.image;
      desired_state_json = r.requested_state;
      created_at = now;
      updated_at = now;
      deleted_at = some now;
    })
bind_app app app_id r c now (some row) =
    refuse_tx
      (not (row.id == app_id)
        || not (is_deleted row)
          && (not (text_or_empty r.previous_app_id == row.id)
              || not (row.desired_state_json == text_or_empty r.previous_state)))
      binding_conflict

abbrev pub new_binding : String → String → String → String → ℕ → CandidateBinding
new_binding app request_id app_id deployment_id now = record {
  app_name = app;
  request_id = request_id;
  app_id = app_id;
  deployment_id = deployment_id;
  created_at = now;
}

module _ (env : Env) where
  open env use {externals, codec}

  -- The configuration of the request, which the binding requires to be hosted and stateless.
  abbrev pub check_bound_state : String → String → Option Config → Result JournalError Config
  check_bound_state app state none = err binding_conflict
  check_bound_state app state (some c) =
      if not (is_canonical env state c)
        || not (c.name == app)
        || not (is_hosted c.hosting)
        || not (c.state.mode == "stateless")
        || not (is_ok (validate externals c))
      then err binding_conflict
      else ok c

  unfoldable pub bind_request :
      String → String → String → String → ℕ → DeployRequest → Tx CandidateBinding
  unfolding bind_app
  bind_request app request_id app_id deployment_id now r = do
    refuse_tx (not (is_pending r.state)) binding_conflict
    refuse_tx (half_predecessor r.previous_app_id r.previous_state) binding_conflict
    c ← lift (check_bound_state app r.requested_state (from_json codec r.requested_state))
    row ← gets (select_app app)
    lift (
        check_predecessor env row app (text_or_empty r.previous_app_id)
          (text_or_empty r.previous_state) c false)
    bind_app app app_id r c now row
    insert_deployment deployment_id app_id now
    insert_binding (new_binding app request_id app_id deployment_id now)
    pure (new_binding app request_id app_id deployment_id now)

  unfoldable pub bind_with :
      String → String → String → String → ℕ → Option CandidateBinding → Tx CandidateBinding
  unfolding bind_request
  bind_with app request_id app_id deployment_id now (some b) = do
    refuse_tx (not (b.app_id == app_id) || not (b.deployment_id == deployment_id)) binding_conflict
    pure b
  bind_with app request_id app_id deployment_id now none = do
    row ← gets (select_request app request_id)
    r ← or_missing row
    bind_request app request_id app_id deployment_id now r

  unfoldable pub bind_tx : String → String → String → String → ℕ → Tx CandidateBinding
  unfolding bind_with bad_identity
  bind_tx app request_id app_id deployment_id now = do
    refuse_tx (bad_identity app request_id app_id deployment_id now) binding_conflict
    existing ← gets (select_binding app request_id)
    bind_with app request_id app_id deployment_id now existing

  -- Bind
  unfoldable pub bind :
      String → String → String → String → ℕ → Tables → Result JournalError CandidateBinding × Tables
  unfolding bind_tx
  bind app request_id app_id deployment_id now =
      transact (bind_tx app request_id app_id deployment_id now)
