-- ===== src/Examples/Deployments.antt =====
-- The theorems on the journal (internal/db) at a request that replaces a live application.
use self_hosted_deployer.Common.{
  ◌≤◌, true, false, none, some, [], ◌∷◌, ◌≡◌, refl, arith, count, find?, ok, trim_space,
  valid_revision, update, remove,
}
use self_hosted_deployer.Journal.Types.{
  prepared, applied, withdrawn, Stage, activated, healthy, failed, App, Deployment, DeployRequest,
  CandidateBinding, RuntimeCheckpoint, Tables,
}
use self_hosted_deployer.Journal.Transaction.{is_pending_of, transact, ◌>>=◌}
use self_hosted_deployer.Journal.Requests.{select_request}
use self_hosted_deployer.Journal.Checkpoints.{select_checkpoint}
use self_hosted_deployer.Journal.Bindings.{
  insert_deployment, insert_binding, validate_candidate_domain_admission, routed_elsewhere,
  pending_elsewhere, check_predecessor, validate_candidate_deploy_request, select_binding,
}
use self_hosted_deployer.Journal.Finalize.{
  select_app_by_id, select_deployment, finalize, finalize_tx, finalize_pending, check_checkpoint,
  check_rows, settle, settle_app, settle_route, upsert_route, drop_stale_route, update_app,
  update_deployment, settle_request,
}
use self_hosted_deployer.Journal.Requests.{select_live_app}
use self_hosted_deployer.Journal.Bindings.Begin.{
  begin_candidate, begin_binding, create_candidate, admit_candidate, adopt_app,
  insert_candidate_request,
}
use self_hosted_deployer.Journal.Laws.Bound.{IsBound, begin_candidate-binds}
use self_hosted_deployer.Journal.Step.{Call, run, Reach}
use self_hosted_deployer.Journal.Laws.Pending.{HasOnePending, one_pending, settled_stays}
use self_hosted_deployer.Journal.Laws.Stages.{may_reach, stages_advance}
use self_hosted_deployer.Journal.Laws.Replies.{
  finalize-settles, finalize-applied, finalize-withdrawn, finalize-repeats,
}
use self_hosted_deployer.AppConfig.Parse.{from_json}
use self_hosted_deployer.AppConfig.Validate.{
  validate, validate_identity, validate_service, validate_metrics, validate_modes, validate_secrets,
  hosting_replicas, is_hosted, is_managed,
}
use self_hosted_deployer.AppConfig.Validate.Storage.{validate_storage}
use self_hosted_deployer.AppConfig.Names.{matches_app_name}
use self_hosted_deployer.AppConfig.Validate.Postgres.{validate_database}
use self_hosted_deployer.AppConfig.Validate.Hosting.{
  validate_hosting, parse_resource_quantities, parse_resource_quantity, validate_limits,
  validate_egress,
}
use self_hosted_deployer.AppConfig.Normalize.{
  normalize, normalize_metrics, normalize_strategy, default_to, normalize_placement_selectors,
  normalize_storage, normalize_string_list, normalize_database,
}
use self_hosted_deployer.Examples.Data.{
  binding, env, revision, request, settled_request, tables, checkpoint,
}

abbrev applied_state : Tables
applied_state = (finalize env "shop" revision applied "gate" true 7 (tables activated)).1

abbrev withdrawn_state : Tables
withdrawn_state = (finalize env "shop" revision withdrawn "gate" true 7 (tables Stage.withdrawn)).1

found_request : (stage : Stage) → select_request "shop" revision (tables stage) ≡ some request
unfolding find?
found_request stage = refl

applies : (finalize env "shop" revision applied "gate" true 7 (tables activated)).0 ≡ ok "{}"
unfolding finalize finalize_tx finalize_pending check_checkpoint check_rows settle settle_app
    settle_route upsert_route update_app update_deployment settle_request transact ◌>>=◌
    valid_revision find? update remove from_json validate matches_app_name validate_identity
    validate_service validate_metrics validate_modes validate_storage validate_secrets
    validate_database validate_hosting hosting_replicas parse_resource_quantities
    parse_resource_quantity trim_space validate_limits validate_egress is_hosted is_managed
    normalize normalize_metrics normalize_strategy default_to normalize_placement_selectors
    normalize_storage normalize_string_list normalize_database
applies = refl

withdraws :
    (finalize env "shop" revision withdrawn "gate" true 7 (tables Stage.withdrawn)).0 ≡ ok "{}"
unfolding finalize finalize_tx finalize_pending check_checkpoint check_rows settle settle_app
    drop_stale_route update_deployment settle_request transact ◌>>=◌ valid_revision find? update
    remove from_json validate matches_app_name validate_identity validate_service validate_metrics
    validate_modes validate_storage validate_secrets validate_database validate_hosting
    hosting_replicas parse_resource_quantities parse_resource_quantity trim_space validate_limits
    validate_egress is_hosted is_managed normalize normalize_metrics normalize_strategy default_to
    normalize_placement_selectors normalize_storage normalize_string_list normalize_database
withdraws = refl

finalize-settles_example :
    (row : DeployRequest) × (select_request "shop" revision applied_state ≡ some row)
    × (row.state ≡ applied)
    × (row.response_json ≡ some "{}")
finalize-settles_example =
    finalize-settles env applied "gate" true 7 request "{}" (tables activated)
      (found_request activated) refl applies

finalize-applied_example :
    (b : CandidateBinding) × (k : RuntimeCheckpoint) × (a : App) × (d : Deployment)
    × (select_binding "shop" revision (tables activated) ≡ some b)
    × (select_checkpoint "shop" revision (tables activated) ≡ some k)
    × (k.stage ≡ activated)
    × (k.gate_json ≡ "gate")
    × (select_app_by_id b.app_id applied_state ≡ some a)
    × (a.deleted_at ≡ none)
    × (a.desired_state_json ≡ "shop")
    × (select_deployment b.deployment_id applied_state ≡ some d)
    × (d.status ≡ healthy)
finalize-applied_example =
    finalize-applied env "gate" true 7 request "{}" (tables activated) (found_request activated)
      refl applies

finalize-withdrawn_example :
    (b : CandidateBinding) × (k : RuntimeCheckpoint) × (d : Deployment) × (select_binding "shop"
        revision
        (tables Stage.withdrawn)
      ≡ some b)
    × (select_checkpoint "shop" revision (tables Stage.withdrawn) ≡ some k)
    × (k.stage ≡ Stage.withdrawn)
    × (k.gate_json ≡ "gate")
    × (withdrawn_state.apps ≡ (tables Stage.withdrawn).apps)
    × (withdrawn_state.routes ≡ [])
    × (select_deployment b.deployment_id withdrawn_state ≡ some d)
    × (d.status ≡ failed)
finalize-withdrawn_example =
    finalize-withdrawn env "gate" true 7 request "{}" (tables Stage.withdrawn)
      (found_request Stage.withdrawn) refl refl withdraws

finalize-repeats_example :
    finalize env "shop" revision applied "again" false 9 applied_state ≡ (ok "{}", applied_state)
finalize-repeats_example =
    finalize-repeats env applied "gate" "again" true false 7 9 request "{}" (tables activated)
      (λ x s e. refl) (found_request activated) refl refl refl applies

one_request : HasOnePending (request ∷ []) []
unfolding count
one_request = record { at = λ app. ground arith }

-- A finalization, and then a gate that is recorded too late.
abbrev calls : Tables → Tables
calls t =
    run env (Call.record_gate "shop" revision activated Stage.recovering "late")
      (run env (Call.finalize_request "shop" revision applied "gate" true 7) t)

two_calls : (t : Tables) → Reach env t (calls t)
two_calls t = Reach.next (Reach.next Reach.here _) _

kept_one : HasOnePending (tables activated).requests (tables activated).checkpoints
kept_one = record { at = one_request.at }

one_pending_example : count (is_pending_of "shop") (calls (tables activated)).requests ≤ 1
one_pending_example =
    one_pending env (tables activated) (calls (tables activated)) kept_one
      (two_calls (tables activated)) "shop"

abbrev settled_tables : Tables
settled_tables = record (tables activated) { requests = settled_request ∷ [] }

found_settled : select_request "shop" revision settled_tables ≡ some settled_request
unfolding find?
found_settled = refl

settled_stays_example : select_request "shop" revision (calls settled_tables) ≡ some settled_request
settled_stays_example =
    settled_stays env settled_tables (calls settled_tables) settled_request refl found_settled
      (two_calls settled_tables)

found_checkpoint :
    select_checkpoint "shop" revision (tables activated) ≡ some (checkpoint activated)
unfolding find?
found_checkpoint = refl

stages_advance_example :
    (d : RuntimeCheckpoint) × (select_checkpoint "shop" revision (calls (tables activated))
      ≡ some d)
    × (d.intent_json ≡ "{}")
    × (may_reach activated d.stage ≡ true)
stages_advance_example =
    stages_advance env "shop" revision (checkpoint activated) (tables activated)
      (calls (tables activated)) found_checkpoint (two_calls (tables activated))

-- The journal before any request.
abbrev live_tables : Tables
live_tables = record (tables prepared) {
  requests = [];
  bindings = [];
  checkpoints = [];
  deployments = [];
}

abbrev first_binding : CandidateBinding
first_binding = record binding { created_at = 5 }

binds : (begin_candidate env request "app-9" "d-1" 5 false live_tables).0 ≡ ok (first_binding, true)
unfolding begin_candidate begin_binding create_candidate admit_candidate adopt_app
    insert_candidate_request insert_deployment insert_binding validate_candidate_domain_admission
    routed_elsewhere pending_elsewhere check_predecessor validate_candidate_deploy_request transact
    ◌>>=◌ valid_revision find? from_json validate matches_app_name validate_identity
    validate_service validate_metrics validate_modes validate_storage validate_secrets
    validate_database validate_hosting hosting_replicas parse_resource_quantities
    parse_resource_quantity trim_space validate_limits validate_egress is_hosted is_managed
    normalize normalize_metrics normalize_strategy default_to normalize_placement_selectors
    normalize_storage normalize_string_list normalize_database
binds = refl

begin_candidate-binds_example :
    IsBound request "d-1"
      (select_live_app "shop" live_tables)
      first_binding
      (begin_candidate env request "app-9" "d-1" 5 false live_tables).1
begin_candidate-binds_example =
    begin_candidate-binds env request "app-9" "d-1" 5 false first_binding live_tables binds
