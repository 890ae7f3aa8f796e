-- ===== src/Journal/Finalize/Rows.antt =====
-- The rows of a finalization and its statements on them
-- (internal/db/candidate_finalization_repository.go).
use self_hosted_deployer.Common.{
  ℕ, String, Bool, true, false, Option, none, [], ◌∷◌, ◌++◌, ◌==◌, not, ◌&&◌, ◌||◌, any, is_empty,
  find?, update, remove, if◌then◌else◌, ok, err,
}
use self_hosted_deployer.AppConfig.Types.{Config}
use self_hosted_deployer.Journal.Types.{
  RequestState, pending, applied, withdrawn, Stage, activated, DeploymentStatus, healthy, failed,
  App, Deployment, Route, DeployRequest, Tables, not_found, constraint,
}
use self_hosted_deployer.Journal.Env.{Env}
use self_hosted_deployer.Journal.Transaction.{Tx, ◌>>◌, pure, modify, is_pending, is_request}
use self_hosted_deployer.Journal.Requests.{settled}
use self_hosted_deployer.Journal.Bindings.{is_deleted, text_or_empty}

abbrev pub state_eq : RequestState → RequestState → Bool
state_eq pending pending = true
state_eq applied applied = true
state_eq withdrawn withdrawn = true
state_eq _ _ = false

abbrev pub status_is_pending : DeploymentStatus → Bool
status_is_pending DeploymentStatus.pending = true
status_is_pending _ = false

-- The stage that an outcome needs.
abbrev pub wanted_stage : RequestState → Stage
wanted_stage withdrawn = Stage.withdrawn
wanted_stage _ = activated

abbrev pub select_app_by_id : String → Tables → Option App
select_app_by_id id t = find? (λ a. a.id == id) t.apps

abbrev pub select_deployment : String → Tables → Option Deployment
select_deployment id t = find? (λ d. d.id == id) t.deployments

-- The application is what the request left: the unchanged live predecessor, or no live one.
abbrev pub predecessor_changed : DeployRequest → App → Bool
predecessor_changed request app =
    if is_empty (text_or_empty request.previous_app_id)
    then not (is_deleted app)
    else not (app.id == text_or_empty request.previous_app_id)
      || not (app.desired_state_json == text_or_empty request.previous_state)
      || is_deleted app

-- One of the two predecessor columns is empty and the other is not.
abbrev pub half_predecessor : DeployRequest → Bool
half_predecessor request =
    if is_empty (text_or_empty request.previous_app_id)
    then not (is_empty (text_or_empty request.previous_state))
    else is_empty (text_or_empty request.previous_state)

-- The application as the outcome leaves it.
abbrev pub settled_app : RequestState → DeployRequest → Config → ℕ → App → App
settled_app applied request c now app = record app {
  image = c.image;
  desired_state_json = request.requested_state;
  updated_at = now;
  deleted_at = none;
}
settled_app _ request c now app = app

abbrev pub settled_deployment : RequestState → ℕ → Deployment → Deployment
settled_deployment applied now d = record d {
  status = healthy;
  failure_reason = "";
  updated_at = now;
}
settled_deployment _ now d = record d {
  status = failed;
  failure_reason = "Deployment withdrawn after confirmed runtime recovery";
  updated_at = now;
}

-- INSERT INTO routes ... ON CONFLICT(app_id) DO UPDATE: another route of the domain or the identity
-- violates a constraint.
unfoldable pub upsert_route : Route → Tx (Unit {0})
upsert_route r t =
    if any (λ x. not (x.app_id == r.app_id) && (x.domain == r.domain || x.id == r.id)) t.routes
    then err constraint
    else if any (λ x. x.app_id == r.app_id) t.routes
    then ok (
      tt,
      record t {
        routes =
            update (λ x. x.app_id == r.app_id)
              (λ x. record x {
                domain = r.domain;
                target_port = r.target_port;
                status = r.status;
                tls_enabled = r.tls_enabled;
                updated_at = r.updated_at;
              })
              t.routes;
      },
    )
    else ok (tt, record t { routes = t.routes ++ r ∷ [] })

unfoldable pub delete_route : String → Tx (Unit {0})
delete_route app_id = modify λ t. record t { routes = remove (λ r. r.app_id == app_id) t.routes }

-- UPDATE apps ... WHERE id = ?
unfoldable pub update_app : App → Tx (Unit {0})
update_app app t =
    if any (λ a. a.id == app.id) t.apps
    then ok (
      tt,
      record t {
        apps =
            update (λ a. a.id == app.id)
              (λ a. record a {
                image = app.image;
                desired_state_json = app.desired_state_json;
                updated_at = app.updated_at;
                deleted_at = app.deleted_at;
              })
              t.apps;
      },
    )
    else err not_found

-- UPDATE deployments ... WHERE id = ? AND status = 'pending'
unfoldable pub update_deployment : Deployment → Tx (Unit {0})
update_deployment d t =
    if any (λ x. x.id == d.id && status_is_pending x.status) t.deployments
    then ok (
      tt,
      record t {
        deployments =
            update (λ x. x.id == d.id && status_is_pending x.status)
              (λ x. record x {
                status = d.status;
                failure_reason = d.failure_reason;
                updated_at = d.updated_at;
              })
              t.deployments;
      },
    )
    else err not_found

-- UPDATE deployment_requests ... WHERE app_name = ? AND request_id = ? AND state = 'pending'
unfoldable pub settle_request : String → String → RequestState → String → ℕ → Tx (Unit {0})
settle_request app request outcome reply now t =
    if any (λ r. is_request app request r && is_pending r.state) t.requests
    then ok (
      tt,
      record t {
        requests =
            update (λ r. is_request app request r && is_pending r.state) (settled outcome reply now)
              t.requests;
      },
    )
    else err not_found

-- DELETE or upsert of the route of an applied candidate.
unfoldable pub settle_route : Env → DeployRequest → Config → String → Bool → ℕ → Tx (Unit {0})
settle_route env request c app_id tls now =
    if is_empty c.routing.domain
    then delete_route app_id
    else upsert_route (record {
      id = env.route_id request.app_name request.request_id;
      app_id = app_id;
      domain = c.routing.domain;
      target_port = c.service.port;
      status = "pending";
      tls_enabled = tls;
      created_at = now;
      updated_at = now;
    })

-- A withdrawn first attempt leaves no route behind.
unfoldable pub drop_stale_route : DeployRequest → String → Tx (Unit {0})
drop_stale_route request app_id =
    if is_empty (text_or_empty request.previous_app_id) then delete_route app_id else pure tt

-- The writes on the application and its route.
unfoldable pub settle_app :
    Env → RequestState → DeployRequest → Config → App → Bool → ℕ → Tx (Unit {0})
settle_app env applied request c app tls now =
    update_app (settled_app applied request c now app) >> settle_route env request c app.id tls now
settle_app env _ request c app tls now = drop_stale_route request app.id
