-- ===== src/Journal/Laws/Settling.antt =====
-- What the writes of a finalization leave behind.
use self_hosted_deployer.Common.{
  ℕ, String, Bool, true, some, ◌≡◌, refl, arith, ◌==◌, ◌&&◌, find?-some, update, ok,
}
use self_hosted_deployer.Common.Lists.Rows.{find?-update}
use self_hosted_deployer.AppConfig.Types.{Config}
use self_hosted_deployer.Journal.Types.{RequestState, App, Deployment, DeployRequest, Tables}
use self_hosted_deployer.Journal.Env.{Env}
use self_hosted_deployer.Journal.Transaction.{◌>>=◌, is_pending, is_request}
use self_hosted_deployer.Journal.Requests.{settled, select_request}
use self_hosted_deployer.Journal.Finalize.{
  select_app_by_id, select_deployment, status_is_pending, upsert_route, delete_route, update_app,
  update_deployment, settle_request, settle_route,
}

-- The row of a pending request is settled.
pub settled_row :
    (app request : String) (outcome : RequestState) (reply : String) (now : ℕ) (t t' : Tables)
    (r : DeployRequest)
    → select_request app request t ≡ some r
    → is_pending r.state ≡ true
    → settle_request app request outcome reply now t ≡ ok (tt, t')
    → select_request app request t' ≡ some (settled outcome reply now r)
unfolding settle_request
settled_row app request outcome reply now t t' r h p e =
    let changed : t'.requests
        ≡ update (λ x. is_request app request x && is_pending x.state) (settled outcome reply now)
            t.requests =
      ground arith in
    rw (
      changed,
      find?-update (is_request app request) (λ x. is_request app request x && is_pending x.state)
          (settled outcome reply now) t.requests (λ x. refl),
      h,
      find?-some (is_request app request) t.requests h,
      p,
    )

pub settle_request_frame :
    (app request : String) (outcome : RequestState) (reply : String) (now : ℕ) (t t' : Tables)
    → settle_request app request outcome reply now t ≡ ok (tt, t')
    → (t'.apps ≡ t.apps)
      × (t'.routes ≡ t.routes)
      × (t'.deployments ≡ t.deployments)
      × (t'.bindings ≡ t.bindings)
unfolding settle_request
settle_request_frame app request outcome reply now t t' e =
    (ground arith, ground arith, ground arith, ground arith)

-- A pending deployment is settled.
pub settled_deployment_row :
    (d : Deployment) (t t' : Tables) (x : Deployment)
    → select_deployment d.id t ≡ some x
    → status_is_pending x.status ≡ true
    → update_deployment d t ≡ ok (tt, t')
    → select_deployment d.id t'
      ≡ some (record x {
        status = d.status;
        failure_reason = d.failure_reason;
        updated_at = d.updated_at;
      })
unfolding update_deployment
settled_deployment_row d t t' x h p e =
    let f = λ (y : Deployment). record y {
      status = d.status;
      failure_reason = d.failure_reason;
      updated_at = d.updated_at;
    } in
    let changed : t'.deployments
        ≡ update (λ y. y.id == d.id && status_is_pending y.status) f t.deployments =
      ground arith in
    rw (
      changed,
      find?-update (λ y. y.id == d.id) (λ y. y.id == d.id && status_is_pending y.status) f
          t.deployments (λ y. refl),
      h,
      find?-some (λ y. y.id == d.id) t.deployments h,
      p,
    )

pub update_deployment_frame :
    (d : Deployment) (t t' : Tables)
    → update_deployment d t ≡ ok (tt, t')
    → (t'.apps ≡ t.apps)
      × (t'.routes ≡ t.routes)
      × (t'.requests ≡ t.requests)
      × (t'.bindings ≡ t.bindings)
unfolding update_deployment
update_deployment_frame d t t' e = (ground arith, ground arith, ground arith, ground arith)

pub update_app_row :
    (a : App) (t t' : Tables) (x : App)
    → select_app_by_id a.id t ≡ some x
    → update_app a t ≡ ok (tt, t')
    → select_app_by_id a.id t'
      ≡ some (record x {
        image = a.image;
        desired_state_json = a.desired_state_json;
        updated_at = a.updated_at;
        deleted_at = a.deleted_at;
      })
unfolding update_app
update_app_row a t t' x h e =
    let f = λ (y : App). record y {
      image = a.image;
      desired_state_json = a.desired_state_json;
      updated_at = a.updated_at;
      deleted_at = a.deleted_at;
    } in
    let changed : t'.apps ≡ update (λ y. y.id == a.id) f t.apps = ground arith in
    rw (
      changed,
      find?-update (λ y. y.id == a.id) (λ y. y.id == a.id) f t.apps (λ y. refl),
      h,
      find?-some (λ y. y.id == a.id) t.apps h,
    )

pub update_app_frame :
    (a : App) (t t' : Tables)
    → update_app a t ≡ ok (tt, t')
    → (t'.deployments ≡ t.deployments) × (t'.requests ≡ t.requests) × (t'.bindings ≡ t.bindings)
unfolding update_app
update_app_frame a t t' e = (ground arith, ground arith, ground arith)

pub settle_route_frame :
    (env : Env) (r : DeployRequest) (c : Config) (id : String) (tls : Bool) (now : ℕ)
    (t t' : Tables)
    → settle_route env r c id tls now t ≡ ok (tt, t')
    → (t'.apps ≡ t.apps)
      × (t'.deployments ≡ t.deployments)
      × (t'.requests ≡ t.requests)
      × (t'.bindings ≡ t.bindings)
unfolding settle_route upsert_route delete_route ◌>>=◌
settle_route_frame env r c id tls now t t' e =
    (ground arith, ground arith, ground arith, ground arith)
