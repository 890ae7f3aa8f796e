-- ===== src/Journal/Laws/Outcome.antt =====
-- `settle` of internal/db/candidate_finalization_repository.go: all of its writes together.
use mathlib.Core.Path.{subst}
use self_hosted_deployer.Common.{ℕ, String, Bool, true, false, some, ◌≡◌, refl, arith, is_empty, ok}
use self_hosted_deployer.AppConfig.Types.{Config}
use self_hosted_deployer.Journal.Types.{
  RequestState, pending, applied, withdrawn, App, Deployment, DeployRequest, Tables,
}
use self_hosted_deployer.Journal.Env.{Env}
use self_hosted_deployer.Journal.Transaction.{◌>>=◌, is_pending}
use self_hosted_deployer.Journal.Requests.{settled, select_request}
use self_hosted_deployer.Journal.Bindings.{text_or_empty}
use self_hosted_deployer.Journal.Finalize.{
  select_app_by_id, select_deployment, status_is_pending, state_eq, settled_app, settled_deployment,
  update_app, update_deployment, settle_request, settle_route, delete_route, drop_stale_route,
  settle_app, settle,
}
use self_hosted_deployer.Journal.Laws.Inversion.{bind-ok, decoded-ok, pure-ok}
use self_hosted_deployer.Journal.Laws.Settling.{
  settled_row, settle_request_frame, settled_deployment_row, update_deployment_frame,
  update_app_row, update_app_frame, settle_route_frame,
}

-- What `settle_app` leaves: the application as its outcome wants it, the other tables as they were.
record AppSettled (outcome : RequestState) (r : DeployRequest) (c : Config) (now : ℕ) (app : App)
    (t t' : Tables) : Type 0 where
  app_row : select_app_by_id app.id t' ≡ some (settled_app outcome r c now app)
  deployments : t'.deployments ≡ t.deployments
  requests : t'.requests ≡ t.requests
  bindings : t'.bindings ≡ t.bindings
  untouched :
      is_pending outcome ≡ false
      → outcome ≡ withdrawn
      → is_empty (text_or_empty r.previous_app_id) ≡ false
      → (t'.apps ≡ t.apps) × (t'.routes ≡ t.routes)

dropped_route_frame :
    (r : DeployRequest) (id : String) (t t' : Tables)
    → drop_stale_route r id t ≡ ok (tt, t')
    → (t'.apps ≡ t.apps)
      × (t'.deployments ≡ t.deployments)
      × (t'.requests ≡ t.requests)
      × (t'.bindings ≡ t.bindings)
unfolding drop_stale_route delete_route ◌>>=◌
dropped_route_frame r id t t' e = (ground arith, ground arith, ground arith, ground arith)

kept_route :
    (r : DeployRequest) (id : String) (t t' : Tables)
    → is_empty (text_or_empty r.previous_app_id) ≡ false
    → drop_stale_route r id t ≡ ok (tt, t')
    → t'.routes ≡ t.routes
unfolding drop_stale_route ◌>>=◌
kept_route r id t t' n e = ground arith

settled_app_row :
    (env : Env) (outcome : RequestState) (r : DeployRequest) (c : Config) (app : App) (tls : Bool)
    (now : ℕ) (t t' : Tables)
    → select_app_by_id app.id t ≡ some app
    → settle_app env outcome r c app tls now t ≡ ok (tt, t')
    → AppSettled outcome r c now app t t'
unfolding settle_app
settled_app_row env applied r c app tls now t t' h e =
    let (a, u, e1, e2) =
      bind-ok (update_app (settled_app applied r c now app))
        (λ _. settle_route env r c app.id tls now) t t' tt e in
    let row = update_app_row (settled_app applied r c now app) t u app h e1 in
    let (ds, rs, bs) = update_app_frame (settled_app applied r c now app) t u e1 in
    let (as', ds', rs', bs') = settle_route_frame env r c app.id tls now u t' e2 in
    record {
      app_row = rw as' row;
      deployments = rw (ds', ds) refl;
      requests = rw (rs', rs) refl;
      bindings = rw (bs', bs) refl;
      untouched = λ p w n. cc;
    }
settled_app_row env withdrawn r c app tls now t t' h e =
    let (as', ds, rs, bs) = dropped_route_frame r app.id t t' e in
    record {
      app_row = rw as' h;
      deployments = ds;
      requests = rs;
      bindings = bs;
      untouched = λ p w n. (as', kept_route r app.id t t' n e);
    }
settled_app_row env pending r c app tls now t t' h e =
    let (as', ds, rs, bs) = dropped_route_frame r app.id t t' e in
    record {
      app_row = rw as' h;
      deployments = ds;
      requests = rs;
      bindings = bs;
      untouched = λ p w n. cc;
    }

-- What `settle` leaves.
pub record SettledTo (env : Env) (outcome : RequestState) (r : DeployRequest) (c : Config)
    (app : App) (d : Deployment) (now : ℕ) (reply : String) (t t' : Tables) : Type 0 where
  pub request_row : select_request r.app_name r.request_id t' ≡ some (settled outcome reply now r)
  pub deployment_row : select_deployment d.id t' ≡ some (settled_deployment outcome now d)
  pub app_row : select_app_by_id app.id t' ≡ some (settled_app outcome r c now app)
  pub bindings : t'.bindings ≡ t.bindings
  pub untouched :
      is_pending outcome ≡ false
      → outcome ≡ withdrawn
      → is_empty (text_or_empty r.previous_app_id) ≡ false
      → (t'.apps ≡ t.apps) × (t'.routes ≡ t.routes)
  pub encoded :
      (x : Config) × (env.encode_reply (record {
        app = settled_app outcome r c now app;
        config = x;
        deployment = settled_deployment outcome now d;
        requested_state = r.requested_state;
        withdrawal_confirmed = state_eq outcome withdrawn;
      })
        ≡ some reply)

outcome_row :
    (outcome : RequestState) (now : ℕ) (d : Deployment) (t t' : Tables)
    → select_deployment d.id t ≡ some d
    → status_is_pending d.status ≡ true
    → update_deployment (settled_deployment outcome now d) t ≡ ok (tt, t')
    → select_deployment d.id t' ≡ some (settled_deployment outcome now d)
outcome_row applied now d t t' h p e =
    settled_deployment_row (settled_deployment applied now d) t t' d h p e
outcome_row withdrawn now d t t' h p e =
    settled_deployment_row (settled_deployment withdrawn now d) t t' d h p e
outcome_row pending now d t t' h p e =
    settled_deployment_row (settled_deployment pending now d) t t' d h p e

-- The writes one after the other.
writes-SettledTo :
    (env : Env) (outcome : RequestState) (r : DeployRequest) (c x : Config) (app : App)
    (d : Deployment) (tls : Bool) (now : ℕ) (t t1 t2 t' : Tables) (reply : String)
    → select_request r.app_name r.request_id t ≡ some r
    → is_pending r.state ≡ true
    → select_app_by_id app.id t ≡ some app
    → select_deployment d.id t ≡ some d
    → status_is_pending d.status ≡ true
    → settle_app env outcome r c app tls now t ≡ ok (tt, t1)
    → update_deployment (settled_deployment outcome now d) t1 ≡ ok (tt, t2)
    → env.encode_reply (record {
      app = settled_app outcome r c now app;
      config = x;
      deployment = settled_deployment outcome now d;
      requested_state = r.requested_state;
      withdrawal_confirmed = state_eq outcome withdrawn;
    })
      ≡ some reply
    → settle_request r.app_name r.request_id outcome reply now t2 ≡ ok (tt, t')
    → SettledTo env outcome r c app d now reply t t'
writes-SettledTo env outcome r c x app d tls now t t1 t2 t' reply hr pr ha hd pd e1 e2 ey e5 =
    let s = settled_app_row env outcome r c app tls now t t1 ha e1 in
    let (as2, rt2, rs2, bs2) =
      update_deployment_frame (settled_deployment outcome now d) t1 t2 e2 in
    let (as5, rt5, ds5, bs5) =
      settle_request_frame r.app_name r.request_id outcome reply now t2 t' e5 in
    record {
      request_row =
          settled_row r.app_name r.request_id outcome reply now t2 t' r (rw (rs2, s.requests) hr) pr
            e5;
      deployment_row = rw ds5 (outcome_row outcome now d t1 t2 (rw s.deployments hd) pd e2);
      app_row = rw (as5, as2) s.app_row;
      bindings = rw (bs5, bs2) s.bindings;
      untouched = λ p w n.
          let (kept_apps, kept_routes) = s.untouched p w n in
          (rw (as5, as2) kept_apps, rw (rt5, rt2) kept_routes);
      encoded = (x, ey);
    }

pub settle-SettledTo :
    (env : Env) (outcome : RequestState) (r : DeployRequest) (c : Config) (app : App)
    (d : Deployment) (tls : Bool) (now : ℕ) (t t' : Tables) (reply : String)
    → select_request r.app_name r.request_id t ≡ some r
    → is_pending r.state ≡ true
    → select_app_by_id app.id t ≡ some app
    → select_deployment d.id t ≡ some d
    → status_is_pending d.status ≡ true
    → settle env outcome r c app d tls now t ≡ ok (reply, t')
    → SettledTo env outcome r c app d now reply t t'
unfolding settle
settle-SettledTo env outcome r c app d tls now t t' reply hr pr ha hd pd e =
    let (a1, t1, e1, f1) = bind-ok _ _ t t' reply e in
    let (a2, t2, e2, f2) = bind-ok _ _ t1 t' reply f1 in
    let (x, ex, f3) = decoded-ok _ _ _ t2 t' reply f2 in
    let (y, ey, f4) = decoded-ok _ _ _ t2 t' reply f3 in
    let (a5, t5, e5, f5) = bind-ok _ _ t2 t' reply f4 in
    let (same, last) = pure-ok y reply t5 t' f5 in
    subst (λ (z : String). SettledTo env outcome r c app d now z t t') same
      (subst (λ (u : Tables). SettledTo env outcome r c app d now y t u) last
        (writes-SettledTo env outcome r c x app d tls now t t1 t2 t5 y hr pr ha hd pd e1 e2 ey e5))
