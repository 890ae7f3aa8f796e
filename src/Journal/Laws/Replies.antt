-- ===== src/Journal/Laws/Replies.antt =====
-- The callers' view of `Finalize` of internal/db/candidate_finalization_repository.go.
use mathlib.Core.Path.{subst}
use self_hosted_deployer.Common.{
  ℕ, String, Bool, true, false, none, some, ◌≡◌, refl, arith, ◌||◌, not, nat_eq, is_empty, ok,
  valid_revision,
}
use self_hosted_deployer.Journal.Types.{
  RequestState, pending, applied, withdrawn, Stage, activated, healthy, failed, App, Deployment,
  DeployRequest, CandidateBinding, RuntimeCheckpoint, Tables,
}
use self_hosted_deployer.Journal.Env.{Env, Reply}
use self_hosted_deployer.Journal.Transaction.{◌>>=◌, is_pending, transact, close}
use self_hosted_deployer.Journal.Requests.{settled, select_request}
use self_hosted_deployer.Journal.Checkpoints.{select_checkpoint}
use self_hosted_deployer.Journal.Bindings.{select_binding, text_or_empty}
use self_hosted_deployer.Journal.Finalize.{
  state_eq, select_app_by_id, select_deployment, settled_app, settled_deployment, settled_reply,
  finalize_tx, finalize,
}
use self_hosted_deployer.Journal.Laws.Finalized.{finalize-Finalized}

state_eq_refl : (s : RequestState) → state_eq s s ≡ true
state_eq_refl pending = refl
state_eq_refl applied = refl
state_eq_refl withdrawn = refl

-- What a settled request answers.
finalize_of_settled :
    (env : Env) (outcome : RequestState) (gate : String) (tls : Bool) (now : ℕ) (r : DeployRequest)
    (b : CandidateBinding) (reply : String) (t : Tables)
    → select_request r.app_name r.request_id t ≡ some r
    → select_binding r.app_name r.request_id t ≡ some b
    → (is_empty r.app_name
        || not (valid_revision r.request_id)
        || is_pending outcome
        || is_empty gate
        || nat_eq now 0)
      ≡ false
    → r.state ≡ outcome
    → r.response_json ≡ some reply
    → env.valid_json reply ≡ true
    → finalize env r.app_name r.request_id outcome gate tls now t ≡ (ok reply, t)
unfolding finalize finalize_tx settled_reply ◌>>=◌ transact close
finalize_of_settled env outcome gate tls now r b reply t hr hb g s resp v =
    let p : is_pending outcome ≡ false = ground arith in
    rw (g, hr, hb, s, p, resp, state_eq_refl outcome, v) refl

-- A finalization of a pending request that returns a reply has given its row the outcome and that
-- reply.
pub finalize-settles :
    (env : Env) (outcome : RequestState) (gate : String) (tls : Bool) (now : ℕ) (r : DeployRequest)
    (reply : String) (t : Tables)
    → select_request r.app_name r.request_id t ≡ some r
    → is_pending r.state ≡ true
    → (finalize env r.app_name r.request_id outcome gate tls now t).0 ≡ ok reply
    → (row : DeployRequest) × (select_request r.app_name r.request_id
          (finalize env r.app_name r.request_id outcome gate tls now t).1
        ≡ some row)
      × (row.state ≡ outcome)
      × (row.response_json ≡ some reply)
finalize-settles env outcome gate tls now r reply t hr pr e =
    let (p, b, eb, f) = finalize-Finalized env outcome gate tls now r reply t hr pr e in
    (settled outcome reply now r, f.left.request_row, refl, refl)

-- A finalization of a pending request as applied that returns a reply: the request's checkpoint was activated with the gate of the call,
-- the application of its binding is live with the requested state, and the deployment is healthy.
pub finalize-applied :
    (env : Env) (gate : String) (tls : Bool) (now : ℕ) (r : DeployRequest) (reply : String)
    (t : Tables)
    → select_request r.app_name r.request_id t ≡ some r
    → is_pending r.state ≡ true
    → (finalize env r.app_name r.request_id applied gate tls now t).0 ≡ ok reply
    → (b : CandidateBinding) × (k : RuntimeCheckpoint) × (app : App) × (d : Deployment)
      × (select_binding r.app_name r.request_id t ≡ some b)
      × (select_checkpoint r.app_name r.request_id t ≡ some k)
      × (k.stage ≡ activated)
      × (k.gate_json ≡ gate)
      × (select_app_by_id b.app_id (finalize env r.app_name r.request_id applied gate tls now t).1
          ≡ some app)
      × (app.deleted_at ≡ none)
      × (app.desired_state_json ≡ r.requested_state)
      × (select_deployment b.deployment_id
            (finalize env r.app_name r.request_id applied gate tls now t).1
          ≡ some d)
      × (d.status ≡ healthy)
finalize-applied env gate tls now r reply t hr pr e =
    let u = (finalize env r.app_name r.request_id applied gate tls now t).1 in
    let (p, b, eb, f) = finalize-Finalized env applied gate tls now r reply t hr pr e in
    let a' = settled_app applied r f.config now f.app in
    let d' = settled_deployment applied now f.deployment in
    (
      b,
      f.checkpoint,
      a',
      d',
      eb,
      f.saved,
      f.at_stage,
      f.with_gate,
      subst (λ (id : String). select_app_by_id id u ≡ some a') f.same_app f.left.app_row,
      refl,
      refl,
      subst (λ (id : String). select_deployment id u ≡ some d') f.same_deployment
          f.left.deployment_row,
      refl,
    )

-- A finalization as withdrawn, of a pending request that replaced a live application, that returns a
-- reply: the request's checkpoint was
-- withdrawn with the gate of the call, no application and no route has changed, and the deployment
-- has failed.
pub finalize-withdrawn :
    (env : Env) (gate : String) (tls : Bool) (now : ℕ) (r : DeployRequest) (reply : String)
    (t : Tables)
    → select_request r.app_name r.request_id t ≡ some r
    → is_pending r.state ≡ true
    → is_empty (text_or_empty r.previous_app_id) ≡ false
    → (finalize env r.app_name r.request_id withdrawn gate tls now t).0 ≡ ok reply
    → (b : CandidateBinding) × (k : RuntimeCheckpoint) × (d : Deployment) × (select_binding
          r.app_name r.request_id t
        ≡ some b)
      × (select_checkpoint r.app_name r.request_id t ≡ some k)
      × (k.stage ≡ Stage.withdrawn)
      × (k.gate_json ≡ gate)
      × ((finalize env r.app_name r.request_id withdrawn gate tls now t).1.apps ≡ t.apps)
      × ((finalize env r.app_name r.request_id withdrawn gate tls now t).1.routes ≡ t.routes)
      × (select_deployment b.deployment_id
            (finalize env r.app_name r.request_id withdrawn gate tls now t).1
          ≡ some d)
      × (d.status ≡ failed)
finalize-withdrawn env gate tls now r reply t hr pr n e =
    let u = (finalize env r.app_name r.request_id withdrawn gate tls now t).1 in
    let (p, b, eb, f) = finalize-Finalized env withdrawn gate tls now r reply t hr pr e in
    let d' = settled_deployment withdrawn now f.deployment in
    let (kept_apps, kept_routes) = f.left.untouched refl refl n in
    (
      b,
      f.checkpoint,
      d',
      eb,
      f.saved,
      f.at_stage,
      f.with_gate,
      kept_apps,
      kept_routes,
      subst (λ (id : String). select_deployment id u ≡ some d') f.same_deployment
          f.left.deployment_row,
      refl,
    )

-- A reply that is lost is returned again: if the replies that are encoded are valid JSON, a call with
-- the same outcome after a finalization of a pending request returns the same reply and changes no
-- table, at any time but zero and with any gate but the empty one.
pub finalize-repeats :
    (env : Env) (outcome : RequestState) (gate again : String) (tls tls' : Bool) (now later : ℕ)
    (r : DeployRequest) (reply : String) (t : Tables)
    → ((x : Reply) (s : String) → env.encode_reply x ≡ some s → env.valid_json s ≡ true)
    → select_request r.app_name r.request_id t ≡ some r
    → is_pending r.state ≡ true
    → is_empty again ≡ false
    → nat_eq later 0 ≡ false
    → (finalize env r.app_name r.request_id outcome gate tls now t).0 ≡ ok reply
    → finalize env r.app_name r.request_id outcome again tls' later
        (finalize env r.app_name r.request_id outcome gate tls now t).1
      ≡ (ok reply, (finalize env r.app_name r.request_id outcome gate tls now t).1)
finalize-repeats env outcome gate again tls tls' now later r reply t valid hr pr ga la e =
    let u = (finalize env r.app_name r.request_id outcome gate tls now t).1 in
    let (p, b, eb, f) = finalize-Finalized env outcome gate tls now r reply t hr pr e in
    let (x, ex) = f.left.encoded in
    finalize_of_settled env outcome again tls' later (settled outcome reply now r) b reply u
      f.left.request_row (rw f.left.bindings eb) (rw p (rw (ga, la) refl)) refl refl
      (valid _ reply ex)
