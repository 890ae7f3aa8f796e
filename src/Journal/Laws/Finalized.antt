-- ===== src/Journal/Laws/Finalized.antt =====
-- What `Finalize` of internal/db/candidate_finalization_repository.go leaves when it returns a reply.
use mathlib.Core.Path.{subst}
use self_hosted_deployer.Common.{
  ap, sym, ◌∙◌, ℕ, String, Bool, true, false, some, ◌≡◌, arith, ◌==◌, ◌||◌, not, is_empty,
  if◌then◌else◌, ok, eq_iff, find?-some, valid_revision,
}
use self_hosted_deployer.AppConfig.Types.{Config}
use self_hosted_deployer.Journal.Types.{
  RequestState, App, Deployment, DeployRequest, CandidateBinding, RuntimeCheckpoint, Tables,
}
use self_hosted_deployer.Journal.Env.{Env}
use self_hosted_deployer.Journal.Transaction.{is_pending}
use self_hosted_deployer.Journal.Requests.{select_request}
use self_hosted_deployer.Journal.Checkpoints.{select_checkpoint}
use self_hosted_deployer.Journal.Bindings.{select_binding}
use self_hosted_deployer.Journal.Finalize.{
  wanted_stage, status_is_pending, select_app_by_id, select_deployment, check_checkpoint,
  check_rows, settle, finalize_pending, settled_reply, finalize_tx, finalize,
}
use self_hosted_deployer.Journal.Laws.Inversion.{
  transact-ok, bind-ok, row-ok, read-ok, decoded-ok, guard-ok, pure-ok,
}
use self_hosted_deployer.Journal.Laws.Outcome.{SettledTo, settle-SettledTo}
use self_hosted_deployer.Journal.Laws.Requests.{stage_eq-path}

-- What the check of the checkpoint has seen.
checked_checkpoint :
    (env : Env) (outcome : RequestState) (gate : String) (r : DeployRequest) (k : RuntimeCheckpoint)
    (c : Config) (t u : Tables)
    → check_checkpoint env outcome gate r k t ≡ ok (c, u)
    → (k.stage ≡ wanted_stage outcome) × (k.gate_json ≡ gate) × (u ≡ t)
unfolding check_checkpoint
checked_checkpoint env outcome gate r k c t u e =
    let (g1, e1) = guard-ok _ _ _ t u c e in
    let (g2, e2) = guard-ok _ _ _ t u c e1 in
    let (x, ex, e3) = decoded-ok _ _ _ t u c e2 in
    let (g4, e4) = guard-ok _ _ _ t u c e3 in
    let (g5, e5) = guard-ok _ _ _ t u c e4 in
    let (same, last) = pure-ok x c t u e5 in
    (
      stage_eq-path k.stage (wanted_stage outcome) (ground arith),
      ground (arith, eq_iff k.gate_json gate),
      ground arith,
    )

-- What the check of the application and of the deployment has seen.
checked_rows :
    (env : Env) (r : DeployRequest) (b : CandidateBinding) (app : App) (d : Deployment)
    (t u : Tables)
    → check_rows env r b t ≡ ok ((app, d), u)
    → (select_app_by_id b.app_id t ≡ some app)
      × (select_deployment b.deployment_id t ≡ some d)
      × (status_is_pending d.status ≡ true)
      × (u ≡ t)
unfolding check_rows
checked_rows env r b app d t u e =
    let e0 = read-ok (select_app_by_id b.app_id) _ t u (app, d) e in
    let (x, ex, e1) = row-ok (select_app_by_id b.app_id t) _ t u (app, d) e0 in
    let (g2, e2) = guard-ok _ _ _ t u (app, d) e1 in
    let e3 = read-ok (select_deployment b.deployment_id) _ t u (app, d) e2 in
    let (y, ey, e4) = row-ok (select_deployment b.deployment_id t) _ t u (app, d) e3 in
    let (g5, e5) = guard-ok _ _ _ t u (app, d) e4 in
    let (same, last) = pure-ok (x, y) (app, d) t u e5 in
    let pd : status_is_pending y.status ≡ true = ground arith in
    (
      ex ∙ ap (λ (z : App × Deployment). some z.0) same,
      ey ∙ ap (λ (z : App × Deployment). some z.1) same,
      subst (λ (z : App × Deployment). status_is_pending z.1.status ≡ true) same pd,
      sym last,
    )

-- What the finalization of a pending request has seen, and what it leaves.
pub record Finalized (env : Env) (outcome : RequestState) (gate : String) (now : ℕ)
    (r : DeployRequest) (b : CandidateBinding) (reply : String) (t t' : Tables) : Type 0 where
  pub checkpoint : RuntimeCheckpoint
  pub config : Config
  pub app : App
  pub deployment : Deployment
  pub saved : select_checkpoint r.app_name r.request_id t ≡ some checkpoint
  pub at_stage : checkpoint.stage ≡ wanted_stage outcome
  pub with_gate : checkpoint.gate_json ≡ gate
  pub same_app : app.id ≡ b.app_id
  pub same_deployment : deployment.id ≡ b.deployment_id
  pub left : SettledTo env outcome r config app deployment now reply t t'

finalize_pending-Finalized :
    (env : Env) (outcome : RequestState) (gate : String) (tls : Bool) (now : ℕ) (r : DeployRequest)
    (b : CandidateBinding) (reply : String) (t t' : Tables)
    → select_request r.app_name r.request_id t ≡ some r
    → is_pending r.state ≡ true
    → finalize_pending env outcome gate tls now r b t ≡ ok (reply, t')
    → Finalized env outcome gate now r b reply t t'
unfolding finalize_pending
finalize_pending-Finalized env outcome gate tls now r b reply t t' hr pr e =
    let e0 = read-ok (select_checkpoint r.app_name r.request_id) _ t t' reply e in
    let (k, ek, e1) = row-ok (select_checkpoint r.app_name r.request_id t) _ t t' reply e0 in
    let (c, t1, ec, e2) = bind-ok (check_checkpoint env outcome gate r k) _ t t' reply e1 in
    let (stage, same_gate, at1) = checked_checkpoint env outcome gate r k c t t1 ec in
    let (ad, t2, er, e3) = bind-ok (check_rows env r b) _ t1 t' reply e2 in
    let (ha, hd, pd, at2) = checked_rows env r b ad.0 ad.1 t1 t2 er in
    let here : t2 ≡ t = at2 ∙ at1 in
    let id_a : ad.0.id ≡ b.app_id =
      (eq_iff ad.0.id b.app_id).0 (find?-some (λ (a : App). a.id == b.app_id) t1.apps ha) in
    let id_d : ad.1.id ≡ b.deployment_id =
      (eq_iff ad.1.id b.deployment_id).0
        (find?-some (λ (d : Deployment). d.id == b.deployment_id) t1.deployments hd) in
    record {
      checkpoint = k;
      config = c;
      app = ad.0;
      deployment = ad.1;
      saved = ek;
      at_stage = stage;
      with_gate = same_gate;
      same_app = id_a;
      same_deployment = id_d;
      left =
          settle-SettledTo env outcome r c ad.0 ad.1 tls now t t' reply hr pr
            (subst (λ (id : String). select_app_by_id id t ≡ some ad.0) (sym id_a)
              (subst (λ (u : Tables). select_app_by_id b.app_id u ≡ some ad.0) at1 ha))
            (subst (λ (id : String). select_deployment id t ≡ some ad.1) (sym id_d)
              (subst (λ (u : Tables). select_deployment b.deployment_id u ≡ some ad.1) at1 hd))
            pd
            (subst (λ (u : Tables). settle env outcome r c ad.0 ad.1 tls now u ≡ ok (reply, t'))
              here e3);
    }

-- The finalization of a pending request.
pub finalize-Finalized :
    (env : Env) (outcome : RequestState) (gate : String) (tls : Bool) (now : ℕ) (r : DeployRequest)
    (reply : String) (t : Tables)
    → select_request r.app_name r.request_id t ≡ some r
    → is_pending r.state ≡ true
    → (finalize env r.app_name r.request_id outcome gate tls now t).0 ≡ ok reply
    → ((is_empty r.app_name || not (valid_revision r.request_id) || is_pending outcome) ≡ false)
      × (b : CandidateBinding) × (select_binding r.app_name r.request_id t ≡ some b)
      × Finalized env outcome gate now r b reply t
          (finalize env r.app_name r.request_id outcome gate tls now t).1
unfolding finalize finalize_tx
finalize-Finalized env outcome gate tls now r reply t hr pr e =
    let m = finalize_tx env r.app_name r.request_id outcome gate tls now in
    let u = (finalize env r.app_name r.request_id outcome gate tls now t).1 in
    let e0 = transact-ok m t reply e in
    let (g1, e1) = guard-ok _ _ _ t u reply e0 in
    let e2 = read-ok (select_request r.app_name r.request_id) _ t u reply e1 in
    let (x, ex, e3) = row-ok (select_request r.app_name r.request_id t) _ t u reply e2 in
    let e4 = read-ok (select_binding r.app_name r.request_id) _ t u reply e3 in
    let (b, eb, e5) = row-ok (select_binding r.app_name r.request_id t) _ t u reply e4 in
    let same : x ≡ r = ground arith in
    let branch = λ (p : Bool) (y : DeployRequest).
      (if p then finalize_pending env outcome gate tls now y b else settled_reply env outcome y) t
      ≡ ok (reply, u) in
    let e6 =
      subst (λ (p : Bool). branch p r) pr
        (subst (λ (y : DeployRequest). branch (is_pending y.state) y) same e5) in
    (
      ground arith,
      b,
      eb,
      finalize_pending-Finalized env outcome gate tls now r b reply t u hr pr e6,
    )
