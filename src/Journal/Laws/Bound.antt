-- ===== src/Journal/Laws/Bound.antt =====
-- What `Begin` and `BeginWithdrawal` of internal/db/candidate_binding_repository.go leave behind.
use self_hosted_deployer.Common.{
  sym, ap, ℕ, String, Bool, true, false, Option, none, some, ◌≡◌, refl, ok,
}
use self_hosted_deployer.AppConfig.Types.{Config}
use self_hosted_deployer.Journal.Types.{pending, App, DeployRequest, CandidateBinding, Tables}
use self_hosted_deployer.Journal.Env.{Env}
use self_hosted_deployer.Journal.Requests.{select_request, select_live_app}
use self_hosted_deployer.Journal.Bindings.{select_binding}
use self_hosted_deployer.Journal.Bindings.Begin.{
  saved_binding, begin_binding, begin_candidate_tx, begin_candidate, candidate_row,
}
use self_hosted_deployer.Journal.Laws.Created.{create_candidate-binds}
use self_hosted_deployer.Journal.Laws.Inversion.{
  transact-ok, row-ok, checked-ok, bind-ok, guard-ok, read-ok, pure-ok,
}

-- A repeated call does not answer as a new one.
saved_not_new :
    (req : DeployRequest) (withdrawal : Bool) (now : ℕ) (x : CandidateBinding)
    (z : CandidateBinding × Bool) (t t' : Tables)
    → saved_binding req withdrawal now x t ≡ ok (z, t')
    → z.1 ≡ false
unfolding saved_binding
saved_not_new req withdrawal now x z t t' e =
    let e1 = read-ok (select_request req.app_name req.request_id) _ t t' z e in
    let (r, er, e2) = row-ok _ _ t t' z e1 in
    let (g3, e3) = guard-ok _ _ _ t t' z e2 in
    let (a4, t4, m4, e4) = bind-ok _ _ t t' z e3 in
    let (same, last) = pure-ok (x, false) z t4 t' e4 in
    sym (ap (λ (p : CandidateBinding × Bool). p.1) same)

-- The row holds the predecessor: the application that is live, with its desired state, or none.
abbrev pub HoldsPrevious : Option App → DeployRequest → Type 0
HoldsPrevious none row = (row.previous_app_id ≡ none) × (row.previous_state ≡ none)
HoldsPrevious (some a) row =
    (row.previous_app_id ≡ some a.id) × (row.previous_state ≡ some a.desired_state_json)

-- The tables hold the binding of a request, whose row is pending, without a reply, with the state that
-- was asked for, and with the predecessor.
pub record IsBound (req : DeployRequest) (deployment_id : String) (live : Option App)
    (b : CandidateBinding) (t : Tables) : Type 0 where
  pub written : select_binding req.app_name req.request_id t ≡ some b
  pub deployment : b.deployment_id ≡ deployment_id
  pub row : DeployRequest
  pub saved : select_request req.app_name req.request_id t ≡ some row
  pub is_pending_row : row.state ≡ pending
  pub unanswered : row.response_json ≡ none
  pub requested : row.requested_state ≡ req.requested_state
  pub predecessor : HoldsPrevious live row

row-IsBound :
    (env : Env) (req : DeployRequest) (deployment_id : String) (now : ℕ) (live : Option App)
    (b : CandidateBinding) (t : Tables)
    → (select_binding req.app_name req.request_id t ≡ some b)
      × (b.deployment_id ≡ deployment_id)
      × (select_request req.app_name req.request_id t ≡ some (candidate_row env req live now))
    → IsBound req deployment_id live b t
row-IsBound env req deployment_id now none b t (w, d, s) = record {
  written = w;
  deployment = d;
  row = candidate_row env req none now;
  saved = s;
  is_pending_row = refl;
  unanswered = refl;
  requested = refl;
  predecessor = (refl, refl);
}
row-IsBound env req deployment_id now (some a) b t (w, d, s) = record {
  written = w;
  deployment = d;
  row = candidate_row env req (some a) now;
  saved = s;
  is_pending_row = refl;
  unanswered = refl;
  requested = refl;
  predecessor = (refl, refl);
}

-- A call that answers with a new binding has written it: the binding names the deployment of the
-- call, and the request has a pending row, without a reply, with the state that was asked for, and with
-- its predecessor: the id and the desired state of the application that was live before the call, or
-- none.
pub begin_candidate-binds :
    (env : Env) (req : DeployRequest) (proposed deployment_id : String) (now : ℕ)
    (withdrawal : Bool) (b : CandidateBinding) (t : Tables)
    → (begin_candidate env req proposed deployment_id now withdrawal t).0 ≡ ok (b, true)
    → IsBound req deployment_id
        (select_live_app req.app_name t)
        b
        (begin_candidate env req proposed deployment_id now withdrawal t).1
unfolding begin_candidate begin_candidate_tx begin_binding
begin_candidate-binds env req proposed deployment_id now withdrawal b t h =
    let u = (begin_candidate env req proposed deployment_id now withdrawal t).1 in
    let z : CandidateBinding × Bool = (b, true) in
    let e0 = transact-ok (begin_candidate_tx env req proposed deployment_id now withdrawal) t z h in
    let (g1, e1) = guard-ok _ _ _ t u z e0 in
    let (c, ec, e2) = checked-ok _ _ t u z e1 in
    let e3 = read-ok (select_binding req.app_name req.request_id) _ t u z e2 in
    row-IsBound env req deployment_id now (select_live_app req.app_name t) b u
      (go c (select_binding req.app_name req.request_id t) e3)
  where
    go :
        (c : Config) (o : Option CandidateBinding)
        → begin_binding env req c proposed deployment_id now withdrawal o t
          ≡ ok ((b, true), (begin_candidate env req proposed deployment_id now withdrawal t).1)
        → (select_binding req.app_name req.request_id
              (begin_candidate env req proposed deployment_id now withdrawal t).1
            ≡ some b)
          × (b.deployment_id ≡ deployment_id)
          × (select_request req.app_name req.request_id
                (begin_candidate env req proposed deployment_id now withdrawal t).1
              ≡ some (candidate_row env req (select_live_app req.app_name t) now))
    go c none e =
        create_candidate-binds env req c proposed deployment_id now withdrawal b true t
          (begin_candidate env req proposed deployment_id now withdrawal t).1 e
    go c (some x) e = cc (
        saved_not_new req withdrawal now x (b, true) t
          (begin_candidate env req proposed deployment_id now withdrawal t).1 e)
