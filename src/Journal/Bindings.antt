-- ===== src/Journal/Bindings.antt =====
-- internal/db/candidate_binding_repository.go: a candidate request with its application and its
-- deployment.
pub mod Begin
pub mod Bind
use self_hosted_deployer.Common.{
  ℕ, String, Bool, true, false, Option, none, some, List, [], ◌∷◌, ◌++◌, ◌==◌, not, ◌&&◌, ◌||◌, any,
  nat_eq, length, is_empty, trim_space, valid_revision, eq_int, find?, if◌then◌else◌, Result, ok,
  err,
}
use self_hosted_deployer.AppConfig.Types.{Config}
use self_hosted_deployer.AppConfig.Parse.{from_json}
use self_hosted_deployer.AppConfig.Validate.{validate, is_hosted}
use self_hosted_deployer.Journal.Types.{
  pending, DeploymentStatus, App, Deployment, Route, DeployRequest, CandidateBinding, Withdrawal,
  Tables, JournalError, not_found, constraint, binding_conflict,
}
use self_hosted_deployer.Journal.Env.{Env}
use self_hosted_deployer.Journal.Transaction.{
  Tx, ◌>>=◌, ◌>>◌, pure, fail, gets, or_missing, transact, refuse_tx, modify, is_pending,
  is_request, is_pending_of, request_clashes,
}
use self_hosted_deployer.Journal.Requests.{
  same_flag, select_request, select_live_app, is_binding, with_previous,
}

abbrev pub select_binding : String → String → Tables → Option CandidateBinding
select_binding app request t = find? (is_binding app request) t.bindings

-- SELECT ... FROM apps WHERE name = ?
abbrev pub select_app : String → Tables → Option App
select_app name t = find? (λ a. a.name == name) t.apps

abbrev pub is_deleted : App → Bool
is_deleted app = elim app.deleted_at [ none ↦ false | some _ ↦ true ]

abbrev pub is_withdrawal : String → String → Withdrawal → Bool
is_withdrawal app request w = w.app_name == app && w.request_id == request

abbrev pub text_or_empty : Option String → String
text_or_empty none = ""
text_or_empty (some s) = s

abbrev pub is_ok {ℓ κ} : {E : Type ℓ} {A : Type κ} → Result E A → Bool
is_ok (ok _) = true
is_ok (err _) = false

-- INSERT INTO candidate_request_bindings, with its primary key.
unfoldable pub insert_binding : CandidateBinding → Tx (Unit {0})
insert_binding b t =
    if any (is_binding b.app_name b.request_id) t.bindings
    then err constraint
    else ok (tt, record t { bindings = t.bindings ++ b ∷ [] })

-- INSERT INTO apps, with its primary key and its unique name.
unfoldable pub insert_app : App → Tx (Unit {0})
insert_app app t =
    if any (λ a. a.id == app.id || a.name == app.name) t.apps
    then err constraint
    else ok (tt, record t { apps = t.apps ++ app ∷ [] })

-- INSERT INTO deployments of a pending deployment.
unfoldable pub insert_deployment : String → String → ℕ → Tx (Unit {0})
insert_deployment id app_id now t =
    if any (λ d. d.id == id) t.deployments
    then err constraint
    else ok (
      tt,
      record t {
        deployments =
            t.deployments
            ++ record {
              id = id;
              app_id = app_id;
              status = DeploymentStatus.pending;
              failure_reason = "";
              created_at = now;
              updated_at = now;
            }
              ∷ [];
      },
    )

-- INSERT INTO deployment_request_withdrawals, with its primary key.
unfoldable pub insert_withdrawal : String → String → ℕ → Tx (Unit {0})
insert_withdrawal app request now t =
    if any (is_withdrawal app request) t.withdrawals
    then err constraint
    else ok (
      tt,
      record t {
        withdrawals =
            t.withdrawals
            ++ record { app_name = app; request_id = request; requested_at = now } ∷ [];
      },
    )

-- INSERT ... SELECT ... WHERE state = 'pending' ON CONFLICT DO NOTHING
unfoldable pub note_withdrawal : String → String → ℕ → Tx (Unit {0})
note_withdrawal app request now t =
    if any (λ r. is_request app request r && is_pending r.state) t.requests
      && not (any (is_withdrawal app request) t.withdrawals)
    then ok (
      tt,
      record t {
        withdrawals =
            t.withdrawals
            ++ record { app_name = app; request_id = request; requested_at = now } ∷ [];
      },
    )
    else ok (tt, t)

unfoldable pub withdrawal_requested : String → String → Tables → Bool
withdrawal_requested app request t = any (is_withdrawal app request) t.withdrawals

-- Another application has the domain by a route.
unfoldable pub routed_elsewhere : String → String → Tables → Bool
routed_elsewhere app domain t =
    any (λ r. r.domain == domain && any (λ a. a.id == r.app_id && not (a.name == app)) t.apps)
      t.routes

module _ (env : Env) where
  open env use {externals, codec}

  -- A canonical text: it decodes, and encodes back to itself.
  abbrev pub is_canonical : String → Config → Bool
  is_canonical text c = elim (codec.marshal c) [ none ↦ false | some canonical ↦ canonical == text ]

  -- validateCandidateDeployRequest
  abbrev pub check_deploy_request : DeployRequest → Option Config → Result JournalError Config
  check_deploy_request req none = err binding_conflict
  check_deploy_request req (some c) =
      if not (is_canonical req.requested_state c)
        || not (c.name == req.app_name)
        || not (is_hosted c.hosting)
        || not (c.state.mode == "stateless")
        || not (nat_eq (length c.secrets) 0)
        || not (is_ok (validate externals c))
      then err binding_conflict
      else ok c

  unfoldable pub validate_candidate_deploy_request : DeployRequest → Result JournalError Config
  validate_candidate_deploy_request req =
      check_deploy_request req (from_json codec req.requested_state)

  -- Another application's pending candidate wants the domain, or its state does not decode.
  abbrev pub claims_domain : String → DeployRequest → Bool
  claims_domain domain r = elim (from_json codec r.requested_state) [
    | none ↦ true
    | some other ↦ other.routing.domain == domain
  ]

  unfoldable pub pending_elsewhere : String → String → Tables → Bool
  pending_elsewhere app domain t =
      any (λ r. is_pending r.state && not (r.app_name == app) && claims_domain domain r) t.requests

  -- validateCandidateDomainAdmission
  unfoldable pub validate_candidate_domain_admission : String → Config → Tx (Unit {0})
  unfolding routed_elsewhere pending_elsewhere
  validate_candidate_domain_admission app c t =
      if is_empty c.routing.domain
      then ok (tt, t)
      else if routed_elsewhere app c.routing.domain t || pending_elsewhere app c.routing.domain t
      then err binding_conflict
      else ok (tt, t)

  -- The predecessor's configuration.
  abbrev pub bad_predecessor : String → Config → Bool → String → Option Config → Bool
  bad_predecessor app candidate withdrawal state none = true
  bad_predecessor app candidate withdrawal state (some p) =
      not (is_canonical state p)
      || not (p.name == app)
      || not (is_hosted p.hosting)
      || not (p.state.mode == "stateless")
      || not withdrawal && not (eq_int p.service.port candidate.service.port)
      || not (is_ok (validate externals p))

  -- validateCandidatePredecessor, from the row of the application.
  unfoldable pub check_predecessor :
      Option App → String → String → String → Config → Bool → Result JournalError (Unit {0})
  check_predecessor none app previous_id previous_state candidate withdrawal =
      if is_empty previous_id then ok tt else err binding_conflict
  check_predecessor (some row) app previous_id previous_state candidate withdrawal =
      if is_empty previous_id
      then (if is_deleted row then ok tt else err binding_conflict)
      else if is_deleted row
          || not (row.id == previous_id)
          || not (row.desired_state_json == previous_state)
          || bad_predecessor app candidate withdrawal row.desired_state_json
              (from_json codec row.desired_state_json)
      then err binding_conflict
      else ok tt
