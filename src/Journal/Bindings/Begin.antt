-- ===== src/Journal/Bindings/Begin.antt =====
-- `Begin`, `BeginWithdrawal` and `Find` of internal/db/candidate_binding_repository.go.
use self_hosted_deployer.Common.{
  ℕ, String, Bool, true, false, Option, none, some, [], ◌∷◌, ◌++◌, ◌==◌, not, ◌&&◌, ◌||◌, any,
  nat_eq, is_empty, trim_space, valid_revision, if◌then◌else◌, Result, ok, err,
}
use self_hosted_deployer.AppConfig.Types.{Config}
use self_hosted_deployer.Journal.Types.{
  App, DeployRequest, CandidateBinding, Tables, JournalError, binding_conflict,
}
use self_hosted_deployer.Journal.Env.{Env}
use self_hosted_deployer.Journal.Transaction.{
  Tx, ◌>>=◌, ◌>>◌, pure, gets, or_missing, lift, when_tx, transact, refuse_tx, is_request,
  is_pending_of, request_clashes,
}
use self_hosted_deployer.Journal.Requests.{
  same_flag, select_request, select_live_app, with_previous, pending_row,
}
use self_hosted_deployer.Journal.Bindings.{
  select_binding, select_app, is_deleted, insert_binding, insert_app, insert_deployment,
  insert_withdrawal, note_withdrawal, validate_candidate_deploy_request,
  validate_candidate_domain_admission, check_predecessor,
}

-- The identities of a call.
unfoldable pub bad_identity : String → String → String → String → ℕ → Bool
bad_identity app request app_id deployment_id now =
    is_empty (trim_space app)
    || not (valid_revision request)
    || is_empty (trim_space app_id)
    || is_empty (trim_space deployment_id)
    || nat_eq now 0

-- A repeated call: the saved request has to ask for the same. A withdrawal is noted while the
-- request is pending.
unfoldable pub saved_binding :
    DeployRequest → Bool → ℕ → CandidateBinding → Tx (CandidateBinding × Bool)
saved_binding req withdrawal now binding = do
  row ← gets (select_request req.app_name req.request_id)
  saved ← or_missing row
  refuse_tx
      (not (saved.requested_state == req.requested_state)
        || not (same_flag saved.report_withdrawal req.report_withdrawal))
      binding_conflict
  when_tx withdrawal (note_withdrawal req.app_name req.request_id now)
  pure (binding, false)

abbrev pub id_of : Option App → String
id_of none = ""
id_of (some app) = app.id

abbrev pub state_of : Option App → String
state_of none = ""
state_of (some app) = app.desired_state_json

-- The live row and the row of the name disagree.
abbrev pub rows_disagree : Option App → Option App → Bool
rows_disagree none none = false
rows_disagree none (some row) = not (is_empty row.id) && not (is_deleted row)
rows_disagree (some live) row =
    not (id_of row == live.id)
    || elim row [ none ↦ false | some r ↦ is_deleted r ]
    || not (state_of row == live.desired_state_json)

-- INSERT INTO deployment_requests, every failure of which is a conflict.
unfoldable pub insert_candidate_request : DeployRequest → Tx (Unit {0})
insert_candidate_request row t =
    if request_clashes row t.requests
    then err binding_conflict
    else ok (tt, record t { requests = t.requests ++ row ∷ [] })

-- The application of the candidate: an existing row keeps its identity, and a new row is provisional,
-- with its deletion time set.
unfoldable pub adopt_app : DeployRequest → Config → String → ℕ → Option App → Option App → Tx String
unfolding insert_app
adopt_app req c proposed now row live =
    if not (is_empty (id_of row)) then pure (id_of row) else elim live [
      | some app ↦ pure app.id
      | none ↦
          insert_app (record {
            id = proposed;
            name = req.app_name;
            image = c.image;
            desired_state_json = req.requested_state;
            created_at = now;
            updated_at = now;
            deleted_at = some now;
          })
          >> pure proposed
    ]

module _ (env : Env) where
  -- The row of a candidate request.
  abbrev pub candidate_row : DeployRequest → Option App → ℕ → DeployRequest
  candidate_row req live now = record (pending_row (with_previous req live)) {
    created_at = now;
    updated_at = now;
  }

  -- What is checked before the first write.
  unfoldable pub admit_candidate :
      DeployRequest → Config → Bool → Option App → Option App → Tx (Unit {0})
  admit_candidate req c withdrawal row live = do
    refuse_tx (rows_disagree live row) binding_conflict
    when_tx (not withdrawal) (validate_candidate_domain_admission env req.app_name c)
    lift (check_predecessor env row req.app_name (id_of live) (state_of live) c withdrawal)

  unfoldable pub create_candidate :
      DeployRequest → Config → String → String → ℕ → Bool → Tx (CandidateBinding × Bool)
  create_candidate req c proposed deployment_id now withdrawal = do
    busy ← gets λ t. any (is_pending_of req.app_name) t.requests
    refuse_tx busy binding_conflict
    known ← gets λ t. any (is_request req.app_name req.request_id) t.requests
    refuse_tx known binding_conflict
    live ← gets (select_live_app req.app_name)
    row ← gets (select_app req.app_name)
    admit_candidate req c withdrawal row live
    insert_candidate_request (candidate_row req live now)
    actual ← adopt_app req c proposed now row live
    insert_deployment deployment_id actual now
    insert_binding (record {
      app_name = req.app_name;
      request_id = req.request_id;
      app_id = actual;
      deployment_id = deployment_id;
      created_at = now;
    })
    when_tx withdrawal (insert_withdrawal req.app_name req.request_id now)
    pure (
      record {
        app_name = req.app_name;
        request_id = req.request_id;
        app_id = actual;
        deployment_id = deployment_id;
        created_at = now;
      },
      true,
    )

  unfoldable pub begin_binding :
      DeployRequest
      → Config
      → String
      → String
      → ℕ
      → Bool
      → Option CandidateBinding
      → Tx (CandidateBinding × Bool)
  begin_binding req c proposed deployment_id now withdrawal (some binding) =
      saved_binding req withdrawal now binding
  begin_binding req c proposed deployment_id now withdrawal none =
      create_candidate req c proposed deployment_id now withdrawal

  unfoldable pub begin_candidate_tx :
      DeployRequest → String → String → ℕ → Bool → Tx (CandidateBinding × Bool)
  unfolding bad_identity
  begin_candidate_tx req proposed deployment_id now withdrawal = do
    refuse_tx (bad_identity req.app_name req.request_id proposed deployment_id now) binding_conflict
    c ← lift (validate_candidate_deploy_request env req)
    existing ← gets (select_binding req.app_name req.request_id)
    begin_binding req c proposed deployment_id now withdrawal existing

  unfoldable pub begin_candidate :
      DeployRequest
      → String
      → String
      → ℕ
      → Bool
      → Tables
      → Result JournalError (CandidateBinding × Bool) × Tables
  unfolding begin_candidate_tx
  begin_candidate req proposed deployment_id now withdrawal =
      transact (begin_candidate_tx req proposed deployment_id now withdrawal)

  unfoldable pub find_binding_tx : String → String → Tx CandidateBinding
  find_binding_tx app request = do
    refuse_tx (is_empty (trim_space app) || not (valid_revision request)) binding_conflict
    row ← gets (select_binding app request)
    or_missing row

  unfoldable pub find_binding :
      String → String → Tables → Result JournalError CandidateBinding × Tables
  unfolding find_binding_tx
  find_binding app request = transact (find_binding_tx app request)
