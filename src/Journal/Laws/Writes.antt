-- ===== src/Journal/Laws/Writes.antt =====
-- Which transactions of internal/db write which table: a property of one table is kept by every
-- transaction whose writes on that table keep it.
use self_hosted_deployer.Journal.Finalize.{
  upsert_route, delete_route, update_app, update_deployment,
}
use self_hosted_deployer.Common.{
  ℕ, String, Bool, true, false, List, [], ◌∷◌, ◌++◌, ◌≡◌, arith, update, ok,
}
use self_hosted_deployer.AppConfig.Types.{Config}
use self_hosted_deployer.Journal.Types.{
  RequestState, Stage, App, Deployment, Route, DeployRequest, CandidateBinding, RuntimeCheckpoint,
  Tables,
}
use self_hosted_deployer.Journal.Env.{Env}
use self_hosted_deployer.Journal.Transaction.{Tx, is_pending, ◌>>=◌, request_clashes}
use self_hosted_deployer.Journal.Keeps.{Keeps, keeps_rules}
use self_hosted_deployer.Journal.Requests.{settled}
use self_hosted_deployer.Journal.Checkpoints.{moved, valid_checkpoint_transition}
use self_hosted_deployer.Journal.Bindings.{
  insert_binding, insert_app, insert_deployment, insert_withdrawal, note_withdrawal,
  validate_candidate_domain_admission,
}

-- A property of the requests and the checkpoints.
unfoldable pub OfJournal : (List DeployRequest → List RuntimeCheckpoint → Type 0) → Tables → Type 0
OfJournal Q t = Q t.requests t.checkpoints

-- The property is kept when a pending request is inserted, when pending requests are settled, when
-- a prepared checkpoint is inserted, and when checkpoints move along a valid transition.
pub record KeptByWrites (Q : List DeployRequest → List RuntimeCheckpoint → Type 0) : Type 0 where
  pub insertion :
      (new : DeployRequest) (rows : List DeployRequest) (checkpoints : List RuntimeCheckpoint)
      → new.state ≡ RequestState.pending
      → request_clashes new rows ≡ false
      → Q rows checkpoints
      → Q (rows ++ new ∷ []) checkpoints
  pub settling :
      (p : DeployRequest → Bool) (state : RequestState) (response : String) (now : ℕ)
      (rows : List DeployRequest) (checkpoints : List RuntimeCheckpoint)
      → ((r : DeployRequest) → p r ≡ true → is_pending r.state ≡ true)
      → is_pending state ≡ false
      → Q rows checkpoints
      → Q (update p (settled state response now) rows) checkpoints
  pub saving :
      (new : RuntimeCheckpoint) (rows : List DeployRequest) (checkpoints : List RuntimeCheckpoint)
      → new.stage ≡ Stage.prepared
      → Q rows checkpoints
      → Q rows (checkpoints ++ new ∷ [])
  pub moving :
      (p : RuntimeCheckpoint → Bool) (wanted : Stage) (gate : String) (rows : List DeployRequest)
      (checkpoints : List RuntimeCheckpoint)
      → ((c : RuntimeCheckpoint) → p c ≡ true → valid_checkpoint_transition c.stage wanted ≡ true)
      → Q rows checkpoints
      → Q rows (update p (moved wanted gate) checkpoints)

module _ (Q : List DeployRequest → List RuntimeCheckpoint → Type 0) where
  pub frame {ℓ} :
      {A : Type ℓ} (m : Tx A)
      → ((t t' : Tables) (a : A)
          → m t ≡ ok (a, t')
          → (t'.requests ≡ t.requests) × (t'.checkpoints ≡ t.checkpoints))
      → Keeps (OfJournal Q) m
  unfolding OfJournal
  frame m same = record { at = λ t t' a e h. rw ((same t t' a e).0, (same t t' a e).1) h }

  pub insert_binding-Keeps : (b : CandidateBinding) → Keeps (OfJournal Q) (insert_binding b)
  unfolding insert_binding
  insert_binding-Keeps b = frame (insert_binding b) (λ t t' a e. (ground arith, ground arith))

  pub insert_app-Keeps : (a : App) → Keeps (OfJournal Q) (insert_app a)
  unfolding insert_app
  insert_app-Keeps x = frame (insert_app x) (λ t t' a e. (ground arith, ground arith))

  pub insert_deployment-Keeps :
      (id app : String) (now : ℕ) → Keeps (OfJournal Q) (insert_deployment id app now)
  unfolding insert_deployment
  insert_deployment-Keeps id app now =
      frame (insert_deployment id app now) (λ t t' a e. (ground arith, ground arith))

  pub insert_withdrawal-Keeps :
      (app request : String) (now : ℕ) → Keeps (OfJournal Q) (insert_withdrawal app request now)
  unfolding insert_withdrawal
  insert_withdrawal-Keeps app request now =
      frame (insert_withdrawal app request now) (λ t t' a e. (ground arith, ground arith))

  pub note_withdrawal-Keeps :
      (app request : String) (now : ℕ) → Keeps (OfJournal Q) (note_withdrawal app request now)
  unfolding note_withdrawal
  note_withdrawal-Keeps app request now =
      frame (note_withdrawal app request now) (λ t t' a e. (ground arith, ground arith))

  pub admission-Keeps :
      (env : Env) (app : String) (c : Config)
      → Keeps (OfJournal Q) (validate_candidate_domain_admission env app c)
  unfolding validate_candidate_domain_admission
  admission-Keeps env app c =
      frame (validate_candidate_domain_admission env app c)
        (λ t t' a e. (ground arith, ground arith))

  pub upsert_route-Keeps : (r : Route) → Keeps (OfJournal Q) (upsert_route r)
  unfolding upsert_route
  upsert_route-Keeps r = frame (upsert_route r) (λ t t' a e. (ground arith, ground arith))

  pub delete_route-Keeps : (app_id : String) → Keeps (OfJournal Q) (delete_route app_id)
  unfolding delete_route ◌>>=◌
  delete_route-Keeps app_id = frame (delete_route app_id) (λ t t' a e. (ground arith, ground arith))

  pub update_app-Keeps : (x : App) → Keeps (OfJournal Q) (update_app x)
  unfolding update_app
  update_app-Keeps x = frame (update_app x) (λ t t' a e. (ground arith, ground arith))

  pub update_deployment-Keeps : (d : Deployment) → Keeps (OfJournal Q) (update_deployment d)
  unfolding update_deployment
  update_deployment-Keeps d = frame (update_deployment d) (λ t t' a e. (ground arith, ground arith))

pub ruleset frame_rules = (
  keeps_rules, insert_binding-Keeps, insert_app-Keeps, insert_deployment-Keeps,
  insert_withdrawal-Keeps, note_withdrawal-Keeps, admission-Keeps, upsert_route-Keeps,
  delete_route-Keeps, update_app-Keeps, update_deployment-Keeps,
)
