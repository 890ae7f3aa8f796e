-- ===== src/Journal/Laws/Binds.antt =====
-- `Bind` of internal/db/candidate_binding_repository.go leaves the requests and the checkpoints alone.
use self_hosted_deployer.Common.{ℕ, String, Option, none, some, List}
use self_hosted_deployer.AppConfig.Types.{Config}
use self_hosted_deployer.Journal.Types.{
  App, DeployRequest, CandidateBinding, RuntimeCheckpoint, Tables,
}
use self_hosted_deployer.Journal.Env.{Env}
use self_hosted_deployer.Journal.Keeps.{Keeps, transact_keeps}
use self_hosted_deployer.Journal.Bindings.Bind.{bind_app, bind_request, bind_with, bind_tx, bind}
use self_hosted_deployer.Journal.Laws.Writes.{OfJournal, frame_rules}

module _ (Q : List DeployRequest → List RuntimeCheckpoint → Type 0) where
  bind_app-Keeps :
      (app app_id : String) (r : DeployRequest) (c : Config) (now : ℕ) (row : Option App)
      → Keeps (OfJournal Q) (bind_app app app_id r c now row)
  unfolding bind_app
  bind_app-Keeps app app_id r c now none = search frame_rules depth 8
  bind_app-Keeps app app_id r c now (some row) = search frame_rules depth 8

  bind_request-Keeps :
      (env : Env) (app request_id app_id deployment_id : String) (now : ℕ) (r : DeployRequest)
      → Keeps (OfJournal Q) (bind_request env app request_id app_id deployment_id now r)
  unfolding bind_request
  bind_request-Keeps env app request_id app_id deployment_id now r =
      search (frame_rules, bind_app-Keeps) depth 24

  bind_with-Keeps :
      (env : Env) (app request_id app_id deployment_id : String) (now : ℕ)
      (o : Option CandidateBinding)
      → Keeps (OfJournal Q) (bind_with env app request_id app_id deployment_id now o)
  unfolding bind_with
  bind_with-Keeps env app request_id app_id deployment_id now none =
      search (frame_rules, bind_request-Keeps) depth 10
  bind_with-Keeps env app request_id app_id deployment_id now (some b) = search frame_rules depth 8

  pub bind_kept :
      (env : Env) (app request_id app_id deployment_id : String) (now : ℕ) (t : Tables)
      → OfJournal Q t
      → OfJournal Q (bind env app request_id app_id deployment_id now t).1
  unfolding bind bind_tx
  bind_kept env app request_id app_id deployment_id now t h =
      transact_keeps (OfJournal Q) (bind_tx env app request_id app_id deployment_id now) t
        (search (frame_rules, bind_with-Keeps) depth 12) h
