-- ===== src/Journal/Types.antt =====
-- The rows of the control plane's database that a tracked deployment touches (internal/domain,
-- internal/db/migrations). A NULL column is `none`; a time is a number, and 0 is Go's zero time.
use self_hosted_deployer.Common.{ℕ, String, Bool, Option, List, ℤ}

pub data RequestState : Type 0 where
  pending applied withdrawn : RequestState

-- `other` stands for a text that names no stage.
pub data Stage : Type 0 where
  prepared fenced activated recovering withdrawn other : Stage

pub data DeploymentStatus : Type 0 where
  pending healthy failed : DeploymentStatus

pub record App : Type 0 where
  pub id : String
  pub name : String
  pub image : String
  pub desired_state_json : String
  pub created_at : ℕ
  pub updated_at : ℕ
  pub deleted_at : Option ℕ

pub record Deployment : Type 0 where
  pub id : String
  pub app_id : String
  pub status : DeploymentStatus
  pub failure_reason : String
  pub created_at : ℕ
  pub updated_at : ℕ

pub record Route : Type 0 where
  pub id : String
  pub app_id : String
  pub domain : String
  pub target_port : ℤ
  pub status : String
  pub tls_enabled : Bool
  pub created_at : ℕ
  pub updated_at : ℕ

-- The columns of `deployment_requests`, which `domain.DeployRequest` reads.
pub record DeployRequest : Type 0 where
  pub app_name : String
  pub request_id : String
  pub state : RequestState
  pub requested_state : String
  pub previous_app_id : Option String
  pub previous_state : Option String
  pub report_withdrawal : Bool
  pub response_json : Option String
  pub created_at : ℕ
  pub updated_at : ℕ

pub record CandidateBinding : Type 0 where
  pub app_name : String
  pub request_id : String
  pub app_id : String
  pub deployment_id : String
  pub created_at : ℕ

pub record RuntimeCheckpoint : Type 0 where
  pub app_name : String
  pub request_id : String
  pub stage : Stage
  pub intent_json : String
  pub gate_json : String

pub record Withdrawal : Type 0 where
  pub app_name : String
  pub request_id : String
  pub requested_at : ℕ

pub record Tables : Type 0 where
  pub apps : List App
  pub deployments : List Deployment
  pub routes : List Route
  pub requests : List DeployRequest
  pub bindings : List CandidateBinding
  pub checkpoints : List RuntimeCheckpoint
  pub withdrawals : List Withdrawal

pub data JournalError : Type 0 where
  not_found constraint request_identity : JournalError
  checkpoint_identity checkpoint_terminal checkpoint_conflict checkpoint_transition : JournalError
  binding_conflict finalization_conflict invalid_state encoding : JournalError
