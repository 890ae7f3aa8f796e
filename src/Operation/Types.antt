-- ===== src/Operation/Types.antt =====
-- What internal/server/candidate_operation.go works on: gates, intents, the calls that it makes, and
-- the parties that answer them.
use self_hosted_deployer.Common.{
  ℤ, String, Bool, true, false, Option, none, some, List, [], ◌∷◌, Result, ok, err,
}
use self_hosted_deployer.AppConfig.Types.{Config, Selector}
use self_hosted_deployer.Journal.Types.{Stage, DeployRequest, RuntimeCheckpoint}

-- ingress.ActivationGate
pub record ActivationGate : Type 0 where
  pub app : String
  pub namespace : String
  pub uid : String
  pub resource_version : String
  pub operation_id : String

-- intstr.IntOrString
pub data TargetPort : Type 0 where
  by_number : ℤ → TargetPort
  by_name : String → TargetPort

-- corev1.ServicePort
pub record ServicePort : Type 0 where
  pub name : String
  pub protocol : String
  pub app_protocol : Option String
  pub port : ℤ
  pub target_port : TargetPort
  pub node_port : ℤ

-- ingress.ActivationTarget
pub record ActivationTarget : Type 0 where
  pub selector : Selector
  pub ports : List ServicePort

-- candidateOperationIntent
pub record CandidateIntent : Type 0 where
  pub app_name : String
  pub request_id : String
  pub requested_state : String
  pub secret_revision : String
  pub registry_secret : String
  pub initial_gate : ActivationGate
  pub predecessor_target : ActivationTarget

pub data OperationError : Type 0 where
  identity_invalid configuration_invalid not_hosted_stateless references_invalid : OperationError
  not_canonical request_unavailable not_pending checkpoint_unavailable : OperationError
  checkpoint_identity intent_ambiguous gate_invalid manual_recovery stage_ambiguous : OperationError
  capture_failed capture_invalid intent_unrecorded fence_failed : OperationError
  gate_unrecorded prepare_failed activate_failed : OperationError
  recovery_ambiguous replace_failed : OperationError

-- The calls that change the cluster or the journal, and the capture that reads it, as they are made,
-- whatever answers them.
pub data Event : Type 0 where
  captured : Event
  save_called : String → Event
  fence_called : ActivationGate → Event
  record_called : (expected next : Stage) → ActivationGate → Event
  prepare_called : Event
  activate_called : ActivationGate → Event
  mark_called : (expected : Stage) → Event
  recovery_fenced : ActivationGate → Event
  restore_called : ActivationGate → ActivationTarget → Event

-- A query of the checkpoint: the row, ErrNotFound, or another error.
pub data Found : Type 0 where
  row : RuntimeCheckpoint → Found
  missing : Found
  failed : Found

-- The configuration and the references of one call.
pub record Order : Type 0 where
  pub app_name : String
  pub request_id : String
  pub config : Config
  pub secret_revision : String
  pub registry_secret : String

-- The runtime, the two repositories and the JSON library, as they answer during one call; `none` and
-- `false` stand for an error.
pub record World : Type 0 where
  pub valid_config : Config → Bool
  pub valid_references : Config → String → String → Bool
  pub canonical_config : Config → Option String
  pub encode_intent : CandidateIntent → Option String
  pub decode_intent : String → Option CandidateIntent
  pub encode_gate : ActivationGate → Option String
  pub decode_gate : String → Option ActivationGate
  pub find_request : String → String → Option DeployRequest
  pub find_checkpoint : String → String → Found
  pub save_intent : String → String → String → Bool
  pub record_gate : String → String → Stage → Stage → String → Bool
  pub capture : String → Option (ActivationGate × ActivationTarget)
  pub fence : ActivationGate → String → Option ActivationGate
  pub prepare : Config → String → String → String → Bool
  pub activate : ActivationGate → Config → String → String → String → Option ActivationGate

-- A run: the calls that it has made, in their order, and its result.
abbrev pub Run : Type 0 → Type 0
Run A = List Event × Result OperationError A

module _ {A : Type 0} where
  unfoldable pub done : A → Run A
  done a = ([], ok a)

  unfoldable pub stop : OperationError → Run A
  stop e = ([], err e)

  -- One call, and the rest.
  unfoldable pub call : Event → Run A → Run A
  call event rest = (event ∷ rest.0, rest.1)

  unfoldable pub check : Bool → OperationError → Run A → Run A
  unfolding stop
  check true e rest = rest
  check false e rest = stop e

module _ {A B : Type 0} where
  unfoldable pub need : Option A → OperationError → (A → Run B) → Run B
  unfolding stop
  need none e f = stop e
  need (some a) e f = f a
