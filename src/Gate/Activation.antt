-- ===== src/Gate/Activation.antt =====
-- internal/ingress/activation.go, and `requireAppResourceOwnership` of internal/ingress/ownership.go.
use self_hosted_deployer.Common.{
  String, Bool, false, [], ◌∷◌, not, ◌==◌, ◌&&◌, ◌||◌, is_empty, valid_revision, length, nat_eq,
  if◌then◌else◌, Result, ok, err,
}
use self_hosted_deployer.AppConfig.Types.{Selector}
use self_hosted_deployer.AppConfig.Validate.Storage.{selector_value}
use self_hosted_deployer.Operation.Types.{ActivationGate, ActivationTarget}
use self_hosted_deployer.Cluster.Types.{Reply, got, absent, broken}
use self_hosted_deployer.Gate.Service.{
  Service, UpdateReply, updated, conflict, update_failed, ServiceServer,
}

pub data GateError : Type 0 where
  superseded api_failed foreign_service no_identity operation_required invalid_target : GateError

abbrev pub has_key : String → Selector → Bool
has_key key [] = false
has_key key ((k, v) ∷ ls) = k == key || has_key key ls

-- requireAppResourceOwnership
unfoldable pub is_owned : String → Selector → Bool
unfolding selector_value
is_owned app labels =
    selector_value "deployer.io/app" labels == app
    && (not (has_key "app.kubernetes.io/managed-by" labels)
        || selector_value "app.kubernetes.io/managed-by" labels == "deployer")

-- activationGateFor
unfoldable pub gate_for : Service → ActivationGate
unfolding selector_value
gate_for s = record {
  app = s.name;
  namespace = s.namespace;
  uid = s.uid;
  resource_version = s.resource_version;
  operation_id = selector_value "deployer.io/activation-operation" s.annotations;
}

abbrev pub gate_eq : ActivationGate → ActivationGate → Bool
gate_eq a b =
    a.app == b.app
    && a.namespace == b.namespace
    && a.uid == b.uid
    && a.resource_version == b.resource_version
    && a.operation_id == b.operation_id

-- annotations[key] = value
unfoldable pub set_annotation : String → String → Selector → Selector
set_annotation key value [] = (key, value) ∷ []
set_annotation key value ((k, v) ∷ ls) =
    let rest = set_annotation key value ls in if k == key then (key, value) ∷ ls else (k, v) ∷ rest

abbrev pub with_operation : String → Service → Service
with_operation operation service = record service {
  annotations = set_annotation "deployer.io/activation-operation" operation service.annotations;
}

abbrev pub with_target : ActivationTarget → Service → Service
with_target target service = record service { selector = target.selector; ports = target.ports }

module _ (server : ServiceServer) (namespace : String) where
  open server use {State, get, update}

  -- What a call answers with, and the state that it leaves.
  abbrev pub Answer : Type 0 → Type 0
  Answer A = Result GateError A × State

  abbrev pub capture_found :
      String → Reply Service → Result GateError (ActivationGate × ActivationTarget)
  capture_found app absent = err api_failed
  capture_found app broken = err api_failed
  capture_found app (got service) =
      if not (is_owned app service.labels)
      then err foreign_service
      else if is_empty service.uid || is_empty service.resource_version
      then err no_identity
      else ok (gate_for service, record { selector = service.selector; ports = service.ports })

  -- CaptureActivationGate
  unfoldable pub capture_activation_gate :
      State → String → Result GateError (ActivationGate × ActivationTarget)
  unfolding is_owned gate_for
  capture_activation_gate s app = capture_found app (get s app)

  abbrev pub found_at_gate : ActivationGate → Reply Service → Result GateError Service
  found_at_gate gate absent = err superseded
  found_at_gate gate broken = err api_failed
  found_at_gate gate (got service) =
      if not (is_owned gate.app service.labels)
      then err foreign_service
      else if not (gate_eq (gate_for service) gate)
      then err superseded
      else ok service

  -- serviceAtGate
  unfoldable pub service_at_gate : State → ActivationGate → Result GateError Service
  unfolding is_owned gate_for
  service_at_gate s gate =
      if is_empty gate.app
        || not (gate.namespace == namespace)
        || is_empty gate.uid
        || is_empty gate.resource_version
      then err superseded
      else found_at_gate gate (get s gate.app)

  abbrev pub answer_update : UpdateReply × State → Answer ActivationGate
  answer_update (updated u, s) = (ok (gate_for u), s)
  answer_update (conflict, s) = (err superseded, s)
  answer_update (update_failed, s) = (err api_failed, s)

  -- updateActivationGate
  unfoldable pub update_activation_gate : State → Service → Answer ActivationGate
  unfolding gate_for
  update_activation_gate s service = answer_update (update s service)

  -- The service at the gate, changed and sent back.
  abbrev pub update_at_gate :
      State → (Service → Service) → Result GateError Service → Answer ActivationGate
  update_at_gate s change (err e) = (err e, s)
  update_at_gate s change (ok service) = update_activation_gate s (change service)

  -- FenceActivationGate, which reads in one state and writes in another: others may write between.
  unfoldable pub fence_activation_gate :
      (read write : State) → ActivationGate → String → Answer ActivationGate
  unfolding service_at_gate update_activation_gate set_annotation
  fence_activation_gate read write gate operation =
      if not (valid_revision operation) || operation == gate.operation_id
      then (err operation_required, write)
      else update_at_gate write (with_operation operation) (service_at_gate read gate)

  -- ReplaceActivationTarget, in two states as well
  unfoldable pub replace_activation_target :
      (read write : State) → ActivationGate → ActivationTarget → Answer ActivationGate
  unfolding service_at_gate update_activation_gate
  replace_activation_target read write gate target =
      if not (valid_revision gate.operation_id)
        || nat_eq (length target.selector) 0
        || nat_eq (length target.ports) 0
      then (err invalid_target, write)
      else update_at_gate write (with_target target) (service_at_gate read gate)
