-- ===== src/Operation/Recovery.antt =====
-- `RestoreCandidateTraffic` of internal/server/candidate_recovery.go.
use self_hosted_deployer.Common.{
  String, Bool, true, false, Option, none, some, ◌==◌, not, ◌&&◌, ◌||◌, ◌≡◌, ltb, length, [],
  is_empty, valid_revision, if◌then◌else◌,
}
use self_hosted_deployer.Journal.Types.{
  Stage, prepared, fenced, activated, recovering, withdrawn, DeployRequest, RuntimeCheckpoint,
}
use self_hosted_deployer.Journal.Transaction.{is_pending}
use self_hosted_deployer.Operation.Types.{
  ActivationGate, ActivationTarget, CandidateIntent, request_unavailable, checkpoint_unavailable,
  recovery_ambiguous, gate_unrecorded, capture_failed, fence_failed, replace_failed, captured,
  mark_called, recovery_fenced, restore_called, record_called, Found, row, missing, failed, World,
  Run, done, stop, call, check, need,
}
use self_hosted_deployer.Operation.Advance.{valid_initial_capture, valid_saved_gate}

-- The rest of what a recovery asks: the digest that names it, its JSON, the replacement of the
-- target, and `apiequality.Semantic.DeepEqual`, for which a target without labels and ports is none
-- with some.
pub record RecoveryWorld : Type 0 where
  pub recovery_id : String → String → String
  pub encode_recovery : String → String
  pub decode_recovery : String → Option String
  pub replace : ActivationGate → ActivationTarget → Option ActivationGate
  pub same_target : ActivationTarget → ActivationTarget → Bool
  pub empty_differs :
      (target : ActivationTarget)
      → ltb 0 (length target.selector) ≡ true
      → same_target (record { selector = []; ports = [] }) target ≡ false

-- validSavedGate without the operation
abbrev pub keeps_identity : ActivationGate → ActivationGate → String → Bool
keeps_identity gate initial app =
    gate.app == app
    && not (is_empty gate.namespace)
    && not (is_empty gate.uid)
    && not (is_empty gate.resource_version)
    && gate.uid == initial.uid
    && gate.namespace == initial.namespace

-- The zero value of an ActivationTarget.
abbrev pub no_target : ActivationTarget
no_target = record { selector = []; ports = [] }

module _ (w : World) (r : RecoveryWorld) (app request_id : String) where
  open w use {
    decode_intent, encode_gate, decode_gate, find_request, find_checkpoint, record_gate, capture,
    fence,
  }
  open r use {recovery_id, encode_recovery, decode_recovery, replace, same_target}

  abbrev pub id : String
  id = recovery_id app request_id

  -- The record of the gate, at the end.
  unfoldable pub close_recovery : ActivationGate → Run ActivationGate
  unfolding call check need done
  close_recovery gate = need (encode_gate gate) gate_unrecorded λ text.
      call (record_called recovering withdrawn gate)
        (check (record_gate app request_id recovering withdrawn text) gate_unrecorded (done gate))

  -- The replacement of the target, where it is not the predecessor's.
  unfoldable pub restore_target :
      CandidateIntent → ActivationGate → ActivationTarget → Run ActivationGate
  unfolding close_recovery
  restore_target intent gate target =
      if same_target target intent.predecessor_target
      then close_recovery gate
      else call (restore_called gate intent.predecessor_target) (
          need (replace gate intent.predecessor_target) replace_failed λ restored.
            check (valid_saved_gate restored intent.initial_gate app id) recovery_ambiguous
              (close_recovery restored))

  -- The fence, unless the recovery has it already.
  unfoldable pub own_gate : CandidateIntent → ActivationGate → ActivationTarget → Run ActivationGate
  unfolding restore_target
  own_gate intent gate target =
      if gate.operation_id == id
      then restore_target intent gate target
      else call (recovery_fenced gate) (
          need (fence gate id) fence_failed λ owned.
            check (valid_saved_gate owned intent.initial_gate app id) recovery_ambiguous
              (restore_target intent owned no_target))

  -- Behind the recorded recovery.
  unfoldable pub restore_traffic : CandidateIntent → Run ActivationGate
  unfolding own_gate
  restore_traffic intent = call captured (
      need (capture app) capture_failed λ (gate, target).
        check (keeps_identity gate intent.initial_gate app) recovery_ambiguous (
          check
            (gate.operation_id == intent.initial_gate.operation_id
              || gate.operation_id == request_id
              || gate.operation_id == id)
            recovery_ambiguous (own_gate intent gate target)))

  abbrev pub is_recovery : String → Bool
  is_recovery text = elim (decode_recovery text) [
    | none ↦ false
    | some other ↦ text == encode_recovery id && other == id
  ]

  -- The recovery is recorded before anything in the cluster changes.
  abbrev pub mark : RuntimeCheckpoint → CandidateIntent → Run ActivationGate
  mark checkpoint intent = call (mark_called checkpoint.stage) (
      check (record_gate app request_id checkpoint.stage recovering (encode_recovery id))
        gate_unrecorded (restore_traffic intent))

  -- The switch on the stage.
  unfoldable pub recover_at : Stage → RuntimeCheckpoint → CandidateIntent → Run ActivationGate
  unfolding restore_traffic
  recover_at prepared checkpoint intent = mark checkpoint intent
  recover_at fenced checkpoint intent = mark checkpoint intent
  recover_at activated checkpoint intent = mark checkpoint intent
  recover_at recovering checkpoint intent =
      check (is_recovery checkpoint.gate_json) recovery_ambiguous (restore_traffic intent)
  recover_at withdrawn checkpoint intent =
      need (decode_gate checkpoint.gate_json) recovery_ambiguous λ gate.
        check (valid_saved_gate gate intent.initial_gate app id) recovery_ambiguous (done gate)
  recover_at Stage.other checkpoint intent = stop recovery_ambiguous

  abbrev pub is_intended : CandidateIntent → DeployRequest → Bool
  is_intended intent request =
      intent.app_name == app
      && intent.request_id == request_id
      && intent.requested_state == request.requested_state
      && valid_initial_capture intent.initial_gate intent.predecessor_target app

  unfoldable pub recover_checkpoint : DeployRequest → RuntimeCheckpoint → Run ActivationGate
  unfolding recover_at
  recover_checkpoint request checkpoint =
      check (checkpoint.app_name == app && checkpoint.request_id == request_id) recovery_ambiguous (
        need (decode_intent checkpoint.intent_json) recovery_ambiguous λ intent.
          check (is_intended intent request) recovery_ambiguous (
            check (not (id == request_id || id == intent.initial_gate.operation_id))
              recovery_ambiguous (recover_at checkpoint.stage checkpoint intent)))

  abbrev pub recover_found : DeployRequest → Found → Run ActivationGate
  recover_found request missing = stop checkpoint_unavailable
  recover_found request failed = stop checkpoint_unavailable
  recover_found request (row checkpoint) = recover_checkpoint request checkpoint

  -- RestoreCandidateTraffic
  unfoldable pub restore_candidate_traffic : Run ActivationGate
  unfolding recover_checkpoint
  restore_candidate_traffic =
      check (not (is_empty app) && valid_revision request_id) recovery_ambiguous (
        need (find_request app request_id) request_unavailable λ request.
          check
            (request.app_name == app
              && request.request_id == request_id
              && is_pending request.state)
            recovery_ambiguous (recover_found request (find_checkpoint app request_id)))
