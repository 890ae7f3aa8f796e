-- ===== src/Operation/Advance.antt =====
-- `AdvanceCandidateOperation` and `startCandidateOperation` of internal/server/candidate_operation.go.
use self_hosted_deployer.Common.{
  String, Bool, ◌==◌, not, ◌&&◌, ltb, length, is_empty, valid_revision,
}
use self_hosted_deployer.AppConfig.Validate.{is_hosted}
use self_hosted_deployer.Journal.Types.{
  Stage, prepared, fenced, activated, DeployRequest, RuntimeCheckpoint,
}
use self_hosted_deployer.Journal.Transaction.{is_pending}
use self_hosted_deployer.Operation.Types.{
  ActivationGate, ActivationTarget, CandidateIntent, identity_invalid, configuration_invalid,
  not_hosted_stateless, references_invalid, not_canonical, request_unavailable, not_pending,
  checkpoint_unavailable, checkpoint_identity, intent_ambiguous, gate_invalid, manual_recovery,
  stage_ambiguous, capture_failed, capture_invalid, intent_unrecorded, fence_failed,
  gate_unrecorded, prepare_failed, activate_failed, captured, save_called, fence_called,
  record_called, prepare_called, activate_called, Found, row, missing, failed, Order, World, Run,
  done, stop, call, check, need,
}

-- validInitialCapture
abbrev pub valid_initial_capture : ActivationGate → ActivationTarget → String → Bool
valid_initial_capture gate target app =
    gate.app == app
    && not (is_empty gate.namespace)
    && not (is_empty gate.uid)
    && not (is_empty gate.resource_version)
    && ltb 0 (length target.selector)
    && ltb 0 (length target.ports)

-- validSavedGate, whose callers all require the operation
abbrev pub valid_saved_gate : ActivationGate → ActivationGate → String → String → Bool
valid_saved_gate gate initial app request =
    gate.app == app
    && not (is_empty gate.namespace)
    && not (is_empty gate.uid)
    && not (is_empty gate.resource_version)
    && gate.uid == initial.uid
    && gate.namespace == initial.namespace
    && gate.operation_id == request

-- intentMatches
abbrev pub intent_matches : CandidateIntent → String → String → String → String → String → Bool
intent_matches intent app request state revision secret =
    intent.app_name == app
    && intent.request_id == request
    && intent.requested_state == state
    && intent.secret_revision == revision
    && intent.registry_secret == secret

module _ (w : World) (o : Order) where
  open w use {
    valid_config, valid_references, canonical_config, encode_intent, decode_intent, encode_gate,
    decode_gate, find_request, find_checkpoint, save_intent, record_gate, capture, fence, prepare,
    activate,
  }
  open o use {app_name, request_id, config, secret_revision, registry_secret}

  -- The journal's record of a gate.
  unfoldable pub recorded : Stage → Stage → ActivationGate → Run ActivationGate → Run ActivationGate
  unfolding call check need done
  recorded expected next gate rest = need (encode_gate gate) gate_unrecorded λ text.
      call (record_called expected next gate)
        (check (record_gate app_name request_id expected next text) gate_unrecorded rest)

  -- Preparation and activation with a fenced gate.
  unfoldable pub activate_fenced : ActivationGate → ActivationGate → Run ActivationGate
  unfolding recorded
  activate_fenced gate initial = call prepare_called (
      check (prepare config secret_revision request_id registry_secret) prepare_failed (
        call (activate_called gate) (
          need (activate gate config secret_revision request_id registry_secret) activate_failed
            λ active.
              check (valid_saved_gate active initial app_name request_id) gate_invalid
                (recorded fenced activated active (done active)))))

  -- The fence, behind the saved intent.
  unfoldable pub fence_captured : ActivationGate → Run ActivationGate
  unfolding activate_fenced
  fence_captured gate = call (fence_called gate) (
      need (fence gate request_id) fence_failed λ fenced_gate.
        check (valid_saved_gate fenced_gate gate app_name request_id) gate_invalid
          (recorded prepared fenced fenced_gate (activate_fenced fenced_gate gate)))

  -- startCandidateOperation
  unfoldable pub start_candidate_operation : String → Run ActivationGate
  unfolding fence_captured
  start_candidate_operation state = call captured (
      need (capture app_name) capture_failed λ (gate, target).
        check (valid_initial_capture gate target app_name) capture_invalid (
          need
            (encode_intent (record {
              app_name = app_name;
              request_id = request_id;
              requested_state = state;
              secret_revision = secret_revision;
              registry_secret = registry_secret;
              initial_gate = gate;
              predecessor_target = target;
            }))
            intent_unrecorded
            λ text. call (save_called text) (
              check (save_intent app_name request_id text) intent_unrecorded
                (fence_captured gate))))

  -- The gate of a saved checkpoint.
  abbrev pub saved_gate :
      RuntimeCheckpoint
      → CandidateIntent
      → (ActivationGate → Run ActivationGate)
      → Run ActivationGate
  saved_gate checkpoint intent f = need (decode_gate checkpoint.gate_json) gate_invalid λ gate.
      check (valid_saved_gate gate intent.initial_gate app_name request_id) gate_invalid (f gate)

  -- The switch on the stage.
  unfoldable pub resume_at : Stage → RuntimeCheckpoint → CandidateIntent → Run ActivationGate
  unfolding activate_fenced
  resume_at activated checkpoint intent = saved_gate checkpoint intent done
  resume_at prepared checkpoint intent = stop manual_recovery
  resume_at fenced checkpoint intent =
      saved_gate checkpoint intent λ gate. activate_fenced gate intent.initial_gate
  resume_at _ checkpoint intent = stop stage_ambiguous

  unfoldable pub resume : String → RuntimeCheckpoint → Run ActivationGate
  unfolding resume_at
  resume state checkpoint =
      check (checkpoint.app_name == app_name && checkpoint.request_id == request_id)
        checkpoint_identity
        (need (decode_intent checkpoint.intent_json) intent_ambiguous λ intent.
          check
            (intent_matches intent app_name request_id state secret_revision registry_secret
              && valid_initial_capture intent.initial_gate intent.predecessor_target app_name)
            intent_ambiguous (resume_at checkpoint.stage checkpoint intent))

  unfoldable pub with_checkpoint : String → Found → Run ActivationGate
  unfolding resume start_candidate_operation
  with_checkpoint state missing = start_candidate_operation state
  with_checkpoint state failed = stop checkpoint_unavailable
  with_checkpoint state (row checkpoint) = resume state checkpoint

  -- The request that the call advances.
  abbrev pub is_advanced : String → DeployRequest → Bool
  is_advanced state request =
      request.app_name == app_name
      && request.request_id == request_id
      && is_pending request.state
      && request.requested_state == state

  unfoldable pub advance_candidate_operation : Run ActivationGate
  unfolding with_checkpoint
  advance_candidate_operation =
      check (not (is_empty app_name) && config.name == app_name && valid_revision request_id)
        identity_invalid
        (check (valid_config config) configuration_invalid (
          check (is_hosted config.hosting && config.state.mode == "stateless") not_hosted_stateless
            (check (valid_references config secret_revision registry_secret) references_invalid (
              need (canonical_config config) not_canonical λ state.
                need (find_request app_name request_id) request_unavailable λ request.
                  check (is_advanced state request) not_pending
                    (with_checkpoint state (find_checkpoint app_name request_id))))))
