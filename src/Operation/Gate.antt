-- ===== src/Operation/Gate.antt =====
-- The gate that an advance of internal/server/candidate_operation.go returns.
use mathlib.Core.Path.{subst}
use self_hosted_deployer.Common.{
  String, Bool, true, false, Option, none, some, ◌≡◌, refl, arith, ◌==◌, not, ◌&&◌, is_empty,
  valid_revision, ok, eq_iff,
}
use self_hosted_deployer.AppConfig.Validate.{is_hosted}
use self_hosted_deployer.Journal.Types.{
  Stage, prepared, fenced, activated, recovering, withdrawn, other, RuntimeCheckpoint,
}
use self_hosted_deployer.Operation.Types.{
  ActivationGate, ActivationTarget, CandidateIntent, OperationError, gate_invalid, manual_recovery,
  stage_ambiguous, gate_unrecorded, prepare_failed, activate_failed, fence_failed, capture_failed,
  capture_invalid, intent_unrecorded, intent_ambiguous, checkpoint_identity, checkpoint_unavailable,
  identity_invalid, configuration_invalid, not_hosted_stateless, references_invalid, not_canonical,
  request_unavailable, not_pending, Event, captured, save_called, fence_called, record_called,
  prepare_called, activate_called, Found, row, missing, failed, Order, World, Run, done, stop, call,
  check, need,
}
use self_hosted_deployer.Operation.Advance.{
  valid_initial_capture, intent_matches, is_advanced, valid_saved_gate, recorded, activate_fenced,
  fence_captured, start_candidate_operation, saved_gate, resume_at, resume, with_checkpoint,
  advance_candidate_operation,
}

-- A run that returns a gate with the property only.
record Yields (P : ActivationGate → Type 0) (run : Run ActivationGate) : Type 0 where
  at : (g : ActivationGate) → run.1 ≡ ok g → P g

module _ {P : ActivationGate → Type 0} where
  Yields-stop : (e : OperationError) → Yields P (stop e)
  unfolding stop
  Yields-stop e = record { at = λ g h. cc }

  Yields-done : (g : ActivationGate) → P g → Yields P (done g)
  unfolding done
  Yields-done g p = record { at = λ x h. subst P (ground arith) p }

  Yields-check :
      (b : Bool) (e : OperationError) (rest : Run ActivationGate)
      → (b ≡ true → Yields P rest)
      → Yields P (check b e rest)
  unfolding check
  Yields-check true e rest f = record { at = (f refl).at }
  Yields-check false e rest f = Yields-stop e

  Yields-need :
      {A : Type 0} (o : Option A) (e : OperationError) (f : A → Run ActivationGate)
      → ((a : A) → Yields P (f a))
      → Yields P (need o e f)
  unfolding need
  Yields-need none e f k = Yields-stop e
  Yields-need (some a) e f k = record { at = (k a).at }

  Yields-call :
      (event : Event) (rest : Run ActivationGate) → Yields P rest → Yields P (call event rest)
  unfolding call
  Yields-call event rest f = record { at = f.at }

-- The gate is the application's, and its operation is the request.
abbrev pub Belongs : Order → ActivationGate → Type 0
Belongs o g = (g.app ≡ o.app_name) × (g.operation_id ≡ o.request_id)

valid-Belongs :
    (o : Order) (g initial : ActivationGate)
    → valid_saved_gate g initial o.app_name o.request_id ≡ true
    → Belongs o g
valid-Belongs o g initial v = (
  (eq_iff g.app o.app_name).0 (ground arith),
  (eq_iff g.operation_id o.request_id).0 (ground arith),
)

module _ (w : World) (o : Order) where
  recorded-Yields :
      (expected next : Stage) (g : ActivationGate) (rest : Run ActivationGate)
      → Yields (Belongs o) rest
      → Yields (Belongs o) (recorded w o expected next g rest)
  unfolding recorded
  recorded-Yields expected next g rest f = Yields-need _ gate_unrecorded _ λ text.
      Yields-call (record_called expected next g) _ (Yields-check _ gate_unrecorded rest λ k. f)

  activate-Yields :
      (g initial : ActivationGate) → Yields (Belongs o) (activate_fenced w o g initial)
  unfolding activate_fenced
  activate-Yields g initial = Yields-call prepare_called _ (
      Yields-check (w.prepare o.config o.secret_revision o.request_id o.registry_secret)
        prepare_failed _
        λ k. Yields-call (activate_called g) _ (
          Yields-need (w.activate g o.config o.secret_revision o.request_id o.registry_secret)
            activate_failed _
            λ a.
              Yields-check (valid_saved_gate a initial o.app_name o.request_id) gate_invalid _ λ v.
                recorded-Yields fenced activated a (done a)
                  (Yields-done a (valid-Belongs o a initial v))))

  fence-Yields : (g : ActivationGate) → Yields (Belongs o) (fence_captured w o g)
  unfolding fence_captured
  fence-Yields g = Yields-call (fence_called g) _ (
      Yields-need (w.fence g o.request_id) fence_failed _ λ f.
        Yields-check (valid_saved_gate f g o.app_name o.request_id) gate_invalid _
          λ v. recorded-Yields prepared fenced f (activate_fenced w o f g) (activate-Yields f g))

  abbrev first_intent : String → ActivationGate → ActivationTarget → CandidateIntent
  first_intent state gate target = record {
    app_name = o.app_name;
    request_id = o.request_id;
    requested_state = state;
    secret_revision = o.secret_revision;
    registry_secret = o.registry_secret;
    initial_gate = gate;
    predecessor_target = target;
  }

  start-Yields : (state : String) → Yields (Belongs o) (start_candidate_operation w o state)
  unfolding start_candidate_operation
  start-Yields state = Yields-call captured _ (
      Yields-need (w.capture o.app_name) capture_failed _ λ gt.
        Yields-check (valid_initial_capture gt.0 gt.1 o.app_name) capture_invalid _ λ v.
          Yields-need (w.encode_intent (first_intent state gt.0 gt.1)) intent_unrecorded _ λ text.
            Yields-call (save_called text) _ (
              Yields-check (w.save_intent o.app_name o.request_id text) intent_unrecorded
                (fence_captured w o gt.0) λ k. fence-Yields gt.0))

  saved-Yields :
      (c : RuntimeCheckpoint) (intent : CandidateIntent) (f : ActivationGate → Run ActivationGate)
      → ((g : ActivationGate) → Belongs o g → Yields (Belongs o) (f g))
      → Yields (Belongs o) (saved_gate w o c intent f)
  saved-Yields c intent f k = Yields-need (w.decode_gate c.gate_json) gate_invalid _ λ g.
      Yields-check (valid_saved_gate g intent.initial_gate o.app_name o.request_id) gate_invalid
        (f g) λ v. k g (valid-Belongs o g intent.initial_gate v)

  stage-Yields :
      (s : Stage) (c : RuntimeCheckpoint) (intent : CandidateIntent)
      → Yields (Belongs o) (resume_at w o s c intent)
  unfolding resume_at
  stage-Yields activated c intent = saved-Yields c intent done (λ g b. Yields-done g b)
  stage-Yields prepared c intent = Yields-stop manual_recovery
  stage-Yields fenced c intent =
      saved-Yields c intent (λ g. activate_fenced w o g intent.initial_gate)
        (λ g b. activate-Yields g intent.initial_gate)
  stage-Yields recovering c intent = Yields-stop stage_ambiguous
  stage-Yields withdrawn c intent = Yields-stop stage_ambiguous
  stage-Yields other c intent = Yields-stop stage_ambiguous

  found-Yields : (state : String) (f : Found) → Yields (Belongs o) (with_checkpoint w o state f)
  unfolding with_checkpoint resume
  found-Yields state missing = start-Yields state
  found-Yields state failed = Yields-stop checkpoint_unavailable
  found-Yields state (row c) =
      Yields-check (c.app_name == o.app_name && c.request_id == o.request_id) checkpoint_identity _
        λ k. Yields-need (w.decode_intent c.intent_json) intent_ambiguous _ λ intent.
          Yields-check
            (intent_matches intent o.app_name o.request_id state o.secret_revision o.registry_secret
              && valid_initial_capture intent.initial_gate intent.predecessor_target o.app_name)
            intent_ambiguous _ λ v. stage-Yields c.stage c intent

-- Whatever the runtime and the repositories answer, a gate that an advance returns is the gate of the
-- application, and its operation is the request of the call.
pub advance-Belongs :
    (w : World) (o : Order) (g : ActivationGate)
    → (advance_candidate_operation w o).1 ≡ ok g
    → (g.app ≡ o.app_name) × (g.operation_id ≡ o.request_id)
unfolding advance_candidate_operation
advance-Belongs w o = go.at
  where
    go : Yields (Belongs o) (advance_candidate_operation w o)
    go =
        Yields-check
          (not (is_empty o.app_name) && o.config.name == o.app_name && valid_revision o.request_id)
          identity_invalid _
          λ k. Yields-check (w.valid_config o.config) configuration_invalid _ λ k.
            Yields-check (is_hosted o.config.hosting && o.config.state.mode == "stateless")
              not_hosted_stateless _
              λ k.
                Yields-check (w.valid_references o.config o.secret_revision o.registry_secret)
                  references_invalid _
                  λ k. Yields-need (w.canonical_config o.config) not_canonical _ λ state.
                    Yields-need (w.find_request o.app_name o.request_id) request_unavailable _
                      λ request.
                        Yields-check (is_advanced w o state request) not_pending
                          (with_checkpoint w o state (w.find_checkpoint o.app_name o.request_id))
                          λ k. found-Yields w o state (w.find_checkpoint o.app_name o.request_id)
