-- ===== src/Operation/Parked.antt =====
-- Checkpoints from which internal/server/candidate_operation.go makes no call.
use self_hosted_deployer.Common.{
  String, Bool, true, false, Option, none, some, [], ◌≡◌, refl, arith, ◌==◌, not, ◌&&◌, is_empty,
  valid_revision, ok,
}
use self_hosted_deployer.AppConfig.Validate.{is_hosted}
use self_hosted_deployer.Journal.Types.{
  Stage, prepared, fenced, activated, recovering, withdrawn, other, RuntimeCheckpoint,
}
use self_hosted_deployer.Journal.Checkpoints.{stage_eq}
use self_hosted_deployer.Operation.Types.{
  ActivationGate, CandidateIntent, OperationError, gate_invalid, manual_recovery, stage_ambiguous,
  intent_ambiguous, checkpoint_identity, identity_invalid, configuration_invalid,
  not_hosted_stateless, references_invalid, not_canonical, request_unavailable, not_pending, row,
  Order, World, Run, done, stop, check, need,
}
use self_hosted_deployer.Operation.Advance.{
  valid_initial_capture, intent_matches, is_advanced, valid_saved_gate, resume_at, resume,
  with_checkpoint, advance_candidate_operation,
}

-- A run without a call, which returns a gate only at the stage `activated`, and only the saved one.
record Parked (w : World) (c : RuntimeCheckpoint) (run : Run ActivationGate) : Type 0 where
  silent : run.0 ≡ []
  returned :
      (g : ActivationGate)
      → run.1 ≡ ok g
      → (c.stage ≡ activated) × (w.decode_gate c.gate_json ≡ some g)

module _ {w : World} {c : RuntimeCheckpoint} where
  Parked-stop : (e : OperationError) → Parked w c (stop e)
  unfolding stop
  Parked-stop e = record { silent = refl; returned = λ g h. cc }

  Parked-done :
      (g : ActivationGate)
      → c.stage ≡ activated
      → w.decode_gate c.gate_json ≡ some g
      → Parked w c (done g)
  unfolding done
  Parked-done g s d = record {
    silent = refl;
    returned = λ x h. let same : g ≡ x = ground arith in (s, rw (← same) d);
  }

  Parked-check :
      (b : Bool) (e : OperationError) (rest : Run ActivationGate)
      → Parked w c rest
      → Parked w c (check b e rest)
  unfolding check
  Parked-check true e rest f = record { silent = f.silent; returned = f.returned }
  Parked-check false e rest f = Parked-stop e

  Parked-need :
      {A : Type 0} (o : Option A) (e : OperationError) (f : A → Run ActivationGate)
      → ((a : A) → o ≡ some a → Parked w c (f a))
      → Parked w c (need o e f)
  unfolding need
  Parked-need none e f k = Parked-stop e
  Parked-need (some a) e f k = record { silent = (k a refl).silent; returned = (k a refl).returned }

module _ (w : World) (o : Order) (c : RuntimeCheckpoint) where
  stage-Parked :
      (s : Stage) (intent : CandidateIntent)
      → c.stage ≡ s
      → stage_eq s fenced ≡ false
      → Parked w c (resume_at w o s c intent)
  unfolding resume_at
  stage-Parked activated intent s n = Parked-need (w.decode_gate c.gate_json) gate_invalid _ λ g d.
      Parked-check (valid_saved_gate g intent.initial_gate o.app_name o.request_id) gate_invalid
        (done g) (Parked-done g s d)
  stage-Parked prepared intent s n = Parked-stop manual_recovery
  stage-Parked fenced intent s n = cc
  stage-Parked recovering intent s n = Parked-stop stage_ambiguous
  stage-Parked withdrawn intent s n = Parked-stop stage_ambiguous
  stage-Parked other intent s n = Parked-stop stage_ambiguous

  resume-Parked :
      (state : String) → stage_eq c.stage fenced ≡ false → Parked w c (resume w o state c)
  unfolding resume
  resume-Parked state n =
      Parked-check (c.app_name == o.app_name && c.request_id == o.request_id) checkpoint_identity _
        (Parked-need (w.decode_intent c.intent_json) intent_ambiguous _ λ intent d.
          Parked-check
            (intent_matches intent o.app_name o.request_id state o.secret_revision o.registry_secret
              && valid_initial_capture intent.initial_gate intent.predecessor_target o.app_name)
            intent_ambiguous _ (stage-Parked c.stage intent refl n))

-- From a checkpoint at any stage but `fenced`, an advance makes no call, not even a capture, and it
-- returns a gate only if the stage is `activated`, and then the gate that the checkpoint holds.
pub advance-parked :
    (w : World) (o : Order) (c : RuntimeCheckpoint)
    → w.find_checkpoint o.app_name o.request_id ≡ row c
    → stage_eq c.stage fenced ≡ false
    → ((advance_candidate_operation w o).0 ≡ [])
      × ((g : ActivationGate)
          → (advance_candidate_operation w o).1 ≡ ok g
          → (c.stage ≡ activated) × (w.decode_gate c.gate_json ≡ some g))
unfolding advance_candidate_operation with_checkpoint
advance-parked w o c f n = (go.silent, go.returned)
  where
    go : Parked w c (advance_candidate_operation w o)
    go =
        Parked-check
          (not (is_empty o.app_name) && o.config.name == o.app_name && valid_revision o.request_id)
          identity_invalid _
          (Parked-check (w.valid_config o.config) configuration_invalid _ (
            Parked-check (is_hosted o.config.hosting && o.config.state.mode == "stateless")
              not_hosted_stateless _
              (Parked-check (w.valid_references o.config o.secret_revision o.registry_secret)
                references_invalid _
                (Parked-need (w.canonical_config o.config) not_canonical _ λ state e.
                  Parked-need (w.find_request o.app_name o.request_id) request_unavailable _
                    λ request k.
                      Parked-check (is_advanced w o state request) not_pending
                        (with_checkpoint w o state (w.find_checkpoint o.app_name o.request_id))
                        (rw f (resume-Parked w o c state n))))))
