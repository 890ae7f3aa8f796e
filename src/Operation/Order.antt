-- ===== src/Operation/Order.antt =====
-- The order of the calls of internal/server/candidate_operation.go.
use self_hosted_deployer.Common.{
  String, true, none, some, Option, ◌≡◌, refl, ◌==◌, not, ◌&&◌, is_empty, valid_revision,
}
use self_hosted_deployer.Journal.Types.{Stage, prepared, fenced, activated, RuntimeCheckpoint}
use self_hosted_deployer.AppConfig.Validate.{is_hosted}
use self_hosted_deployer.Operation.Types.{
  ActivationGate, CandidateIntent, gate_invalid, gate_unrecorded, prepare_failed, activate_failed,
  fence_failed, capture_failed, capture_invalid, intent_unrecorded, intent_ambiguous,
  checkpoint_identity, identity_invalid, configuration_invalid, not_hosted_stateless,
  references_invalid, not_canonical, request_unavailable, not_pending, captured, save_called,
  fence_called, record_called, prepare_called, activate_called, row, missing, Order, World, Run,
  done, need,
}
use self_hosted_deployer.Operation.Phases.{
  Phase, idle, seen, unreadable, saving, recording, finishing, fencing, held, ready, activating,
  new_intent, resumed, Step, Finished, Advances,
}
use self_hosted_deployer.Operation.Follows.{
  Follows-stop, Follows-done, Follows-check, Follows-need, Follows-call,
}
use self_hosted_deployer.Operation.Advance.{
  valid_initial_capture, intent_matches, is_advanced, valid_saved_gate, recorded, activate_fenced,
  fence_captured, saved_gate, start_candidate_operation, resume_at, resume, with_checkpoint,
  advance_candidate_operation,
}

module _ (w : World) (o : Order) where
  recorded-Advances :
      (p : Phase) (q : String → Phase) (expected next : Stage) (g : ActivationGate)
      (rest : Run ActivationGate)
      → ((text : String)
          → w.encode_gate g ≡ some text
          → Step w o p (record_called expected next g) (q text))
      → ((text : String)
          → w.record_gate o.app_name o.request_id expected next text ≡ true
          → Advances w o (q text) rest)
      → Advances w o p (recorded w o expected next g rest)
  unfolding recorded
  recorded-Advances p q expected next g rest s f =
      Follows-need (Step w o) (Finished w o) p (w.encode_gate g) gate_unrecorded _ λ text e.
        Follows-call (Step w o) (Finished w o) p (q text) _ _ (s text e) (
          Follows-check (Step w o) (Finished w o) (q text)
            (w.record_gate o.app_name o.request_id expected next text) gate_unrecorded rest
            (f text))

  activate-Advances :
      (p : Phase) (g initial : ActivationGate)
      → Step w o p prepare_called (ready g)
      → Advances w o p (activate_fenced w o g initial)
  unfolding activate_fenced
  activate-Advances p g initial s =
      Follows-call (Step w o) (Finished w o) p (ready g) prepare_called _ s (
        Follows-check (Step w o) (Finished w o) (ready g)
          (w.prepare o.config o.secret_revision o.request_id o.registry_secret) prepare_failed _
          λ made.
            Follows-call (Step w o) (Finished w o) (ready g) (activating g) (activate_called g) _
              (Step.activates g made)
              (Follows-need (Step w o) (Finished w o) (activating g)
                (w.activate g o.config o.secret_revision o.request_id o.registry_secret)
                activate_failed _
                λ a answered.
                  Follows-check (Step w o) (Finished w o) (activating g)
                    (valid_saved_gate a initial o.app_name o.request_id) gate_invalid _
                    λ v.
                      recorded-Advances (activating g) (finishing a) fenced activated a (done a)
                        (λ text e. Step.finishes g a text answered e)
                        (λ text e.
                          Follows-done (Step w o) (Finished w o) (finishing a text) a
                            (Finished.finished a text e))))

  fence-Advances :
      (p : Phase) (g : ActivationGate)
      → Step w o p (fence_called g) (fencing g)
      → Advances w o p (fence_captured w o g)
  unfolding fence_captured
  fence-Advances p g s = Follows-call (Step w o) (Finished w o) p (fencing g) (fence_called g) _ s (
      Follows-need (Step w o) (Finished w o) (fencing g) (w.fence g o.request_id) fence_failed _
        λ f answered.
          Follows-check (Step w o) (Finished w o) (fencing g)
            (valid_saved_gate f g o.app_name o.request_id) gate_invalid _
            λ v.
              recorded-Advances (fencing g) (recording f) prepared fenced f
                (activate_fenced w o f g) (λ text e. Step.records g f text answered e)
                (λ text e. activate-Advances (recording f text) f g (Step.prepares f text e)))

  start-Advances : (state : String) → Advances w o idle (start_candidate_operation w o state)
  unfolding start_candidate_operation
  start-Advances state = Follows-call (Step w o) (Finished w o) idle seen captured _ Step.captures (
      Follows-need (Step w o) (Finished w o) seen (w.capture o.app_name) capture_failed _
        λ gt seen_there.
          Follows-check (Step w o) (Finished w o) seen (valid_initial_capture gt.0 gt.1 o.app_name)
            capture_invalid _
            λ v.
              Follows-need (Step w o) (Finished w o) seen
                (w.encode_intent (new_intent w o state gt.0 gt.1)) intent_unrecorded _
                λ text e.
                  Follows-call (Step w o) (Finished w o) seen (saving gt.0 text) (save_called text)
                    _ (Step.saves state text gt.0 gt.1 seen_there e)
                    (Follows-check (Step w o) (Finished w o) (saving gt.0 text)
                      (w.save_intent o.app_name o.request_id text) intent_unrecorded
                      (fence_captured w o gt.0)
                      λ k. fence-Advances (saving gt.0 text) gt.0 (Step.fences gt.0 text k)))

  -- The checks in front of the checkpoint make no call.
  advance-Advances :
      (p : Phase)
      → ((state : String)
          → Advances w o p (with_checkpoint w o state (w.find_checkpoint o.app_name o.request_id)))
      → Advances w o p (advance_candidate_operation w o)
  unfolding advance_candidate_operation
  advance-Advances p k =
      Follows-check (Step w o) (Finished w o) p
        (not (is_empty o.app_name) && o.config.name == o.app_name && valid_revision o.request_id)
        identity_invalid _
        λ c1.
          Follows-check (Step w o) (Finished w o) p (w.valid_config o.config) configuration_invalid
            _
            λ c2.
              Follows-check (Step w o) (Finished w o) p
                (is_hosted o.config.hosting && o.config.state.mode == "stateless")
                not_hosted_stateless _
                λ c3.
                  Follows-check (Step w o) (Finished w o) p
                    (w.valid_references o.config o.secret_revision o.registry_secret)
                    references_invalid _
                    λ c4.
                      Follows-need (Step w o) (Finished w o) p (w.canonical_config o.config)
                        not_canonical _
                        λ state c5.
                          Follows-need (Step w o) (Finished w o) p
                            (w.find_request o.app_name o.request_id) request_unavailable _
                            λ request c6.
                              Follows-check (Step w o) (Finished w o) p
                                (is_advanced w o state request) not_pending _ λ c7. k state

  saved-Advances :
      (c : RuntimeCheckpoint) (intent : CandidateIntent) (read : Option ActivationGate)
      → w.decode_gate c.gate_json ≡ read
      → Advances w o
          (resumed read)
          (saved_gate w o c intent λ g. activate_fenced w o g intent.initial_gate)
  unfolding need
  saved-Advances c intent none e =
      rw e (Follows-stop (Step w o) (Finished w o) unreadable gate_invalid)
  saved-Advances c intent (some g) e = rw e (
      Follows-check (Step w o) (Finished w o) (held g)
        (valid_saved_gate g intent.initial_gate o.app_name o.request_id) gate_invalid
        (activate_fenced w o g intent.initial_gate)
        λ v. activate-Advances (held g) g intent.initial_gate (Step.prepares_held g))

  resume-Advances :
      (state : String) (c : RuntimeCheckpoint)
      → c.stage ≡ fenced
      → Advances w o (resumed (w.decode_gate c.gate_json)) (resume w o state c)
  unfolding resume resume_at
  resume-Advances state c s =
      let p = resumed (w.decode_gate c.gate_json) in
      Follows-check (Step w o) (Finished w o) p
        (c.app_name == o.app_name && c.request_id == o.request_id) checkpoint_identity _
        λ c1.
          Follows-need (Step w o) (Finished w o) p (w.decode_intent c.intent_json) intent_ambiguous
            _
            λ intent c2.
              Follows-check (Step w o) (Finished w o) p
                (intent_matches intent o.app_name o.request_id state o.secret_revision
                    o.registry_secret
                  && valid_initial_capture intent.initial_gate intent.predecessor_target o.app_name)
                intent_ambiguous _
                λ c3. rw s (saved-Advances c intent (w.decode_gate c.gate_json) refl)

-- Without a saved checkpoint, an advance makes its calls in this order, and may stop anywhere: it
-- captures the gate; saves an intent with the captured gate and target; fences that gate, once the
-- save has succeeded; records the fenced gate; prepares, once that record has succeeded; activates with
-- that gate, once the preparation has succeeded; and records the activated gate, which is the one that
-- it returns, once that record has succeeded.
pub advance-start :
    (w : World) (o : Order)
    → w.find_checkpoint o.app_name o.request_id ≡ missing
    → Advances w o idle (advance_candidate_operation w o)
unfolding with_checkpoint
advance-start w o m = advance-Advances w o idle (λ state. rw m (start-Advances w o state))

-- From a checkpoint that is fenced, an advance never fences again: without a gate that can be read in
-- the checkpoint it makes no call and returns no gate; with one it prepares, activates with that gate
-- once the preparation has succeeded, and returns the activated gate once that is recorded, in this
-- order, and may stop anywhere.
pub advance-resume :
    (w : World) (o : Order) (c : RuntimeCheckpoint)
    → w.find_checkpoint o.app_name o.request_id ≡ row c
    → c.stage ≡ fenced
    → Advances w o (resumed (w.decode_gate c.gate_json)) (advance_candidate_operation w o)
unfolding with_checkpoint
advance-resume w o c f s =
    advance-Advances w o (resumed (w.decode_gate c.gate_json))
      (λ state. rw f (resume-Advances w o state c s))
