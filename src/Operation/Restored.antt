-- ===== src/Operation/Restored.antt =====
-- The order of the calls of a recovery.
use self_hosted_deployer.Common.{
  String, true, some, length, eq_iff, ◌≡◌, refl, ◌≢◌, Bool-cases, inl, inr, arith, ◌==◌, not, ◌&&◌,
  ◌||◌, ltb, is_empty, valid_revision,
}
use self_hosted_deployer.Journal.Types.{
  Stage, prepared, fenced, activated, recovering, withdrawn, DeployRequest, RuntimeCheckpoint,
}
use self_hosted_deployer.Journal.Transaction.{is_pending}
use self_hosted_deployer.Operation.Types.{
  ActivationGate, ActivationTarget, CandidateIntent, captured, mark_called, recovery_fenced,
  restore_called, record_called, recovery_ambiguous, gate_unrecorded, capture_failed, fence_failed,
  replace_failed, request_unavailable, row, World,
}
use self_hosted_deployer.Operation.Recovering.{
  RecoveryPhase, resting, marking, marked, looking, owning, restoring, releasing, begins_at,
  recovery, RecoveryStep, Released, Recovers,
}
use self_hosted_deployer.Operation.Follows.{
  Follows-stop, Follows-done, Follows-check, Follows-need, Follows-call,
}
use self_hosted_deployer.Operation.Advance.{valid_saved_gate}
use self_hosted_deployer.Operation.Recovery.{
  RecoveryWorld, keeps_identity, no_target, close_recovery, restore_target, own_gate,
  restore_traffic, is_recovery, mark, recover_at, is_intended, recover_checkpoint,
  restore_candidate_traffic,
}

module _ (w : World) (r : RecoveryWorld) (app request_id : String) (c : RuntimeCheckpoint) where
  close-Recovers :
      (p : RecoveryPhase) (g : ActivationGate)
      → ((text : String)
          → w.encode_gate g ≡ some text
          → RecoveryStep w r app request_id c p
              (record_called recovering withdrawn g)
              (releasing g text))
      → Recovers w r app request_id c p (close_recovery w r app request_id g)
  unfolding close_recovery
  close-Recovers p g s =
      Follows-need (RecoveryStep w r app request_id c) (Released w r app request_id c) p
        (w.encode_gate g) gate_unrecorded _
        λ text e.
          Follows-call (RecoveryStep w r app request_id c) (Released w r app request_id c) p
            (releasing g text) _ _ (s text e)
            (Follows-check (RecoveryStep w r app request_id c) (Released w r app request_id c)
              (releasing g text) (w.record_gate app request_id recovering withdrawn text)
              gate_unrecorded _
              λ k.
                Follows-done (RecoveryStep w r app request_id c) (Released w r app request_id c)
                  (releasing g text) g (Released.released g text k))

  restore_target-Recovers :
      (p : RecoveryPhase) (intent : CandidateIntent) (g : ActivationGate)
      (target : ActivationTarget)
      → (r.same_target target intent.predecessor_target ≡ true
          → (text : String) → w.encode_gate g ≡ some text
          → RecoveryStep w r app request_id c p
              (record_called recovering withdrawn g)
              (releasing g text))
      → RecoveryStep w r app request_id c p
          (restore_called g intent.predecessor_target)
          (restoring g intent.predecessor_target)
      → Recovers w r app request_id c p (restore_target w r app request_id intent g target)
  unfolding restore_target
  restore_target-Recovers p intent g target close s =
      let q = restoring g intent.predecessor_target in
      elim (Bool-cases (r.same_target target intent.predecessor_target)) [
        | inl e ↦ rw e (close-Recovers p g (close e))
        | inr e ↦ rw e (
            Follows-call (RecoveryStep w r app request_id c) (Released w r app request_id c) p q
              (restore_called g intent.predecessor_target) _ s
              (Follows-need (RecoveryStep w r app request_id c) (Released w r app request_id c) q
                (r.replace g intent.predecessor_target) replace_failed _
                λ x replaced.
                  Follows-check (RecoveryStep w r app request_id c) (Released w r app request_id c)
                    q (valid_saved_gate x intent.initial_gate app (recovery w r app request_id c))
                    recovery_ambiguous _
                    λ v. close-Recovers q x (λ text k.
                      RecoveryStep.closes g x intent.predecessor_target text replaced k)))
      ]

  module _ (intent : CandidateIntent) (decoded : w.decode_intent c.intent_json ≡ some intent) where
    not_restored :
        ltb 0 (length intent.predecessor_target.selector) ≡ true
        → r.same_target no_target intent.predecessor_target ≡ true
        → ⊥
    not_restored m same = ground (arith, r.empty_differs intent.predecessor_target m)

    own_gate-Recovers :
        (g : ActivationGate) (target : ActivationTarget)
        → w.capture app ≡ some (g, target)
        → ltb 0 (length intent.predecessor_target.selector) ≡ true
        → Recovers w r app request_id c looking (own_gate w r app request_id intent g target)
    unfolding own_gate
    own_gate-Recovers g target read n =
        elim (Bool-cases (g.operation_id == (recovery w r app request_id c))) [
          | inl e ↦
              let own = (eq_iff g.operation_id (recovery w r app request_id c)).0 e in
              rw e (
                restore_target-Recovers looking intent g target
                  (λ same text k.
                    RecoveryStep.closes_restored g target intent text read own decoded same k)
                  (RecoveryStep.restores_again g target intent read own decoded))
          | inr e ↦ rw e (
              Follows-call (RecoveryStep w r app request_id c) (Released w r app request_id c)
                looking (owning g) (recovery_fenced g) _ (RecoveryStep.fences g target read)
                (Follows-need (RecoveryStep w r app request_id c) (Released w r app request_id c)
                  (owning g) (w.fence g (recovery w r app request_id c)) fence_failed _
                  λ x answered.
                    Follows-check (RecoveryStep w r app request_id c)
                      (Released w r app request_id c) (owning g)
                      (valid_saved_gate x intent.initial_gate app (recovery w r app request_id c))
                      recovery_ambiguous _
                      λ v.
                        restore_target-Recovers (owning g) intent x no_target
                          (λ same text k. absurd (not_restored n same))
                          (RecoveryStep.restores g x intent answered decoded)))
        ]

    restore_traffic-Recovers :
        (p : RecoveryPhase)
        → RecoveryStep w r app request_id c p captured looking
        → ltb 0 (length intent.predecessor_target.selector) ≡ true
        → Recovers w r app request_id c p (restore_traffic w r app request_id intent)
    unfolding restore_traffic
    restore_traffic-Recovers p s n =
        Follows-call (RecoveryStep w r app request_id c) (Released w r app request_id c) p looking
          captured _ s
          (Follows-need (RecoveryStep w r app request_id c) (Released w r app request_id c) looking
            (w.capture app) capture_failed _
            λ gt read.
              Follows-check (RecoveryStep w r app request_id c) (Released w r app request_id c)
                looking (keeps_identity gt.0 intent.initial_gate app) recovery_ambiguous _
                λ c1.
                  Follows-check (RecoveryStep w r app request_id c) (Released w r app request_id c)
                    looking
                    (gt.0.operation_id == intent.initial_gate.operation_id
                      || gt.0.operation_id == request_id
                      || gt.0.operation_id == (recovery w r app request_id c))
                    recovery_ambiguous _ λ c2. own_gate-Recovers gt.0 gt.1 read n)

    mark-Recovers :
        ltb 0 (length intent.predecessor_target.selector) ≡ true
        → Recovers w r app request_id c resting (mark w r app request_id c intent)
    mark-Recovers n =
        Follows-call (RecoveryStep w r app request_id c) (Released w r app request_id c) resting
          marking (mark_called c.stage) _ RecoveryStep.marks
          (Follows-check (RecoveryStep w r app request_id c) (Released w r app request_id c) marking
            (w.record_gate app request_id c.stage recovering
              (r.encode_recovery (recovery w r app request_id c)))
            gate_unrecorded _ λ k. restore_traffic-Recovers marking (RecoveryStep.looks k) n)

    recover_at-Recovers :
        (s : Stage)
        → s ≢ withdrawn
        → ltb 0 (length intent.predecessor_target.selector) ≡ true
        → Recovers w r app request_id c (begins_at s) (recover_at w r app request_id s c intent)
    unfolding recover_at
    recover_at-Recovers prepared d n = mark-Recovers n
    recover_at-Recovers fenced d n = mark-Recovers n
    recover_at-Recovers activated d n = mark-Recovers n
    recover_at-Recovers recovering d n =
        Follows-check (RecoveryStep w r app request_id c) (Released w r app request_id c) marked
          (is_recovery w r app request_id c.gate_json) recovery_ambiguous _
          λ k. restore_traffic-Recovers marked RecoveryStep.looks_again n
    recover_at-Recovers withdrawn d n = absurd (d refl)
    recover_at-Recovers Stage.other d n =
        Follows-stop (RecoveryStep w r app request_id c) (Released w r app request_id c) resting
          recovery_ambiguous

  intended-target :
      (intent : CandidateIntent) (request : DeployRequest)
      → is_intended w r app request_id intent request ≡ true
      → ltb 0 (length intent.predecessor_target.selector) ≡ true
  intended-target intent request h = ground arith

  recover_checkpoint-Recovers :
      (request : DeployRequest)
      → c.stage ≢ withdrawn
      → Recovers w r app request_id c
          (begins_at c.stage)
          (recover_checkpoint w r app request_id request c)
  unfolding recover_checkpoint
  recover_checkpoint-Recovers request d =
      let p = begins_at c.stage in
      Follows-check (RecoveryStep w r app request_id c) (Released w r app request_id c) p
        (c.app_name == app && c.request_id == request_id) recovery_ambiguous _
        λ c1.
          Follows-need (RecoveryStep w r app request_id c) (Released w r app request_id c) p
            (w.decode_intent c.intent_json) recovery_ambiguous _
            λ intent decoded.
              Follows-check (RecoveryStep w r app request_id c) (Released w r app request_id c) p
                (is_intended w r app request_id intent request) recovery_ambiguous _
                λ i.
                  Follows-check (RecoveryStep w r app request_id c) (Released w r app request_id c)
                    p
                    (not (
                      (recovery w r app request_id c) == request_id
                      || (recovery w r app request_id c) == intent.initial_gate.operation_id))
                    recovery_ambiguous _
                    λ c2.
                      recover_at-Recovers intent decoded c.stage d
                        (intended-target intent request i)

  -- A (recovery w r app request_id c) whose checkpoint is not withdrawn yet makes its calls in the order of the steps, and may
  -- stop anywhere: it records itself, unless the checkpoint says so already, and reads the cluster once
  -- that has succeeded; behind a fence it restores the target of the checkpoint's intent with the fenced
  -- gate; without a fence, the gate was the (recovery w r app request_id c)'s own, and it restores that target unless it is in
  -- place; it never prepares or activates the candidate; and it returns the gate that the restoration
  -- answered with, or that stood there, once that gate is recorded as withdrawn.
  pub restore-Recovers :
      w.find_checkpoint app request_id ≡ row c
      → c.stage ≢ withdrawn
      → Recovers w r app request_id c
          (begins_at c.stage)
          (restore_candidate_traffic w r app request_id)
  unfolding restore_candidate_traffic
  restore-Recovers f d =
      let p = begins_at c.stage in
      Follows-check (RecoveryStep w r app request_id c) (Released w r app request_id c) p
        (not (is_empty app) && valid_revision request_id) recovery_ambiguous _
        λ c1.
          Follows-need (RecoveryStep w r app request_id c) (Released w r app request_id c) p
            (w.find_request app request_id) request_unavailable _
            λ request c2.
              Follows-check (RecoveryStep w r app request_id c) (Released w r app request_id c) p
                (request.app_name == app
                  && request.request_id == request_id
                  && is_pending request.state)
                recovery_ambiguous _ λ c3. rw f (recover_checkpoint-Recovers request d)
