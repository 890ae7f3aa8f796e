-- ===== src/Operation/Recovering.antt =====
-- The calls of internal/server/candidate_recovery.go in their order, each with the answers that it needs.
use self_hosted_deployer.Common.{String, true, some, ◌≡◌}
use self_hosted_deployer.Journal.Types.{Stage, recovering, withdrawn, RuntimeCheckpoint}
use self_hosted_deployer.Operation.Types.{
  ActivationGate, ActivationTarget, CandidateIntent, Event, captured, mark_called, recovery_fenced,
  restore_called, record_called, World, Run,
}
use self_hosted_deployer.Operation.Follows.{Follows}
use self_hosted_deployer.Operation.Recovery.{RecoveryWorld}

-- How far a recovery is: which call it has made last, with what the call was for.
pub data RecoveryPhase : Type 0 where
  resting marking marked looking : RecoveryPhase
  owning : ActivationGate → RecoveryPhase
  restoring : ActivationGate → ActivationTarget → RecoveryPhase
  releasing : ActivationGate → String → RecoveryPhase

-- Where a recovery of a checkpoint at a stage begins.
abbrev pub begins_at : Stage → RecoveryPhase
begins_at recovering = marked
begins_at _ = resting

module _ (w : World) (r : RecoveryWorld) (app request_id : String) (c : RuntimeCheckpoint) where
  abbrev pub recovery : String
  recovery = r.recovery_id app request_id

  -- The call that may come next, and the answers that it needs: the recovery is recorded at the stage of
  -- the checkpoint; the cluster is read once that has succeeded; the gate that was read is fenced, or
  -- belongs to the recovery; behind the fence, the target of the checkpoint's intent is restored with the
  -- fenced gate, and without a fence with the gate that was read, or it is in place; and the gate that
  -- the restoration answers with, or that was read, is recorded. No step prepares or activates.
  pub data RecoveryStep : RecoveryPhase → Event → RecoveryPhase → Type 0 where
    marks : RecoveryStep resting (mark_called c.stage) marking
    looks :
        w.record_gate app request_id c.stage recovering (r.encode_recovery recovery) ≡ true
        → RecoveryStep marking captured looking
    looks_again : RecoveryStep marked captured looking
    fences :
        (g : ActivationGate) (target : ActivationTarget)
        → w.capture app ≡ some (g, target)
        → RecoveryStep looking (recovery_fenced g) (owning g)
    restores :
        (g h : ActivationGate) (intent : CandidateIntent)
        → w.fence g recovery ≡ some h
        → w.decode_intent c.intent_json ≡ some intent
        → RecoveryStep
            (owning g)
            (restore_called h intent.predecessor_target)
            (restoring h intent.predecessor_target)
    restores_again :
        (g : ActivationGate) (target : ActivationTarget) (intent : CandidateIntent)
        → w.capture app ≡ some (g, target)
        → g.operation_id ≡ recovery
        → w.decode_intent c.intent_json ≡ some intent
        → RecoveryStep looking
            (restore_called g intent.predecessor_target)
            (restoring g intent.predecessor_target)
    closes :
        (g h : ActivationGate) (target : ActivationTarget) (text : String)
        → r.replace g target ≡ some h
        → w.encode_gate h ≡ some text
        → RecoveryStep
            (restoring g target)
            (record_called recovering withdrawn h)
            (releasing h text)
    closes_restored :
        (g : ActivationGate) (target : ActivationTarget) (intent : CandidateIntent) (text : String)
        → w.capture app ≡ some (g, target)
        → g.operation_id ≡ recovery
        → w.decode_intent c.intent_json ≡ some intent
        → r.same_target target intent.predecessor_target ≡ true
        → w.encode_gate g ≡ some text
        → RecoveryStep looking (record_called recovering withdrawn g) (releasing g text)

  -- A gate comes back once it is recorded as withdrawn.
  pub data Released : RecoveryPhase → ActivationGate → Type 0 where
    released :
        (g : ActivationGate) (text : String)
        → w.record_gate app request_id recovering withdrawn text ≡ true
        → Released (releasing g text) g

  abbrev pub Recovers : RecoveryPhase → Run ActivationGate → Type 0
  Recovers = Follows RecoveryStep Released
