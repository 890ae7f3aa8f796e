-- ===== src/Journal/Laws/Stages.antt =====
-- The stage of a runtime checkpoint over any calls of internal/db.
use self_hosted_deployer.Common.{
  leb, Bool-cases, inl, inr, ℕ, String, Bool, true, some, List, [], ◌∷◌, ◌≡◌, refl, arith, find?,
}
use self_hosted_deployer.Common.Lists.Rows.{updated, find?-update, find?-append}
use self_hosted_deployer.Journal.Types.{
  Stage, prepared, fenced, activated, recovering, withdrawn, other, DeployRequest,
  RuntimeCheckpoint, Tables,
}
use self_hosted_deployer.Journal.Env.{Env}
use self_hosted_deployer.Journal.Checkpoints.{
  is_checkpoint, select_checkpoint, moved, valid_checkpoint_transition,
}
use self_hosted_deployer.Journal.Step.{Reach}
use self_hosted_deployer.Journal.Laws.Writes.{KeptByWrites}
use self_hosted_deployer.Journal.Laws.Runs.{run_kept}

-- How far a stage is: a recovery is behind every stage of the activation.
abbrev rank : Stage → ℕ
rank prepared = 0
rank fenced = 1
rank activated = 2
rank recovering = 3
rank withdrawn = 4
rank other = 5

-- A stage that follows another one, or is that one.
abbrev pub may_reach : Stage → Stage → Bool
may_reach from to = leb (rank from) (rank to)

may_reach_trans :
    (a b c : Stage)
    → may_reach a b ≡ true
    → valid_checkpoint_transition b c ≡ true
    → may_reach a c ≡ true
unfolding valid_checkpoint_transition
may_reach_trans a b c h k = ground arith

-- The row of the checkpoint holds the same intent, and its stage has not gone back.
record HasAdvanced (app request : String) (c : RuntimeCheckpoint) (rows : List DeployRequest)
    (checkpoints : List RuntimeCheckpoint) : Type 0 where
  now_row : RuntimeCheckpoint
  found : find? (is_checkpoint app request) checkpoints ≡ some now_row
  same_intent : now_row.intent_json ≡ c.intent_json
  advanced : may_reach c.stage now_row.stage ≡ true

HasAdvanced-kept :
    (app request : String) (c : RuntimeCheckpoint) → KeptByWrites (HasAdvanced app request c)
HasAdvanced-kept app request c = record {
  insertion = λ new rows checkpoints p clash h. record {
    now_row = h.now_row;
    found = h.found;
    same_intent = h.same_intent;
    advanced = h.advanced;
  };
  settling = λ p state response now rows checkpoints pending s h. record {
    now_row = h.now_row;
    found = h.found;
    same_intent = h.same_intent;
    advanced = h.advanced;
  };
  saving = λ new rows checkpoints p h. record {
    now_row = h.now_row;
    found = find?-append (is_checkpoint app request) checkpoints (new ∷ []) h.now_row h.found;
    same_intent = h.same_intent;
    advanced = h.advanced;
  };
  moving = λ p wanted gate rows checkpoints v h. record {
    now_row = updated p (moved wanted gate) h.now_row;
    found =
        rw
          (
            find?-update (is_checkpoint app request) p (moved wanted gate) checkpoints (λ r. refl),
            h.found,
          )
          refl;
    same_intent = elim (Bool-cases (p h.now_row)) [
      | inl touched ↦ rw touched h.same_intent
      | inr untouched ↦ rw untouched h.same_intent
    ];
    advanced = elim (Bool-cases (p h.now_row)) [
      | inl touched ↦
          rw touched
            (may_reach_trans c.stage h.now_row.stage wanted h.advanced (v h.now_row touched))
      | inr untouched ↦ rw untouched h.advanced
    ];
  };
}

-- Whatever the calls, a saved checkpoint is still there, with the intent that was saved, and its
-- stage is the one that it was or a later one: `prepared`, `fenced`, `activated`, `recovering`,
-- `withdrawn`, in this order.
pub stages_advance :
    (env : Env) (app request : String) (c : RuntimeCheckpoint) (t u : Tables)
    → select_checkpoint app request t ≡ some c
    → Reach env t u
    → (d : RuntimeCheckpoint) × (select_checkpoint app request u ≡ some d)
      × (d.intent_json ≡ c.intent_json)
      × (may_reach c.stage d.stage ≡ true)
stages_advance env app request c t u h r =
    (last.now_row, last.found, last.same_intent, last.advanced)
  where
    go : {u : Tables} → Reach env t u → HasAdvanced app request c u.requests u.checkpoints
    go Reach.here = record { now_row = c; found = h; same_intent = refl; advanced = ground arith }
    go (Reach.next {u} r call) =
        run_kept (HasAdvanced app request c) (HasAdvanced-kept app request c) env call u (go r)

    last : HasAdvanced app request c u.requests u.checkpoints
    last = go r
