-- ===== src/Journal/Checkpoints.antt =====
-- internal/db/runtime_checkpoint_repository.go.
use Prim.Native.String.{len}
use self_hosted_deployer.Common.{
  String, Bool, true, false, Option, none, some, [], ◌∷◌, ◌++◌, ◌==◌, not, ◌&&◌, ◌||◌, any, leb,
  is_empty, trim_space, valid_revision, find?, update, if◌then◌else◌, Result, ok, err,
}
use self_hosted_deployer.Journal.Types.{
  Stage, prepared, fenced, activated, recovering, RuntimeCheckpoint, Tables, JournalError,
  checkpoint_identity, checkpoint_terminal, checkpoint_conflict, checkpoint_transition,
}
use self_hosted_deployer.Journal.Env.{Env}
use self_hosted_deployer.Journal.Transaction.{
  Tx, ◌>>=◌, ◌>>◌, gets, or_missing, transact, refuse_tx, modify, is_pending,
}
use self_hosted_deployer.Journal.Requests.{select_request}

abbrev pub stage_eq : Stage → Stage → Bool
stage_eq prepared prepared = true
stage_eq fenced fenced = true
stage_eq activated activated = true
stage_eq recovering recovering = true
stage_eq Stage.withdrawn Stage.withdrawn = true
stage_eq _ _ = false

abbrev pub is_checkpoint : String → String → RuntimeCheckpoint → Bool
is_checkpoint app request c = c.app_name == app && c.request_id == request

abbrev pub select_checkpoint : String → String → Tables → Option RuntimeCheckpoint
select_checkpoint app request t = find? (is_checkpoint app request) t.checkpoints

-- validateCheckpointIdentity
unfoldable pub valid_checkpoint_identity : String → String → Bool
valid_checkpoint_identity app request = not (is_empty (trim_space app)) && valid_revision request

-- validCheckpointTransition
unfoldable pub valid_checkpoint_transition : Stage → Stage → Bool
valid_checkpoint_transition prepared fenced = true
valid_checkpoint_transition fenced activated = true
valid_checkpoint_transition prepared recovering = true
valid_checkpoint_transition fenced recovering = true
valid_checkpoint_transition activated recovering = true
valid_checkpoint_transition recovering Stage.withdrawn = true
valid_checkpoint_transition _ _ = false

-- The row of a new intent.
abbrev pub saved_intent : String → String → String → RuntimeCheckpoint
saved_intent app request intent = record {
  app_name = app;
  request_id = request;
  stage = prepared;
  intent_json = intent;
  gate_json = "{}";
}

-- An intent that was saved before has to be the same text.
unfoldable pub save_intent_with :
    String → String → String → Option RuntimeCheckpoint → Tx (Unit {0})
save_intent_with app request intent none =
    modify λ t. record t { checkpoints = t.checkpoints ++ saved_intent app request intent ∷ [] }
save_intent_with app request intent (some existing) =
    refuse_tx (not (existing.intent_json == intent)) checkpoint_conflict

-- The UPDATE of the row that is still in the expected stage.
abbrev pub moved : Stage → String → RuntimeCheckpoint → RuntimeCheckpoint
moved wanted gate c = record c { stage = wanted; gate_json = gate }

unfoldable pub move_stage : String → String → Stage → Stage → String → Tx (Unit {0})
move_stage app request expected next gate t =
    if any (λ c. is_checkpoint app request c && stage_eq c.stage expected) t.checkpoints
    then ok (
      tt,
      record t {
        checkpoints =
            update (λ c. is_checkpoint app request c && stage_eq c.stage expected) (moved next gate)
              t.checkpoints;
      },
    )
    else err checkpoint_conflict

-- The checks of the transition and of the current stage, and the UPDATE.
unfoldable pub move_checked :
    String → String → Stage → Stage → String → RuntimeCheckpoint → Tx (Unit {0})
unfolding move_stage
move_checked app request expected next gate current = do
  refuse_tx (not (valid_checkpoint_transition expected next)) checkpoint_transition
  refuse_tx (not (stage_eq current.stage expected)) checkpoint_conflict
  move_stage app request expected next gate

module _ (env : Env) where
  open env use {is_json_object}

  -- validateCheckpointObject, with its limit of 64 KiB
  unfoldable pub valid_checkpoint_object : String → Bool
  valid_checkpoint_object value =
      not (is_empty value) && leb (len value) 65536 && is_json_object value

  unfoldable pub save_activation_intent_tx : String → String → String → Tx (Unit {0})
  unfolding valid_checkpoint_identity valid_checkpoint_object
  save_activation_intent_tx app request intent = do
    refuse_tx (not (valid_checkpoint_identity app request)) checkpoint_identity
    refuse_tx (not (valid_checkpoint_object intent)) checkpoint_identity
    found ← gets (select_request app request)
    parent ← or_missing found
    refuse_tx (not (is_pending parent.state)) checkpoint_terminal
    existing ← gets (select_checkpoint app request)
    save_intent_with app request intent existing

  unfoldable pub save_activation_intent :
      String → String → String → Tables → Result JournalError (Unit {0}) × Tables
  unfolding save_activation_intent_tx
  save_activation_intent app request intent =
      transact (save_activation_intent_tx app request intent)

  unfoldable pub record_activation_gate_tx :
      String → String → Stage → Stage → String → Tx (Unit {0})
  unfolding valid_checkpoint_identity valid_checkpoint_object move_checked
  record_activation_gate_tx app request expected next gate = do
    refuse_tx (not (valid_checkpoint_identity app request)) checkpoint_identity
    refuse_tx (not (valid_checkpoint_object gate)) checkpoint_identity
    found ← gets (select_request app request)
    parent ← or_missing found
    row ← gets (select_checkpoint app request)
    current ← or_missing row
    refuse_tx (not (is_pending parent.state) || stage_eq current.stage Stage.withdrawn)
        checkpoint_terminal
    move_checked app request expected next gate current

  unfoldable pub record_activation_gate :
      String → String → Stage → Stage → String → Tables → Result JournalError (Unit {0}) × Tables
  unfolding record_activation_gate_tx
  record_activation_gate app request expected next gate =
      transact (record_activation_gate_tx app request expected next gate)

  unfoldable pub find_runtime_checkpoint_tx : String → String → Tx RuntimeCheckpoint
  unfolding valid_checkpoint_identity
  find_runtime_checkpoint_tx app request = do
    refuse_tx (not (valid_checkpoint_identity app request)) checkpoint_identity
    row ← gets (select_checkpoint app request)
    or_missing row

  unfoldable pub find_runtime_checkpoint :
      String → String → Tables → Result JournalError RuntimeCheckpoint × Tables
  unfolding find_runtime_checkpoint_tx
  find_runtime_checkpoint app request = transact (find_runtime_checkpoint_tx app request)
