-- ===== src/Operation/Phases.antt =====
-- The calls of internal/server/candidate_operation.go in their order, each with the answers that it needs.
use self_hosted_deployer.Common.{Option, none, String, true, some, ◌≡◌}
use self_hosted_deployer.Journal.Types.{prepared, fenced, activated}
use self_hosted_deployer.Operation.Types.{
  ActivationGate, ActivationTarget, CandidateIntent, Event, captured, save_called, fence_called,
  record_called, prepare_called, activate_called, Order, World, Run,
}
use self_hosted_deployer.Operation.Follows.{Follows}

-- How far an operation is: which call it has made last, with what the call was for.
pub data Phase : Type 0 where
  idle seen unreadable : Phase
  saving recording finishing : ActivationGate → String → Phase
  fencing held ready activating : ActivationGate → Phase

-- Where an advance begins at a fenced checkpoint: with its gate, where that can be read.
abbrev pub resumed : Option ActivationGate → Phase
resumed none = unreadable
resumed (some g) = held g

module _ (w : World) (o : Order) where
  abbrev pub new_intent : String → ActivationGate → ActivationTarget → CandidateIntent
  new_intent state gate target = record {
    app_name = o.app_name;
    request_id = o.request_id;
    requested_state = state;
    secret_revision = o.secret_revision;
    registry_secret = o.registry_secret;
    initial_gate = gate;
    predecessor_target = target;
  }

  -- The call that may come next, and the answers that it needs: an intent with the captured gate and
  -- target is saved, the fence is behind a save that succeeded, the fenced gate is recorded, the
  -- preparation is behind a record that succeeded or with the gate of the checkpoint, the activation is
  -- behind a preparation that succeeded, and the gate that it answers with is recorded.
  pub data Step : Phase → Event → Phase → Type 0 where
    captures : Step idle captured seen
    saves :
        (state text : String) (g : ActivationGate) (target : ActivationTarget)
        → w.capture o.app_name ≡ some (g, target)
        → w.encode_intent (new_intent state g target) ≡ some text
        → Step seen (save_called text) (saving g text)
    fences :
        (g : ActivationGate) (text : String)
        → w.save_intent o.app_name o.request_id text ≡ true
        → Step (saving g text) (fence_called g) (fencing g)
    records :
        (g h : ActivationGate) (text : String)
        → w.fence g o.request_id ≡ some h
        → w.encode_gate h ≡ some text
        → Step (fencing g) (record_called prepared fenced h) (recording h text)
    prepares :
        (g : ActivationGate) (text : String)
        → w.record_gate o.app_name o.request_id prepared fenced text ≡ true
        → Step (recording g text) prepare_called (ready g)
    prepares_held : (g : ActivationGate) → Step (held g) prepare_called (ready g)
    activates :
        (g : ActivationGate)
        → w.prepare o.config o.secret_revision o.request_id o.registry_secret ≡ true
        → Step (ready g) (activate_called g) (activating g)
    finishes :
        (g a : ActivationGate) (text : String)
        → w.activate g o.config o.secret_revision o.request_id o.registry_secret ≡ some a
        → w.encode_gate a ≡ some text
        → Step (activating g) (record_called fenced activated a) (finishing a text)

  -- A gate comes back once it is recorded as activated.
  pub data Finished : Phase → ActivationGate → Type 0 where
    finished :
        (a : ActivationGate) (text : String)
        → w.record_gate o.app_name o.request_id fenced activated text ≡ true
        → Finished (finishing a text) a

  abbrev pub Advances : Phase → Run ActivationGate → Type 0
  Advances = Follows Step Finished
