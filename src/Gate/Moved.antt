-- ===== src/Gate/Moved.antt =====
-- What a change at a gate leaves.
use self_hosted_deployer.Common.{String, ◌≡◌}
use self_hosted_deployer.Operation.Types.{ActivationGate}
use self_hosted_deployer.Cluster.Types.{got}
use self_hosted_deployer.Gate.Service.{Service, ServiceServer}
use self_hosted_deployer.Gate.Activation.{gate_for}
use self_hosted_deployer.Gate.Writes.{StandsAt, Change, fencing, replacing}

-- What the change makes of the endpoints and of the operation.
abbrev pub Endpoints : Change → (before now : Service) → (gate next : ActivationGate) → Type 0
Endpoints (fencing operation) before now gate next =
    (now.selector ≡ before.selector) × (now.ports ≡ before.ports) × (next.operation_id ≡ operation)
Endpoints (replacing target) before now gate next =
    (now.selector ≡ target.selector)
    × (now.ports ≡ target.ports)
    × (next.operation_id ≡ gate.operation_id)

module _ (server : ServiceServer) (namespace : String) where
  open server use {State, get, update}

  -- The service before and after, and the gate that stands at it now.
  pub record Moved (read after : State) (gate next : ActivationGate) (c : Change) : Type 0 where
    pub before : Service
    pub now : Service
    pub stood : StandsAt server namespace read gate before
    pub kept : get after gate.app ≡ got now
    pub same_uid : now.uid ≡ gate.uid
    pub same_labels : now.labels ≡ before.labels
    pub next_gate : next ≡ gate_for now
    pub endpoints : Endpoints c before now gate next
