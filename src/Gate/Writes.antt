-- ===== src/Gate/Writes.antt =====
-- What a change at a gate that succeeds has read and written.
use mathlib.Core.Path.{subst}
use self_hosted_deployer.Common.{
  String, true, not, ◌==◌, ◌&&◌, ◌||◌, ◌≡◌, refl, sym, ap, inl, inr, is_empty, eq_iff, and-true,
  Bool-cases, valid_revision, length, nat_eq, Result, ok, err,
}
use self_hosted_deployer.Operation.Types.{ActivationGate, ActivationTarget}
use self_hosted_deployer.Cluster.Types.{Reply, got, absent, broken}
use self_hosted_deployer.Gate.Service.{
  Service, UpdateReply, updated, conflict, update_failed, ServiceServer,
}
use self_hosted_deployer.Gate.Activation.{
  GateError, is_owned, gate_for, gate_eq, found_at_gate, service_at_gate, answer_update,
  update_activation_gate, update_at_gate, with_operation, fence_activation_gate, with_target,
  replace_activation_target,
}

pub no_ok {ℓ} :
    {A : Type ℓ} {e : GateError} {a : A} → ◌≡◌ {A = Result GateError A} (err e) (ok a) → ⊥
no_ok h = cc

ok_same {ℓ} : {A : Type ℓ} {a b : A} → ◌≡◌ {A = Result GateError A} (ok a) (ok b) → a ≡ b
ok_same h = cc

gate_same :
    (a b : ActivationGate)
    → a.app ≡ b.app
    → a.namespace ≡ b.namespace
    → a.uid ≡ b.uid
    → a.resource_version ≡ b.resource_version
    → a.operation_id ≡ b.operation_id
    → a ≡ b
gate_same a b app namespace uid version operation = λ i. record {
  app = app i;
  namespace = namespace i;
  uid = uid i;
  resource_version = version i;
  operation_id = operation i;
}

gate_eq-ok : (a b : ActivationGate) → gate_eq a b ≡ true → a ≡ b
gate_eq-ok a b h =
    let (h4, o) =
      and-true
        (a.app == b.app
          && a.namespace == b.namespace
          && a.uid == b.uid
          && a.resource_version == b.resource_version)
        (a.operation_id == b.operation_id) h in
    let (h3, v) =
      and-true (a.app == b.app && a.namespace == b.namespace && a.uid == b.uid)
        (a.resource_version == b.resource_version) h4 in
    let (h2, u) = and-true (a.app == b.app && a.namespace == b.namespace) (a.uid == b.uid) h3 in
    let (n, s) = and-true (a.app == b.app) (a.namespace == b.namespace) h2 in
    gate_same a b ((eq_iff _ _).0 n) ((eq_iff _ _).0 s) ((eq_iff _ _).0 u) ((eq_iff _ _).0 v)
      ((eq_iff _ _).0 o)

module _ (server : ServiceServer) (namespace : String) where
  open server use {State, get, update, Evolves, Spent}

  -- The service that stands at a gate.
  pub record StandsAt (s : State) (gate : ActivationGate) (service : Service) : Type 0 where
    pub kept : get s gate.app ≡ got service
    pub at_gate : gate_for service ≡ gate

  found_at_gate-ok :
      (gate : ActivationGate) (r : Reply Service) (service : Service)
      → found_at_gate server namespace gate r ≡ ok service
      → (r ≡ got service) × (gate_eq (gate_for service) gate ≡ true)
  found_at_gate-ok gate absent service h = absurd (no_ok h)
  found_at_gate-ok gate broken service h = absurd (no_ok h)
  found_at_gate-ok gate (got other) service h = elim (Bool-cases (is_owned gate.app other.labels)) [
    | inr o ↦ absurd (no_ok (rw o at h))
    | inl o ↦ elim (Bool-cases (gate_eq (gate_for other) gate)) [
      | inr e ↦ absurd (no_ok (rw (o, e) at h))
      | inl e ↦
          let same : other ≡ service = ok_same (rw (o, e) at h) in
          (ap got same, subst (λ x. gate_eq (gate_for x) gate ≡ true) same e)
    ]
  ]

  service_at_gate-StandsAt :
      (s : State) (gate : ActivationGate) (service : Service)
      → service_at_gate server namespace s gate ≡ ok service
      → StandsAt s gate service
  unfolding service_at_gate gate_for
  service_at_gate-StandsAt s gate service h =
      elim (Bool-cases (
        is_empty gate.app
        || not (gate.namespace == namespace)
        || is_empty gate.uid
        || is_empty gate.resource_version)) [
          | inl b ↦ absurd (no_ok (rw b at h))
          | inr b ↦
              let (r, e) = found_at_gate-ok gate (get s gate.app) service (rw b at h) in
              record { kept = r; at_gate = gate_eq-ok (gate_for service) gate e }
        ]

  -- A write that succeeded, of the service that was read.
  pub record Wrote (read write after : State) (gate next : ActivationGate)
      (change : Service → Service) : Type 0 where
    pub service : Service
    pub stored : Service
    pub stands : StandsAt read gate service
    pub written : update write (change service) ≡ (updated stored, after)
    pub next_gate : next ≡ gate_for stored

  answer_update-ok :
      (r : UpdateReply × State) (next : ActivationGate) (after : State)
      → answer_update server namespace r ≡ (ok next, after)
      → (u : Service) × (r ≡ (updated u, after)) × (next ≡ gate_for u)
  answer_update-ok (updated u, t) next after h = (u, cc, sym (ok_same (ap (λ p. p.0) h)))
  answer_update-ok (conflict, t) next after h = absurd (no_ok (ap (λ p. p.0) h))
  answer_update-ok (update_failed, t) next after h = absurd (no_ok (ap (λ p. p.0) h))

  update_at_gate-Wrote :
      (read write after : State) (gate next : ActivationGate) (change : Service → Service)
      → update_at_gate server namespace write change (service_at_gate server namespace read gate)
        ≡ (ok next, after)
      → Wrote read write after gate next change
  unfolding update_activation_gate
  update_at_gate-Wrote read write after gate next change h =
      go (service_at_gate server namespace read gate) refl h
    where
      go :
          (r : Result GateError Service)
          → service_at_gate server namespace read gate ≡ r
          → update_at_gate server namespace write change r ≡ (ok next, after)
          → Wrote read write after gate next change
      go (err e) q k = absurd (no_ok (ap (λ p. p.0) k))
      go (ok service) q k =
          let (u, w, n) = answer_update-ok (update write (change service)) next after k in
          record {
            service = service;
            stored = u;
            stands = service_at_gate-StandsAt read gate service q;
            written = w;
            next_gate = n;
          }

-- The two calls that use a gate.
pub data Change : Type 0 where
  fencing : String → Change
  replacing : ActivationTarget → Change

abbrev pub changed_by : Change → Service → Service
changed_by (fencing operation) = with_operation operation
changed_by (replacing target) = with_target target

module _ (server : ServiceServer) (namespace : String) where
  open server use {State, get, update, Evolves, Spent}

  unfoldable pub change_at_gate :
      (read write : State) → ActivationGate → Change → Result GateError ActivationGate × State
  change_at_gate read write gate (fencing operation) =
      fence_activation_gate server namespace read write gate operation
  change_at_gate read write gate (replacing target) =
      replace_activation_target server namespace read write gate target

  pub change_at_gate-Wrote :
      (read write after : State) (gate next : ActivationGate) (c : Change)
      → change_at_gate read write gate c ≡ (ok next, after)
      → Wrote server namespace read write after gate next (changed_by c)
  unfolding change_at_gate fence_activation_gate replace_activation_target
  change_at_gate-Wrote read write after gate next (fencing operation) h =
      elim (Bool-cases (not (valid_revision operation) || operation == gate.operation_id)) [
        | inl b ↦ absurd (no_ok (ap (λ p. p.0) (rw b at h)))
        | inr b ↦
            update_at_gate-Wrote server namespace read write after gate next
              (with_operation operation) (rw b at h)
      ]
  change_at_gate-Wrote read write after gate next (replacing target) h =
      elim (Bool-cases (
        not (valid_revision gate.operation_id)
        || nat_eq (length target.selector) 0
        || nat_eq (length target.ports) 0)) [
          | inl b ↦ absurd (no_ok (ap (λ p. p.0) (rw b at h)))
          | inr b ↦
              update_at_gate-Wrote server namespace read write after gate next (with_target target)
                (rw b at h)
        ]
