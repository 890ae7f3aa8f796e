-- ===== src/Gate/SingleUse.antt =====
-- A gate serves one change of its Service.
use mathlib.Core.Path.{subst}
use self_hosted_deployer.Common.{
  String, [], ◌∷◌, not, ◌==◌, ◌||◌, ◌≡◌, ◌≢◌, refl, sym, ◌∙◌, ap, inl, inr, eq_iff, Bool-cases,
  valid_revision, ok, arith,
}
use self_hosted_deployer.AppConfig.Types.{Selector}
use self_hosted_deployer.AppConfig.Validate.Storage.{selector_value}
use self_hosted_deployer.Operation.Types.{ActivationGate}
use self_hosted_deployer.Cluster.Types.{got}
use self_hosted_deployer.Gate.Service.{Service, ServiceServer}
use self_hosted_deployer.Gate.Activation.{gate_for, set_annotation, fence_activation_gate}
use self_hosted_deployer.Gate.Writes.{
  no_ok, Wrote, Change, fencing, replacing, changed_by, change_at_gate, change_at_gate-Wrote,
}

pub set_annotation-value :
    (key value : String) (ls : Selector) → selector_value key (set_annotation key value ls) ≡ value
unfolding selector_value set_annotation
set_annotation-value key value [] = rw ((eq_iff key key).1 refl) refl
set_annotation-value key value ((k, v) ∷ ls) = elim (Bool-cases (k == key)) [
  | inl e ↦ rw (e, (eq_iff key key).1 refl) refl
  | inr e ↦ rw (e, e) (set_annotation-value key value ls)
]

-- The change has moved the gate: a fence has, and a replacement that answers with another gate has.
abbrev pub HasMoved : Change → (gate next : ActivationGate) → Type 0
HasMoved (fencing operation) gate next = Unit {0}
HasMoved (replacing target) gate next = next ≢ gate

module _ (server : ServiceServer) (namespace : String) where
  open server use {State, Evolves, Spent}

  sent_name : (c : Change) (s : Service) → (changed_by c s).name ≡ s.name
  sent_name (fencing operation) s = refl
  sent_name (replacing target) s = refl

  sent_version : (c : Change) (s : Service) → (changed_by c s).resource_version ≡ s.resource_version
  sent_version (fencing operation) s = refl
  sent_version (replacing target) s = refl

  sent_uid : (c : Change) (s : Service) → (changed_by c s).uid ≡ s.uid
  sent_uid (fencing operation) s = refl
  sent_uid (replacing target) s = refl

  fence_is_new :
      (read write after : State) (gate next : ActivationGate) (operation : String)
      → change_at_gate server namespace read write gate (fencing operation) ≡ (ok next, after)
      → operation ≢ gate.operation_id
  unfolding change_at_gate fence_activation_gate
  fence_is_new read write after gate next operation h same =
      elim (Bool-cases (not (valid_revision operation) || operation == gate.operation_id)) [
        | inl b ↦ no_ok (ap (λ p. p.0) (rw b at h))
        | inr b ↦ absurd (ground (arith, eq_iff operation gate.operation_id))
      ]

  -- What was stored is not what was read.
  stored_differs :
      (read write after : State) (gate next : ActivationGate) (c : Change)
      → change_at_gate server namespace read write gate c ≡ (ok next, after)
      → HasMoved c gate next
      → (w : Wrote server namespace read write after gate next (changed_by c))
      → w.stored ≢ w.service
  unfolding gate_for
  stored_differs read write after gate next (replacing target) h m w same =
      m (w.next_gate ∙ (ap gate_for same ∙ w.stands.at_gate))
  stored_differs read write after gate next (fencing operation) h m w same =
      let st =
        server.update_content write after (changed_by (fencing operation) w.service) w.stored
          w.written in
      fence_is_new read write after gate next operation h (
        sym
          (set_annotation-value "deployer.io/activation-operation" operation w.service.annotations)
        ∙ (ap (selector_value "deployer.io/activation-operation")
              (sym st.annotations ∙ ap (λ s. s.annotations) same)
            ∙ ap (λ g. g.operation_id) w.stands.at_gate))

  -- So the version is another one.
  version_differs :
      (read write after : State) (gate next : ActivationGate) (c : Change)
      → change_at_gate server namespace read write gate c ≡ (ok next, after)
      → HasMoved c gate next
      → Evolves read after
      → (w : Wrote server namespace read write after gate next (changed_by c))
      → w.stored.resource_version ≢ (changed_by c w.service).resource_version
  unfolding gate_for
  version_differs read write after gate next c h m e w same =
      let st = server.update_content write after (changed_by c w.service) w.stored w.written in
      let k = server.update_kept write after (changed_by c w.service) w.stored w.written in
      let name = sent_name c w.service ∙ ap (λ g. g.app) w.stands.at_gate in
      stored_differs read write after gate next c h m w (
        sym (
          server.same_version read after gate.app w.service w.stored e w.stands.kept
            (subst (λ n. server.get after n ≡ got w.stored) name k)
            (sym (st.uid ∙ sent_uid c w.service)) (sym (same ∙ sent_version c w.service))))

  Wrote-sent :
      {read write after : State} {gate next : ActivationGate} (c : Change)
      → (w : Wrote server namespace read write after gate next (changed_by c))
      → ((changed_by c w.service).name ≡ gate.app)
        × ((changed_by c w.service).resource_version ≡ gate.resource_version)
  unfolding gate_for
  Wrote-sent c w = (
    sent_name c w.service ∙ ap (λ g. g.app) w.stands.at_gate,
    sent_version c w.service ∙ ap (λ g. g.resource_version) w.stands.at_gate,
  )

  Wrote-Spent :
      (read write after : State) (gate next : ActivationGate) (c : Change)
      → change_at_gate server namespace read write gate c ≡ (ok next, after)
      → HasMoved c gate next
      → Evolves read after
      → Wrote server namespace read write after gate next (changed_by c)
      → Spent after gate.app gate.resource_version
  Wrote-Spent read write after gate next c h m e w =
      let (n, v) = Wrote-sent c w in
      rw (← n, ← v)
        (server.update_spends write after (changed_by c w.service) w.stored w.written
          (version_differs read write after gate next c h m e w))

  -- A gate is used once: when a fence with it has succeeded, or a replacement that answers with another
  -- gate, no other fence or replacement with the same gate does, whatever others write in between, and
  -- even if it read the Service before the first one wrote it.
  pub single_use :
      (read write after : State) (gate next : ActivationGate) (first second : Change)
      (read' write' after' : State) (next' : ActivationGate)
      → change_at_gate server namespace read write gate first ≡ (ok next, after)
      → HasMoved first gate next
      → Evolves read after
      → Evolves after write'
      → change_at_gate server namespace read' write' gate second ≢ (ok next', after')
  single_use read write after gate next first second read' write' after' next' h m f e k =
      let w = change_at_gate-Wrote server namespace read write after gate next first h in
      let w' = change_at_gate-Wrote server namespace read' write' after' gate next' second k in
      let (n, v) = Wrote-sent second w' in
      server.spent_refused write' after' (changed_by second w'.service) w'.stored
        (rw (n, v)
          (server.spent_stays after write' gate.app gate.resource_version e
            (Wrote-Spent read write after gate next first h m f w)))
        w'.written
