-- ===== src/Cluster/Cordoned.antt =====
-- What a drain finds and marks: the Pods that may move, the database instances, and the cordon.
use self_hosted_deployer.Common.{
  String, true, false, Option, none, some, List, [], ◌∷◌, not, ◌==◌, ◌≡◌, refl, ◌⊎◌, inl, inr, ◌≢◌,
  Bool-cases, ok, err, is_empty, trim_space, eq_iff, arith, if◌then◌else◌,
}
use self_hosted_deployer.Events.Table.{filter}
use self_hosted_deployer.AppConfig.Validate.Storage.{selector_value}
use self_hosted_deployer.Cluster.Types.{
  Node, Pod, Reply, got, absent, broken, ClusterCall, update_node, not_configured, NodeClient, Api,
}
use self_hosted_deployer.Cluster.Nodes.{
  ClusterRun, finish, make, set_unschedulable_of, set_node_unschedulable, is_database_pod, stays,
}

-- A Pod that a drain may move: it has a state mode that is not stateful, and it is not pinned.
pub record IsMovable (p : Pod) : Type 0 where
  pub managed : is_empty (selector_value "deployer.io/state-mode" p.labels) ≡ false
  pub stateless : selector_value "deployer.io/state-mode" p.labels ≢ "stateful"
  pub free : selector_value "deployer.io/resilience-mode" p.labels ≢ "pinned"

-- An instance of a CloudNativePG cluster.
pub record IsDatabase (p : Pod) : Type 0 where
  pub of_cluster : is_empty (trim_space (selector_value "cnpg.io/cluster" p.labels)) ≡ false
  pub an_instance : selector_value "cnpg.io/podRole" p.labels ≡ "instance"

-- The movable ones of the Pods, in their order.
pub data Movables : List Pod → List Pod → Type 0 where
  no_pods : Movables [] []
  moves : {p : Pod} {ps qs : List Pod} → IsMovable p → Movables ps qs → Movables (p ∷ ps) (p ∷ qs)
  keeps : {p : Pod} {ps qs : List Pod} → (IsMovable p → ⊥) → Movables ps qs → Movables (p ∷ ps) qs

stays-kept : (p : Pod) → stays p ≡ true → IsMovable p → ⊥
stays-kept p s m =
    let managed = m.managed in
    let stateless = m.stateless in
    let free = m.free in
    elim (Bool-cases (selector_value "deployer.io/state-mode" p.labels == "stateful")) [
      | inl e ↦ stateless ((eq_iff _ _).0 e)
      | inr e ↦ free ((eq_iff _ _).0 (ground arith))
    ]

stays-moved : (p : Pod) → stays p ≡ false → IsMovable p
stays-moved p s = record {
  managed = ground arith;
  stateless = λ e.
      absurd (ground (arith, eq_iff (selector_value "deployer.io/state-mode" p.labels) "stateful"));
  free = λ e.
      absurd
        (ground (arith, eq_iff (selector_value "deployer.io/resilience-mode" p.labels) "pinned"));
}

pub filter-Movables : (pods : List Pod) → Movables pods (filter (λ p. not (stays p)) pods)
unfolding filter
filter-Movables [] = Movables.no_pods
filter-Movables (p ∷ ps) = elim (Bool-cases (stays p)) [
  | inl s ↦ rw s (Movables.keeps (stays-kept p s) (filter-Movables ps))
  | inr s ↦ rw s (Movables.moves (stays-moved p s) (filter-Movables ps))
]

pub not_database : (p : Pod) → is_database_pod p ≡ false → IsDatabase p → ⊥
not_database p h d =
    let cluster = d.of_cluster in
    let instance_role =
      (eq_iff (selector_value "cnpg.io/podRole" p.labels) "instance").1 d.an_instance in
    absurd (ground arith)

-- The call that marks the node, where it is not marked yet.
abbrev pub cordon_calls : String → Node → List ClusterCall
cordon_calls name node = if node.unschedulable then [] else update_node name true ∷ []

-- The node is marked as unschedulable: it was, or the update of it has succeeded.
pub record IsCordoned (api : Api) (name : String) (node : Node) : Type 0 where
  pub nodes : NodeClient
  pub asked : api.nodes ≡ some nodes
  pub found : nodes.get name ≡ got node
  pub marked : node.unschedulable ≡ false → nodes.update name true ≡ true

-- A cordon that succeeds has marked the node; one that fails has made that call at most.
pub record Cordons (api : Api) (name : String) (run : ClusterRun) : Type 0 where
  pub few : (run.0 ≡ []) ⊎ (run.0 ≡ update_node name true ∷ [])
  pub done :
      run.1 ≡ ok tt → (node : Node) × IsCordoned api name node × (run.0 ≡ cordon_calls name node)

set_unschedulable_of-Cordons :
    (api : Api) (name : String) (client : NodeClient) (r : Reply Node)
    → api.nodes ≡ some client
    → client.get name ≡ r
    → Cordons api name (set_unschedulable_of client name true r)
unfolding finish make
set_unschedulable_of-Cordons api name client absent c g = record { few = inl refl; done = λ h. cc }
set_unschedulable_of-Cordons api name client broken c g = record { few = inl refl; done = λ h. cc }
set_unschedulable_of-Cordons api name client (got node) c g = elim (Bool-cases node.unschedulable) [
  | inl u ↦ rw u (record {
    few = inl refl;
    done =
        λ h. (node, record { nodes = client; asked = c; found = g; marked = λ m. cc }, rw u refl);
  })
  | inr u ↦ elim (Bool-cases (client.update name true)) [
    | inl m ↦
        rw (u, m)
          (record {
            few = inr refl;
            done = λ h.
                (node, record { nodes = client; asked = c; found = g; marked = λ n. m }, rw u refl);
          })
    | inr m ↦ rw (u, m) (record { few = inr refl; done = λ h. cc })
  ]
]

pub set_node_unschedulable-Cordons :
    (api : Api) (name : String) → Cordons api name (set_node_unschedulable api name true)
unfolding set_node_unschedulable finish
set_node_unschedulable-Cordons api name = go api.nodes refl
  where
    go :
        (o : Option NodeClient)
        → api.nodes ≡ o
        → Cordons api name (elim o [
          | none ↦ finish (err not_configured)
          | some client ↦ set_unschedulable_of client name true (client.get name)
        ])
    go none e = record { few = inl refl; done = λ h. cc }
    go (some client) e = set_unschedulable_of-Cordons api name client (client.get name) e refl
