-- ===== src/Cluster/Drained.antt =====
-- What a drain does, and how far it gets.
use self_hosted_deployer.Common.{
  All, String, true, some, List, [], ◌∷◌, ◌++◌, not, map, ◌≡◌, ◌⊎◌, ◌≢◌, ok,
}
use self_hosted_deployer.Events.Table.{filter}
use self_hosted_deployer.Cluster.Types.{Node, update_node, Pod, evict, PodClient, Api}
use self_hosted_deployer.Cluster.Cordoned.{IsDatabase, Movables, IsCordoned, cordon_calls}
use self_hosted_deployer.Cluster.Nodes.{ClusterRun, set_node_unschedulable, stays}

-- The run asks for the eviction of the Pods that do not stay, in their order, up to a failure.
pub record Evicted (pods : List Pod) (run : ClusterRun) : Type 0 where
  pub asked : List Pod
  pub left : List Pod
  pub calls : run.0 ≡ map evict asked
  pub all_movable : asked ++ left ≡ filter (λ p. not (stays p)) pods
  pub complete : run.1 ≡ ok tt → left ≡ []

-- The drain has marked the node, the node's Pods are these, without a database instance, and it asks
-- for the eviction of the movable ones, in their order, up to a failure.
pub record Drains (api : Api) (name : String) (run : ClusterRun) : Type 0 where
  pub node : Node
  pub cordoned : IsCordoned api name node
  pub client : PodClient
  pub configured : api.pods ≡ some client
  pub pods : List Pod
  pub pods_listed : client.on_node name ≡ some pods
  pub no_databases : All (λ p. IsDatabase p → ⊥) pods
  pub asked : List Pod
  pub left : List Pod
  pub movable : Movables pods (asked ++ left)
  pub calls : run.0 ≡ cordon_calls name node ++ map evict asked
  pub complete : run.1 ≡ ok tt → left ≡ []

-- The drain has made no call but the one that marks the node, and says that it failed.
abbrev pub GivesUp : String → ClusterRun → Type 0
GivesUp name run = ((run.0 ≡ []) ⊎ (run.0 ≡ update_node name true ∷ [])) × (run.1 ≢ ok tt)

module _ (api : Api) (name : String) where
  abbrev cordon : ClusterRun
  cordon = set_node_unschedulable api name true
