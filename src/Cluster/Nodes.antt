-- ===== src/Cluster/Nodes.antt =====
-- internal/ingress/nodes.go: cordons, drains and removals of nodes, as runs that list the calls that
-- change the cluster.
use self_hosted_deployer.Common.{
  String, Bool, true, false, Option, none, some, List, [], ◌∷◌, ◌++◌, not, ◌==◌, ◌&&◌, ◌||◌, any,
  is_empty, trim_space, if◌then◌else◌, Result, ok, err,
}
use self_hosted_deployer.AppConfig.Validate.Storage.{selector_value}
use self_hosted_deployer.Cluster.Types.{
  Node, Pod, Reply, got, absent, broken, ClusterError, not_configured, get_failed, list_failed,
  update_failed, evict_failed, hosts_databases, ClusterCall, update_node, evict, PodClient,
  NodeClient, Api,
}

-- The calls of a run, in their order, and its result.
abbrev pub ClusterRun : Type 0
ClusterRun = List ClusterCall × Result ClusterError (Unit {0})

unfoldable pub finish : Result ClusterError (Unit {0}) → ClusterRun
finish r = ([], r)

unfoldable pub make : ClusterCall → ClusterRun → ClusterRun
make c rest = (c ∷ rest.0, rest.1)

-- One run after another, unless the first one fails.
abbrev pub joined : List ClusterCall → Result ClusterError (Unit {0}) → ClusterRun → ClusterRun
joined calls (err e) rest = (calls, err e)
joined calls (ok done) rest = (calls ++ rest.0, rest.1)

unfoldable pub and_then : ClusterRun → ClusterRun → ClusterRun
and_then first rest = joined first.0 first.1 rest

-- setNodeUnschedulable, with the node that the client answers with
abbrev pub set_unschedulable_of : NodeClient → String → Bool → Reply Node → ClusterRun
set_unschedulable_of client name value absent = finish (err get_failed)
set_unschedulable_of client name value broken = finish (err get_failed)
set_unschedulable_of client name value (got node) =
    if same value node.unschedulable
    then finish (ok tt)
    else make (update_node name value)
        (finish (if client.update name value then ok tt else err update_failed))
  where
    same : Bool → Bool → Bool
    same true b = b
    same false b = not b

unfoldable pub set_node_unschedulable : Api → String → Bool → ClusterRun
unfolding finish make
set_node_unschedulable api name value = elim api.nodes [
  | none ↦ finish (err not_configured)
  | some client ↦ set_unschedulable_of client name value (client.get name)
]

-- A CloudNativePG instance.
abbrev pub is_database_pod : Pod → Bool
is_database_pod p =
    not (is_empty (trim_space (selector_value "cnpg.io/cluster" p.labels)))
    && selector_value "cnpg.io/podRole" p.labels == "instance"

-- A Pod that a drain leaves alone.
abbrev pub stays : Pod → Bool
stays p =
    is_empty (selector_value "deployer.io/state-mode" p.labels)
    || selector_value "deployer.io/state-mode" p.labels == "stateful"
    || selector_value "deployer.io/resilience-mode" p.labels == "pinned"

-- NotFound is no failure of an eviction.
abbrev pub after_eviction : Reply (Unit {0}) → ClusterRun → ClusterRun
after_eviction broken rest = finish (err evict_failed)
after_eviction absent rest = rest
after_eviction (got done) rest = rest

-- The loop of evictions.
unfoldable pub evict_pods : (Pod → Reply (Unit {0})) → List Pod → ClusterRun
unfolding make finish
evict_pods client [] = finish (ok tt)
evict_pods client (p ∷ ps) =
    let rest = evict_pods client ps in
    if stays p then rest else make (evict p) (after_eviction (client p) rest)

-- What follows the listing of the node's Pods.
abbrev pub drain_pods : (Pod → Reply (Unit {0})) → Option (List Pod) → ClusterRun
drain_pods client none = finish (err list_failed)
drain_pods client (some pods) =
    if any is_database_pod pods then finish (err hosts_databases) else evict_pods client pods

abbrev pub drain_with : Option PodClient → Option (Pod → Reply (Unit {0})) → String → ClusterRun
drain_with none evictions name = finish (err not_configured)
drain_with (some pods) none name = finish (err not_configured)
drain_with (some pods) (some client) name = drain_pods client (pods.on_node name)

-- DrainNode
unfoldable pub drain_node : Api → String → ClusterRun
unfolding set_node_unschedulable and_then evict_pods
drain_node api name =
    and_then (set_node_unschedulable api name true) (drain_with api.pods api.evictions name)
