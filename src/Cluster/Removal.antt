-- ===== src/Cluster/Removal.antt =====
-- internal/ingress/nodes.go: the removal of a node, which retained storage forbids.
use self_hosted_deployer.Common.{
  String, Bool, true, false, Option, none, some, List, [], ◌∷◌, not, ◌==◌, ◌&&◌, ◌||◌, any,
  is_empty, trim_space, if◌then◌else◌, Result, ok, err, ◌>>◌,
}
use self_hosted_deployer.AppConfig.Validate.Storage.{selector_value}
use self_hosted_deployer.Cluster.Types.{
  Node, PersistentVolume, Workload, Reply, got, absent, broken, ClusterError, not_configured,
  get_failed, list_failed, delete_failed, retained_volume, retained_workload, unpinned_workload,
  delete_node, VolumeClient, NodeClient, Api,
}
use self_hosted_deployer.Cluster.Split.{split_commas}
use self_hosted_deployer.Cluster.Storage.{persistent_volume_pinned}
use self_hosted_deployer.Cluster.Nodes.{ClusterRun, finish, make, and_then}

-- A retained local volume of the node.
abbrev pub is_retained_here : String → PersistentVolume → Bool
is_retained_here id v = v.is_local && v.reclaim_policy == "Retain" && persistent_volume_pinned v id

abbrev pub check_listed_volumes :
    String → Option (List PersistentVolume) → Result ClusterError (Unit {0})
check_listed_volumes id none = err list_failed
check_listed_volumes id (some volumes) =
    if any (is_retained_here id) volumes then err retained_volume else ok tt

abbrev pub check_volumes : String → Option VolumeClient → Result ClusterError (Unit {0})
check_volumes id none = ok tt
check_volumes id (some client) = check_listed_volumes id client.all

-- The loop over the parts, with the claims seen so far.
unfoldable pub unique_claims : List String → List String → List String
unique_claims seen [] = []
unique_claims seen (part ∷ parts) =
    let claim = trim_space part in
    let rest = unique_claims seen parts in
    let fresh = unique_claims (claim ∷ seen) parts in
    if is_empty claim || any (λ s. s == claim) seen then rest else claim ∷ fresh

abbrev pub claims_text : Workload → String
claims_text w =
    let plural = trim_space (selector_value "deployer.io/retained-storage-claims" w.annotations) in
    if is_empty plural
    then trim_space (selector_value "deployer.io/retained-storage-claim" w.annotations)
    else plural

-- retainedStorageClaimsForDeployment
unfoldable pub retained_storage_claims : Workload → List String
unfolding split_commas unique_claims
retained_storage_claims w =
    if is_empty (claims_text w) then [] else unique_claims [] (split_commas (claims_text w))

abbrev pub is_none {ℓ} : {A : Type ℓ} → List A → Bool
is_none [] = true
is_none (x ∷ xs) = false

-- The loop over the Deployments.
unfoldable pub check_workloads : String → List Workload → Result ClusterError (Unit {0})
unfolding retained_storage_claims
check_workloads id [] = ok tt
check_workloads id (w ∷ ws) =
    let rest = check_workloads id ws in
    let pinned = trim_space (selector_value "deployer.io/node-id" w.node_selector) in
    if is_none (retained_storage_claims w)
    then rest
    else if is_empty pinned
    then err unpinned_workload
    else if not (pinned == id)
    then rest
    else err retained_workload

abbrev pub check_deployments :
    String → Option (Option (List Workload)) → Result ClusterError (Unit {0})
check_deployments id none = ok tt
check_deployments id (some none) = err list_failed
check_deployments id (some (some ws)) = check_workloads id ws

abbrev pub has_storage_client : Option VolumeClient → Option (Option (List Workload)) → Bool
has_storage_client none none = false
has_storage_client _ _ = true

-- validateRetainedStorageNodeRemoval
unfoldable pub validate_node_removal : Api → String → Result ClusterError (Unit {0})
unfolding check_workloads
validate_node_removal api id =
    if has_storage_client api.volumes api.deployments
    then check_volumes id api.volumes >> check_deployments id api.deployments
    else err not_configured

abbrev pub deleted : Reply (Unit {0}) → Result ClusterError (Unit {0})
deleted (got done) = ok tt
deleted absent = ok tt
deleted broken = err delete_failed

abbrev pub remove_found : Api → NodeClient → String → Reply Node → ClusterRun
remove_found api client name absent = finish (ok tt)
remove_found api client name broken = finish (err get_failed)
remove_found api client name (got node) =
    and_then (finish (validate_node_removal api (selector_value "deployer.io/node-id" node.labels)))
      (make (delete_node name) (finish (deleted (client.delete name))))

abbrev pub remove_with : Api → String → Option NodeClient → ClusterRun
remove_with api name none = finish (err not_configured)
remove_with api name (some client) = remove_found api client name (client.get name)

-- RemoveNode
unfoldable pub remove_node : Api → String → ClusterRun
unfolding validate_node_removal and_then make finish
remove_node api name = remove_with api name api.nodes
