-- ===== src/Cluster/Kept.antt =====
-- What a removed node cannot have held.
use self_hosted_deployer.Common.{
  String, true, false, Option, some, List, All, ◌≡◌, ◌⊎◌, ◌≢◌, is_empty, trim_space,
}
use self_hosted_deployer.AppConfig.Validate.Storage.{selector_value}
use self_hosted_deployer.Cluster.Types.{
  Node, PersistentVolume, Workload, got, VolumeClient, NodeClient, Api,
}
use self_hosted_deployer.Cluster.Storage.{persistent_volume_pinned}
use self_hosted_deployer.Cluster.Unclaimed.{HasNoClaim}
use self_hosted_deployer.Cluster.Removal.{has_storage_client}

-- The volume may go with the node.
abbrev pub VolumeSafe : String → PersistentVolume → Type 0
VolumeSafe id v =
    v.is_local ≡ true → v.reclaim_policy ≡ "Retain" → persistent_volume_pinned v id ≡ true → ⊥

-- The Deployment has no retained storage, or is pinned to another node.
abbrev pub WorkloadSafe : String → Workload → Type 0
WorkloadSafe id w =
    HasNoClaim w
    ⊎ ((is_empty (trim_space (selector_value "deployer.io/node-id" w.node_selector)) ≡ false)
        × (trim_space (selector_value "deployer.io/node-id" w.node_selector) ≢ id))

-- The controller has asked for the volumes or the Deployments, and none of them needs the node.
pub record IsRemovable (api : Api) (id : String) : Type 0 where
  pub asked : has_storage_client api.volumes api.deployments ≡ true
  pub volumes_safe :
      (client : VolumeClient)
      → api.volumes ≡ some client
      → (volumes : List PersistentVolume) × (client.all ≡ some volumes)
        × All (VolumeSafe id) volumes
  pub workloads_safe :
      (listing : Option (List Workload))
      → api.deployments ≡ some listing
      → (workloads : List Workload) × (listing ≡ some workloads) × All (WorkloadSafe id) workloads

-- The node was found, and nothing that needs it.
abbrev pub RemovesSafely : Api → String → Type 0
RemovesSafely api name =
    (client : NodeClient) × (node : Node) × (api.nodes ≡ some client)
    × (client.get name ≡ got node)
    × IsRemovable api (selector_value "deployer.io/node-id" node.labels)
