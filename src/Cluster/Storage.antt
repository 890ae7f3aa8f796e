-- ===== src/Cluster/Storage.antt =====
-- internal/ingress/retained_storage.go: what a deployment with retained storage must find.
use self_hosted_deployer.Common.{
  String, Bool, false, Option, none, some, List, [], ◌∷◌, not, ◌==◌, ◌&&◌, ◌||◌, any, all, is_empty,
  Result, ok, err, ◌>>=◌, ◌>>◌, refuse, require,
}
use self_hosted_deployer.AppConfig.Types.{StorageMount, Config, Selector}
use self_hosted_deployer.AppConfig.Validate.Storage.{mounts, selector_value}
use self_hosted_deployer.Cluster.Types.{
  Pod, SelectorRequirement, PersistentVolume, PersistentVolumeClaim, Workload, Reply, got, absent,
  broken, ClusterError, not_configured, get_failed, list_failed, claim_missing, claim_deleting,
  claim_mode, claim_unbound, claim_read_only, volume_missing, volume_policy, volume_source,
  volume_unpinned, volume_claim, index_out_of_range, mounted_by_workload, mounted_by_pod,
  VolumeClient, PodClient, Api, need,
}

abbrev pub is_only : String → List String → Bool
is_only x (y ∷ []) = y == x
is_only x _ = false

-- The expression `deployer.io/node-id In (id)`.
abbrev pub is_exact_pin : String → SelectorRequirement → Bool
is_exact_pin id r = r.key == "deployer.io/node-id" && r.operator == "In" && is_only id r.values

abbrev pub every_term_pins : String → List (List SelectorRequirement) → Bool
every_term_pins id [] = false
every_term_pins id terms = all (any (is_exact_pin id)) terms

-- persistentVolumePinnedToNodeID
unfoldable pub persistent_volume_pinned : PersistentVolume → String → Bool
persistent_volume_pinned volume id = elim volume.required [
  | none ↦ false
  | some terms ↦ every_term_pins id terms
]

-- claimSupportsWrites
unfoldable pub claim_supports_writes : PersistentVolumeClaim → Bool
claim_supports_writes claim =
    any (λ m. m == "ReadWriteOnce" || m == "ReadWriteMany" || m == "ReadWriteOncePod")
      claim.access_modes

-- deploymentUsesClaim and podUsesClaim
abbrev pub uses_claim : String → List String → Bool
uses_claim claim claims = any (λ c. c == claim) claims

abbrev pub is_other_mode : Option String → Bool
is_other_mode none = false
is_other_mode (some mode) = not (mode == "Filesystem")

-- The checks on the claim alone.
unfoldable pub check_claim : PersistentVolumeClaim → Result ClusterError (Unit {0})
unfolding claim_supports_writes
check_claim claim =
    refuse claim.deleting claim_deleting
    >> refuse (is_other_mode claim.volume_mode) claim_mode
    >> refuse (not (claim.phase == "Bound") || is_empty claim.volume_name) claim_unbound
    >> require (claim_supports_writes claim) claim_read_only

abbrev pub is_other_claim : String → String → Option (String × String) → Bool
is_other_claim namespace name none = false
is_other_claim namespace name (some (space, claim)) =
    not (claim == name) || not (space == namespace)

-- cfg.Placement.Prefer[0]["node-id"]
abbrev pub pinned_node_id : List Selector → Option String
pinned_node_id [] = none
pinned_node_id (m ∷ ms) = some (selector_value "node-id" m)

-- The checks on the volume behind the claim.
unfoldable pub check_volume :
    String
    → PersistentVolumeClaim
    → PersistentVolume
    → List Selector
    → Result ClusterError (Unit {0})
unfolding persistent_volume_pinned
check_volume namespace claim volume prefer =
    require (volume.reclaim_policy == "Retain") volume_policy
    >> require volume.is_local volume_source
    >> need (pinned_node_id prefer) index_out_of_range
    >>= λ node_id.
        require (persistent_volume_pinned volume node_id) volume_unpinned
        >> refuse (is_other_claim namespace claim.name volume.claim_ref) volume_claim

-- A Deployment, or a Pod that may still run, of another application with the claim.
abbrev pub mounts_elsewhere : String → String → Workload → Bool
mounts_elsewhere app claim w = not (w.name == app) && uses_claim claim w.claims

abbrev pub runs_elsewhere : String → String → Pod → Bool
runs_elsewhere app claim p =
    not (
      p.phase == "Succeeded"
      || p.phase == "Failed"
      || selector_value "deployer.io/app" p.labels == app)
    && uses_claim claim p.claims

abbrev pub replied {ℓ} : {E : Type ℓ} {A : Type 0} → Reply A → E → E → Result E A
replied (got a) missing failed = ok a
replied absent missing failed = err missing
replied broken missing failed = err failed

-- The four clients that validateRetainedStorageRuntime asks for.
pub record StorageClients : Type 0 where
  pub claims : String → Reply PersistentVolumeClaim
  pub volumes : VolumeClient
  pub deployments : Option (List Workload)
  pub pods : PodClient

-- validateRetainedStorageRuntime of a configuration with storage
unfoldable pub validate_retained_storage_runtime : Api → Result ClusterError StorageClients
validate_retained_storage_runtime api = need api.claims not_configured >>= λ claims.
    need api.volumes not_configured >>= λ volumes.
    need api.deployments not_configured >>= λ deployments. need api.pods not_configured >>= λ pods.
    ok (record { claims = claims; volumes = volumes; deployments = deployments; pods = pods })

-- No Deployment and no Pod of another application mounts the claim.
unfoldable pub check_unmounted :
    StorageClients → Config → PersistentVolumeClaim → Result ClusterError (Unit {0})
check_unmounted api c claim = need api.deployments list_failed >>= λ workloads.
    refuse (any (mounts_elsewhere c.name claim.name) workloads) mounted_by_workload
    >> (need api.pods.all list_failed >>= λ pods.
        refuse (any (runs_elsewhere c.name claim.name) pods) mounted_by_pod)

-- preflightRetainedStorageMount
unfoldable pub preflight_mount :
    String → StorageClients → Config → StorageMount → Result ClusterError (Unit {0})
unfolding check_claim check_volume check_unmounted
preflight_mount namespace api c mount =
    replied (api.claims mount.existing_claim) claim_missing get_failed >>= λ claim.
    check_claim claim
    >> (replied (api.volumes.get claim.volume_name) volume_missing get_failed >>= λ volume.
        check_volume namespace claim volume c.placement.prefer >> check_unmounted api c claim)

unfoldable pub preflight_mounts :
    String → StorageClients → Config → List StorageMount → Result ClusterError (Unit {0})
unfolding preflight_mount
preflight_mounts namespace api c [] = ok tt
preflight_mounts namespace api c (m ∷ ms) =
    let rest = preflight_mounts namespace api c ms in preflight_mount namespace api c m >> rest

-- preflightRetainedStorage
unfoldable pub preflight_retained_storage : Api → Config → Result ClusterError (Unit {0})
unfolding validate_retained_storage_runtime preflight_mounts
preflight_retained_storage api c = elim c.storage [
  | none ↦ ok tt
  | some storage ↦ validate_retained_storage_runtime api >>= λ clients.
      preflight_mounts api.namespace clients c (mounts storage)
]
