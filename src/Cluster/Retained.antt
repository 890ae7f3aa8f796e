-- ===== src/Cluster/Retained.antt =====
-- What an accepted preflight of retained storage has found.
use self_hosted_deployer.Common.{
  String, true, false, Option, none, some, List, [], ◌∷◌, not, ◌==◌, ◌||◌, any, All, eq_iff,
  is_empty, ◌≡◌, ◌⊎◌, arith, ok, ◌>>=◌, ◌>>◌, refuse, require, >>=-ok, >>-ok, refuse-ok, require-ok,
}
use self_hosted_deployer.AppConfig.Types.{StorageMount, StorageConfig, Config, Selector}
use self_hosted_deployer.AppConfig.Validate.Storage.{mounts, selector_value}
use self_hosted_deployer.Cluster.Types.{
  Pod, PersistentVolume, PersistentVolumeClaim, Workload, Reply, got, absent, broken, ClusterError,
  get_failed, list_failed, claim_missing, claim_deleting, claim_mode, claim_unbound,
  claim_read_only, volume_missing, volume_policy, volume_source, volume_unpinned, volume_claim,
  index_out_of_range, mounted_by_workload, mounted_by_pod, Api, need,
}
use self_hosted_deployer.Cluster.Claims.{
  IsPinned, Refers, every_term-IsPinned, All-of_none, elsewhere_free, running_free,
}
use self_hosted_deployer.Cluster.Storage.{
  persistent_volume_pinned, claim_supports_writes, is_other_mode, check_claim, is_other_claim,
  pinned_node_id, check_volume, check_unmounted, mounts_elsewhere, runs_elsewhere, replied,
  StorageClients, validate_retained_storage_runtime, preflight_mount, preflight_mounts,
  preflight_retained_storage,
}

replied-ok {ℓ} :
    {E : Type ℓ} {A : Type 0} (r : Reply A) (missing failed : E) {a : A}
    → replied r missing failed ≡ ok a
    → r ≡ got a
replied-ok (got b) missing failed h = cc
replied-ok absent missing failed h = cc
replied-ok broken missing failed h = cc

need-ok {ℓ κ} :
    {E : Type ℓ} {A : Type κ} (o : Option A) (e : E) {a : A} → need o e ≡ ok a → o ≡ some a
need-ok none e h = cc
need-ok (some b) e h = cc

check_claim-ok :
    (claim : PersistentVolumeClaim)
    → check_claim claim ≡ ok tt
    → (claim.deleting ≡ false) × (claim.phase ≡ "Bound") × (claim_supports_writes claim ≡ true)
unfolding check_claim
check_claim-ok claim h =
    let (h3, w) = >>-ok _ (require (claim_supports_writes claim) claim_read_only) h in
    let (h2, b) =
      >>-ok _ (refuse (not (claim.phase == "Bound") || is_empty claim.volume_name) claim_unbound)
        h3 in
    let (d, m) =
      >>-ok (refuse claim.deleting claim_deleting)
        (refuse (is_other_mode claim.volume_mode) claim_mode) h2 in
    let phase_bound : (not (claim.phase == "Bound") || is_empty claim.volume_name) ≡ false
        → (claim.phase == "Bound") ≡ true =
      λ g. ground arith in
    (
      refuse-ok _ claim_deleting d,
      (eq_iff _ _).0 (phase_bound (refuse-ok _ claim_unbound b)),
      require-ok _ claim_read_only w,
    )

check_volume-ok :
    (namespace : String) (claim : PersistentVolumeClaim) (volume : PersistentVolume)
    (prefer : List Selector)
    → check_volume namespace claim volume prefer ≡ ok tt
    → (volume.reclaim_policy ≡ "Retain")
      × (volume.is_local ≡ true)
      × ((id : String) × (pinned_node_id prefer ≡ some id) × IsPinned id volume.required)
unfolding check_volume persistent_volume_pinned
check_volume-ok namespace claim volume prefer h =
    let (id, n, t) =
      >>=-ok
        (require (volume.reclaim_policy == "Retain") volume_policy
          >> require volume.is_local volume_source
          >> need (pinned_node_id prefer) index_out_of_range)
        (λ node_id.
          require (persistent_volume_pinned volume node_id) volume_unpinned
          >> refuse (is_other_claim namespace claim.name volume.claim_ref) volume_claim)
        h in
    let (pl, n') =
      >>-ok
        (require (volume.reclaim_policy == "Retain") volume_policy
          >> require volume.is_local volume_source)
        (need (pinned_node_id prefer) index_out_of_range) n in
    let (p, l) =
      >>-ok (require (volume.reclaim_policy == "Retain") volume_policy)
        (require volume.is_local volume_source) pl in
    let (v, o) =
      >>-ok (require (persistent_volume_pinned volume id) volume_unpinned)
        (refuse (is_other_claim namespace claim.name volume.claim_ref) volume_claim) t in
    (
      (eq_iff _ _).0 (require-ok _ volume_policy p),
      require-ok _ volume_source l,
      (
        id,
        need-ok _ index_out_of_range n',
        every_term-IsPinned id volume.required (require-ok _ volume_unpinned v),
      ),
    )

-- Nobody else mounts the claim.
pub record IsUnmounted (api : StorageClients) (c : Config) (claim : String) : Type 0 where
  pub workloads : List Workload
  pub workloads_listed : api.deployments ≡ some workloads
  pub not_mounted : All (λ w. (w.name ≡ c.name) ⊎ (Refers claim w.claims → ⊥)) workloads
  pub pods : List Pod
  pub pods_listed : api.pods.all ≡ some pods
  pub not_running :
      All
        (λ p.
          (p.phase ≡ "Succeeded")
          ⊎ (p.phase ≡ "Failed")
          ⊎ (selector_value "deployer.io/app" p.labels ≡ c.name)
          ⊎ (Refers claim p.claims → ⊥))
        pods

check_unmounted-IsUnmounted :
    (api : StorageClients) (c : Config) (claim : PersistentVolumeClaim)
    → check_unmounted api c claim ≡ ok tt
    → IsUnmounted api c claim.name
unfolding check_unmounted
check_unmounted-IsUnmounted api c claim h =
    let behind_pods = λ (pods : List Pod).
      refuse {E = ClusterError} (any (runs_elsewhere c.name claim.name) pods) mounted_by_pod in
    let behind_workloads = λ (workloads : List Workload).
      refuse (any (mounts_elsewhere c.name claim.name) workloads) mounted_by_workload
      >> (need api.pods.all list_failed >>= behind_pods) in
    let (workloads, wl, h5) = >>=-ok (need api.deployments list_failed) behind_workloads h in
    let (mw, h6) =
      >>-ok (refuse (any (mounts_elsewhere c.name claim.name) workloads) mounted_by_workload)
        (need api.pods.all list_failed >>= behind_pods) h5 in
    let (pods, pl, mp) = >>=-ok (need api.pods.all list_failed) behind_pods h6 in
    record {
      workloads = workloads;
      workloads_listed = need-ok _ list_failed wl;
      not_mounted =
          All-of_none _ _ (elsewhere_free c.name claim.name) workloads
            (refuse-ok _ mounted_by_workload mw);
      pods = pods;
      pods_listed = need-ok _ list_failed pl;
      not_running =
          All-of_none _ _ (running_free c.name claim.name) pods (refuse-ok _ mounted_by_pod mp);
    }

pub record IsSafeMount (namespace : String) (api : StorageClients) (c : Config) (m : StorageMount)
    : Type 0 where
  pub claim : PersistentVolumeClaim
  pub volume : PersistentVolume
  pub node_id : String
  pub claim_found : api.claims m.existing_claim ≡ got claim
  pub claim_kept : claim.deleting ≡ false
  pub bound : claim.phase ≡ "Bound"
  pub writable : claim_supports_writes claim ≡ true
  pub volume_found : api.volumes.get claim.volume_name ≡ got volume
  pub retained : volume.reclaim_policy ≡ "Retain"
  pub local : volume.is_local ≡ true
  pub node_chosen : pinned_node_id c.placement.prefer ≡ some node_id
  pub pinned : IsPinned node_id volume.required
  pub unmounted : IsUnmounted api c claim.name

preflight_mount-IsSafe :
    (namespace : String) (api : StorageClients) (c : Config) (m : StorageMount)
    → preflight_mount namespace api c m ≡ ok tt
    → IsSafeMount namespace api c m
unfolding preflight_mount
preflight_mount-IsSafe namespace api c m h =
    let behind_volume = λ (claim : PersistentVolumeClaim) (volume : PersistentVolume).
      check_volume namespace claim volume c.placement.prefer >> check_unmounted api c claim in
    let (claim, cf, h1) =
      >>=-ok (replied (api.claims m.existing_claim) claim_missing get_failed)
        (λ claim.
          check_claim claim
          >> (replied (api.volumes.get claim.volume_name) volume_missing get_failed
              >>= behind_volume claim))
        h in
    let (checked, h2) =
      >>-ok (check_claim claim)
        (replied (api.volumes.get claim.volume_name) volume_missing get_failed
          >>= behind_volume claim)
        h1 in
    let (volume, vf, h3) =
      >>=-ok (replied (api.volumes.get claim.volume_name) volume_missing get_failed)
        (behind_volume claim) h2 in
    let (cv, h4) =
      >>-ok (check_volume namespace claim volume c.placement.prefer) (check_unmounted api c claim)
        h3 in
    let (kept, bound, writable) = check_claim-ok claim checked in
    let (retained, local, (id, chosen, pinned)) =
      check_volume-ok namespace claim volume c.placement.prefer cv in
    record {
      claim = claim;
      volume = volume;
      node_id = id;
      claim_found = replied-ok _ claim_missing get_failed cf;
      claim_kept = kept;
      bound = bound;
      writable = writable;
      volume_found = replied-ok _ volume_missing get_failed vf;
      retained = retained;
      local = local;
      node_chosen = chosen;
      pinned = pinned;
      unmounted = check_unmounted-IsUnmounted api c claim h4;
    }

preflight_mounts-IsSafe :
    (namespace : String) (api : StorageClients) (c : Config) (ms : List StorageMount)
    → preflight_mounts namespace api c ms ≡ ok tt
    → All (IsSafeMount namespace api c) ms
unfolding preflight_mounts
preflight_mounts-IsSafe namespace api c [] h = tt
preflight_mounts-IsSafe namespace api c (m ∷ ms) h =
    let (one, rest) =
      >>-ok (preflight_mount namespace api c m) (preflight_mounts namespace api c ms) h in
    (preflight_mount-IsSafe namespace api c m one, preflight_mounts-IsSafe namespace api c ms rest)

-- A preflight that accepts retained storage has all four clients, and finds for each mount a bound,
-- writable claim that is not being deleted, on a retained local volume whose every node term names
-- the preferred node alone, which no Deployment and no Pod that may still run of another application
-- mounts.
pub preflight-IsSafe :
    (api : Api) (c : Config) (storage : StorageConfig)
    → c.storage ≡ some storage
    → preflight_retained_storage api c ≡ ok tt
    → (clients : StorageClients) × (validate_retained_storage_runtime api ≡ ok clients)
      × All (IsSafeMount api.namespace clients c) (mounts storage)
unfolding preflight_retained_storage
preflight-IsSafe api c storage e h =
    let (clients, v, p) =
      >>=-ok (validate_retained_storage_runtime api)
        (λ clients. preflight_mounts api.namespace clients c (mounts storage)) (rw e at h) in
    (clients, v, preflight_mounts-IsSafe api.namespace clients c (mounts storage) p)
