-- ===== src/Examples/Cluster.antt =====
-- The theorems on the cluster, with a node that hosts a web application and a vault.
use self_hosted_deployer.Common.{String, true, false, none, some, [], ◌∷◌, ◌≡◌, refl, All, ok}
use self_hosted_deployer.AppConfig.Validate.Storage.{mounts, selector_value}
use self_hosted_deployer.Cluster.Types.{
  Node, Pod, PersistentVolume, PersistentVolumeClaim, Workload, got, Api,
}
use self_hosted_deployer.Cluster.Storage.{
  StorageClients, validate_retained_storage_runtime, preflight_retained_storage,
}
use self_hosted_deployer.Cluster.Retained.{IsSafeMount, preflight-IsSafe}
use self_hosted_deployer.Examples.Data.{vault, vault_storage}

abbrev volume : PersistentVolume
volume = record {
  name = "pv-1";
  is_local = true;
  reclaim_policy = "Retain";
  claim_ref = none;
  required =
      some
        ((record { key = "deployer.io/node-id"; operator = "In"; values = "n1" ∷ [] } ∷ []) ∷ []);
}

abbrev claim_named : String → PersistentVolumeClaim
claim_named name = record {
  name = name;
  deleting = false;
  volume_mode = none;
  phase = "Bound";
  volume_name = "pv-1";
  access_modes = "ReadWriteOnce" ∷ [];
}

abbrev web_pod : Pod
web_pod = record {
  name = "web-1";
  namespace = "apps";
  phase = "Running";
  labels = ("deployer.io/app", "web") ∷ ("deployer.io/state-mode", "stateless") ∷ [];
  claims = [];
}

abbrev vault_pod : Pod
vault_pod = record {
  name = "vault-1";
  namespace = "apps";
  phase = "Running";
  labels = ("deployer.io/app", "vault") ∷ ("deployer.io/state-mode", "stateful") ∷ [];
  claims = "vault-data" ∷ [];
}

abbrev vault_workload : Workload
vault_workload = record {
  name = "vault";
  annotations = ("deployer.io/retained-storage-claim", "vault-data") ∷ [];
  node_selector = ("deployer.io/node-id", "n1") ∷ [];
  claims = "vault-data" ∷ [];
}

abbrev node_named : String → Node
node_named name = record {
  name = name;
  labels = ("deployer.io/node-id", name) ∷ [];
  unschedulable = false;
  conditions = [];
}

abbrev api : Api
api = record {
  namespace = "apps";
  volumes = some (record { get = λ name. got volume; all = some (volume ∷ []) });
  claims = some (λ name. got (claim_named name));
  deployments = some (some (vault_workload ∷ []));
  pods = some (record {
    all = some (web_pod ∷ vault_pod ∷ []);
    on_node = λ name. some (web_pod ∷ vault_pod ∷ []);
  });
  evictions = some (λ p. got tt);
  nodes = some (record {
    get = λ name. got (node_named name);
    all = none;
    update = λ name value. true;
    delete = λ name. got tt;
  });
}

preflight-IsSafe_example :
    (clients : StorageClients) × (validate_retained_storage_runtime api ≡ ok clients)
    × All (IsSafeMount "apps" clients vault) (mounts vault_storage)
unfolding preflight_retained_storage mounts selector_value
preflight-IsSafe_example = preflight-IsSafe api vault vault_storage refl refl
