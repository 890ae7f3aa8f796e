-- ===== src/Cluster/Types.antt =====
-- The objects of the Kubernetes API that the controller reads, with the fields that it looks at, the
-- answers of its clients, and runs that list the calls that change the cluster.
use self_hosted_deployer.Common.{
  String, Bool, Option, none, some, List, [], ◌∷◌, concat, Result, ok, err,
}
use self_hosted_deployer.AppConfig.Types.{Selector}

-- map[string]string
abbrev pub Labels : Type 0
Labels = Selector

pub record Condition : Type 0 where
  pub condition_type : String
  pub status : String
  pub message : String

-- corev1.Node
pub record Node : Type 0 where
  pub name : String
  pub labels : Labels
  pub unschedulable : Bool
  pub conditions : List Condition

-- corev1.Pod; `claims` has the claim of each volume that has one.
pub record Pod : Type 0 where
  pub name : String
  pub namespace : String
  pub phase : String
  pub labels : Labels
  pub claims : List String

pub record SelectorRequirement : Type 0 where
  pub key : String
  pub operator : String
  pub values : List String

-- corev1.PersistentVolume; `required` is the required node affinity, with the match expressions of
-- each term.
pub record PersistentVolume : Type 0 where
  pub name : String
  pub is_local : Bool
  pub reclaim_policy : String
  pub claim_ref : Option (String × String)
  pub required : Option (List (List SelectorRequirement))

-- corev1.PersistentVolumeClaim
pub record PersistentVolumeClaim : Type 0 where
  pub name : String
  pub deleting : Bool
  pub volume_mode : Option String
  pub phase : String
  pub volume_name : String
  pub access_modes : List String

-- appsv1.Deployment
pub record Workload : Type 0 where
  pub name : String
  pub annotations : Labels
  pub node_selector : Labels
  pub claims : List String

-- A `Get`: the object, NotFound, or another error.
pub data Reply (A : Type 0) : Type 0 where
  got : A → Reply A
  absent : Reply A
  broken : Reply A

pub data ClusterError : Type 0 where
  not_configured get_failed list_failed update_failed delete_failed evict_failed : ClusterError
  hosts_databases retained_volume retained_workload unpinned_workload : ClusterError
  claim_missing claim_deleting claim_mode claim_unbound claim_read_only volume_missing :
      ClusterError
  volume_policy volume_source volume_unpinned volume_claim index_out_of_range : ClusterError
  mounted_by_workload mounted_by_pod no_worker : ClusterError

-- The calls that change the cluster.
pub data ClusterCall : Type 0 where
  update_node : String → Bool → ClusterCall
  delete_node : String → ClusterCall
  evict : Pod → ClusterCall

pub record VolumeClient : Type 0 where
  pub get : String → Reply PersistentVolume
  pub all : Option (List PersistentVolume)

pub record PodClient : Type 0 where
  pub all : Option (List Pod)
  pub on_node : String → Option (List Pod)

pub record NodeClient : Type 0 where
  pub get : String → Reply Node
  pub all : Option (List Node)
  pub update : String → Bool → Bool
  pub delete : String → Reply (Unit {0})

-- The clients of a controller, as they answer during one call. A client is `none` where the
-- controller has none, and so is the answer of a `List` that fails.
pub record Api : Type 0 where
  pub namespace : String
  pub volumes : Option VolumeClient
  pub claims : Option (String → Reply PersistentVolumeClaim)
  pub deployments : Option (Option (List Workload))
  pub pods : Option PodClient
  pub evictions : Option (Pod → Reply (Unit {0}))
  pub nodes : Option NodeClient

abbrev pub need {ℓ κ} : {E : Type ℓ} {A : Type κ} → Option A → E → Result E A
need none e = err e
need (some a) e = ok a

-- The parts of a text: none but the empty one, an empty one more, and a text before the first.
abbrev pub one_part : List String
one_part = "" ∷ []

abbrev pub new_part : List String → List String
new_part parts = "" ∷ parts

abbrev pub onto_first : String → List String → List String
onto_first s [] = s ∷ []
onto_first s (part ∷ parts) = concat s part ∷ parts
