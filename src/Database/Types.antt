-- ===== src/Database/Types.antt =====
-- `DatabaseStatus` of internal/domain/models.go, and the warnings of internal/server/app.go.
use self_hosted_deployer.Common.{
  is_empty, ◌≡◌, ℕ, ◌-◌, ◌%◌, ◌^◌, String, Bool, false, Option, List, [], ◌∷◌, ltb, if◌then◌else◌,
  ℤ, pos, negsuc,
}

-- int32(n)
abbrev pub to_int32 : ℤ → ℤ
to_int32 (pos n) = let r = n % 2 ^ 32 in if ltb r (2 ^ 31) then pos r else negsuc (2 ^ 32 - 1 - r)
to_int32 (negsuc n) =
    let r = n % 2 ^ 32 in if ltb r (2 ^ 31) then negsuc r else pos (2 ^ 32 - 1 - r)

pub record DatabaseStatus : Type 0 where
  pub present : Bool
  pub phase : String
  pub desired_instances : ℤ
  pub ready_instances : ℤ
  pub primary : String
  pub running_nodes : List String
  pub running_instances : List String
  pub owned_by_deployer : Bool
  pub image : String
  pub bootstrap_database : String
  pub bootstrap_owner : String
  pub data_checksums_enabled : Bool
  pub storage_size : String
  pub storage_class : String
  pub synchronous_method : String
  pub synchronous_replicas : ℤ
  pub data_durability : String
  pub failover_quorum_enabled : Bool
  pub anti_affinity_type : String
  pub topology_key : String
  pub architecture : String
  pub password_encryption : String
  pub rejects_non_tls : Bool
  pub requires_application_scram : Bool
  pub failover_quorum_present : Bool
  pub failover_quorum_method : String
  pub failover_quorum_standby_number : ℤ
  pub failover_quorum_primary : String
  pub failover_quorum_standby_names : List String

-- One constructor per message, with the values that the message prints.
pub data Warning : Type 0 where
  not_present primary_not_reported phase_not_reported : Warning
  ready_of ready_expected : (ready desired : ℤ) → Warning
  nodes_of nodes_expected : (nodes : ℕ) (desired : ℤ) → Warning
  phase_is : String → Warning
  external_mode runtime_unavailable : Warning
  status_unavailable : String → Warning
  not_owned no_checksums quorum_disabled accepts_non_tls no_scram : Warning
  image_is database_is owner_is size_is class_is method_is : (actual expected : String) → Warning
  durability_is affinity_is topology_is architecture_is : (actual expected : String) → Warning
  encryption_is : (actual expected : String) → Warning
  instances_are replicas_are : (actual expected : ℤ) → Warning
  quorum_missing quorum_primary_missing duplicate_standbys primary_among_standbys : Warning
  quorum_method_is quorum_primary_is : (actual expected : String) → Warning
  standby_number_is : (actual expected : ℤ) → Warning
  standbys_are : (actual expected : List String) → Warning

-- `if test { warnings = append(warnings, warning) }`, one behind the other.
unfoldable pub reported : List (Bool × Warning) → List Warning
reported [] = []
reported ((test, w) ∷ checks) = let rest = reported checks in if test then w ∷ rest else rest

-- `strings.EqualFold` over Unicode's table, by which no other text equals the empty one, and `resource.ParseQuantity` with `Cmp`.
pub record Texts : Type 1 where
  pub equal_fold : String → String → Bool
  pub equal_fold_empty : (t : String) → is_empty t ≡ false → equal_fold "" t ≡ false
  pub Quantity : Type 0
  pub parse_quantity : String → Option Quantity
  pub same_quantity : Quantity → Quantity → Bool
