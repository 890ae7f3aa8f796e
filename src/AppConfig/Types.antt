-- ===== src/AppConfig/Types.antt =====
-- The desired state of an application (internal/appconfig/config.go, hosting.go, postgres.go). A
-- pointer is an `Option`; a Go map is an association list whose order stands for the order of
-- iteration.
use self_hosted_deployer.Common.{String, Bool, Option, List, ℤ}

pub record HealthConfig : Type 0 where
  pub path : String

pub record ServiceConfig : Type 0 where
  pub port : ℤ
  pub health : HealthConfig

pub record MetricsConfig : Type 0 where
  pub port : ℤ
  pub path : String

pub record RoutingConfig : Type 0 where
  pub domain : String
  pub require_tls : Bool
  pub enable_proxy_retries : Option Bool

pub record DeployConfig : Type 0 where
  pub replicas : ℤ
  pub strategy : String

abbrev pub Selector : Type 0
Selector = List (String × String)

pub record PlacementConfig : Type 0 where
  pub arch : String
  pub spread : Bool
  pub prefer : List Selector
  pub fallback : List Selector

pub record StorageMount : Type 0 where
  pub existing_claim : String
  pub mount_path : String

pub record StorageConfig : Type 0 where
  pub existing_claim : String
  pub mount_path : String
  pub additional_mounts : List StorageMount

pub record StateConfig : Type 0 where
  pub mode : String

pub record ResilienceConfig : Type 0 where
  pub mode : String
  pub allow_unsafe_stateful_failover : Bool

pub record ResourceQuantities : Type 0 where
  pub cpu : String
  pub memory : String
  pub ephemeral_storage : String

pub record HostingResources : Type 0 where
  pub requests : ResourceQuantities
  pub limits : ResourceQuantities

pub record HostingEgressRule : Type 0 where
  pub cidr : String
  pub ports : List ℤ

pub record HostingNetwork : Type 0 where
  pub allow_dns : Option Bool
  pub egress : List HostingEgressRule

pub record HostingConfig : Type 0 where
  pub version : String
  pub resources : HostingResources
  pub max_replicas : ℤ
  pub network : HostingNetwork
  pub read_only_root_filesystem : Bool

pub record PostgresStorageConfig : Type 0 where
  pub size : String
  pub storage_class : String

pub record PostgresSynchronousConfig : Type 0 where
  pub replicas : ℤ
  pub data_durability : String

pub record PostgresConfig : Type 0 where
  pub instances : ℤ
  pub image : String
  pub database : String
  pub owner : String
  pub connection_env : String
  pub connection_mode : String
  pub storage : PostgresStorageConfig
  pub synchronous : PostgresSynchronousConfig
  pub retention_policy : String

pub record DatabaseConfig : Type 0 where
  pub postgres : Option PostgresConfig

pub record Config : Type 0 where
  pub image_pull_credential : String
  pub environment_revision : String
  pub name : String
  pub image : String
  pub service : ServiceConfig
  pub metrics : Option MetricsConfig
  pub routing : RoutingConfig
  pub deploy : DeployConfig
  pub placement : PlacementConfig
  pub storage : Option StorageConfig
  pub secrets : List String
  pub state : StateConfig
  pub resilience : ResilienceConfig
  pub database : DatabaseConfig
  pub hosting : Option HostingConfig
