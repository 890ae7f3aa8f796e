-- ===== src/AppConfig/Normalize.antt =====
-- `Config.Normalize` of internal/appconfig/config.go and `DatabaseConfig.normalize` of postgres.go.
pub mod Idempotence
pub mod Selectors
use self_hosted_deployer.Common.{
  String, Bool, Option, none, some, List, [], ◌∷◌, map, ◌==◌, is_empty, trim_space, ℤ, pos, eq_int,
  if◌then◌else◌,
}
use self_hosted_deployer.AppConfig.Types.{
  HealthConfig, ServiceConfig, MetricsConfig, RoutingConfig, DeployConfig, Selector,
  PlacementConfig, StorageMount, StorageConfig, StateConfig, ResilienceConfig, PostgresConfig,
  DatabaseConfig, Config,
}

-- `if s == "" { s = d }`
unfoldable pub default_to : String → String → String
default_to d s = if is_empty s then d else s

unfoldable pub default_int : ℤ → ℤ → ℤ
default_int d n = if eq_int n (pos 0) then d else n

-- `clean[key] = value`: an entry keeps its place, a new one goes to the end.
unfoldable pub put : String → String → Selector → Selector
put k v [] = (k, v) ∷ []
put k v ((j, w) ∷ m) = if j == k then (k, v) ∷ m else (j, w) ∷ put k v m

-- The body of the loop over one selector, from the entries already in `clean`.
unfoldable pub clean_entries : Selector → Selector → Selector
clean_entries clean [] = clean
clean_entries clean ((key, value) ∷ rest) =
    clean_entries
      (if is_empty (trim_space key) then clean else put (trim_space key) (trim_space value) clean)
      rest

unfoldable pub normalize_placement_selectors : List Selector → List Selector
normalize_placement_selectors = map (clean_entries [])

unfoldable pub normalize_string_list : List String → List String
normalize_string_list = map trim_space

unfoldable pub normalize_metrics : Option MetricsConfig → Option MetricsConfig
normalize_metrics none = none
normalize_metrics (some m) = some (record { port = m.port; path = trim_space m.path })

unfoldable pub normalize_mount : StorageMount → StorageMount
normalize_mount m = record {
  existing_claim = trim_space m.existing_claim;
  mount_path = trim_space m.mount_path;
}

unfoldable pub normalize_storage : Option StorageConfig → Option StorageConfig
normalize_storage none = none
normalize_storage (some s) = some (record {
  existing_claim = trim_space s.existing_claim;
  mount_path = trim_space s.mount_path;
  additional_mounts = map normalize_mount s.additional_mounts;
})

-- The default strategy of an application with retained storage is `recreate`.
unfoldable pub normalize_strategy : Option StorageConfig → String → String
normalize_strategy none s = if is_empty s then "rolling" else s
normalize_strategy (some _) s = if is_empty s then "recreate" else s

unfoldable pub normalize_postgres : PostgresConfig → PostgresConfig
normalize_postgres p = record {
  instances = default_int (pos 3) p.instances;
  image = trim_space p.image;
  database = trim_space p.database;
  owner = trim_space p.owner;
  connection_env = default_to "DATABASE_URL" (trim_space p.connection_env);
  connection_mode = default_to "managed" (trim_space p.connection_mode);
  storage = record {
    size = trim_space p.storage.size;
    storage_class = default_to "local-path" (trim_space p.storage.storage_class);
  };
  synchronous = record {
    replicas = default_int (pos 1) p.synchronous.replicas;
    data_durability = default_to "required" (trim_space p.synchronous.data_durability);
  };
  retention_policy = default_to "retain" (trim_space p.retention_policy);
}

unfoldable pub normalize_database : Option PostgresConfig → Option PostgresConfig
normalize_database none = none
normalize_database (some p) = some (normalize_postgres p)

unfoldable pub normalize : Config → Config
normalize c = record {
  image_pull_credential = c.image_pull_credential;
  environment_revision = trim_space c.environment_revision;
  name = trim_space c.name;
  image = trim_space c.image;
  service = record {
    port = c.service.port;
    health = record { path = trim_space c.service.health.path };
  };
  metrics = normalize_metrics c.metrics;
  routing = record {
    domain = trim_space c.routing.domain;
    require_tls = c.routing.require_tls;
    enable_proxy_retries = c.routing.enable_proxy_retries;
  };
  deploy = record {
    replicas = c.deploy.replicas;
    strategy = normalize_strategy c.storage (trim_space c.deploy.strategy);
  };
  placement = record {
    arch = default_to "linux/arm64" (trim_space c.placement.arch);
    spread = c.placement.spread;
    prefer = normalize_placement_selectors c.placement.prefer;
    fallback = normalize_placement_selectors c.placement.fallback;
  };
  storage = normalize_storage c.storage;
  secrets = normalize_string_list c.secrets;
  state = record { mode = default_to "stateless" (trim_space c.state.mode) };
  resilience = record {
    mode = default_to "basic" (trim_space c.resilience.mode);
    allow_unsafe_stateful_failover = c.resilience.allow_unsafe_stateful_failover;
  };
  database = record { postgres = normalize_database c.database.postgres };
  hosting = c.hosting;
}
