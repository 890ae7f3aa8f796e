-- ===== src/AppConfig/Validate/Postgres.antt =====
-- `DatabaseConfig.validate` and its helpers (internal/appconfig/postgres.go).
use Prim.Native.String.{len}
use self_hosted_deployer.Common.{
  String, Bool, Option, none, some, List, [], ◌∷◌, ◌==◌, not, ◌||◌, is_empty, any, ltb, pos, lt_int,
  has_prefix, concat, if◌then◌else◌, Result, ok, err, refuse, ◌>>=◌, ◌>>◌,
}
use self_hosted_deployer.AppConfig.Types.{PostgresStorageConfig, PostgresConfig}
use self_hosted_deployer.AppConfig.Errors.{
  ConfigError, postgres_name_length, postgres_name_label, postgres_arch, postgres_instances,
  postgres_database, postgres_database_reserved, postgres_owner, postgres_owner_reserved,
  env_reserved, env_in_secrets, secret_reserved, env_not_in_secrets, connection_mode, storage_size,
  storage_size_positive, storage_size_minimum, storage_class, storage_class_pattern,
  synchronous_replicas, data_durability, retention_policy,
}
use self_hosted_deployer.AppConfig.Externals.{Externals}
use self_hosted_deployer.AppConfig.Names.{matches_postgres_identifier, validate_secret_name}
use self_hosted_deployer.AppConfig.Validate.PostgresImage.{postgres_image_major}

-- A key of a Go set of texts.
abbrev pub member : String → List String → Bool
member s = any (λ x. x == s)

abbrev pub reserved_databases : List String
reserved_databases = "postgres" ∷ "template0" ∷ "template1" ∷ []

abbrev pub reserved_owners : List String
reserved_owners = "cnpg_pooler_pgbouncer" ∷ "postgres" ∷ "streaming_replica" ∷ []

abbrev pub reserved_environments : List String
reserved_environments = "PGSSLMODE" ∷ "PGCHANNELBINDING" ∷ "PGREQUIREAUTH" ∷ []

unfoldable pub validate_postgres_connection :
    PostgresConfig → List String → Result ConfigError (Unit {0})
validate_postgres_connection p secrets =
    if p.connection_mode == "managed"
    then (do
      refuse (member p.connection_env reserved_environments) env_reserved
      refuse (member p.connection_env secrets) env_in_secrets
      refuse (any (λ name. member name secrets) reserved_environments) secret_reserved)
    else if p.connection_mode == "external"
    then refuse (not (member p.connection_env secrets)) env_not_in_secrets
    else err connection_mode

unfoldable pub validate_postgres_names : PostgresConfig → Result ConfigError (Unit {0})
validate_postgres_names p = do
  refuse (not (matches_postgres_identifier p.database)) postgres_database
  refuse (member p.database reserved_databases) postgres_database_reserved
  refuse (not (matches_postgres_identifier p.owner)) postgres_owner
  refuse (member p.owner reserved_owners || has_prefix p.owner "pg_" || has_prefix p.owner "cnpg_")
      postgres_owner_reserved

unfoldable pub validate_postgres_synchronous : PostgresConfig → Result ConfigError (Unit {0})
validate_postgres_synchronous p = do
  refuse (lt_int p.synchronous.replicas (pos 1) || not (lt_int p.synchronous.replicas p.instances))
      synchronous_replicas
  refuse
      (not (
        p.synchronous.data_durability == "required"
        || p.synchronous.data_durability == "preferred"))
      data_durability
  refuse (not (p.retention_policy == "retain")) retention_policy

module _ (ext : Externals) where
  open ext use {
    Quantity, parse_quantity, positive, less, minimum_postgres_storage, is_dns1123_subdomain,
    is_dns1035_label,
  }

  unfoldable pub validate_postgres_storage : PostgresStorageConfig → Result ConfigError (Unit {0})
  validate_postgres_storage storage = elim (parse_quantity storage.size) [
    | none ↦ err storage_size
    | some quantity ↦ do
      refuse (not (positive quantity)) storage_size_positive
      refuse (less quantity minimum_postgres_storage) storage_size_minimum
      refuse (is_empty storage.storage_class) storage_class
      refuse (not (is_dns1123_subdomain storage.storage_class)) storage_class_pattern
  ]

  -- The application's name, its architecture and the cluster itself.
  unfoldable pub validate_postgres_cluster :
      PostgresConfig → String → String → Result ConfigError (Unit {0})
  validate_postgres_cluster p app_name arch = do
    refuse (ltb 50 (len (concat app_name "-db"))) postgres_name_length
    refuse (not (is_dns1035_label (concat app_name "-db"))) postgres_name_label
    refuse (not (arch == "linux/amd64" || arch == "linux/arm64")) postgres_arch
    refuse (lt_int p.instances (pos 3) || lt_int (pos 9) p.instances) postgres_instances
    _ ← postgres_image_major p.image
    ok tt

  unfoldable pub validate_database :
      Option PostgresConfig → String → String → List String → Result ConfigError (Unit {0})
  validate_database none app_name arch secrets = ok tt
  validate_database (some p) app_name arch secrets = do
    validate_postgres_cluster p app_name arch
    validate_postgres_names p
    validate_secret_name p.connection_env
    validate_postgres_connection p secrets
    validate_postgres_storage p.storage
    validate_postgres_synchronous p
