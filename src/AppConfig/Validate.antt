-- ===== src/AppConfig/Validate.antt =====
-- `Config.Validate` (internal/appconfig/config.go), in the order of its checks.
pub mod Storage
pub mod Hosting
pub mod PostgresImage
pub mod Postgres
pub mod Facts
pub mod Mounts
use Prim.Native.String.{len}
use self_hosted_deployer.Common.{
  String, Bool, true, false, Option, none, some, List, [], ◌∷◌, ◌==◌, not, ◌&&◌, ◌||◌, is_empty,
  any, length, nat_eq, ltb, ℤ, pos, lt_int, eq_int, has_prefix, valid_revision, if◌then◌else◌,
  Result, ok, err, refuse, ◌>>=◌, ◌>>◌,
}
use self_hosted_deployer.AppConfig.Types.{MetricsConfig, PostgresConfig, HostingConfig, Config}
use self_hosted_deployer.AppConfig.Errors.{
  ConfigError, credential_revision, environment_revision, environment_with_secrets, name_required,
  name_pattern, image_required, port_required, port_range, health_required, health_slash,
  tls_needs_domain, metrics_port, metrics_path, metrics_slash, replicas_positive, state_mode,
  resilience_mode, unsafe_failover, fallback_selectors, pinned_selector, duplicate_secret,
  hosting_with_managed,
}
use self_hosted_deployer.AppConfig.Externals.{Externals}
use self_hosted_deployer.AppConfig.Names.{matches_app_name, validate_secret_name}
use Storage.{validate_storage}
use Hosting.{validate_hosting}
use Postgres.{member, validate_database}

-- The revisions, the name and the image.
unfoldable pub validate_identity : Config → Result ConfigError (Unit {0})
validate_identity c = do
  refuse (not (is_empty c.image_pull_credential) && not (valid_revision c.image_pull_credential))
      credential_revision
  refuse (not (is_empty c.environment_revision) && not (valid_revision c.environment_revision))
      environment_revision
  refuse (not (is_empty c.environment_revision) && ltb 0 (length c.secrets))
      environment_with_secrets
  refuse (is_empty c.name) name_required
  refuse (ltb 63 (len c.name) || not (matches_app_name c.name)) name_pattern
  refuse (is_empty c.image) image_required

-- The service and its route.
unfoldable pub validate_service : Config → Result ConfigError (Unit {0})
validate_service c = do
  refuse (eq_int c.service.port (pos 0)) port_required
  refuse (lt_int c.service.port (pos 1) || lt_int (pos 65535) c.service.port) port_range
  refuse (is_empty c.service.health.path) health_required
  refuse (not (has_prefix c.service.health.path "/")) health_slash
  refuse (c.routing.require_tls && is_empty c.routing.domain) tls_needs_domain

unfoldable pub validate_metrics : Option MetricsConfig → Result ConfigError (Unit {0})
validate_metrics none = ok tt
validate_metrics (some m) = do
  refuse (lt_int m.port (pos 1) || lt_int (pos 65535) m.port) metrics_port
  refuse (is_empty m.path) metrics_path
  refuse (not (has_prefix m.path "/")) metrics_slash

-- The modes of state and resilience, and the placement that they require.
unfoldable pub validate_modes : Config → Result ConfigError (Unit {0})
validate_modes c = do
  refuse (lt_int c.deploy.replicas (pos 1)) replicas_positive
  refuse
      (not (c.state.mode == "stateless" || c.state.mode == "stateful" || c.state.mode == "cache"))
      state_mode
  refuse
      (not (
        c.resilience.mode == "basic"
        || c.resilience.mode == "resilient"
        || c.resilience.mode == "fallback"
        || c.resilience.mode == "pinned"))
      resilience_mode
  refuse
      (not (c.state.mode == "stateless")
        && (c.resilience.mode == "resilient" || c.resilience.mode == "fallback")
        && not c.resilience.allow_unsafe_stateful_failover)
      unsafe_failover
  refuse
      (c.resilience.mode == "fallback"
        && (nat_eq (length c.placement.prefer) 0 || nat_eq (length c.placement.fallback) 0))
      fallback_selectors
  refuse (c.resilience.mode == "pinned" && not (nat_eq (length c.placement.prefer) 1))
      pinned_selector

-- The loop over the secrets; the result is the set `seenSecrets`.
unfoldable pub validate_secrets : List String → List String → Result ConfigError (List String)
validate_secrets seen [] = ok seen
validate_secrets seen (secret ∷ rest) = do
  validate_secret_name secret
  refuse (member secret seen) duplicate_secret
  validate_secrets (secret ∷ seen) rest

-- The replicas that the hosting profile has to admit.
unfoldable pub hosting_replicas : Config → ℤ
hosting_replicas c =
    if c.resilience.mode == "resilient" && lt_int c.deploy.replicas (pos 2)
    then pos 2
    else c.deploy.replicas

unfoldable pub is_hosted : Option HostingConfig → Bool
is_hosted none = false
is_hosted (some _) = true

unfoldable pub is_managed : Option PostgresConfig → Bool
is_managed none = false
is_managed (some p) = p.connection_mode == "managed"

module _ (ext : Externals) where
  unfoldable pub validate : Config → Result ConfigError (Unit {0})
  validate c = do
    validate_identity c
    validate_service c
    validate_metrics c.metrics
    validate_modes c
    validate_storage ext c
    seen_secrets ← validate_secrets [] c.secrets
    validate_database ext c.database.postgres c.name c.placement.arch seen_secrets
    validate_hosting ext c.hosting (hosting_replicas c)
    refuse (is_hosted c.hosting && is_managed c.database.postgres) hosting_with_managed
