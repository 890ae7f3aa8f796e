-- ===== src/AppConfig/Validate/Facts.antt =====
-- What a configuration that `Config.Validate` accepts is sure to be (internal/appconfig).
use Prim.Native.String.{len}
use self_hosted_deployer.Common.{
  ◌<◌, ◌≤◌, String, true, false, List, [], eq_iff, ◌&&◌, is_empty, ◌≡◌, ◌≢◌, arith, ◌⊎◌, length,
  pos, lt_int, InRange, InRange-of_tests, has_prefix, ok, refuse-ok, >>-ok, >>=-ok,
}
use self_hosted_deployer.AppConfig.Types.{Config}
use self_hosted_deployer.AppConfig.Externals.{Externals}
use self_hosted_deployer.AppConfig.Names.{matches_app_name}
use self_hosted_deployer.AppConfig.Validate.Storage.{validate_storage}
use self_hosted_deployer.AppConfig.Validate.Hosting.{validate_hosting}
use self_hosted_deployer.AppConfig.Validate.Postgres.{validate_database}
use self_hosted_deployer.AppConfig.Validate.{
  validate_identity, validate_service, validate_metrics, validate_modes, validate_secrets,
  hosting_replicas, is_hosted, is_managed, validate,
}

-- The checks that have all passed.
pub record Passed (ext : Externals) (c : Config) : Type 0 where
  pub identity : validate_identity c ≡ ok tt
  pub service : validate_service c ≡ ok tt
  pub metrics : validate_metrics c.metrics ≡ ok tt
  pub modes : validate_modes c ≡ ok tt
  pub storage : validate_storage ext c ≡ ok tt
  pub secrets :
      (seen : List String) × (validate_secrets [] c.secrets ≡ ok seen)
      × (validate_database ext c.database.postgres c.name c.placement.arch seen ≡ ok tt)
  pub hosting : validate_hosting ext c.hosting (hosting_replicas c) ≡ ok tt
  pub apart : (is_hosted c.hosting && is_managed c.database.postgres) ≡ false

pub validate-Passed : (ext : Externals) (c : Config) → validate ext c ≡ ok tt → Passed ext c
unfolding validate
validate-Passed ext c h =
    let (identity, h1) = >>-ok (validate_identity c) _ h in
    let (service, h2) = >>-ok (validate_service c) _ h1 in
    let (metrics, h3) = >>-ok (validate_metrics c.metrics) _ h2 in
    let (modes, h4) = >>-ok (validate_modes c) _ h3 in
    let (storage, h5) = >>-ok (validate_storage ext c) _ h4 in
    let (seen, secrets, h6) = >>=-ok (validate_secrets [] c.secrets) _ h5 in
    let (database, h7) =
      >>-ok (validate_database ext c.database.postgres c.name c.placement.arch seen) _ h6 in
    let (hosting, h8) = >>-ok (validate_hosting ext c.hosting (hosting_replicas c)) _ h7 in
    record {
      identity = identity;
      service = service;
      metrics = metrics;
      modes = modes;
      storage = storage;
      secrets = (seen, secrets, database);
      hosting = hosting;
      apart = refuse-ok _ _ h8;
    }

-- A name that Kubernetes takes, an image, a port and a health path, and TLS only with a domain.
pub record IsDeployable (c : Config) : Type 0 where
  pub name_length : len c.name ≤ 63
  pub name_shape : matches_app_name c.name ≡ true
  pub image : is_empty c.image ≡ false
  pub port : InRange 1 65535 c.service.port
  pub health : has_prefix c.service.health.path "/" ≡ true
  pub replicas : lt_int (pos 0) c.deploy.replicas ≡ true
  pub tls : c.routing.require_tls ≡ true → is_empty c.routing.domain ≡ false
  pub failover :
      c.state.mode ≢ "stateless"
      → (c.resilience.mode ≡ "resilient") ⊎ (c.resilience.mode ≡ "fallback")
      → c.resilience.allow_unsafe_stateful_failover ≡ true
  pub fallback :
      c.resilience.mode ≡ "fallback"
      → (0 < length c.placement.prefer) × (0 < length c.placement.fallback)
  pub pinned : c.resilience.mode ≡ "pinned" → length c.placement.prefer ≡ 1

identity_facts :
    (c : Config)
    → validate_identity c ≡ ok tt
    → (len c.name ≤ 63) × (matches_app_name c.name ≡ true) × (is_empty c.image ≡ false)
unfolding validate_identity
identity_facts c h = (ground arith, ground arith, ground arith)

service_facts :
    (c : Config)
    → validate_service c ≡ ok tt
    → InRange 1 65535 c.service.port
      × (has_prefix c.service.health.path "/" ≡ true)
      × (c.routing.require_tls ≡ true → is_empty c.routing.domain ≡ false)
unfolding validate_service
service_facts c h = (
  InRange-of_tests 1 65535 c.service.port (ground arith) (ground arith),
  ground arith,
  λ t. ground arith,
)

mode_facts :
    (c : Config)
    → validate_modes c ≡ ok tt
    → (lt_int (pos 0) c.deploy.replicas ≡ true)
      × (c.state.mode ≢ "stateless"
          → (c.resilience.mode ≡ "resilient") ⊎ (c.resilience.mode ≡ "fallback")
          → c.resilience.allow_unsafe_stateful_failover ≡ true)
      × (c.resilience.mode ≡ "fallback"
          → (0 < length c.placement.prefer) × (0 < length c.placement.fallback))
      × (c.resilience.mode ≡ "pinned" → length c.placement.prefer ≡ 1)
unfolding validate_modes
mode_facts c h = (
  ground arith,
  λ n r. ground (
    arith,
    eq_iff c.state.mode "stateless",
    eq_iff c.resilience.mode "resilient",
    eq_iff c.resilience.mode "fallback",
  ),
  λ f. (
    ground (arith, eq_iff c.resilience.mode "fallback"),
    ground (arith, eq_iff c.resilience.mode "fallback"),
  ),
  λ p. ground (arith, eq_iff c.resilience.mode "pinned"),
)

-- A configuration that `Validate` accepts has a name of 63 bytes at most in the shape of a
-- Kubernetes name, an image, a port from 1 to 65535, a health path that starts with a slash, and one
-- replica at least; TLS comes with a domain; an application that is not stateless is resilient or
-- falls back only with the unsafe failover allowed; one that falls back has a selector that it
-- prefers and one to fall back to; a pinned one has one selector that it prefers.
pub validate-IsDeployable : (ext : Externals) (c : Config) → validate ext c ≡ ok tt → IsDeployable c
validate-IsDeployable ext c h =
    let p = validate-Passed ext c h in
    let (name_length, name_shape, image) = identity_facts c p.identity in
    let (port, health, tls) = service_facts c p.service in
    let (replicas, failover, fallback, pinned) = mode_facts c p.modes in
    record {
      name_length = name_length;
      name_shape = name_shape;
      image = image;
      port = port;
      health = health;
      replicas = replicas;
      tls = tls;
      failover = failover;
      fallback = fallback;
      pinned = pinned;
    }
