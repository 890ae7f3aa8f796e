-- ===== src/Examples/Configurations.antt =====
-- The theorems on configurations (internal/appconfig) at two applications.
use self_hosted_deployer.Common.{String, false, ◌≡◌, ◌↔◌, refl, ok, trim_space}
use self_hosted_deployer.AppConfig.Paths.{mount_paths_overlap, is_absolute, clean_absolute}
use self_hosted_deployer.AppConfig.Paths.Overlap.{LiesUnder, overlap_iff}
use self_hosted_deployer.AppConfig.Normalize.{
  normalize, normalize_metrics, normalize_strategy, default_to, normalize_placement_selectors,
  normalize_storage, normalize_string_list, normalize_database,
}
use self_hosted_deployer.AppConfig.Normalize.Idempotence.{normalize-normalize}
use self_hosted_deployer.AppConfig.Validate.{
  validate, validate_identity, validate_service, validate_metrics, validate_modes, validate_secrets,
  hosting_replicas, is_hosted, is_managed,
}
use self_hosted_deployer.AppConfig.Names.{matches_app_name}
use self_hosted_deployer.AppConfig.Validate.Postgres.{validate_database}
use self_hosted_deployer.AppConfig.Validate.Hosting.{
  validate_hosting, parse_resource_quantities, parse_resource_quantity, validate_limits,
  validate_egress,
}
use self_hosted_deployer.AppConfig.Validate.Facts.{IsDeployable, validate-IsDeployable}
use self_hosted_deployer.AppConfig.Validate.Storage.{validate_storage}
use self_hosted_deployer.AppConfig.Validate.Mounts.{IsRetained, validate_storage-IsRetained}
use self_hosted_deployer.AppConfig.Parse.{parse, parse-accepted}
use self_hosted_deployer.Examples.Data.{externals, codec, shop, vault, vault_storage}

pub shop_valid : validate externals shop ≡ ok tt
unfolding validate matches_app_name validate_identity validate_service validate_metrics
    validate_modes validate_storage validate_secrets validate_database validate_hosting
    hosting_replicas parse_resource_quantities parse_resource_quantity trim_space validate_limits
    validate_egress is_hosted is_managed
shop_valid = refl

vault_valid : validate_storage externals vault ≡ ok tt
unfolding validate_storage is_absolute clean_absolute mount_paths_overlap trim_space
vault_valid = refl

pub shop_normal : normalize shop ≡ shop
unfolding normalize trim_space normalize_metrics normalize_strategy default_to
    normalize_placement_selectors normalize_storage normalize_string_list normalize_database
shop_normal = refl

shop_parsed : parse externals codec "shop" ≡ ok shop
unfolding parse
shop_parsed = rw (shop_normal, shop_valid) refl

validate-IsDeployable_example : IsDeployable shop
validate-IsDeployable_example = validate-IsDeployable externals shop shop_valid

validate_storage-IsRetained_example : IsRetained vault_storage vault
validate_storage-IsRetained_example =
    validate_storage-IsRetained externals vault vault_storage refl vault_valid

normalize-normalize_example : normalize (normalize vault) ≡ normalize vault
normalize-normalize_example = normalize-normalize vault

parse-accepted_example : (validate externals shop ≡ ok tt) × (normalize shop ≡ shop)
parse-accepted_example = parse-accepted externals codec "shop" shop shop_parsed

overlap_iff_example :
    (mount_paths_overlap "/data" "/database" ≡ false)
    ↔ ((file : String) → LiesUnder file "/data" → LiesUnder file "/database" → ⊥)
overlap_iff_example = overlap_iff "/data" "/database"
