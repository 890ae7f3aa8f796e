-- ===== src/AppConfig/Normalize/Idempotence.antt =====
-- Normalizing a normalized configuration changes nothing (internal/appconfig).
use self_hosted_deployer.Common.{
  String, false, Option, none, some, List, [], ◌∷◌, map, ◌≡◌, refl, is_empty, trim_space, arith,
  Bool-cases, inl, inr, ℤ,
}
use self_hosted_deployer.Common.Text.Trim.{trim_space-trim_space}
use self_hosted_deployer.AppConfig.Types.{
  MetricsConfig, StorageMount, StorageConfig, PostgresConfig, Config,
}
use self_hosted_deployer.AppConfig.Normalize.{
  default_to, default_int, normalize_string_list, normalize_metrics, normalize_mount,
  normalize_storage, normalize_strategy, normalize_postgres, normalize_database, normalize,
}
use self_hosted_deployer.AppConfig.Normalize.Selectors.{normalize_selectors_twice}

strings_twice :
    (xs : List String) → normalize_string_list (normalize_string_list xs) ≡ normalize_string_list xs
unfolding normalize_string_list
strings_twice [] = refl
strings_twice (x ∷ xs) = rw (trim_space-trim_space x, strings_twice xs)

-- A default that is trimmed and not empty.
default_twice :
    (d s : String)
    → trim_space d ≡ d
    → is_empty d ≡ false
    → default_to d (trim_space (default_to d (trim_space s))) ≡ default_to d (trim_space s)
unfolding default_to
default_twice d s t e = elim (Bool-cases (is_empty (trim_space s))) [
  | inl blank ↦ rw (blank, t, e)
  | inr text ↦ rw (text, trim_space-trim_space s, text)
]

default_int_twice : (d n : ℤ) → default_int d (default_int d n) ≡ default_int d n
unfolding default_int
default_int_twice d n = ground arith

-- Every default that a field is given is itself trimmed.
defaults_trimmed :
    (trim_space "rolling" ≡ "rolling")
    × (trim_space "recreate" ≡ "recreate")
    × (trim_space "linux/arm64" ≡ "linux/arm64")
    × (trim_space "stateless" ≡ "stateless")
    × (trim_space "basic" ≡ "basic")
unfolding trim_space
defaults_trimmed = (refl, refl, refl, refl, refl)

postgres_defaults_trimmed :
    (trim_space "DATABASE_URL" ≡ "DATABASE_URL")
    × (trim_space "managed" ≡ "managed")
    × (trim_space "local-path" ≡ "local-path")
    × (trim_space "required" ≡ "required")
    × (trim_space "retain" ≡ "retain")
unfolding trim_space
postgres_defaults_trimmed = (refl, refl, refl, refl, refl)

strategy_twice :
    (o : Option StorageConfig) (s : String)
    → normalize_strategy (normalize_storage o) (trim_space (normalize_strategy o (trim_space s)))
      ≡ normalize_strategy o (trim_space s)
unfolding normalize_strategy normalize_storage
strategy_twice none s = unfold default_to in default_twice "rolling" s defaults_trimmed.0 refl
strategy_twice (some _) s = unfold default_to in default_twice "recreate" s defaults_trimmed.1 refl

metrics_twice :
    (o : Option MetricsConfig) → normalize_metrics (normalize_metrics o) ≡ normalize_metrics o
unfolding normalize_metrics
metrics_twice none = refl
metrics_twice (some m) = rw (trim_space-trim_space m.path)

mounts_twice :
    (ms : List StorageMount) → map normalize_mount (map normalize_mount ms) ≡ map normalize_mount ms
unfolding normalize_mount
mounts_twice [] = refl
mounts_twice (m ∷ ms) =
    rw (trim_space-trim_space m.existing_claim, trim_space-trim_space m.mount_path, mounts_twice ms)

storage_twice :
    (o : Option StorageConfig) → normalize_storage (normalize_storage o) ≡ normalize_storage o
unfolding normalize_storage
storage_twice none = refl
storage_twice (some s) = simp (trim_space-trim_space, mounts_twice)

postgres_twice :
    (o : Option PostgresConfig) → normalize_database (normalize_database o) ≡ normalize_database o
unfolding normalize_database normalize_postgres
postgres_twice none = refl
postgres_twice (some p) =
    let t = postgres_defaults_trimmed in
    simp (
      trim_space-trim_space,
      default_int_twice,
      default_twice "DATABASE_URL" p.connection_env t.0 refl,
      default_twice "managed" p.connection_mode t.1 refl,
      default_twice "local-path" p.storage.storage_class t.2 refl,
      default_twice "required" p.synchronous.data_durability t.3 refl,
      default_twice "retain" p.retention_policy t.4 refl,
    )

-- Normalizing a configuration that was normalized changes nothing, whatever the configuration.
pub normalize-normalize : (c : Config) → normalize (normalize c) ≡ normalize c
unfolding normalize
normalize-normalize c = simp (
  trim_space-trim_space,
  metrics_twice,
  strategy_twice,
  storage_twice,
  strings_twice,
  normalize_selectors_twice,
  postgres_twice,
  default_twice "linux/arm64" c.placement.arch defaults_trimmed.2 refl,
  default_twice "stateless" c.state.mode defaults_trimmed.3 refl,
  default_twice "basic" c.resilience.mode defaults_trimmed.4 refl,
)
