-- ===== src/AppConfig/Validate/Storage.antt =====
-- `Config.validateStorage` and `validateStorageMount` (internal/appconfig/config.go).
use self_hosted_deployer.Common.{
  String, Bool, true, Option, none, some, List, [], ◌∷◌, ◌==◌, not, ◌||◌, is_empty, trim_space, any,
  length, ltb, pos, eq_int, if◌then◌else◌, Result, ok, refuse, ◌>>◌,
}
use self_hosted_deployer.AppConfig.Types.{Selector, StorageMount, StorageConfig, Config}
use self_hosted_deployer.AppConfig.Errors.{
  ConfigError, too_many_mounts, claim_required, claim_pattern, mount_required, mount_not_clean,
  duplicate_claim, mount_overlaps, storage_stateful, storage_pinned, storage_replicas,
  storage_recreate, storage_node_id,
}
use self_hosted_deployer.AppConfig.Externals.{Externals}
use self_hosted_deployer.AppConfig.Paths.{clean_absolute, is_absolute, mount_paths_overlap}

-- StorageConfig.Mounts
unfoldable pub mounts : StorageConfig → List StorageMount
mounts s =
    record { existing_claim = s.existing_claim; mount_path = s.mount_path } ∷ s.additional_mounts

-- A missing key of a Go map reads as the empty text.
unfoldable pub selector_value : String → Selector → String
selector_value k [] = ""
selector_value k ((j, v) ∷ m) = if j == k then v else selector_value k m

-- `len(prefer) != 1 || strings.TrimSpace(prefer[0]["node-id"]) == ""`
unfoldable pub lacks_node_id : List Selector → Bool
unfolding selector_value
lacks_node_id (m ∷ []) = is_empty (trim_space (selector_value "node-id" m))
lacks_node_id _ = true

-- The requirements on the rest of the configuration, after the mounts.
unfoldable pub validate_storage_mode : Config → Result ConfigError (Unit {0})
unfolding lacks_node_id
validate_storage_mode c = do
  refuse (not (c.state.mode == "stateful")) storage_stateful
  refuse (not (c.resilience.mode == "pinned")) storage_pinned
  refuse (not (eq_int c.deploy.replicas (pos 1))) storage_replicas
  refuse (not (c.deploy.strategy == "recreate")) storage_recreate
  refuse (lacks_node_id c.placement.prefer) storage_node_id

module _ (ext : Externals) where
  open ext use {is_dns1123_subdomain}

  unfoldable pub validate_storage_mount : StorageMount → Result ConfigError (Unit {0})
  validate_storage_mount mount = do
    refuse (is_empty mount.existing_claim) claim_required
    refuse (not (is_dns1123_subdomain mount.existing_claim)) claim_pattern
    refuse (is_empty mount.mount_path) mount_required
    refuse
        (not (is_absolute mount.mount_path)
          || not (clean_absolute mount.mount_path == mount.mount_path)
          || mount.mount_path == "/")
        mount_not_clean

  -- The loop over the mounts, with the claims and the mount paths of those before.
  unfoldable pub validate_mounts :
      List String → List String → List StorageMount → Result ConfigError (Unit {0})
  unfolding validate_storage_mount
  validate_mounts seen_claims previous [] = ok tt
  validate_mounts seen_claims previous (mount ∷ rest) = do
    validate_storage_mount mount
    refuse (any (λ claim. claim == mount.existing_claim) seen_claims) duplicate_claim
    refuse (any (mount_paths_overlap mount.mount_path) previous) mount_overlaps
    validate_mounts (mount.existing_claim ∷ seen_claims) (mount.mount_path ∷ previous) rest

  unfoldable pub validate_storage_with :
      Option StorageConfig → Config → Result ConfigError (Unit {0})
  unfolding mounts validate_mounts validate_storage_mode
  validate_storage_with none c = ok tt
  validate_storage_with (some s) c = do
    refuse (ltb 7 (length s.additional_mounts)) too_many_mounts
    validate_mounts [] [] (mounts s)
    validate_storage_mode c

  unfoldable pub validate_storage : Config → Result ConfigError (Unit {0})
  unfolding validate_storage_with
  validate_storage c = validate_storage_with c.storage c
