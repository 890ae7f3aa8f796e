-- ===== src/Database/Policy.antt =====
-- `databaseHAPolicyWarnings` and its helpers.
use self_hosted_deployer.Common.{
  String, [], ◌∷◌, Bool, false, Option, none, some, List, ◌++◌, not, ◌&&◌, ◌==◌, length, nat_eq,
  if◌then◌else◌, trim_space, is_empty, ℤ, eq_int,
}
use self_hosted_deployer.AppConfig.Types.{Config, PostgresConfig}
use self_hosted_deployer.Database.Types.{
  to_int32, DatabaseStatus, Warning, not_owned, no_checksums, quorum_disabled, accepts_non_tls,
  no_scram, image_is, database_is, owner_is, size_is, class_is, method_is, durability_is,
  affinity_is, topology_is, architecture_is, encryption_is, instances_are, replicas_are,
  quorum_missing, quorum_primary_missing, duplicate_standbys, primary_among_standbys,
  quorum_method_is, quorum_primary_is, standby_number_is, standbys_are, reported, Texts,
}
use self_hosted_deployer.Database.Architecture.{postgres_architecture}
use self_hosted_deployer.Database.Names.{
  contains_name, unique_non_empty_strings, expected_standby_names, equal_string_sets,
}

module _ (texts : Texts) where
  open texts use {equal_fold, Quantity, parse_quantity, same_quantity}

  abbrev pub compare_quantities : Option Quantity → Option Quantity → Bool
  compare_quantities (some a) (some b) = same_quantity a b
  compare_quantities _ _ = false

  abbrev pub postgres_storage_quantities_equal : String → String → Bool
  postgres_storage_quantities_equal actual desired =
      compare_quantities (parse_quantity (trim_space actual)) (parse_quantity (trim_space desired))

  -- The specification of the Cluster.
  unfoldable pub specification_checks :
      String → PostgresConfig → DatabaseStatus → ℤ → List (Bool × Warning)
  specification_checks arch p db desired =
      (not db.owned_by_deployer, not_owned)
      ∷ (not (trim_space db.image == trim_space p.image), image_is db.image p.image)
      ∷ (not (db.bootstrap_database == p.database), database_is db.bootstrap_database p.database)
      ∷ (not (db.bootstrap_owner == p.owner), owner_is db.bootstrap_owner p.owner)
      ∷ (not db.data_checksums_enabled, no_checksums)
      ∷ (
        not (postgres_storage_quantities_equal db.storage_size p.storage.size),
        size_is db.storage_size p.storage.size,
      )
      ∷ (
        not (trim_space db.storage_class == trim_space p.storage.storage_class),
        class_is db.storage_class p.storage.storage_class,
      )
      ∷ (not (eq_int db.desired_instances desired), instances_are db.desired_instances desired)
      ∷ (
        not (equal_fold (trim_space db.synchronous_method) "any"),
        method_is db.synchronous_method "any",
      )
      ∷ (
        not (eq_int db.synchronous_replicas (to_int32 p.synchronous.replicas)),
        replicas_are db.synchronous_replicas (to_int32 p.synchronous.replicas),
      )
      ∷ (
        not (equal_fold (trim_space db.data_durability) (trim_space p.synchronous.data_durability)),
        durability_is db.data_durability p.synchronous.data_durability,
      )
      ∷ (not db.failover_quorum_enabled, quorum_disabled)
      ∷ (
        not (equal_fold (trim_space db.anti_affinity_type) "required"),
        affinity_is db.anti_affinity_type "required",
      )
      ∷ (
        not (trim_space db.topology_key == "kubernetes.io/hostname"),
        topology_is db.topology_key "kubernetes.io/hostname",
      )
      ∷ (
        not (equal_fold (trim_space db.architecture) (postgres_architecture arch)),
        architecture_is db.architecture (postgres_architecture arch),
      )
      ∷ (
        not (equal_fold (trim_space db.password_encryption) "scram-sha-256"),
        encryption_is db.password_encryption "scram-sha-256",
      )
      ∷ (not db.rejects_non_tls, accepts_non_tls)
      ∷ (not db.requires_application_scram, no_scram)
      ∷ []

  -- The status of the FailoverQuorum.
  unfoldable pub quorum_checks : PostgresConfig → DatabaseStatus → List (Bool × Warning)
  quorum_checks p db =
      let standbys = unique_non_empty_strings db.failover_quorum_standby_names in
      let expected = expected_standby_names db.primary db.running_instances in
      (
        not (equal_fold (trim_space db.failover_quorum_method) "any"),
        quorum_method_is db.failover_quorum_method "any",
      )
      ∷ (
        not (eq_int db.failover_quorum_standby_number (to_int32 p.synchronous.replicas)),
        standby_number_is db.failover_quorum_standby_number (to_int32 p.synchronous.replicas),
      )
      ∷ (is_empty (trim_space db.failover_quorum_primary), quorum_primary_missing)
      ∷ (
        not (is_empty (trim_space db.failover_quorum_primary))
            && not (db.failover_quorum_primary == db.primary),
        quorum_primary_is db.failover_quorum_primary db.primary,
      )
      ∷ (
        not (nat_eq (length standbys) (length db.failover_quorum_standby_names)),
        duplicate_standbys,
      )
      ∷ (not (equal_string_sets standbys expected), standbys_are standbys expected)
      ∷ (
        not (is_empty (trim_space db.primary)) && contains_name db.primary standbys,
        primary_among_standbys,
      )
      ∷ []

  abbrev pub policy_warnings : Option PostgresConfig → String → DatabaseStatus → ℤ → List Warning
  policy_warnings none arch db desired = []
  policy_warnings (some p) arch db desired =
      reported (specification_checks arch p db desired)
      ++ (if not db.failover_quorum_present
          then quorum_missing ∷ []
          else reported (quorum_checks p db))

  unfoldable pub database_ha_policy_warnings : Config → DatabaseStatus → ℤ → List Warning
  database_ha_policy_warnings cfg db desired =
      if not db.present
      then []
      else policy_warnings cfg.database.postgres cfg.placement.arch db desired
