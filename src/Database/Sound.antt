-- ===== src/Database/Sound.antt =====
-- What a cluster that is reported healthy has.
use mathlib.Core.Path.{subst}
use self_hosted_deployer.Common.{
  Option, none, String, [], true, false, some, ◌≡◌, refl, not, ◌&&◌, ◌==◌, any, All, trim_space,
  is_empty, arith, ℤ, pos, lt_int,
}
use self_hosted_deployer.AppConfig.Types.{Config, PostgresConfig}
use self_hosted_deployer.Database.Types.{to_int32, DatabaseStatus, reported, Texts}
use self_hosted_deployer.Database.Running.{
  Runs, database_runtime_state-Runs, database_runtime_warnings-quiet,
}
use self_hosted_deployer.Database.Checks.{
  quorum_there, eq_int_sound, reported-quiet, append-empty, same_text, not_degraded, is_true,
  no_warnings, if_present,
}
use self_hosted_deployer.Database.Names.{unique_non_empty_strings, expected_standby_names}
use self_hosted_deployer.Database.Subsets.{
  equal_string_sets-members, unique_non_empty_strings-member, expected_standby_names-member,
  unique_non_empty_strings-NoRepeat,
}
use self_hosted_deployer.Database.Runtime.{
  nodes_running, database_runtime_warnings, database_reported_state,
}
use self_hosted_deployer.Database.Architecture.{postgres_architecture}
use self_hosted_deployer.Database.Placement.{IsArchitecture, postgres_architecture-IsArchitecture}
use self_hosted_deployer.Database.Policy.{
  postgres_storage_quantities_equal, compare_quantities, specification_checks, quorum_checks,
  policy_warnings, database_ha_policy_warnings,
}

module _ (texts : Texts) (p : PostgresConfig) (cfg : Config) (db : DatabaseStatus)
    (desired : ℤ) where
  -- The cluster is as desired: it runs, is led and spread, has what the configuration asks for, and
  -- its quorum consists of the running replicas.
  pub record IsSound : Type 0 where
    pub present : db.present ≡ true
    pub wanted : lt_int (pos 0) desired ≡ true
    pub ready : db.ready_instances ≡ desired
    pub spread : nodes_running db ≡ desired
    pub led : is_empty (trim_space db.primary) ≡ false
    pub in_phase : texts.equal_fold (trim_space db.phase) "Cluster in healthy state" ≡ true
    pub quiet : database_runtime_warnings texts db desired ≡ []
    pub owned : db.owned_by_deployer ≡ true
    pub same_image : trim_space db.image ≡ trim_space p.image
    pub same_database : db.bootstrap_database ≡ p.database
    pub same_owner : db.bootstrap_owner ≡ p.owner
    pub checksums : db.data_checksums_enabled ≡ true
    pub instances : db.desired_instances ≡ desired
    pub replicas : db.synchronous_replicas ≡ to_int32 p.synchronous.replicas
    pub over_tls : db.rejects_non_tls ≡ true
    pub by_scram : db.requires_application_scram ≡ true
    pub same_size :
        (actual : texts.Quantity) × (wanted : texts.Quantity) × (texts.parse_quantity
            (trim_space db.storage_size)
          ≡ some actual)
        × (texts.parse_quantity (trim_space p.storage.size) ≡ some wanted)
        × (texts.same_quantity actual wanted ≡ true)
    pub same_class : trim_space db.storage_class ≡ trim_space p.storage.storage_class
    pub any_standby : texts.equal_fold (trim_space db.synchronous_method) "any" ≡ true
    pub durability :
        texts.equal_fold (trim_space db.data_durability) (trim_space p.synchronous.data_durability)
        ≡ true
    pub spread_apart : texts.equal_fold (trim_space db.anti_affinity_type) "required" ≡ true
    pub per_host : trim_space db.topology_key ≡ "kubernetes.io/hostname"
    pub same_architecture :
        (arch : String) × IsArchitecture (trim_space cfg.placement.arch) arch
        × (texts.equal_fold (trim_space db.architecture) arch ≡ true)
    pub encryption : texts.equal_fold (trim_space db.password_encryption) "scram-sha-256" ≡ true
    pub quorum_present : db.failover_quorum_present ≡ true
    pub quorum_method : texts.equal_fold (trim_space db.failover_quorum_method) "any" ≡ true
    pub quorum : db.failover_quorum_enabled ≡ true
    pub quorum_number : db.failover_quorum_standby_number ≡ to_int32 p.synchronous.replicas
    pub quorum_primary : db.failover_quorum_primary ≡ db.primary
    pub standbys :
        (v : String)
        → is_empty v ≡ false
        → any (λ w. trim_space w == v) db.failover_quorum_standby_names
          ≡ (not (v == db.primary) && any (λ w. trim_space w == v) db.running_instances)

  policy-quiet :
      policy_warnings texts (some p) cfg.placement.arch db desired ≡ []
      → All (λ c. c.0 ≡ false) (specification_checks texts cfg.placement.arch p db desired)
        × All (λ c. c.0 ≡ false) (quorum_checks texts p db)
  policy-quiet h =
      let (first, second) =
        append-empty (reported (specification_checks texts cfg.placement.arch p db desired)) _ h in
      (
        reported-quiet (specification_checks texts cfg.placement.arch p db desired) first,
        reported-quiet (quorum_checks texts p db)
            (if_present db.failover_quorum_present (reported (quorum_checks texts p db)) second),
      )

  standbys-agree :
      All (λ c. c.0 ≡ false) (quorum_checks texts p db)
      → (v : String) → is_empty v ≡ false
      → any (λ w. trim_space w == v) db.failover_quorum_standby_names
        ≡ (not (v == db.primary) && any (λ w. trim_space w == v) db.running_instances)
  unfolding quorum_checks
  standbys-agree (c1, (c2, (c3, (c4, (c5, (same, rest)))))) v e = ground (
    arith,
    equal_string_sets-members (unique_non_empty_strings db.failover_quorum_standby_names)
        (expected_standby_names db.primary db.running_instances)
        (unique_non_empty_strings-NoRepeat db.failover_quorum_standby_names) (is_true _ same) v,
    unique_non_empty_strings-member v db.failover_quorum_standby_names,
    expected_standby_names-member v db.primary db.running_instances,
  )

  there :
      policy_warnings texts (some p) cfg.placement.arch db desired ≡ []
      → db.failover_quorum_present ≡ true
  there h =
      quorum_there db.failover_quorum_present _
        (append-empty (reported (specification_checks texts cfg.placement.arch p db desired)) _ h).1

  same_sizes :
      postgres_storage_quantities_equal texts db.storage_size p.storage.size ≡ true
      → (actual : texts.Quantity) × (wanted : texts.Quantity) × (texts.parse_quantity
            (trim_space db.storage_size)
          ≡ some actual)
        × (texts.parse_quantity (trim_space p.storage.size) ≡ some wanted)
        × (texts.same_quantity actual wanted ≡ true)
  same_sizes h =
      compared (texts.parse_quantity (trim_space db.storage_size))
        (texts.parse_quantity (trim_space p.storage.size)) h
    where
      compared :
          (o q : Option texts.Quantity)
          → compare_quantities texts o q ≡ true
          → (actual : texts.Quantity) × (wanted : texts.Quantity) × (o ≡ some actual)
            × (q ≡ some wanted)
            × (texts.same_quantity actual wanted ≡ true)
      compared (some a) (some b) c = (a, b, refl, refl, c)
      compared (some a) none c = absurd (ground arith)
      compared none q c = absurd (ground arith)

  quiet-IsSound :
      Runs texts db desired
      → policy_warnings texts (some p) cfg.placement.arch db desired ≡ []
      → IsSound
  unfolding specification_checks quorum_checks
  quiet-IsSound r h =
      let (spec, quorum) = policy-quiet h in
      let (
        c1,
        (
          c2,
          (
            c3,
            (
              c4,
              (
                c5,
                (
                  c6,
                  (
                    c7,
                    (c8, (c9, (c10, (c11, (c12, (c13, (c14, (c15, (c16, (c17, (c18, rest))))))))))),
                  ),
                ),
              ),
            ),
          ),
        ),
      ) =
        spec in
      let (q1, (q2, (q3, (q4, more)))) = quorum in
      record {
        present = r.present;
        wanted = r.wanted;
        ready = r.ready;
        spread = r.spread;
        led = r.led;
        in_phase = r.in_phase;
        quiet = database_runtime_warnings-quiet texts db desired r;
        owned = is_true _ c1;
        same_image = same_text _ _ c2;
        same_database = same_text _ _ c3;
        same_owner = same_text _ _ c4;
        checksums = is_true _ c5;
        instances = eq_int_sound _ _ (is_true _ c8);
        replicas = eq_int_sound _ _ (is_true _ c10);
        over_tls = is_true _ c17;
        by_scram = is_true _ c18;
        same_size = same_sizes (is_true _ c6);
        same_class = same_text _ _ c7;
        any_standby = is_true _ c9;
        durability = is_true _ c11;
        spread_apart = is_true _ c13;
        per_host = same_text _ _ c14;
        same_architecture = (
          postgres_architecture cfg.placement.arch,
          postgres_architecture-IsArchitecture cfg.placement.arch,
          is_true _ c15,
        );
        encryption = is_true _ c16;
        quorum_present = there h;
        quorum_method = is_true _ q1;
        quorum = is_true _ c12;
        quorum_number = eq_int_sound _ _ (is_true _ q2);
        quorum_primary =
            same_text _ _ (
              subst (λ b. (not b && not (db.failover_quorum_primary == db.primary)) ≡ false) q3 q4);
        standbys = standbys-agree quorum;
      }

  -- A managed database that is reported healthy has no warning of its runtime, runs as many
  -- instances on as many nodes as are desired, has every setting that the configuration and the policy ask
  -- for, and has a quorum
  -- whose standbys are the running instances but the primary.
  pub healthy-IsSound :
      cfg.database.postgres ≡ some p
      → database_reported_state texts db desired (database_ha_policy_warnings texts cfg db desired)
        ≡ "healthy"
      → IsSound
  unfolding database_reported_state database_ha_policy_warnings
  healthy-IsSound e h =
      let (state, calm) = not_degraded _ _ h in
      let r = database_runtime_state-Runs texts db desired state in
      quiet-IsSound r (
        subst (λ o. policy_warnings texts o cfg.placement.arch db desired ≡ []) e
          (no_warnings db.present _ r.present calm))
