-- ===== src/AppConfig/Errors.antt =====
-- The errors of `Config.Validate`, one constructor for each message; a message's arguments are left
-- out (internal/appconfig).
pub data ConfigError : Type 0 where
  -- config.go
  credential_revision environment_revision environment_with_secrets name_required name_pattern :
      ConfigError
  image_required port_required port_range health_required health_slash tls_needs_domain :
      ConfigError
  metrics_port metrics_path metrics_slash replicas_positive state_mode resilience_mode : ConfigError
  unsafe_failover fallback_selectors pinned_selector duplicate_secret hosting_with_managed :
      ConfigError
  -- ValidateSecretName
  secret_empty secret_pattern : ConfigError
  -- validateStorage and validateStorageMount
  too_many_mounts claim_required claim_pattern mount_required mount_not_clean : ConfigError
  duplicate_claim mount_overlaps storage_stateful storage_pinned storage_replicas : ConfigError
  storage_recreate storage_node_id : ConfigError
  -- hosting.go
  hosting_version max_replicas_range replicas_exceed quantity_required quantity_invalid :
      ConfigError
  quantity_positive limit_below_request egress_cidr egress_ports egress_port_range : ConfigError
  -- postgres.go
  postgres_name_length postgres_name_label postgres_arch postgres_instances postgres_image :
      ConfigError
  postgres_major postgres_database postgres_database_reserved postgres_owner : ConfigError
  postgres_owner_reserved env_reserved env_in_secrets secret_reserved env_not_in_secrets :
      ConfigError
  connection_mode storage_size storage_size_positive storage_size_minimum storage_class :
      ConfigError
  storage_class_pattern synchronous_replicas data_durability retention_policy : ConfigError
