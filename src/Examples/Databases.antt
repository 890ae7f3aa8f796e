-- ===== src/Examples/Databases.antt =====
-- The theorem on the reported state of a managed database of two instances.
use self_hosted_deployer.Common.{
  Bool-cases, inl, inr, eq_iff, sym, ap, ok, String, true, false, some, [], ◌∷◌, ◌≡◌, ◌==◌,
  is_empty, pos,
}
use self_hosted_deployer.AppConfig.Types.{Config, PostgresConfig}
use self_hosted_deployer.Examples.Data.{shop}
use self_hosted_deployer.Database.Types.{DatabaseStatus, Texts}
use self_hosted_deployer.Database.Report.{Reporting}

same_text_empty : (t : String) → is_empty t ≡ false → ("" == t) ≡ false
same_text_empty t h = elim (Bool-cases ("" == t)) [
  | inr e ↦ e
  | inl e ↦ absurd (nonempty (sym ((eq_iff "" t).0 e)))
]
  where
    nonempty : t ≡ "" → ⊥
    nonempty e = let q = ap is_empty e in cc

abbrev plain_texts : Texts
plain_texts = record {
  equal_fold = λ a b. a == b;
  equal_fold_empty = same_text_empty;
  Quantity = String;
  parse_quantity = λ s. some s;
  same_quantity = λ a b. a == b;
}

abbrev two_instances : PostgresConfig
two_instances = record {
  instances = pos 2;
  image = "postgres:17";
  database = "shop";
  owner = "shop_owner";
  connection_env = "DATABASE_URL";
  connection_mode = "managed";
  storage = record { size = "10Gi"; storage_class = "local-path" };
  synchronous = record { replicas = pos 1; data_durability = "required" };
  retention_policy = "14d";
}

abbrev running : DatabaseStatus
running = record {
  present = true;
  phase = "Cluster in healthy state";
  desired_instances = pos 2;
  ready_instances = pos 2;
  primary = "shop-1";
  running_nodes = "n1" ∷ "n2" ∷ [];
  running_instances = "shop-1" ∷ "shop-2" ∷ [];
  owned_by_deployer = true;
  image = "postgres:17";
  bootstrap_database = "shop";
  bootstrap_owner = "shop_owner";
  data_checksums_enabled = true;
  storage_size = "10Gi";
  storage_class = "local-path";
  synchronous_method = "any";
  synchronous_replicas = pos 1;
  data_durability = "required";
  failover_quorum_enabled = true;
  anti_affinity_type = "required";
  topology_key = "kubernetes.io/hostname";
  architecture = "arm64";
  password_encryption = "scram-sha-256";
  rejects_non_tls = true;
  requires_application_scram = true;
  failover_quorum_present = true;
  failover_quorum_method = "any";
  failover_quorum_standby_number = pos 1;
  failover_quorum_primary = "shop-1";
  failover_quorum_standby_names = "shop-2" ∷ [];
}

abbrev with_database : Config
with_database = record shop { database = record { postgres = some two_instances } }

-- The runtime that reports that cluster for `shop`.
abbrev runtime : Reporting
runtime = λ name. ok running
