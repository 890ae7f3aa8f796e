-- ===== src/Examples/Data.antt =====
-- Values that the examples share: a hosted application, one with retained storage, and a journal.
use self_hosted_deployer.Common.{String, true, false, none, some, [], ◌∷◌, ◌==◌, pos, if◌then◌else◌}
use self_hosted_deployer.AppConfig.Types.{Config, StorageConfig, ResourceQuantities}
use self_hosted_deployer.AppConfig.Externals.{Externals}
use self_hosted_deployer.AppConfig.Parse.{Codec}
use self_hosted_deployer.Journal.Types.{
  pending, applied, Stage, App, Deployment, DeploymentStatus, DeployRequest, CandidateBinding,
  RuntimeCheckpoint, Tables,
}
use self_hosted_deployer.Journal.Env.{Env}

abbrev pub externals : Externals
externals = record {
  Quantity = String;
  parse_quantity = λ s. some s;
  positive = λ q. true;
  less = λ a b. false;
  minimum_postgres_storage = "1Gi";
  is_dns1123_subdomain = λ s. true;
  is_dns1035_label = λ s. true;
  is_cidr = λ s. true;
}

abbrev quantities : ResourceQuantities
quantities = record { cpu = "1"; memory = "1Gi"; ephemeral_storage = "1Gi" }

abbrev pub shop : Config
shop = record {
  image_pull_credential = "";
  environment_revision = "";
  name = "shop";
  image = "registry.example/shop:1";
  service = record { port = pos 8080; health = record { path = "/health" } };
  metrics = none;
  routing = record { domain = "shop.example"; require_tls = true; enable_proxy_retries = none };
  deploy = record { replicas = pos 2; strategy = "rolling" };
  placement = record { arch = "linux/arm64"; spread = false; prefer = []; fallback = [] };
  storage = none;
  secrets = [];
  state = record { mode = "stateless" };
  resilience = record { mode = "resilient"; allow_unsafe_stateful_failover = false };
  database = record { postgres = none };
  hosting = some (record {
    version = "v1";
    resources = record { requests = quantities; limits = quantities };
    max_replicas = pos 3;
    network = record { allow_dns = some true; egress = [] };
    read_only_root_filesystem = false;
  });
}

abbrev pub vault_storage : StorageConfig
vault_storage = record {
  existing_claim = "vault-data";
  mount_path = "/data";
  additional_mounts = record { existing_claim = "vault-logs"; mount_path = "/database" } ∷ [];
}

abbrev pub vault : Config
vault = record shop {
  name = "vault";
  deploy = record { replicas = pos 1; strategy = "recreate" };
  placement = record {
    arch = "linux/arm64";
    spread = false;
    prefer = (("node-id", "n1") ∷ []) ∷ [];
    fallback = [];
  };
  storage = some vault_storage;
  state = record { mode = "stateful" };
  resilience = record { mode = "pinned"; allow_unsafe_stateful_failover = false };
  hosting = none;
}

-- A codec that knows one document.
abbrev pub codec : Codec
codec = record {
  decode_yaml = λ s. if s == "shop" then some shop else none;
  unmarshal = λ s. if s == "shop" then some shop else none;
  marshal = λ c. some "shop";
}

abbrev pub revision : String
revision = "aaaaaaaaaaaaaaaaaaaaaaaaaaaaaaaaaaaaaaaaaaaaaaaaaaaaaaaaaaaaaaaa"

abbrev pub env : Env
env = record {
  externals = externals;
  codec = codec;
  valid_json = λ s. true;
  is_json_object = λ s. true;
  read_intent =
      λ s. some (record { app_name = "shop"; request_id = revision; requested_state = "shop" });
  encode_reply = λ r. some "{}";
  route_id = λ app request. app;
}

-- The predecessor of the request is the live application.
abbrev pub request : DeployRequest
request = record {
  app_name = "shop";
  request_id = revision;
  state = pending;
  requested_state = "shop";
  previous_app_id = some "app-1";
  previous_state = some "shop";
  report_withdrawal = false;
  response_json = none;
  created_at = 1;
  updated_at = 1;
}

abbrev pub app : App
app = record {
  id = "app-1";
  name = "shop";
  image = "old";
  desired_state_json = "shop";
  created_at = 1;
  updated_at = 1;
  deleted_at = none;
}

abbrev pub deployment : Deployment
deployment = record {
  id = "d-1";
  app_id = "app-1";
  status = DeploymentStatus.pending;
  failure_reason = "";
  created_at = 1;
  updated_at = 1;
}

abbrev pub binding : CandidateBinding
binding = record {
  app_name = "shop";
  request_id = revision;
  app_id = "app-1";
  deployment_id = "d-1";
  created_at = 1;
}

abbrev pub checkpoint : Stage → RuntimeCheckpoint
checkpoint stage = record {
  app_name = "shop";
  request_id = revision;
  stage = stage;
  intent_json = "{}";
  gate_json = "gate";
}

-- A pending request whose checkpoint is at a stage.
abbrev pub tables : Stage → Tables
tables stage = record {
  apps = app ∷ [];
  deployments = deployment ∷ [];
  routes = [];
  requests = request ∷ [];
  bindings = binding ∷ [];
  checkpoints = checkpoint stage ∷ [];
  withdrawals = [];
}

-- The same request, settled.
abbrev pub settled_request : DeployRequest
settled_request = record request { state = applied; response_json = some "{}" }
