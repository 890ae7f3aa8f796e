-- ===== src/Journal/Env.antt =====
-- What internal/db takes from the JSON and hash libraries.
use self_hosted_deployer.Common.{String, Bool, Option}
use self_hosted_deployer.AppConfig.Types.{Config}
use self_hosted_deployer.AppConfig.Parse.{Codec}
use self_hosted_deployer.AppConfig.Externals.{Externals}
use self_hosted_deployer.Journal.Types.{App, Deployment}

-- The identity that a saved activation intent names.
pub record IntentIdentity : Type 0 where
  pub app_name : String
  pub request_id : String
  pub requested_state : String

-- The fields of the reply that `Finalize` encodes.
pub record Reply : Type 0 where
  pub app : App
  pub config : Config
  pub deployment : Deployment
  pub requested_state : String
  pub withdrawal_confirmed : Bool

-- `json.Valid`; `json.Unmarshal` into an object and into the identity of an intent;
-- `json.Marshal` of a reply; the route's identity, a digest of the two names.
pub record Env : Type 1 where
  pub externals : Externals
  pub codec : Codec
  pub valid_json : String → Bool
  pub is_json_object : String → Bool
  pub read_intent : String → Option IntentIdentity
  pub encode_reply : Reply → Option String
  pub route_id : String → String → String
