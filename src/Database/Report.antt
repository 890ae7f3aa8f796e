-- ===== src/Database/Report.antt =====
-- `appendDatabaseStatus` of internal/server/app.go: the part of a status response on the database.
use self_hosted_deployer.Common.{
  String, Option, none, some, List, [], ◌∷◌, ◌++◌, ◌==◌, ℤ, pos, Result, ok, err, if◌then◌else◌,
}
use self_hosted_deployer.AppConfig.Types.{Config, PostgresConfig}
use self_hosted_deployer.Database.Types.{
  to_int32, DatabaseStatus, Warning, external_mode, runtime_unavailable, status_unavailable, Texts,
}
use self_hosted_deployer.Database.Runtime.{database_runtime_warnings, database_reported_state}
use self_hosted_deployer.Database.Policy.{database_ha_policy_warnings}

-- The message `DatabaseStatus` of the protocol.
pub record DatabaseReport : Type 0 where
  pub state : String
  pub phase : String
  pub desired_instances : ℤ
  pub ready_instances : ℤ
  pub primary : String
  pub running_nodes : List String

-- The fields of the response that the function writes.
pub record StatusResponse : Type 0 where
  pub database : Option DatabaseReport
  pub warnings : List Warning

-- The runtime's report of an application's database, or an error's text.
abbrev pub Reporting : Type 0
Reporting = String → Result String DatabaseStatus

abbrev pub unknown_report : ℤ → DatabaseReport
unknown_report desired = record {
  state = "unknown";
  phase = "";
  desired_instances = desired;
  ready_instances = pos 0;
  primary = "";
  running_nodes = [];
}

module _ (texts : Texts) (cfg : Config) (name : String) where
  abbrev pub append_report :
      ℤ → Result String DatabaseStatus → (unknown : StatusResponse) → StatusResponse
  append_report desired (err text) unknown = record unknown {
    warnings = unknown.warnings ++ status_unavailable text ∷ [];
  }
  append_report desired (ok db) unknown =
      let ha = database_ha_policy_warnings texts cfg db desired in
      record {
        database = some (record {
          state = database_reported_state texts db desired ha;
          phase = db.phase;
          desired_instances = desired;
          ready_instances = db.ready_instances;
          primary = db.primary;
          running_nodes = db.running_nodes;
        });
        warnings = unknown.warnings ++ database_runtime_warnings texts db desired ++ ha;
      }

  abbrev pub ask_runtime : ℤ → Option Reporting → (unknown : StatusResponse) → StatusResponse
  ask_runtime desired none unknown = record unknown {
    warnings = unknown.warnings ++ runtime_unavailable ∷ [];
  }
  ask_runtime desired (some status) unknown = append_report desired (status name) unknown

  abbrev pub append_postgres :
      Option PostgresConfig → Option Reporting → StatusResponse → StatusResponse
  append_postgres none runtime response = response
  append_postgres (some p) runtime response = ask_runtime (to_int32 p.instances) runtime (record {
    database = some (unknown_report (to_int32 p.instances));
    warnings =
        if p.connection_mode == "external"
        then response.warnings ++ external_mode ∷ []
        else response.warnings;
  })

  unfoldable pub append_database_status : Option Reporting → StatusResponse → StatusResponse
  append_database_status runtime response = append_postgres cfg.database.postgres runtime response
