-- ===== src/Database/Answered.antt =====
-- What a status response that says healthy rests on.
use self_hosted_deployer.Common.{String, some, ◌≡◌, ok}
use self_hosted_deployer.AppConfig.Types.{Config, PostgresConfig}
use self_hosted_deployer.Database.Types.{to_int32, DatabaseStatus, Texts}
use self_hosted_deployer.Database.Report.{DatabaseReport, StatusResponse, Reporting}
use self_hosted_deployer.Database.Sound.{IsSound}

module _ (texts : Texts) (p : PostgresConfig) (cfg : Config) (name : String) where
  -- The runtime reported a sound cluster.
  pub record HasSound (status : Reporting) : Type 0 where
    pub db : DatabaseStatus
    pub answered : status name ≡ ok db
    pub sound : IsSound texts p cfg db (to_int32 p.instances)

  -- The state of the response's report.
  abbrev pub ReportsHealthy : StatusResponse → Type 0
  ReportsHealthy r =
      (report : DatabaseReport) × (r.database ≡ some report) × (report.state ≡ "healthy")
