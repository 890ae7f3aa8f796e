-- ===== src/Database/Runtime.antt =====
-- `databaseRuntimeState`, `databaseRuntimeWarnings` and `databaseReportedState`.
use self_hosted_deployer.Common.{
  String, Bool, true, false, List, [], ◌∷◌, not, ◌&&◌, length, if◌then◌else◌, trim_space, is_empty,
  ℤ, pos, lt_int, eq_int,
}
use self_hosted_deployer.Database.Types.{
  to_int32, DatabaseStatus, Warning, not_present, primary_not_reported, phase_not_reported,
  ready_of, ready_expected, nodes_of, nodes_expected, phase_is, reported, Texts,
}

abbrev pub nodes_running : DatabaseStatus → ℤ
nodes_running db = to_int32 (pos (length db.running_nodes))

abbrev pub has_warnings : List Warning → Bool
has_warnings [] = false
has_warnings (w ∷ ws) = true

module _ (texts : Texts) where
  abbrev pub phase_healthy : DatabaseStatus → Bool
  phase_healthy db = texts.equal_fold (trim_space db.phase) "Cluster in healthy state"

  unfoldable pub database_runtime_state : DatabaseStatus → ℤ → String
  database_runtime_state db desired =
      if not db.present
      then "missing"
      else if lt_int (pos 0) desired
          && eq_int db.ready_instances desired
          && not (is_empty (trim_space db.primary))
          && phase_healthy db
          && (lt_int (pos 0) desired && eq_int (nodes_running db) desired)
      then "healthy"
      else if lt_int (pos 0) db.ready_instances
      then "degraded"
      else "not_ready"

  unfoldable pub database_runtime_warnings : DatabaseStatus → ℤ → List Warning
  unfolding reported
  database_runtime_warnings db desired =
      if not db.present
      then not_present ∷ []
      else reported (
          (lt_int db.ready_instances desired, ready_of db.ready_instances desired)
          ∷ (
            not (lt_int db.ready_instances desired) && lt_int desired db.ready_instances,
            ready_expected db.ready_instances desired,
          )
          ∷ (is_empty (trim_space db.primary), primary_not_reported)
          ∷ (
            lt_int (pos 0) desired && lt_int (nodes_running db) desired,
            nodes_of (length db.running_nodes) desired,
          )
          ∷ (
            not (lt_int (pos 0) desired && lt_int (nodes_running db) desired)
                && (lt_int (pos 0) desired && lt_int desired (nodes_running db)),
            nodes_expected (length db.running_nodes) desired,
          )
          ∷ (is_empty (trim_space db.phase), phase_not_reported)
          ∷ (
            not (is_empty (trim_space db.phase)) && not (phase_healthy db),
            phase_is (trim_space db.phase),
          )
          ∷ [])

  unfoldable pub database_reported_state : DatabaseStatus → ℤ → List Warning → String
  unfolding database_runtime_state
  database_reported_state db desired ha =
      if db.present && has_warnings ha then "degraded" else database_runtime_state db desired
