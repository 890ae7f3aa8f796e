-- ===== src/Journal/Step.antt =====
-- The journal as a state machine: one call of one operation of internal/db, by whichever caller, with
-- whatever arguments, whether it succeeds or fails.
use self_hosted_deployer.Common.{ℕ, String, Bool}
use self_hosted_deployer.Journal.Types.{RequestState, Stage, DeployRequest, Tables}
use self_hosted_deployer.Journal.Env.{Env}
use self_hosted_deployer.Journal.Requests.{begin, complete}
use self_hosted_deployer.Journal.Checkpoints.{save_activation_intent, record_activation_gate}
use self_hosted_deployer.Journal.Bindings.Begin.{begin_candidate}
use self_hosted_deployer.Journal.Bindings.Bind.{bind}
use self_hosted_deployer.Journal.Finalize.{finalize}

pub data Call : Type 0 where
  begin_request : DeployRequest → Call
  complete_request : String → String → RequestState → String → ℕ → Call
  save_intent : String → String → String → Call
  record_gate : String → String → Stage → Stage → String → Call
  begin_binding : DeployRequest → String → String → ℕ → Bool → Call
  bind_existing : String → String → String → String → ℕ → Call
  finalize_request : String → String → RequestState → String → Bool → ℕ → Call

-- The tables after a call.
unfoldable pub run : Env → Call → Tables → Tables
run env (begin_request req) t = (begin env req t).1
run env (complete_request app request state response now) t =
    (complete env app request state response now t).1
run env (save_intent app request intent) t = (save_activation_intent env app request intent t).1
run env (record_gate app request expected next gate) t =
    (record_activation_gate env app request expected next gate t).1
run env (begin_binding req proposed deployment now withdrawal) t =
    (begin_candidate env req proposed deployment now withdrawal t).1
run env (bind_existing app request app_id deployment now) t =
    (bind env app request app_id deployment now t).1
run env (finalize_request app request outcome gate tls now) t =
    (finalize env app request outcome gate tls now t).1

-- The tables that any sequence of calls leads to.
pub data Reach (env : Env) (t : Tables) : Tables → Type 0 where
  here : Reach env t t
  next : {u : Tables} → Reach env t u → (c : Call) → Reach env t (run env c u)
