-- ===== src/Journal/Laws/Runs.antt =====
-- Properties of the requests and the checkpoints over the calls of internal/db.
use self_hosted_deployer.Common.{ℕ, String, Bool, false, Option, none, some, List, ◌≡◌, refl, arith}
use self_hosted_deployer.AppConfig.Types.{Config}
use self_hosted_deployer.Journal.Types.{
  RequestState, applied, App, Deployment, DeployRequest, CandidateBinding, RuntimeCheckpoint,
  Tables,
}
use self_hosted_deployer.Journal.Env.{Env}
use self_hosted_deployer.Journal.Transaction.{is_pending}
use self_hosted_deployer.Journal.Keeps.{Keeps, Keeps-guard, transact_keeps}
use self_hosted_deployer.Journal.Bindings.Begin.{
  saved_binding, adopt_app, admit_candidate, create_candidate, begin_binding, begin_candidate_tx,
  begin_candidate,
}
use self_hosted_deployer.Journal.Finalize.{
  settle_route, drop_stale_route, settle_app, settled_reply, check_checkpoint, check_rows, settle,
  finalize_pending, finalize_tx, finalize,
}
use self_hosted_deployer.Journal.Step.{Call, run}
use self_hosted_deployer.Journal.Laws.Writes.{OfJournal, KeptByWrites, frame_rules}
use self_hosted_deployer.Journal.Laws.Binds.{bind_kept}
use self_hosted_deployer.Journal.Laws.Requests.{
  insert_candidate_request-Keeps, settle_request-Keeps, begin_kept, complete_kept, save_kept,
  record_kept,
}

module _ (Q : List DeployRequest → List RuntimeCheckpoint → Type 0) (kept : KeptByWrites Q) where
  saved_binding-Keeps :
      (req : DeployRequest) (withdrawal : Bool) (now : ℕ) (b : CandidateBinding)
      → Keeps (OfJournal Q) (saved_binding req withdrawal now b)
  unfolding saved_binding
  saved_binding-Keeps req withdrawal now b = search frame_rules depth 14

  adopt_app-Keeps :
      (req : DeployRequest) (c : Config) (proposed : String) (now : ℕ) (row live : Option App)
      → Keeps (OfJournal Q) (adopt_app req c proposed now row live)
  unfolding adopt_app
  adopt_app-Keeps req c proposed now row none = search frame_rules depth 8
  adopt_app-Keeps req c proposed now row (some app) = search frame_rules depth 8

  admit_candidate-Keeps :
      (env : Env) (req : DeployRequest) (c : Config) (withdrawal : Bool) (row live : Option App)
      → Keeps (OfJournal Q) (admit_candidate env req c withdrawal row live)
  unfolding admit_candidate
  admit_candidate-Keeps env req c withdrawal row live = search frame_rules depth 10

  create_candidate-Keeps :
      (env : Env) (req : DeployRequest) (c : Config) (proposed deployment_id : String) (now : ℕ)
      (withdrawal : Bool)
      → Keeps (OfJournal Q) (create_candidate env req c proposed deployment_id now withdrawal)
  unfolding create_candidate
  create_candidate-Keeps env req c proposed deployment_id now withdrawal =
      search
        (frame_rules, admit_candidate-Keeps, insert_candidate_request-Keeps Q kept, adopt_app-Keeps)
        depth 30

  begin_binding-Keeps :
      (env : Env) (req : DeployRequest) (c : Config) (proposed deployment_id : String) (now : ℕ)
      (withdrawal : Bool) (o : Option CandidateBinding)
      → Keeps (OfJournal Q) (begin_binding env req c proposed deployment_id now withdrawal o)
  unfolding begin_binding
  begin_binding-Keeps env req c proposed deployment_id now withdrawal none =
      create_candidate-Keeps env req c proposed deployment_id now withdrawal
  begin_binding-Keeps env req c proposed deployment_id now withdrawal (some b) =
      saved_binding-Keeps req withdrawal now b

  begin_candidate_kept :
      (env : Env) (req : DeployRequest) (proposed deployment_id : String) (now : ℕ)
      (withdrawal : Bool) (t : Tables)
      → OfJournal Q t
      → OfJournal Q (begin_candidate env req proposed deployment_id now withdrawal t).1
  unfolding begin_candidate
  begin_candidate_kept env req proposed deployment_id now withdrawal t h =
      transact_keeps (OfJournal Q)
        (begin_candidate_tx env req proposed deployment_id now withdrawal) t
        (search (frame_rules, begin_binding-Keeps) depth 12) h

  settle_route-Keeps :
      (env : Env) (r : DeployRequest) (c : Config) (app_id : String) (tls : Bool) (now : ℕ)
      → Keeps (OfJournal Q) (settle_route env r c app_id tls now)
  unfolding settle_route
  settle_route-Keeps env r c app_id tls now = search frame_rules

  drop_stale_route-Keeps :
      (r : DeployRequest) (app_id : String) → Keeps (OfJournal Q) (drop_stale_route r app_id)
  unfolding drop_stale_route
  drop_stale_route-Keeps r app_id = search frame_rules

  settle_app-Keeps :
      (env : Env) (outcome : RequestState) (r : DeployRequest) (c : Config) (app : App) (tls : Bool)
      (now : ℕ)
      → Keeps (OfJournal Q) (settle_app env outcome r c app tls now)
  unfolding settle_app
  settle_app-Keeps env applied r c app tls now = search (frame_rules, settle_route-Keeps)
  settle_app-Keeps env _ r c app tls now = search (frame_rules, drop_stale_route-Keeps)

  check_checkpoint-Keeps :
      (env : Env) (outcome : RequestState) (gate : String) (r : DeployRequest)
      (checkpoint : RuntimeCheckpoint)
      → Keeps (OfJournal Q) (check_checkpoint env outcome gate r checkpoint)
  unfolding check_checkpoint
  check_checkpoint-Keeps env outcome gate r checkpoint = search frame_rules depth 14

  check_rows-Keeps :
      (env : Env) (r : DeployRequest) (b : CandidateBinding)
      → Keeps (OfJournal Q) (check_rows env r b)
  unfolding check_rows
  check_rows-Keeps env r b = search frame_rules depth 16

  settled_reply-Keeps :
      (env : Env) (outcome : RequestState) (r : DeployRequest) (o : Option String)
      → r.response_json ≡ o
      → Keeps (OfJournal Q) (settled_reply env outcome r)
  unfolding settled_reply
  settled_reply-Keeps env outcome r none e = rw e (search frame_rules)
  settled_reply-Keeps env outcome r (some reply) e = rw e (search frame_rules)

  settled_reply_kept :
      (env : Env) (outcome : RequestState) (r : DeployRequest)
      → Keeps (OfJournal Q) (settled_reply env outcome r)
  settled_reply_kept env outcome r = settled_reply-Keeps env outcome r r.response_json refl

  settle-Keeps :
      (env : Env) (outcome : RequestState) (r : DeployRequest) (c : Config) (app : App)
      (d : Deployment) (tls : Bool) (now : ℕ)
      → is_pending outcome ≡ false
      → Keeps (OfJournal Q) (settle env outcome r c app d tls now)
  unfolding settle
  settle-Keeps env outcome r c app d tls now s =
      search (frame_rules, settle_app-Keeps, settle_request-Keeps Q kept) depth 16

  finalize_pending-Keeps :
      (env : Env) (outcome : RequestState) (gate : String) (tls : Bool) (now : ℕ)
      (r : DeployRequest) (b : CandidateBinding)
      → is_pending outcome ≡ false
      → Keeps (OfJournal Q) (finalize_pending env outcome gate tls now r b)
  unfolding finalize_pending
  finalize_pending-Keeps env outcome gate tls now r b s =
      search (frame_rules, check_checkpoint-Keeps, check_rows-Keeps, settle-Keeps) depth 16

  finalize_kept :
      (env : Env) (app request : String) (outcome : RequestState) (gate : String) (tls : Bool)
      (now : ℕ) (t : Tables)
      → OfJournal Q t
      → OfJournal Q (finalize env app request outcome gate tls now t).1
  unfolding finalize
  finalize_kept env app request outcome gate tls now t h =
      transact_keeps (OfJournal Q) (finalize_tx env app request outcome gate tls now) t
        (Keeps-guard _ _ _ λ c.
          let s : is_pending outcome ≡ false = ground arith in
          search (frame_rules, settled_reply_kept, finalize_pending-Keeps) depth 16)
        h

  -- What every write on the requests keeps, every call keeps.
  pub run_kept :
      (env : Env) (c : Call) (t : Tables)
      → Q t.requests t.checkpoints
      → Q (run env c t).requests (run env c t).checkpoints
  unfolding run OfJournal
  run_kept env (Call.begin_request req) t h = begin_kept Q kept env req t h
  run_kept env (Call.complete_request app request state response now) t h =
      complete_kept Q kept env app request state response now t h
  run_kept env (Call.save_intent app request intent) t h =
      save_kept Q kept env app request intent t h
  run_kept env (Call.record_gate app request expected wanted gate) t h =
      record_kept Q kept env app request expected wanted gate t h
  run_kept env (Call.begin_binding req proposed deployment now withdrawal) t h =
      begin_candidate_kept env req proposed deployment now withdrawal t h
  run_kept env (Call.bind_existing app request app_id deployment now) t h =
      bind_kept Q env app request app_id deployment now t h
  run_kept env (Call.finalize_request app request outcome gate tls now) t h =
      finalize_kept env app request outcome gate tls now t h
