-- ===== src/Journal/Laws/Requests.antt =====
-- Properties of the requests and the checkpoints under single statements of internal/db.
use self_hosted_deployer.Common.{
  ℕ, String, true, false, Option, none, some, List, [], ◌∷◌, ◌++◌, ◌≡◌, refl, arith, ◌&&◌, and-true,
  update,
}
use self_hosted_deployer.Journal.Types.{
  RequestState, Stage, DeployRequest, RuntimeCheckpoint, Tables,
}
use self_hosted_deployer.Journal.Env.{Env}
use self_hosted_deployer.Journal.Transaction.{is_pending, is_request, ◌>>=◌, insert_request}
use self_hosted_deployer.Journal.Keeps.{Keeps, Keeps-guard, keeps_rules, transact_keeps}
use self_hosted_deployer.Journal.Requests.{
  saved_request, begin_new, begin_with, completable, settled, complete_row, begin_tx, begin,
  complete_tx, complete,
}
use self_hosted_deployer.Journal.Checkpoints.{
  stage_eq, is_checkpoint, valid_checkpoint_transition, moved, saved_intent, save_intent_with,
  move_stage, move_checked, save_activation_intent_tx, save_activation_intent,
  record_activation_gate_tx, record_activation_gate,
}
use self_hosted_deployer.Journal.Bindings.Begin.{insert_candidate_request}
use self_hosted_deployer.Journal.Finalize.{settle_request}
use self_hosted_deployer.Journal.Laws.Writes.{OfJournal, KeptByWrites, frame_rules}

pub stage_eq-path : (a b : Stage) → stage_eq a b ≡ true → a ≡ b
stage_eq-path a b h = ground arith

module _ (Q : List DeployRequest → List RuntimeCheckpoint → Type 0) (kept : KeptByWrites Q) where
  insert_request-Keeps :
      (new : DeployRequest)
      → new.state ≡ RequestState.pending
      → Keeps (OfJournal Q) (insert_request new)
  unfolding insert_request OfJournal
  insert_request-Keeps new p = record {
    at = λ t t' a e h.
        let same : t'.checkpoints ≡ t.checkpoints = ground arith in
        let added : t'.requests ≡ t.requests ++ new ∷ [] = ground arith in
        rw (added, same) (kept.insertion new t.requests t.checkpoints p (ground arith) h);
  }

  pub insert_candidate_request-Keeps :
      (new : DeployRequest)
      → new.state ≡ RequestState.pending
      → Keeps (OfJournal Q) (insert_candidate_request new)
  unfolding insert_candidate_request OfJournal
  insert_candidate_request-Keeps new p = record {
    at = λ t t' a e h.
        let same : t'.checkpoints ≡ t.checkpoints = ground arith in
        let added : t'.requests ≡ t.requests ++ new ∷ [] = ground arith in
        rw (added, same) (kept.insertion new t.requests t.checkpoints p (ground arith) h);
  }

  complete_row-Keeps :
      (app request : String) (state : RequestState) (response : String) (now : ℕ)
      → is_pending state ≡ false
      → Keeps (OfJournal Q) (complete_row app request state response now)
  unfolding complete_row OfJournal
  complete_row-Keeps app request state response now s = record {
    at = λ t t' a e h.
        let same : t'.checkpoints ≡ t.checkpoints = ground arith in
        let changed : t'.requests
            ≡ update (completable app request t) (settled state response now) t.requests =
          ground arith in
        rw (changed, same)
          (kept.settling (completable app request t) state response now t.requests t.checkpoints
            (λ r c. ground arith) s h);
  }

  pub settle_request-Keeps :
      (app request : String) (state : RequestState) (response : String) (now : ℕ)
      → is_pending state ≡ false
      → Keeps (OfJournal Q) (settle_request app request state response now)
  unfolding settle_request OfJournal
  settle_request-Keeps app request state response now s = record {
    at = λ t t' a e h.
        let same : t'.checkpoints ≡ t.checkpoints = ground arith in
        let changed : t'.requests
            ≡ update (λ r. is_request app request r && is_pending r.state)
                (settled state response now) t.requests =
          ground arith in
        rw (changed, same)
          (kept.settling (λ r. is_request app request r && is_pending r.state) state response now
            t.requests t.checkpoints (λ r c. (and-true _ _ c).1) s h);
  }

  save_intent_with-Keeps :
      (app request intent : String) (o : Option RuntimeCheckpoint)
      → Keeps (OfJournal Q) (save_intent_with app request intent o)
  unfolding save_intent_with OfJournal ◌>>=◌
  save_intent_with-Keeps app request intent none = record {
    at = λ t t' a e h.
        let same : t'.requests ≡ t.requests = ground arith in
        let added : t'.checkpoints ≡ t.checkpoints ++ saved_intent app request intent ∷ [] =
          ground arith in
        rw (added, same)
          (kept.saving (saved_intent app request intent) t.requests t.checkpoints refl h);
  }
  save_intent_with-Keeps app request intent (some c) = search keeps_rules

  move_stage-Keeps :
      (app request : String) (expected wanted : Stage) (gate : String)
      → valid_checkpoint_transition expected wanted ≡ true
      → Keeps (OfJournal Q) (move_stage app request expected wanted gate)
  unfolding move_stage OfJournal
  move_stage-Keeps app request expected wanted gate v = record {
    at = λ t t' a e h.
        let p =
          λ (c : RuntimeCheckpoint). is_checkpoint app request c && stage_eq c.stage expected in
        let same : t'.requests ≡ t.requests = ground arith in
        let changed : t'.checkpoints ≡ update p (moved wanted gate) t.checkpoints = ground arith in
        rw (changed, same)
          (kept.moving p wanted gate t.requests t.checkpoints
            (λ c k.
              rw
                (stage_eq-path c.stage expected
                  (and-true (is_checkpoint app request c) (stage_eq c.stage expected) k).1)
                v)
            h);
  }

  move_checked-Keeps :
      (app request : String) (expected wanted : Stage) (gate : String) (current : RuntimeCheckpoint)
      → Keeps (OfJournal Q) (move_checked app request expected wanted gate current)
  unfolding move_checked
  move_checked-Keeps app request expected wanted gate current = Keeps-guard _ _ _ λ c.
      let v : valid_checkpoint_transition expected wanted ≡ true = ground arith in
      search (frame_rules, move_stage-Keeps)

  begin_with-Keeps :
      (req : DeployRequest) (o : Option DeployRequest) → Keeps (OfJournal Q) (begin_with req o)
  unfolding begin_with begin_new saved_request
  begin_with-Keeps req none = search (frame_rules, insert_request-Keeps)
  begin_with-Keeps req (some r) = search frame_rules

  pub begin_kept :
      (env : Env) (req : DeployRequest) (t : Tables)
      → OfJournal Q t
      → OfJournal Q (begin env req t).1
  unfolding begin
  begin_kept env req t h =
      transact_keeps (OfJournal Q) (begin_tx env req) t (search (frame_rules, begin_with-Keeps)) h

  pub complete_kept :
      (env : Env) (app request : String) (state : RequestState) (response : String) (now : ℕ)
      (t : Tables)
      → OfJournal Q t
      → OfJournal Q (complete env app request state response now t).1
  unfolding complete
  complete_kept env app request state response now t h =
      transact_keeps (OfJournal Q) (complete_tx env app request state response now) t
        (Keeps-guard _ _ _ λ c. complete_row-Keeps app request state response now (ground arith)) h

  pub save_kept :
      (env : Env) (app request intent : String) (t : Tables)
      → OfJournal Q t
      → OfJournal Q (save_activation_intent env app request intent t).1
  unfolding save_activation_intent
  save_kept env app request intent t h =
      transact_keeps (OfJournal Q) (save_activation_intent_tx env app request intent) t
        (search (frame_rules, save_intent_with-Keeps) depth 14) h

  pub record_kept :
      (env : Env) (app request : String) (expected wanted : Stage) (gate : String) (t : Tables)
      → OfJournal Q t
      → OfJournal Q (record_activation_gate env app request expected wanted gate t).1
  unfolding record_activation_gate
  record_kept env app request expected wanted gate t h =
      transact_keeps (OfJournal Q) (record_activation_gate_tx env app request expected wanted gate)
        t (search (frame_rules, move_checked-Keeps) depth 20) h
