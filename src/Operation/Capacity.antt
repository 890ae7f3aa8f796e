-- ===== src/Operation/Capacity.antt =====
-- `reclaimCandidateCapacity` of internal/server/candidate_capacity.go, as a run that lists the
-- retirements that it asks for.
use self_hosted_deployer.Common.{
  ℕ, suc, String, Bool, true, false, Option, none, some, List, [], ◌∷◌, ◌==◌, not, ◌&&◌, ◌||◌, any,
  valid_revision, if◌then◌else◌, Result, ok, err,
}
use self_hosted_deployer.AppConfig.Types.{Config, Selector}
use self_hosted_deployer.AppConfig.Parse.{from_json}
use self_hosted_deployer.AppConfig.Validate.{validate, is_hosted}
use self_hosted_deployer.Journal.Types.{
  RequestState, pending, applied, App, DeployRequest, CandidateBinding,
}
use self_hosted_deployer.Journal.Env.{Env}
use self_hosted_deployer.Journal.Bindings.{is_ok, is_deleted}
use self_hosted_deployer.Operation.Types.{ActivationGate}

-- domain.CandidateGeneration
pub record CandidateGeneration : Type 0 where
  pub app_name : String
  pub app_id : String
  pub request_id : String
  pub requested_state : String
  pub state : RequestState

-- The answer of PendingByApp: a row, ErrNotFound, or another error.
pub data PendingReply : Type 0 where
  some_pending none_pending pending_failed : PendingReply

-- What is asked to leave the cluster.
pub data Retirement : Type 0 where
  candidate : CandidateGeneration → Retirement
  legacy : ActivationGate → Retirement

pub data CapacityError : Type 0 where
  cleanup_unconfigured cleanup_pending : CapacityError

abbrev pub CapacityRun : Type 0
CapacityRun = List Retirement × Result CapacityError (Unit {0})

-- The repositories and the runtime, as they answer during one call; `capture n` is the answer of the
-- capture behind `n` earlier ones.
pub record CapacityWorld : Type 0 where
  pub supported : Bool
  pub configured : Bool
  pub find_request : String → String → Option DeployRequest
  pub find_binding : String → String → Option CandidateBinding
  pub find_app : String → Option App
  pub pending_by_app : String → PendingReply
  pub deletion_clear : String → Bool
  pub capture : ℕ → Option (ActivationGate × Selector)
  pub candidate_selector : String → String → Option Selector
  pub maps_equal : Selector → Selector → Bool
  pub target_ready : ActivationGate → Selector → Config → Option Bool
  pub generations_by_app : String → String → Option (List CandidateGeneration)
  pub valid_references : Config → Bool
  pub retire : Config → String → Bool
  pub retire_legacy : ActivationGate → Option Bool
  pub retired : Config → String → Option Bool

-- `return nil`
abbrev pub quit : CapacityRun
quit = ([], ok tt)

-- `return fail()`
abbrev pub fail_cleanup : CapacityRun
fail_cleanup = ([], err cleanup_pending)

unfoldable pub unless_quit : Bool → CapacityRun → CapacityRun
unless_quit true rest = quit
unless_quit false rest = rest

unfoldable pub demand : Bool → CapacityRun → CapacityRun
demand true rest = rest
demand false rest = fail_cleanup

module _ {A : Type 0} where
  unfoldable pub demand_some : Option A → (A → CapacityRun) → CapacityRun
  demand_some none f = fail_cleanup
  demand_some (some a) f = f a

unfoldable pub ask : Retirement → CapacityRun → CapacityRun
ask r rest = (r ∷ rest.0, rest.1)

abbrev pub is_applied : RequestState → Bool
is_applied applied = true
is_applied _ = false

abbrev pub is_settled : RequestState → Bool
is_settled pending = false
is_settled _ = true

abbrev pub same_gate : ActivationGate → ActivationGate → Bool
same_gate a b =
    a.app == b.app
    && a.namespace == b.namespace
    && a.uid == b.uid
    && a.resource_version == b.resource_version
    && a.operation_id == b.operation_id

module _ (env : Env) (w : CapacityWorld) (app request_id : String) where
  -- A configuration that decodes, is accepted and is the application's.
  abbrev pub valid_named : Config → Bool
  valid_named c = is_ok (validate env.externals c) && c.name == app

  -- The configuration of a generation that may be retired.
  abbrev pub valid_generation : String → DeployRequest → CandidateGeneration → Config → Bool
  valid_generation app_id request g c =
      g.app_name == app
      && g.app_id == app_id
      && valid_revision g.request_id
      && is_settled g.state
      && valid_named c
      && is_hosted c.hosting
      && c.state.mode == "stateless"
      && w.valid_references c
      && (not (g.request_id == request_id)
          || is_applied g.state && g.requested_state == request.requested_state)

  -- The loop that reads the configurations.
  unfoldable pub decode_generations :
      String
      → DeployRequest
      → List CandidateGeneration
      → Option (List (CandidateGeneration × Config))
  decode_generations app_id request [] = some []
  decode_generations app_id request (g ∷ gs) =
      let rest = decode_generations app_id request gs in
      elim (from_json env.codec g.requested_state) [
        | none ↦ none
        | some c ↦
            if valid_generation app_id request g c
            then elim rest [ none ↦ none | some decoded ↦ some ((g, c) ∷ decoded) ]
            else none
      ]

  -- The gate that the capture behind so many others answers with.
  abbrev pub still_at : ActivationGate → ℕ → Bool
  still_at gate n = elim (w.capture n) [ none ↦ false | some seen ↦ same_gate seen.0 gate ]

  -- The loop that looks whether all are gone.
  unfoldable pub all_gone : List (CandidateGeneration × Config) → Option Bool
  all_gone [] = some true
  all_gone ((g, c) ∷ gs) =
      let rest = all_gone gs in
      if g.request_id == request_id then rest else elim (w.retired c g.request_id) [
        | none ↦ none
        | some gone ↦ elim rest [ none ↦ none | some others ↦ some (gone && others) ]
      ]

  -- Behind the retirements: the legacy predecessor, and the last look.
  unfoldable pub finish_cleanup :
      ActivationGate → ℕ → List (CandidateGeneration × Config) → CapacityRun
  unfolding ask demand demand_some all_gone
  finish_cleanup gate n decoded = ask (legacy gate) (
      demand_some (w.retire_legacy gate) λ legacy_gone.
        demand_some (all_gone decoded) λ gone. demand (still_at gate n && legacy_gone && gone) quit)

  -- The loop of retirements, each behind a new capture.
  unfoldable pub retire_generations :
      ActivationGate → ℕ → List (CandidateGeneration × Config) → (ℕ → CapacityRun) → CapacityRun
  unfolding ask demand
  retire_generations gate n [] rest = rest n
  retire_generations gate n ((g, c) ∷ gs) rest =
      let skipped = retire_generations gate n gs rest in
      let further = retire_generations gate (suc n) gs rest in
      if g.request_id == request_id
      then skipped
      else demand (still_at gate n) (ask (candidate g) (demand (w.retire c g.request_id) further))

  abbrev pub selects_request : List CandidateGeneration → Bool
  selects_request gs = any (λ g. g.request_id == request_id) gs

  -- From the selected target on.
  unfoldable pub reclaim_target : DeployRequest → String → ActivationGate → Selector → CapacityRun
  unfolding decode_generations finish_cleanup retire_generations
  reclaim_target request app_id gate target =
      demand_some (from_json env.codec request.requested_state) λ c. demand (valid_named c) (
        demand_some (w.target_ready gate target c) λ ready. demand ready (
          demand_some (w.generations_by_app app app_id) λ generations.
            demand_some (decode_generations app_id request generations) λ decoded.
              demand (selects_request generations)
                (retire_generations gate 1 decoded λ n. finish_cleanup gate n decoded)))

  unfoldable pub reclaim_unpended : DeployRequest → String → PendingReply → CapacityRun
  unfolding reclaim_target unless_quit
  reclaim_unpended request app_id some_pending = quit
  reclaim_unpended request app_id pending_failed = fail_cleanup
  reclaim_unpended request app_id none_pending = demand (w.deletion_clear app) (
      demand_some (w.capture 0) λ (gate, target).
        demand_some (w.candidate_selector app request_id) λ selector.
          unless_quit (not (gate.operation_id == request_id) || not (w.maps_equal target selector))
            (reclaim_target request app_id gate target))

  unfoldable pub reclaim_request : DeployRequest → CapacityRun
  unfolding reclaim_unpended
  reclaim_request request = demand (request.app_name == app && request.request_id == request_id) (
      unless_quit (not (is_applied request.state)) (
        demand_some (w.find_binding app request_id) λ binding.
          demand (binding.app_name == app && binding.request_id == request_id) (
            demand_some (w.find_app binding.app_id) λ current.
              unless_quit
                (is_deleted current
                  || not (current.name == app)
                  || not (current.desired_state_json == request.requested_state))
                (reclaim_unpended request binding.app_id (w.pending_by_app app)))))

  -- reclaimCandidateCapacity
  unfoldable pub reclaim_candidate_capacity : CapacityRun
  unfolding reclaim_request
  reclaim_candidate_capacity = unless_quit (not w.supported) (
      if not w.configured
      then ([], err cleanup_unconfigured)
      else demand_some (w.find_request app request_id) reclaim_request)
