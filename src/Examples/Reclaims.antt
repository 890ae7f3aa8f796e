-- ===== src/Examples/Reclaims.antt =====
-- The theorem on the reclamation of capacity with one earlier generation.
use self_hosted_deployer.Common.{String, true, some, [], ◌∷◌, All}
use self_hosted_deployer.Journal.Types.{RequestState, applied, withdrawn}
use self_hosted_deployer.Operation.Types.{ActivationGate}
use self_hosted_deployer.Operation.Capacity.{
  CandidateGeneration, none_pending, CapacityWorld, reclaim_candidate_capacity,
}
use self_hosted_deployer.Operation.Reclaimed.{Allowed, reclaim-Allowed}
use self_hosted_deployer.Examples.Data.{env, app, binding, request, revision}

abbrev gate : ActivationGate
gate = record {
  app = "shop";
  namespace = "apps";
  uid = "u";
  resource_version = "2";
  operation_id = revision;
}

abbrev generation : String → RequestState → CandidateGeneration
generation id state = record {
  app_name = "shop";
  app_id = app.id;
  request_id = id;
  requested_state = "shop";
  state = state;
}

abbrev earlier : String
earlier = "bbbbbbbbbbbbbbbbbbbbbbbbbbbbbbbbbbbbbbbbbbbbbbbbbbbbbbbbbbbbbbbb"

abbrev world : CapacityWorld
world = record {
  supported = true;
  configured = true;
  find_request = λ a r. some (record request { state = applied });
  find_binding = λ a r. some binding;
  find_app = λ id. some app;
  pending_by_app = λ a. none_pending;
  deletion_clear = λ a. true;
  capture = λ n. some (gate, []);
  candidate_selector = λ a r. some [];
  maps_equal = λ a b. true;
  target_ready = λ g t c. some true;
  generations_by_app =
      λ a i. some (generation earlier withdrawn ∷ generation revision applied ∷ []);
  valid_references = λ c. true;
  retire = λ c r. true;
  retire_legacy = λ g. some true;
  retired = λ c r. some true;
}

reclaim-Allowed_example :
    All (Allowed env world "shop" revision) (reclaim_candidate_capacity env world "shop" revision).0
reclaim-Allowed_example = reclaim-Allowed env world "shop" revision
