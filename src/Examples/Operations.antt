-- ===== src/Examples/Operations.antt =====
-- The theorems on candidate operations (internal/server/candidate_operation.go) at concrete inputs.
use self_hosted_deployer.Common.{
  length, pos, none, ◌∷◌, valid_revision, ◌&&◌, nat_eq, arith, true, some, [], ◌≡◌, refl, ok,
}
use self_hosted_deployer.Journal.Types.{fenced, prepared, activated}
use self_hosted_deployer.Operation.Types.{
  ActivationGate, ActivationTarget, by_number, World, Order, Found, row,
}
use self_hosted_deployer.Operation.Advance.{advance_candidate_operation}
use self_hosted_deployer.Operation.Phases.{idle, held, Advances}
use self_hosted_deployer.Operation.Order.{advance-start, advance-resume}
use self_hosted_deployer.AppConfig.Validate.{is_hosted}
use self_hosted_deployer.Operation.Gate.{advance-Belongs}
use self_hosted_deployer.Operation.Recovery.{RecoveryWorld, restore_candidate_traffic}
use self_hosted_deployer.Operation.Recovering.{Recovers, resting}
use self_hosted_deployer.Operation.Restored.{restore-Recovers}
use self_hosted_deployer.Operation.Parked.{advance-parked}
use self_hosted_deployer.Examples.Data.{shop, request, revision, checkpoint}

abbrev gate : ActivationGate
gate = record {
  app = "shop";
  namespace = "apps";
  uid = "u";
  resource_version = "2";
  operation_id = revision;
}

abbrev target_one : ActivationTarget
target_one = record {
  selector = ("deployer.io/generation", "g1") ∷ [];
  ports =
      record {
        name = "http";
        protocol = "TCP";
        app_protocol = none;
        port = pos 80;
        target_port = by_number (pos 8080);
        node_port = pos 0;
      }
      ∷ [];
}

abbrev world : Found → World
world saved = record {
  valid_config = λ c. true;
  valid_references = λ c a b. true;
  canonical_config = λ c. some "shop";
  encode_intent = λ i. some "{}";
  decode_intent = λ s. some (record {
    app_name = "shop";
    request_id = revision;
    requested_state = "shop";
    secret_revision = "";
    registry_secret = "";
    initial_gate = gate;
    predecessor_target = target_one;
  });
  encode_gate = λ g. some "gate";
  decode_gate = λ s. some gate;
  find_request = λ a r. some request;
  find_checkpoint = λ a r. saved;
  save_intent = λ a r s. true;
  record_gate = λ a r s n g. true;
  capture = λ a. some (gate, target_one);
  fence = λ g r. some gate;
  prepare = λ c s r p. true;
  activate = λ g c s r p. some gate;
}

abbrev order : Order
order = record {
  app_name = "shop";
  request_id = revision;
  config = shop;
  secret_revision = "";
  registry_secret = "";
}

advance-start_example :
    Advances
      (world Found.missing)
      order
      idle
      (advance_candidate_operation (world Found.missing) order)
advance-start_example = advance-start (world Found.missing) order refl

advance-resume_example :
    Advances
      (world (row (checkpoint fenced)))
      order
      (held gate)
      (advance_candidate_operation (world (row (checkpoint fenced))) order)
advance-resume_example =
    advance-resume (world (row (checkpoint fenced))) order (checkpoint fenced) refl refl

-- An advance that runs through: it returns the gate.
advances : (advance_candidate_operation (world Found.missing) order).1 ≡ ok gate
unfolding advance_candidate_operation valid_revision is_hosted
advances = refl

advance-Belongs_example : (gate.app ≡ "shop") × (gate.operation_id ≡ revision)
advance-Belongs_example = advance-Belongs (world Found.missing) order gate advances

advance-parked_example :
    ((advance_candidate_operation (world (row (checkpoint prepared))) order).0 ≡ [])
    × ((g : ActivationGate)
        → (advance_candidate_operation (world (row (checkpoint prepared))) order).1 ≡ ok g
        → (prepared ≡ activated) × (some gate ≡ some g))
advance-parked_example =
    advance-parked (world (row (checkpoint prepared))) order (checkpoint prepared) refl refl

abbrev recovery_world : RecoveryWorld
recovery_world = record {
  recovery_id = λ app request. "recovery";
  encode_recovery = λ id. id;
  decode_recovery = λ text. some text;
  replace = λ g target. some (record g { operation_id = "recovery" });
  same_target = λ a b.
      nat_eq (length a.selector) (length b.selector) && nat_eq (length a.ports) (length b.ports);
  empty_differs = λ target h. ground arith;
}

restore-Recovers_example :
    Recovers
      (world (row (checkpoint fenced)))
      recovery_world
      "shop"
      revision
      (checkpoint fenced)
      resting
      (restore_candidate_traffic (world (row (checkpoint fenced))) recovery_world "shop" revision)
restore-Recovers_example =
    restore-Recovers (world (row (checkpoint fenced))) recovery_world "shop" revision
      (checkpoint fenced) refl (λ e. cc)
