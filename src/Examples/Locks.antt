-- ===== src/Examples/Locks.antt =====
-- The theorems on the mutation locks where two callers meet at one application.
use self_hosted_deployer.Common.{false, ◌≤◌, ◌<◌, ◌↔◌, ◌≢◌, true, none, [], ◌∷◌, refl, count}
use self_hosted_deployer.Mutation.Locks.{enter_map, set_gate, empty_locks}
use self_hosted_deployer.Mutation.Threads.{
  outside, waiting, holding, leaving, uses, holds, arrive, win, release, System, pick, Reach, start,
  later,
}
use self_hosted_deployer.Mutation.Refines.{held, SpecStep, Step-SpecStep}
use self_hosted_deployer.Mutation.Safety.{mutual_exclusion, entry_iff, Granted, waiting-gets}

-- One caller holds the lock of `web`, and another waits for it.
abbrev contended : System
contended = record {
  locks = set_gate (enter_map (enter_map empty_locks "web").1 "web").1 0 true;
  callers = holding "web" 0 ∷ waiting "web" 0 ∷ [];
}

contended-Reach : Reach contended
unfolding enter_map
contended-Reach =
    later
      (later
        (later (start (outside ∷ outside ∷ []) (refl, (refl, tt)))
          (pick [] (outside ∷ []) refl (arrive {app = "web"})))
        (pick (waiting "web" 0 ∷ []) [] refl (arrive {app = "web"})))
      (pick [] (waiting "web" 0 ∷ []) refl (win refl))

mutual_exclusion_example : count (holds "web") contended.callers ≤ 1
mutual_exclusion_example = mutual_exclusion contended-Reach "web"

entry_iff_example : (contended.locks.apps "web" ≢ none) ↔ (0 < count (uses "web") contended.callers)
entry_iff_example = entry_iff contended-Reach "web"

-- The holder releases while the other one waits.
Step-SpecStep_example :
    SpecStep (held contended.callers) (held (leaving "web" 0 ∷ waiting "web" 0 ∷ []))
Step-SpecStep_example = Step-SpecStep contended-Reach (
    pick [] (waiting "web" 0 ∷ []) {c' = leaving "web" 0}
      {locks' = set_gate contended.locks 0 false} refl (release {app = "web"} {place = 0}))

waiting-gets_example : Granted contended "web" 1
waiting-gets_example = waiting-gets (holding "web" 0 ∷ []) [] "web" 0 contended-Reach refl
