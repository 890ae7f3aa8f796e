-- ===== src/Examples/Loops.antt =====
-- The heartbeat loop through a success, two failures and a refusal.
use self_hosted_deployer.Common.{true, false, List, [], ◌∷◌}
use self_hosted_deployer.Agent.Loop.{taken, refused, lost, starting, Tick, run_loop}
use self_hosted_deployer.Agent.Paced.{IsPaced, run_loop-IsPaced}
use self_hosted_deployer.Examples.Access.{heartbeat, heartbeat-IsReady}

abbrev ticks : List Tick
ticks =
    record { beat = taken; woken = true }
    ∷ record { beat = lost; woken = true }
    ∷ record { beat = lost; woken = true }
    ∷ record { beat = refused; woken = true }
    ∷ []

run_loop-IsPaced_example :
    IsPaced 30000000000 5000000000 60000000000 (run_loop 30000000000 false ticks heartbeat starting)
run_loop-IsPaced_example = run_loop-IsPaced 30000000000 ticks heartbeat starting heartbeat-IsReady
