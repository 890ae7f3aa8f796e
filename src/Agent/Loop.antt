-- ===== src/Agent/Loop.antt =====
-- cmd/deployer-agent/run_loop.go: the heartbeats behind the flags and the connection.
use self_hosted_deployer.Common.{ℕ, Bool, Option, none, some, List, [], ◌∷◌, if◌then◌else◌}
use self_hosted_deployer.Agent.Backoff.{HeartbeatBackoff, step, reset}

-- A heartbeat is taken, fails for its credential ("authentication failed" or "permission denied"), or
-- fails otherwise.
pub data Beat : Type 0 where
  taken refused lost : Beat

pub data Connection : Type 0 where
  starting connected disconnected : Connection

-- One heartbeat, and whether the sleep behind it runs out before the context ends.
pub record Tick : Type 0 where
  pub beat : Beat
  pub woken : Bool

-- The heartbeats that were sent, the sleeps, the connection that was logged last, and the exit code of
-- a loop that has left.
pub record Life : Type 0 where
  pub sent : List Beat
  pub sleeps : List ℕ
  pub connection : Connection
  pub code : Option ℕ

-- A sleep of that length, and the rest of the loop where it runs out.
abbrev pub sleep_then : Bool → Connection → ℕ → Life → Life
sleep_then woken connection time rest =
    if woken
    then record rest { sleeps = time ∷ rest.sleeps }
    else record { sent = []; sleeps = time ∷ []; connection = connection; code = some 0 }

abbrev pub leave : Connection → ℕ → Life
leave connection code = record { sent = []; sleeps = []; connection = connection; code = some code }

abbrev pub having_sent : Beat → Life → Life
having_sent beat rest = record rest { sent = beat ∷ rest.sent }

module _ (interval : ℕ) (once : Bool) where
  -- The body of the loop; `connected_rest` and `lost_rest` are its next rounds.
  abbrev pub beat_then :
      Beat → Bool → HeartbeatBackoff → Connection → (connected_rest lost_rest : Life) → Life
  beat_then taken woken b state connected_rest lost_rest =
      if once then leave connected 0 else sleep_then woken connected interval connected_rest
  beat_then refused woken b state connected_rest lost_rest = leave state 1
  beat_then lost woken b state connected_rest lost_rest =
      if once then leave disconnected 1 else sleep_then woken disconnected (step b).0 lost_rest

  -- The loop over the ticks that the world has so far.
  unfoldable pub run_loop : List Tick → HeartbeatBackoff → Connection → Life
  unfolding step reset
  run_loop [] b state = record { sent = []; sleeps = []; connection = state; code = none }
  run_loop (t ∷ ts) b state =
      let connected_rest = run_loop ts (reset b) connected in
      let lost_rest = run_loop ts (step b).1 disconnected in
      having_sent t.beat (beat_then t.beat t.woken b state connected_rest lost_rest)
