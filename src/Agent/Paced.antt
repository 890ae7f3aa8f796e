-- ===== src/Agent/Paced.antt =====
-- How the heartbeat loop paces itself, and when it leaves.
use self_hosted_deployer.Common.{
  ℕ, ◌≤◌, Bool, true, false, none, some, List, [], ◌∷◌, ◌≡◌, refl, ◌⊎◌, inl, inr, All, arith,
}
use self_hosted_deployer.Agent.Backoff.{
  HeartbeatBackoff, IsReady, step, reset, step-IsReady, reset-IsReady,
}
use self_hosted_deployer.Agent.Loop.{
  Beat, taken, refused, lost, Connection, connected, disconnected, Tick, Life, sleep_then,
  having_sent, beat_then, run_loop,
}

-- Some heartbeat of the list was refused.
abbrev pub WasRefused : List Beat → Type 0
WasRefused [] = ⊥
WasRefused (b ∷ bs) = (b ≡ refused) ⊎ WasRefused bs

-- The sleeps are the interval or a delay between the initial and the greatest one, and the loop leaves
-- with a failure only for a refused heartbeat.
pub record IsPaced (interval initial max : ℕ) (l : Life) : Type 0 where
  pub sleeps : All (λ d. (d ≡ interval) ⊎ ((initial ≤ d) × (d ≤ max))) l.sleeps
  pub failure : l.code ≡ some 1 → WasRefused l.sent
  pub codes : (l.code ≡ none) ⊎ ((l.code ≡ some 0) ⊎ (l.code ≡ some 1))

module _ (interval initial max : ℕ) where
  sleep-IsPaced :
      (beat : Beat) (woken : Bool) (state : Connection) (time : ℕ) (rest : Life)
      → (time ≡ interval) ⊎ ((initial ≤ time) × (time ≤ max))
      → IsPaced interval initial max rest
      → IsPaced interval initial max (having_sent beat (sleep_then woken state time rest))
  sleep-IsPaced beat true state time rest d p = record {
    sleeps = (d, p.sleeps);
    failure = λ h. inr (p.failure h);
    codes = p.codes;
  }
  sleep-IsPaced beat false state time rest d p = record {
    sleeps = (d, tt);
    failure = λ h. absurd (ground arith);
    codes = inr (inl refl);
  }

  beat-IsPaced :
      (beat : Beat) (woken : Bool) (b : HeartbeatBackoff) (state : Connection)
      (connected_rest lost_rest : Life)
      → (initial ≤ (step b).0) × ((step b).0 ≤ max)
      → IsPaced interval initial max connected_rest
      → IsPaced interval initial max lost_rest
      → IsPaced interval initial max
          (having_sent beat (beat_then interval false beat woken b state connected_rest lost_rest))
  beat-IsPaced taken woken b state x y d p q =
      sleep-IsPaced taken woken connected interval x (inl refl) p
  beat-IsPaced refused woken b state x y d p q = record {
    sleeps = tt;
    failure = λ h. inl refl;
    codes = inr (inr refl);
  }
  beat-IsPaced lost woken b state x y d p q =
      sleep-IsPaced lost woken disconnected (step b).0 y (inr d) q

-- Without `--once`, from a ready backoff, every sleep of the loop is the interval or a delay between
-- the initial and the greatest one, the loop leaves with code 0 or 1 or not at all, and with 1 only if
-- a heartbeat was refused.
pub run_loop-IsPaced :
    (interval : ℕ) (ticks : List Tick) (b : HeartbeatBackoff) (state : Connection)
    → IsReady b
    → IsPaced interval b.initial b.max (run_loop interval false ticks b state)
unfolding run_loop step reset
run_loop-IsPaced interval [] b state r = record { sleeps = tt; failure = λ h. cc; codes = inl refl }
run_loop-IsPaced interval (t ∷ ts) b state r =
    let (lo, hi, ready) = step-IsReady b r in
    beat-IsPaced interval b.initial b.max t.beat t.woken b state _ _ (lo, hi)
      (run_loop-IsPaced interval ts (reset b) connected (reset-IsReady b r))
      (run_loop-IsPaced interval ts (step b).1 disconnected ready)
