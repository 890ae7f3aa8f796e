-- ===== src/Agent/Backoff.antt =====
-- cmd/deployer-agent/backoff.go. A duration is a number of nanoseconds that is not negative: a
-- doubling that wraps below zero is 0 here, which `Next` treats alike.
use native.Mathlib.Omega.{pow_step}
use self_hosted_deployer.Common.{
  ℕ, zero, suc, ◌*◌, ◌%◌, ◌^◌, ◌≤◌, ◌<◌, false, ◌≡◌, refl, arith, ltb, nat_eq, if◌then◌else◌,
}

-- 5 seconds and a minute
abbrev pub initial_heartbeat_backoff : ℕ
initial_heartbeat_backoff = 5000000000

abbrev pub max_heartbeat_backoff : ℕ
max_heartbeat_backoff = 60000000000

pub record HeartbeatBackoff : Type 0 where
  pub initial : ℕ
  pub max : ℕ
  pub next : ℕ

abbrev pub new_backoff : ℕ → ℕ → HeartbeatBackoff
new_backoff initial max = record { initial = initial; max = max; next = 0 }

-- A number of 64 bits with a sign, where it is positive.
abbrev pub wrap64 : ℕ → ℕ
wrap64 n = let r = n % 18446744073709551616 in if ltb r 9223372036854775808 then r else 0

-- The delay of the next retry.
abbrev pub delay : HeartbeatBackoff → ℕ
delay b = if nat_eq b.next 0 then b.initial else b.next

abbrev pub capped : ℕ → ℕ → ℕ
capped max n = if ltb max n then max else n

-- Next, with the delay that it returns.
unfoldable pub step : HeartbeatBackoff → ℕ × HeartbeatBackoff
step b = (delay b, record b { next = capped b.max (wrap64 (delay b * 2)) })

unfoldable pub reset : HeartbeatBackoff → HeartbeatBackoff
reset b = record b { next = 0 }

-- A configuration of the backoff that does not overflow.
pub record IsSane (b : HeartbeatBackoff) : Type 0 where
  pub positive : 1 ≤ b.initial
  pub ordered : b.initial ≤ b.max
  pub bounded : b.max < 4611686018427387904

-- The state between the calls.
pub record IsReady (b : HeartbeatBackoff) : Type 0 where
  pub sane : IsSane b
  pub within : b.next ≤ b.max
  pub not_below : (nat_eq b.next 0 ≡ false) → b.initial ≤ b.next

pub new_backoff-IsReady :
    (initial max : ℕ) → IsSane (new_backoff initial max) → IsReady (new_backoff initial max)
new_backoff-IsReady initial max s = record { sane = s; within = omega arith; not_below = λ h. cc }

pub reset-IsReady : (b : HeartbeatBackoff) → IsReady b → IsReady (reset b)
unfolding reset
reset-IsReady b r = record {
  sane = record { positive = r.sane.positive; ordered = r.sane.ordered; bounded = r.sane.bounded };
  within = omega arith;
  not_below = λ h. cc;
}

-- From a ready state with 1 ≤ initial ≤ max < 2^62, every delay is between the initial and the
-- greatest one, and the state stays ready.
pub step-IsReady :
    (b : HeartbeatBackoff)
    → IsReady b
    → (b.initial ≤ (step b).0) × ((step b).0 ≤ b.max) × IsReady (step b).1
unfolding step
step-IsReady b r =
    let p = r.sane.positive in
    let o = r.sane.ordered in
    let u = r.sane.bounded in
    let w = r.within in
    let n = r.not_below in
    (
      ground arith,
      ground arith,
      record {
        sane = record { positive = p; ordered = o; bounded = u };
        within = ground arith;
        not_below = λ h. ground arith;
      },
    )

-- `n` calls of Next.
unfoldable pub steps : ℕ → HeartbeatBackoff → HeartbeatBackoff
steps zero b = b
steps (suc n) b = (step (steps n b)).1

abbrev pub min : ℕ → ℕ → ℕ
min a b = if ltb b a then b else a

double_delay :
    (b : HeartbeatBackoff) (k : ℕ)
    → IsSane b
    → 1 ≤ k
    → delay b ≡ min k b.max
    → delay (step b).1 ≡ min (k * 2) b.max
unfolding step
double_delay b k s p h =
    let a = s.positive in let o = s.ordered in let u = s.bounded in rw h (ground arith)

record After (b : HeartbeatBackoff) (n : ℕ) (c : HeartbeatBackoff) : Type 0 where
  same_initial : c.initial ≡ b.initial
  same_max : c.max ≡ b.max
  at_least : 1 ≤ b.initial * 2 ^ n
  delays : delay c ≡ min (b.initial * 2 ^ n) b.max

power_suc : (i n : ℕ) → i * 2 ^ suc n ≡ i * 2 ^ n * 2
power_suc i n = rw (pow_step 2 n) (omega arith)

After-step :
    (b : HeartbeatBackoff) (n : ℕ) (c : HeartbeatBackoff)
    → IsSane b
    → After b n c
    → After b (suc n) (step c).1
After-step b n c s a =
    let sane : IsSane c = record {
      positive = rw a.same_initial s.positive;
      ordered = rw (a.same_initial, a.same_max) s.ordered;
      bounded = rw a.same_max s.bounded;
    } in
    let l = a.at_least in
    record {
      same_initial = (unfold step in a.same_initial);
      same_max = (unfold step in a.same_max);
      at_least = rw (power_suc b.initial n) (omega arith);
      delays =
          rw (power_suc b.initial n, ← a.same_max)
            (double_delay c (b.initial * 2 ^ n) sane l (rw a.same_max a.delays));
    }

after : (b : HeartbeatBackoff) (n : ℕ) → IsSane b → After b n (steps n (reset b))
unfolding steps
after b zero s =
    let p = s.positive in
    let o = s.ordered in
    unfold reset in
    record { same_initial = refl; same_max = refl; at_least = ground arith; delays = ground arith }
after b (suc n) s = After-step b n (steps n (reset b)) s (after b n s)

-- The delays double from the initial one up to the greatest one: after a reset and `n` calls, the
-- next delay is the lesser of `initial * 2 ^ n` and `max`, where 1 ≤ initial ≤ max < 2^62.
pub delay_after :
    (b : HeartbeatBackoff) (n : ℕ)
    → IsSane b
    → (step (steps n (reset b))).0 ≡ min (b.initial * 2 ^ n) b.max
unfolding step
delay_after b n s = (after b n s).delays
