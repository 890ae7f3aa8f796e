-- ===== src/Mutation/Entry.antt =====
-- What the map and a lock say of the callers of one application, and how a move of one caller
-- changes it.
use self_hosted_deployer.Common.{
  ℕ, ◌+◌, ◌<◌, ◌≤◌, String, Bool, true, false, Option, none, some, List, [], ◌∷◌, ◌≡◌, refl, ◌==◌,
  eq_iff, Option-cases, inl, inr, arith, count, All,
}
use self_hosted_deployer.Mutation.Locks.{MutationLocks, enter_map, enter_at, forget, set_gate}
use self_hosted_deployer.Mutation.Threads.{
  Caller, outside, waiting, holding, leaving, uses, holds, Move, arrive, win, cancel, release,
  leave,
}

-- A caller's lock is the one of the map.
abbrev pub IsMapped : MutationLocks → Caller → Type 0
IsMapped s outside = Unit
IsMapped s (waiting app place) = s.apps app ≡ some place
IsMapped s (holding app place) = s.apps app ≡ some place
IsMapped s (leaving app place) = s.apps app ≡ some place

-- 1 for a full gate.
abbrev pub filled : Bool → ℕ
filled true = 1
filled false = 0

-- The entry of one application with so many users and holders: absent without users.
abbrev pub Entry : MutationLocks → (users holders : ℕ) → Option ℕ → Type 0
Entry s u h none = (u ≡ 0) × (h ≡ 0)
Entry s u h (some place) =
    (place < s.next) × (0 < u) × ((s.memory place).users ≡ u) × (filled (s.memory place).gate ≡ h)

abbrev pub Apart : MutationLocks → Type 0
Apart s =
    (app other : String) (place : ℕ)
    → s.apps app ≡ some place
    → s.apps other ≡ some place
    → app ≡ other

pub record Inv (s : MutationLocks) (cs : List Caller) : Type 0 where
  pub mapped : All (IsMapped s) cs
  pub entries : (app : String) → Entry s (count (uses app) cs) (count (holds app) cs) (s.apps app)
  pub apart : Apart s

abbrev pub one : Bool → ℕ
one true = 1
one false = 0

-- The users and the holders besides the caller that moves.
module _ (s : MutationLocks) (r k : String → ℕ) (apart : Apart s) where
  arrive-Entry :
      (app : String) (o : Option ℕ)
      → s.apps app ≡ o
      → (b : String) → Entry s (r b + 0) (k b + 0) (s.apps b)
      → Entry (enter_at s app o).1 (r b + one (b == app)) (k b + 0) ((enter_at s app o).1.apps b)
  unfolding enter_map
  arrive-Entry app none q b e = elim (Option-cases (s.apps b)) [
    | inl z ↦ ground (arith, eq_iff b app, eq_iff app b)
    | inr (p, z) ↦ ground (arith, eq_iff b app, eq_iff app b)
  ]
  arrive-Entry app (some place) q b e = ground (arith, eq_iff b app, apart app b place)

  pub Move-Entry :
      {s' : MutationLocks} {c c' : Caller}
      → Move s c s' c'
      → IsMapped s c
      → (b : String) → k b ≤ r b
      → Entry s (r b + one (uses b c)) (k b + one (holds b c)) (s.apps b)
      → Entry s' (r b + one (uses b c')) (k b + one (holds b c')) (s'.apps b)
  unfolding enter_map forget set_gate
  Move-Entry (arrive {app}) m b le e = arrive-Entry app (s.apps app) refl b e
  Move-Entry (win {app} {place} g) m b le e = ground (arith, eq_iff b app, apart app b place)
  Move-Entry cancel m b le e = ground arith
  Move-Entry (release {app} {place}) m b le e = ground (arith, eq_iff b app, apart app b place)
  Move-Entry (leave {app} {place}) m b le e =
      ground (arith, eq_iff b app, eq_iff app b, apart app b place)

  -- What the map says of another user of a lock.
  pub kept_place :
      {s' : MutationLocks} {c c' : Caller}
      → Move s c s' c'
      → IsMapped s c
      → ((a : String) → Entry s (r a + one (uses a c)) (k a + one (holds a c)) (s.apps a))
      → (a : String) (p : ℕ) → 0 < r a
      → s.apps a ≡ some p
      → s'.apps a ≡ some p
  unfolding enter_map forget set_gate
  kept_place (arrive {app}) m e a p z q = ground (arith, eq_iff a app, eq_iff app a, e app, e a)
  kept_place (leave {app} {place}) m e a p z q = ground (arith, eq_iff a app, eq_iff app a, e app)
  kept_place (win g) m e a p z q = q
  kept_place (release) m e a p z q = q
  kept_place cancel m e a p z q = q

  pub Move-IsMapped :
      {s' : MutationLocks} {c c' : Caller} → Move s c s' c' → IsMapped s c → IsMapped s' c'
  unfolding enter_map forget set_gate
  Move-IsMapped (arrive {app}) m = ground (arith, eq_iff app app)
  Move-IsMapped (leave {app} {place}) m = tt
  Move-IsMapped (win g) m = m
  Move-IsMapped (release) m = m
  Move-IsMapped cancel m = m

  pub Move-Apart :
      {s' : MutationLocks} {c c' : Caller}
      → Move s c s' c'
      → ((a : String) → Entry s (r a + one (uses a c)) (k a + one (holds a c)) (s.apps a))
      → Apart s'
  unfolding enter_map forget set_gate
  Move-Apart (arrive {app}) e a b p ea eb =
      ground (arith, eq_iff app a, eq_iff app b, e a, e b, apart a b p)
  Move-Apart (leave {app} {place}) e a b p ea eb = ground (arith, apart a b p)
  Move-Apart (win g) e a b p ea eb = apart a b p ea eb
  Move-Apart (release) e a b p ea eb = apart a b p ea eb
  Move-Apart cancel e a b p ea eb = apart a b p ea eb

  place_kept :
      (s' : MutationLocks)
      → ((a : String) (p : ℕ) → 0 < r a → s.apps a ≡ some p → s'.apps a ≡ some p)
      → (d : Caller) → ((a : String) → one (uses a d) ≤ r a)
      → IsMapped s d
      → IsMapped s' d
  place_kept s' f outside le m = tt
  place_kept s' f (waiting a p) le m = f a p (ground (arith, eq_iff a a, le a)) m
  place_kept s' f (holding a p) le m = f a p (ground (arith, eq_iff a a, le a)) m
  place_kept s' f (leaving a p) le m = f a p (ground (arith, eq_iff a a, le a)) m

  pub others-IsMapped :
      (s' : MutationLocks)
      → ((a : String) (p : ℕ) → 0 < r a → s.apps a ≡ some p → s'.apps a ≡ some p)
      → (ds : List Caller) → ((a : String) → count (uses a) ds ≤ r a)
      → All (IsMapped s) ds
      → All (IsMapped s') ds
  unfolding count
  others-IsMapped s' f [] le ms = tt
  others-IsMapped s' f (d ∷ ds) le (m, ms) = (
    place_kept s' f d (λ a. ground (arith, le a)) m,
    others-IsMapped s' f ds (λ a. ground (arith, le a)) ms,
  )
