-- ===== src/Mutation/Refines.antt =====
-- The locks as a client sees them: per application, held or free.
use mathlib.Core.Path.{subst}
use self_hosted_deployer.Common.{
  ◌≤◌, String, Bool, true, false, List, ◌∷◌, ◌++◌, ◌≡◌, refl, sym, ltb, not, ◌==◌, ◌&&◌, ◌||◌,
  eq_iff, count, Bool-cases, inl, inr, arith, some,
}
use self_hosted_deployer.Mutation.Locks.{MutationLocks}
use self_hosted_deployer.Mutation.Threads.{
  Caller, outside, waiting, holding, leaving, holds, Move, arrive, win, cancel, release, leave,
  System, Step, pick, Reach,
}
use self_hosted_deployer.Mutation.Entry.{Inv}
use self_hosted_deployer.Mutation.Invariant.{Reach-Inv, count-split}
use self_hosted_deployer.Mutation.Safety.{mutual_exclusion, IsMapped-at}

-- Which applications are held.
unfoldable pub held : List Caller → String → Bool
held cs app = ltb 0 (count (holds app) cs)

-- A step of the specification: one free application is acquired, one held one is released, or
-- nothing that a client sees changes.
pub data SpecStep (before after : String → Bool) : Type 0 where
  stutter : ((b : String) → after b ≡ before b) → SpecStep before after
  acquire :
      (a : String)
      → before a ≡ false
      → ((b : String) → after b ≡ (b == a || before b))
      → SpecStep before after
  free :
      (a : String)
      → before a ≡ true
      → ((b : String) → after b ≡ (not (b == a) && before b))
      → SpecStep before after

module _ (s : MutationLocks) (xs ys : List Caller) where
  same_holders :
      (c c' : Caller)
      → ((b : String) → holds b c' ≡ holds b c)
      → SpecStep (held (xs ++ c ∷ ys)) (held (xs ++ c' ∷ ys))
  unfolding held
  same_holders c c' h =
      SpecStep.stutter
        λ b. ground (arith, count-split (holds b) xs c ys, count-split (holds b) xs c' ys, h b)

  Move-SpecStep :
      {s' : MutationLocks} {c c' : Caller}
      → Move s c s' c'
      → Inv s (xs ++ c ∷ ys)
      → ((b : String) → count (holds b) (xs ++ c ∷ ys) ≤ 1)
      → SpecStep (held (xs ++ c ∷ ys)) (held (xs ++ c' ∷ ys))
  unfolding held
  Move-SpecStep (arrive {app}) inv few = same_holders outside _ (λ b. refl)
  Move-SpecStep (cancel {app} {place}) inv few =
      same_holders (waiting app place) (leaving app place) (λ b. refl)
  Move-SpecStep (leave {app} {place}) inv few = same_holders (leaving app place) outside (λ b. refl)
  Move-SpecStep (win {app} {place} g) inv few =
      SpecStep.acquire app
        (ground
          (arith, count-split (holds app) xs (waiting app place) ys, inv.entries app, here, g))
        λ b. ground (
          arith,
          count-split (holds b) xs (waiting app place) ys,
          count-split (holds b) xs (holding app place) ys,
        )
    where
      here : s.apps app ≡ some place
      here = IsMapped-at s xs ys (waiting app place) inv.mapped
  Move-SpecStep (release {app} {place}) inv few =
      SpecStep.free app
        (ground (arith, count-split (holds app) xs (holding app place) ys, eq_iff app app))
        λ b. elim (Bool-cases (b == app)) [
          | inl e ↦ ground (
            arith,
            count-split (holds b) xs (holding app place) ys,
            count-split (holds b) xs (leaving app place) ys,
            few b,
          )
          | inr e ↦ ground (
            arith,
            count-split (holds b) xs (holding app place) ys,
            count-split (holds b) xs (leaving app place) ys,
          )
        ]

-- The locks implement one lock per application: in every interleaving that the server gets to, each
-- atomic section of a caller acquires one application that nobody holds, frees one that is held, or
-- leaves the set of held applications as it is.
pub Step-SpecStep : {s t : System} → Reach s → Step s t → SpecStep (held s.callers) (held t.callers)
Step-SpecStep {s} r (pick xs ys {c' = c'} e mv) =
    subst (λ cs. SpecStep (held cs) (held (xs ++ c' ∷ ys))) (sym e)
      (Move-SpecStep s.locks xs ys mv (subst (Inv s.locks) e (Reach-Inv r))
        (subst (λ cs. (b : String) → count (holds b) cs ≤ 1) e (mutual_exclusion r)))
