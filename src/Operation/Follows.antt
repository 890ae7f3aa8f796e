-- ===== src/Operation/Follows.antt =====
-- Runs whose calls follow the steps between phases.
use mathlib.Core.Path.{subst}
use self_hosted_deployer.Common.{
  Bool, true, false, Option, none, some, List, [], ◌∷◌, ◌≡◌, refl, arith, ok,
}
use self_hosted_deployer.Operation.Types.{
  ActivationGate, OperationError, Event, Run, done, stop, call, check, need,
}

-- The calls that may come at each phase, and the phases in which a gate may come back.
module _ {P : Type 0} (Step : P → Event → P → Type 0) (Finished : P → ActivationGate → Type 0) where
  pub data Trace : P → List Event → P → Type 0 where
    end : {p : P} → Trace p [] p
    step :
        {p q r : P} {e : Event} {es : List Event} → Step p e q → Trace q es r → Trace p (e ∷ es) r

  -- The calls of a run follow the steps from a phase, and a run that returns a gate ends in a phase
  -- in which that gate may come back.
  pub record Follows (p : P) (run : Run ActivationGate) : Type 0 where
    pub last : P
    pub trace : Trace p run.0 last
    pub finished_with : (g : ActivationGate) → run.1 ≡ ok g → Finished last g

  pub Follows-stop : (p : P) (e : OperationError) → Follows p (stop e)
  unfolding stop
  Follows-stop p e = record { last = p; trace = Trace.end; finished_with = λ g h. cc }

  pub Follows-done : (p : P) (g : ActivationGate) → Finished p g → Follows p (done g)
  unfolding done
  Follows-done p g f = record {
    last = p;
    trace = Trace.end;
    finished_with = λ x h. subst (Finished p) (ground arith) f;
  }

  -- What follows a check or a need may use its answer.
  pub Follows-check :
      (p : P) (b : Bool) (e : OperationError) (rest : Run ActivationGate)
      → (b ≡ true → Follows p rest)
      → Follows p (check b e rest)
  unfolding check
  Follows-check p true e rest f = f refl
  Follows-check p false e rest f = Follows-stop p e

  pub Follows-need :
      {A : Type 0} (p : P) (o : Option A) (e : OperationError) (f : A → Run ActivationGate)
      → ((a : A) → o ≡ some a → Follows p (f a))
      → Follows p (need o e f)
  unfolding need
  Follows-need p none e f k = Follows-stop p e
  Follows-need p (some a) e f k = record {
    last = (k a refl).last;
    trace = (k a refl).trace;
    finished_with = (k a refl).finished_with;
  }

  pub Follows-call :
      (p q : P) (event : Event) (rest : Run ActivationGate)
      → Step p event q
      → Follows q rest
      → Follows p (call event rest)
  unfolding call
  Follows-call p q event rest s f = record {
    last = f.last;
    trace = Trace.step s f.trace;
    finished_with = f.finished_with;
  }
