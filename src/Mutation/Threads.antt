-- ===== src/Mutation/Threads.antt =====
-- Calls of `acquire` and of the function that it returns, interleaved in any order.
use self_hosted_deployer.Common.{ℕ, String, Bool, true, false, List, [], ◌∷◌, ◌++◌, ◌≡◌, ◌==◌}
use self_hosted_deployer.Mutation.Locks.{MutationLocks, enter_map, forget, set_gate, empty_locks}

-- Where a caller stands: outside, at the `select`, behind a won `select`, and before `forget`.
pub data Caller : Type 0 where
  outside : Caller
  waiting : String → ℕ → Caller
  holding : String → ℕ → Caller
  leaving : String → ℕ → Caller

abbrev pub uses : String → Caller → Bool
uses app outside = false
uses app (waiting other place) = app == other
uses app (holding other place) = app == other
uses app (leaving other place) = app == other

abbrev pub holds : String → Caller → Bool
holds app (holding other place) = app == other
holds app _ = false

-- One atomic section of one caller. The context of a caller may end at any time, so a waiting caller
-- may always `cancel`; a caller whose context ended behind the won `select` releases at once.
pub data Move (s : MutationLocks) : Caller → MutationLocks → Caller → Type 0 where
  arrive : {app : String} → Move s outside (enter_map s app).1 (waiting app (enter_map s app).0)
  win :
      {app : String} {place : ℕ}
      → (s.memory place).gate ≡ false
      → Move s (waiting app place) (set_gate s place true) (holding app place)
  cancel : {app : String} {place : ℕ} → Move s (waiting app place) s (leaving app place)
  release :
      {app : String} {place : ℕ}
      → Move s (holding app place) (set_gate s place false) (leaving app place)
  leave : {app : String} {place : ℕ} → Move s (leaving app place) (forget s app place) outside

pub record System : Type 0 where
  pub locks : MutationLocks
  pub callers : List Caller

-- Some caller moves.
pub data Step (s : System) : System → Type 0 where
  pick :
      (before after : List Caller) {c c' : Caller} {locks' : MutationLocks}
      → s.callers ≡ before ++ c ∷ after
      → Move s.locks c locks' c'
      → Step s (record { locks = locks'; callers = before ++ c' ∷ after })

-- All callers outside.
abbrev pub AllOutside : List Caller → Type 0
AllOutside [] = Unit
AllOutside (c ∷ cs) = (c ≡ outside) × AllOutside cs

-- The states that the server gets to.
pub data Reach : System → Type 0 where
  start :
      (callers : List Caller)
      → AllOutside callers
      → Reach (record { locks = empty_locks; callers = callers })
  later : {s t : System} → Reach s → Step s t → Reach t

-- Any number of steps.
pub data Steps (s : System) : System → Type 0 where
  still : Steps s s
  and_then : {t u : System} → Steps s t → Step t u → Steps s u
