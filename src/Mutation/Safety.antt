-- ===== src/Mutation/Safety.antt =====
-- What the locks guarantee in every state that the server gets to.
use mathlib.Core.Path.{subst}
use self_hosted_deployer.Common.{
  ℕ, ◌<◌, ◌≤◌, String, true, false, none, some, List, [], ◌∷◌, ◌++◌, ◌≡◌, refl, ◌≢◌, ◌↔◌, ◌⊎◌, inl,
  inr, arith, All, count, length, sym, ap, ◌==◌, eq_iff, Bool-cases, Option-cases,
}
use self_hosted_deployer.Common.Lists.{length-append}
use self_hosted_deployer.Common.Lists.Rows.{count-append}
use self_hosted_deployer.Mutation.Locks.{MutationLocks, set_gate}
use self_hosted_deployer.Mutation.Entry.{IsMapped, Inv}
use self_hosted_deployer.Mutation.Threads.{
  Caller, outside, waiting, holding, leaving, uses, holds, win, release, System, pick, Reach, Steps,
  still, and_then,
}
use self_hosted_deployer.Mutation.Invariant.{Reach-Inv, All-split}

-- At most one caller holds the lock of an application, in any interleaving of any number of callers
-- whose contexts may end at any time.
pub mutual_exclusion : {s : System} → Reach s → (app : String) → count (holds app) s.callers ≤ 1
mutual_exclusion {s} r app = elim (Option-cases (s.locks.apps app)) [
  | inl z ↦ ground (arith, (Reach-Inv r).entries app)
  | inr (place, z) ↦ ground (arith, (Reach-Inv r).entries app)
]

-- The map has an entry for an application if and only if some caller is inside, so that the map does
-- not grow with the applications of the past.
pub entry_iff :
    {s : System}
    → Reach s
    → (app : String) → (s.locks.apps app ≢ none) ↔ (0 < count (uses app) s.callers)
entry_iff {s} r app = elim (Option-cases (s.locks.apps app)) [
  | inl z ↦ (λ h. absurd (h z), λ lt. absurd (ground (arith, (Reach-Inv r).entries app)))
  | inr (place, z) ↦ (λ h. ground (arith, (Reach-Inv r).entries app), λ lt. cc)
]

abbrev Held : String → List Caller → Type 0
Held app cs =
    (xs : List Caller) × (ys : List Caller) × (place : ℕ) × (cs ≡ xs ++ holding app place ∷ ys)

further : (app : String) (c : Caller) (cs : List Caller) → Held app cs → Held app (c ∷ cs)
further app c cs (xs, ys, place, e) = (c ∷ xs, ys, place, ap (λ l. c ∷ l) e)

-- A caller that holds the lock of the application.
find_holder : (app : String) (cs : List Caller) → 0 < count (holds app) cs → Held app cs
unfolding count
find_holder app [] h = absurd (omega arith)
find_holder app (holding b place ∷ cs) h = elim (Bool-cases (app == b)) [
  | inl e ↦ ([], cs, place, rw ((eq_iff app b).0 e) refl)
  | inr e ↦ further app (holding b place) cs (find_holder app cs (ground arith))
]
find_holder app (outside ∷ cs) h = further app outside cs (find_holder app cs (ground arith))
find_holder app (waiting b p ∷ cs) h =
    further app (waiting b p) cs (find_holder app cs (ground arith))
find_holder app (leaving b p ∷ cs) h =
    further app (leaving b p) cs (find_holder app cs (ground arith))

append_assoc {ℓ} : {A : Type ℓ} (xs ys zs : List A) → (xs ++ ys) ++ zs ≡ xs ++ (ys ++ zs)
append_assoc [] ys zs = refl
append_assoc (x ∷ xs) ys zs = ap (λ l. x ∷ l) (append_assoc xs ys zs)

-- The caller at one place of the list gets the lock by some steps.
pub record Granted (s : System) (app : String) (position : ℕ) : Type 0 where
  pub after : System
  pub steps : Steps s after
  pub before_it : List Caller
  pub behind_it : List Caller
  pub place : ℕ
  pub holds_it : after.callers ≡ before_it ++ holding app place ∷ behind_it
  pub position_of : length before_it ≡ position

grant_now :
    {s t : System} {app : String} {place : ℕ} (xs ys : List Caller)
    → Steps s t
    → t.callers ≡ xs ++ waiting app place ∷ ys
    → (t.locks.memory place).gate ≡ false
    → Granted s app (length xs)
grant_now {t = t} {app} {place} xs ys st e g = record {
  after = record { locks = set_gate t.locks place true; callers = xs ++ holding app place ∷ ys };
  steps = and_then st (pick xs ys e (win g));
  before_it = xs;
  behind_it = ys;
  place = place;
  holds_it = refl;
  position_of = refl;
}

freed :
    (s : MutationLocks) {other place : ℕ}
    → other ≡ place
    → ((set_gate s other false).memory place).gate ≡ false
unfolding set_gate
freed s e = ground arith

holder_split :
    (app : String) (place : ℕ) (xs ys : List Caller)
    → 0 < count (holds app) (xs ++ waiting app place ∷ ys)
    → (0 < count (holds app) xs) ⊎ (0 < count (holds app) ys)
unfolding count
holder_split app place xs ys h =
    ground (arith, count-append (holds app) xs (waiting app place ∷ ys))

pub IsMapped-at :
    (s : MutationLocks) (xs ys : List Caller) (c : Caller)
    → All (IsMapped s) (xs ++ c ∷ ys)
    → IsMapped s c
IsMapped-at s xs ys c h = (All-split (IsMapped s) xs c ys h).1

-- The holder stands before the waiting caller, or behind it.
grant_after_one_before :
    {s : System} (xs ys : List Caller) (app : String) (place : ℕ)
    → Inv s.locks s.callers
    → s.callers ≡ xs ++ waiting app place ∷ ys
    → Held app xs
    → Granted s app (length xs)
grant_after_one_before {s} xs ys app place inv e (us, vs, other, f) =
    subst (λ n. Granted s app n)
      (rw f (
        omega (
          arith,
          length-append us (leaving app other ∷ vs),
          length-append us (holding app other ∷ vs),
        )))
      (grant_now {place = place} (us ++ leaving app other ∷ vs) ys
        (and_then still (pick us (vs ++ waiting app place ∷ ys) whole release))
        (sym (append_assoc us (leaving app other ∷ vs) (waiting app place ∷ ys)))
        (freed s.locks same))
  where
    whole : s.callers ≡ us ++ holding app other ∷ (vs ++ waiting app place ∷ ys)
    whole = rw (e, f) (append_assoc us (holding app other ∷ vs) (waiting app place ∷ ys))

    same : other ≡ place
    same = ground (
      arith,
      IsMapped-at s.locks us _ (holding app other)
          (subst (All (IsMapped s.locks)) whole inv.mapped),
      IsMapped-at s.locks xs ys (waiting app place) (subst (All (IsMapped s.locks)) e inv.mapped),
    )

grant_after_one_behind :
    {s : System} (xs ys : List Caller) (app : String) (place : ℕ)
    → Inv s.locks s.callers
    → s.callers ≡ xs ++ waiting app place ∷ ys
    → Held app ys
    → Granted s app (length xs)
grant_after_one_behind {s} xs ys app place inv e (us, vs, other, f) =
    (grant_now {place = place} xs (us ++ leaving app other ∷ vs)
      (and_then still (pick (xs ++ waiting app place ∷ us) vs whole release))
      (append_assoc xs (waiting app place ∷ us) (leaving app other ∷ vs)) (freed s.locks same))
  where
    whole : s.callers ≡ (xs ++ waiting app place ∷ us) ++ holding app other ∷ vs
    whole = rw (e, f) (sym (append_assoc xs (waiting app place ∷ us) (holding app other ∷ vs)))

    same : other ≡ place
    same = ground (
      arith,
      IsMapped-at s.locks _ vs (holding app other)
          (subst (All (IsMapped s.locks)) whole inv.mapped),
      IsMapped-at s.locks xs ys (waiting app place) (subst (All (IsMapped s.locks)) e inv.mapped),
    )

-- No deadlock: a caller that waits, at whatever place of the list, can get the lock: by a win of its
-- own, behind a release by the holder where there is one.
pub waiting-gets :
    {s : System} (xs ys : List Caller) (app : String) (place : ℕ)
    → Reach s
    → s.callers ≡ xs ++ waiting app place ∷ ys
    → Granted s app (length xs)
waiting-gets {s} xs ys app place r e = elim (Bool-cases (s.locks.memory place).gate) [
  | inr free ↦ grant_now xs ys still e free
  | inl full ↦
      let some_holder : 0 < count (holds app) s.callers = ground (arith, inv.entries app, here) in
      elim (holder_split app place xs ys (subst (λ cs. 0 < count (holds app) cs) e some_holder)) [
        | inl h ↦ grant_after_one_before xs ys app place inv e (find_holder app xs h)
        | inr h ↦ grant_after_one_behind xs ys app place inv e (find_holder app ys h)
      ]
]
  where
    inv : Inv s.locks s.callers
    inv = Reach-Inv r

    here : s.locks.apps app ≡ some place
    here =
        IsMapped-at s.locks xs ys (waiting app place) (subst (All (IsMapped s.locks)) e inv.mapped)
