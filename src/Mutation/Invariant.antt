-- ===== src/Mutation/Invariant.antt =====
-- What holds between the map, the locks and the callers in every state that the server gets to.
use mathlib.Core.Path.{subst}
use self_hosted_deployer.Common.{
  ℕ, ◌+◌, ◌<◌, ◌≤◌, String, Bool, false, some, List, [], ◌∷◌, ◌++◌, ◌≡◌, refl, arith, count, All,
}
use self_hosted_deployer.Common.Lists.Rows.{count-append}
use self_hosted_deployer.Mutation.Locks.{MutationLocks, empty_locks}
use self_hosted_deployer.Mutation.Entry.{
  IsMapped, Entry, Inv, one, Move-Entry, kept_place, Move-IsMapped, Move-Apart, others-IsMapped,
}
use self_hosted_deployer.Mutation.Threads.{
  Caller, outside, waiting, holding, leaving, uses, holds, Move, System, Step, pick, AllOutside,
  Reach, start, later,
}

pub All-split {ℓ κ} :
    {A : Type ℓ} (P : A → Type κ) (xs : List A) (x : A) (ys : List A)
    → All P (xs ++ x ∷ ys)
    → All P xs × P x × All P ys
All-split P [] x ys (p, ps) = (tt, p, ps)
All-split P (y ∷ xs) x ys (p, ps) = let (a, b, c) = All-split P xs x ys ps in ((p, a), b, c)

All-join {ℓ κ} :
    {A : Type ℓ} (P : A → Type κ) (xs : List A) (x : A) (ys : List A)
    → All P xs × P x × All P ys
    → All P (xs ++ x ∷ ys)
All-join P [] x ys (a, p, b) = (p, b)
All-join P (y ∷ xs) x ys ((q, a), p, b) = (q, All-join P xs x ys (a, p, b))

pub count-split :
    (q : Caller → Bool) (xs : List Caller) (c : Caller) (ys : List Caller)
    → count q (xs ++ c ∷ ys) ≡ count q xs + count q ys + one (q c)
unfolding count
count-split q xs c ys = ground (arith, count-append q xs (c ∷ ys))

count-holds : (a : String) (cs : List Caller) → count (holds a) cs ≤ count (uses a) cs
unfolding count
count-holds a [] = omega arith
count-holds a (outside ∷ cs) = ground (arith, count-holds a cs)
count-holds a (waiting b p ∷ cs) = ground (arith, count-holds a cs)
count-holds a (holding b p ∷ cs) = ground (arith, count-holds a cs)
count-holds a (leaving b p ∷ cs) = ground (arith, count-holds a cs)

module _ (s : MutationLocks) (xs ys : List Caller) where
  abbrev users_besides : String → ℕ
  users_besides a = count (uses a) xs + count (uses a) ys

  abbrev holders_besides : String → ℕ
  holders_besides a = count (holds a) xs + count (holds a) ys

  Move-Inv :
      {s' : MutationLocks} {c c' : Caller}
      → Move s c s' c'
      → Inv s (xs ++ c ∷ ys)
      → Inv s' (xs ++ c' ∷ ys)
  Move-Inv {s'} {c} {c'} mv inv = record {
    mapped = All-join _ xs c' ys (
      others-IsMapped s users_besides holders_besides inv.apart s' besides xs (λ a. omega arith)
          before,
      Move-IsMapped s users_besides holders_besides inv.apart mv here,
      others-IsMapped s users_besides holders_besides inv.apart s' besides ys (λ a. omega arith)
          after,
    );
    entries = λ a.
        rw (count-split (uses a) xs c' ys, count-split (holds a) xs c' ys)
          (Move-Entry s users_besides holders_besides inv.apart mv here a
            (omega (arith, count-holds a xs, count-holds a ys)) (entry a));
    apart = Move-Apart s users_besides holders_besides inv.apart mv entry;
  }
    where
      all : All (IsMapped s) xs × IsMapped s c × All (IsMapped s) ys
      all = All-split (IsMapped s) xs c ys inv.mapped

      before : All (IsMapped s) xs
      before = all.0

      here : IsMapped s c
      here = all.1

      after : All (IsMapped s) ys
      after = all.2

      entry :
          (a : String)
          → Entry s
              (users_besides a + one (uses a c))
              (holders_besides a + one (holds a c))
              (s.apps a)
      entry a = rw (← count-split (uses a) xs c ys, ← count-split (holds a) xs c ys) (inv.entries a)

      besides : (a : String) (p : ℕ) → 0 < users_besides a → s.apps a ≡ some p → s'.apps a ≡ some p
      besides = kept_place s users_besides holders_besides inv.apart mv here entry

pub Step-Inv : {s t : System} → Step s t → Inv s.locks s.callers → Inv t.locks t.callers
Step-Inv {s} (pick xs ys e mv) inv = Move-Inv s.locks xs ys mv (subst (Inv s.locks) e inv)

none_of :
    (q : Caller → Bool) (ds : List Caller) → q outside ≡ false → AllOutside ds → count q ds ≡ 0
unfolding count
none_of q [] z hs = refl
none_of q (d ∷ ds) z (o, hs) = ground (arith, none_of q ds z hs)

outside-IsMapped : (ds : List Caller) → AllOutside ds → All (IsMapped empty_locks) ds
outside-IsMapped [] hs = tt
outside-IsMapped (d ∷ ds) (o, hs) = (rw o tt, outside-IsMapped ds hs)

pub Reach-Inv : {s : System} → Reach s → Inv s.locks s.callers
Reach-Inv (start cs h) = record {
  mapped = outside-IsMapped cs h;
  entries = λ app. (none_of (uses app) cs refl h, none_of (holds app) cs refl h);
  apart = λ app other place e f. cc;
}
Reach-Inv (later r st) = Step-Inv st (Reach-Inv r)
