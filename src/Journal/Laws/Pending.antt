-- ===== src/Journal/Laws/Pending.antt =====
-- Pending and settled requests over any calls of internal/db.
use native.Mathlib.Nat.{le_trans}
use self_hosted_deployer.Common.{
  Bool-cases, inl, inr, ◌≤◌, String, Bool, true, false, some, List, [], ◌∷◌, ◌++◌, ◌≡◌, refl, arith,
  ◌==◌, eq_iff, ◌||◌, count, find?,
}
use self_hosted_deployer.Common.Lists.Rows.{
  find?-update, find?-append, count-append, count_of_none, count-update_le,
}
use self_hosted_deployer.Journal.Types.{DeployRequest, RuntimeCheckpoint, Tables}
use self_hosted_deployer.Journal.Env.{Env}
use self_hosted_deployer.Journal.Transaction.{
  is_pending, is_request, is_pending_of, request_clashes,
}
use self_hosted_deployer.Journal.Requests.{settled, select_request}
use self_hosted_deployer.Journal.Step.{Reach}
use self_hosted_deployer.Journal.Laws.Writes.{KeptByWrites}
use self_hosted_deployer.Journal.Laws.Runs.{run_kept}

-- No application has two pending requests.
pub record HasOnePending (rows : List DeployRequest) (checkpoints : List RuntimeCheckpoint)
    : Type 0 where
  pub at : (app : String) → count (is_pending_of app) rows ≤ 1

abbrev clashes : DeployRequest → DeployRequest → Bool
clashes new r = is_request new.app_name new.request_id r || is_pending_of new.app_name r

pending_clashes :
    (new r : DeployRequest) (app : String)
    → (new.app_name == app) ≡ true
    → is_pending_of app r ≡ true
    → clashes new r ≡ true
pending_clashes new r app same c =
    ground (arith, eq_iff new.app_name app, eq_iff r.app_name app, eq_iff r.app_name new.app_name)

new_pending :
    (new : DeployRequest) (rows : List DeployRequest) (app : String)
    → request_clashes new rows ≡ false
    → count (is_pending_of app) rows ≤ 1
    → count (is_pending_of app) (rows ++ new ∷ []) ≤ 1
new_pending new rows app h k = elim (Bool-cases (new.app_name == app)) [
  | inl same ↦ rw (count-append (is_pending_of app) rows (new ∷ [])) (
      unfold count in
      ground (
        arith,
        count_of_none (is_pending_of app) (clashes new) rows
            (λ r c. pending_clashes new r app same c) h,
      ))
  | inr differs ↦
      rw (count-append (is_pending_of app) rows (new ∷ [])) (unfold count in ground arith)
]

HasOnePending-kept : KeptByWrites HasOnePending
HasOnePending-kept = record {
  insertion = λ new rows checkpoints p clash h. record {
    at = λ app. new_pending new rows app clash (h.at app);
  };
  settling = λ p state response now rows checkpoints pending s h. record {
    at = λ app.
        le_trans
          (count-update_le (is_pending_of app) p (settled state response now) rows
            (λ r c. ground arith))
          (h.at app);
  };
  saving = λ new rows checkpoints p h. record { at = h.at };
  moving = λ p wanted gate rows checkpoints v h. record { at = h.at };
}

-- From tables where no application has two pending requests, whatever the calls, every application
-- has one pending request at most.
pub one_pending :
    (env : Env) (t u : Tables)
    → HasOnePending t.requests t.checkpoints
    → Reach env t u
    → (app : String) → count (is_pending_of app) u.requests ≤ 1
one_pending env t u h r app = (go h r).at app
  where
    go :
        {u : Tables}
        → HasOnePending t.requests t.checkpoints
        → Reach env t u
        → HasOnePending u.requests u.checkpoints
    go h Reach.here = h
    go h (Reach.next {u} r c) = run_kept HasOnePending HasOnePending-kept env c u (go h r)

-- The row of a settled request.
abbrev IsRow : DeployRequest → List DeployRequest → List RuntimeCheckpoint → Type 0
IsRow row rows checkpoints = find? (is_request row.app_name row.request_id) rows ≡ some row

IsRow-kept : (row : DeployRequest) → is_pending row.state ≡ false → KeptByWrites (IsRow row)
IsRow-kept row settled_row = record {
  insertion = λ new rows checkpoints p clash h.
      find?-append (is_request row.app_name row.request_id) rows (new ∷ []) row h;
  settling = λ p state response now rows checkpoints pending s h.
      rw
        (
          find?-update (is_request row.app_name row.request_id) p (settled state response now) rows
              (λ r. refl),
          h,
        )
        (elim (Bool-cases (p row)) [
          | inl touched ↦ cc (pending row touched)
          | inr untouched ↦ rw untouched
        ]);
  saving = λ new rows checkpoints p h. h;
  moving = λ p wanted gate rows checkpoints v h. h;
}

-- Whatever the calls, the row of a request that is settled, its outcome and its reply included, is
-- found as it was.
pub settled_stays :
    (env : Env) (t u : Tables) (row : DeployRequest)
    → is_pending row.state ≡ false
    → select_request row.app_name row.request_id t ≡ some row
    → Reach env t u
    → select_request row.app_name row.request_id u ≡ some row
settled_stays env t u row s h Reach.here = h
settled_stays env t u row s h (Reach.next {u = v} r c) =
    run_kept (IsRow row) (IsRow-kept row s) env c v (settled_stays env t v row s h r)
