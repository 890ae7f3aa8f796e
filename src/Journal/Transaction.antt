-- ===== src/Journal/Transaction.antt =====
-- SQL statements and transactions of internal/db over the rows. A transaction works on its own
-- copy of the tables: an error rolls the copy back, and a commit puts it in place.
use self_hosted_deployer.Common.{
  String, Bool, true, false, Option, none, some, List, [], ◌∷◌, ◌++◌, ◌==◌, ◌&&◌, ◌||◌, any,
  if◌then◌else◌, Result, ok, err,
}
use self_hosted_deployer.Journal.Types.{
  RequestState, pending, DeployRequest, Tables, JournalError, not_found, constraint,
}

abbrev pub Tx {ℓ} : Type ℓ → Type ℓ
Tx A = Tables → Result JournalError (A × Tables)

module _ {ℓ} {A : Type ℓ} where
  unfoldable pub pure : A → Tx A
  pure a t = ok (a, t)

  unfoldable pub fail : JournalError → Tx A
  fail e t = err e

  unfoldable pub gets : (Tables → A) → Tx A
  gets f t = ok (f t, t)

  -- A query of one row: `sql.ErrNoRows` becomes `ErrNotFound`.
  unfoldable pub or_missing : Option A → Tx A
  or_missing none t = err not_found
  or_missing (some a) t = ok (a, t)

  unfoldable pub lift_option : JournalError → Option A → Tx A
  lift_option e none t = err e
  lift_option e (some a) t = ok (a, t)

  -- A check that reads no table.
  unfoldable pub lift : Result JournalError A → Tx A
  lift (ok a) t = ok (a, t)
  lift (err e) t = err e

-- `if b { return e }`
unfoldable pub refuse_tx : Bool → JournalError → Tx (Unit {0})
refuse_tx true e t = err e
refuse_tx false e t = ok (tt, t)

unfoldable pub when_tx : Bool → Tx (Unit {0}) → Tx (Unit {0})
when_tx true m t = m t
when_tx false m t = ok (tt, t)

unfoldable pub modify : (Tables → Tables) → Tx (Unit {0})
modify f t = ok (tt, f t)

module _ {ℓ κ} {A : Type ℓ} {B : Type κ} where
  infixl 5 ◌>>=◌
  -- Opening this opens the actions above too.
  unfoldable pub ◌>>=◌ : Tx A → (A → Tx B) → Tx B
  unfolding pure fail gets or_missing lift_option lift refuse_tx when_tx modify
  ◌>>=◌ m f t = elim (m t) [ err e ↦ err e | ok (a, t') ↦ f a t' ]

module _ {ℓ} {B : Type ℓ} where
  infixl 5 ◌>>◌
  abbrev pub ◌>>◌ : Tx (Unit {0}) → Tx B → Tx B
  m >> k = m >>= λ _. k

module _ {ℓ} {A : Type ℓ} where
  -- The call of a function that a transaction encloses: committed, or rolled back.
  unfoldable pub close : Result JournalError (A × Tables) → Tables → Result JournalError A × Tables
  close (err e) t = (err e, t)
  close (ok (a, t')) t = (ok a, t')

  unfoldable pub transact : Tx A → Tables → Result JournalError A × Tables
  unfolding close
  transact m t = close (m t) t

abbrev pub is_pending : RequestState → Bool
is_pending pending = true
is_pending _ = false

-- `app_name = ? AND request_id = ?`
abbrev pub is_request : String → String → DeployRequest → Bool
is_request app request r = r.app_name == app && r.request_id == request

-- `app_name = ? AND state = 'pending'`
abbrev pub is_pending_of : String → DeployRequest → Bool
is_pending_of app r = r.app_name == app && is_pending r.state

-- The primary key and the index `deployment_requests_one_pending` for a new pending row.
abbrev pub request_clashes : DeployRequest → List DeployRequest → Bool
request_clashes new =
    any λ r. is_request new.app_name new.request_id r || is_pending_of new.app_name r

-- INSERT INTO deployment_requests of a pending row.
unfoldable pub insert_request : DeployRequest → Tx (Unit {0})
insert_request new t =
    if request_clashes new t.requests
    then err constraint
    else ok (tt, record t { requests = t.requests ++ new ∷ [] })
