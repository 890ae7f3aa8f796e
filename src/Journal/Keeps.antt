-- ===== src/Journal/Keeps.antt =====
-- What every committed transaction keeps: one rule for each way to build a transaction.
use mathlib.Core.Path.{subst}
use self_hosted_deployer.Common.{
  Bool, true, false, Option, none, some, ◌≡◌, refl, if◌then◌else◌, Result, ok, err,
}
use self_hosted_deployer.Journal.Types.{Tables, JournalError}
use self_hosted_deployer.Journal.Transaction.{
  Tx, ◌>>=◌, ◌>>◌, pure, fail, gets, or_missing, lift_option, lift, refuse_tx, when_tx, close,
  transact,
}

-- Where the action succeeds, the tables that it leaves have the property if those before have it.
pub record Keeps {ℓ} {A : Type ℓ} (P : Tables → Type 0) (m : Tx A) : Type ℓ where
  pub at : (t t' : Tables) (a : A) → m t ≡ ok (a, t') → P t → P t'

same_tables {ℓ} :
    {A : Type ℓ} (P : Tables → Type 0) (a b : A) (t t' : Tables)
    → ◌≡◌ {A = Result JournalError (A × Tables)} (ok (a, t)) (ok (b, t'))
    → P t
    → P t'
same_tables P a b t t' e h = subst P (cc) h

module _ {ℓ} {A : Type ℓ} {P : Tables → Type 0} where
  pub Keeps-pure : (a : A) → Keeps P (pure a)
  unfolding pure
  Keeps-pure a = record { at = λ t t' b e h. same_tables P a b t t' e h }

  pub Keeps-fail : (x : JournalError) → Keeps P (fail {A = A} x)
  unfolding fail
  Keeps-fail x = record { at = λ t t' b e h. cc }

  pub Keeps-gets : (f : Tables → A) → Keeps P (gets f)
  unfolding gets
  Keeps-gets f = record { at = λ t t' b e h. same_tables P (f t) b t t' e h }

  pub Keeps-or_missing : (o : Option A) → Keeps P (or_missing o)
  unfolding or_missing
  Keeps-or_missing none = record { at = λ t t' b e h. cc }
  Keeps-or_missing (some a) = record { at = λ t t' b e h. same_tables P a b t t' e h }

  pub Keeps-lift_option : (x : JournalError) (o : Option A) → Keeps P (lift_option x o)
  unfolding lift_option
  Keeps-lift_option x none = record { at = λ t t' b e h. cc }
  Keeps-lift_option x (some a) = record { at = λ t t' b e h. same_tables P a b t t' e h }

  pub Keeps-lift : (r : Result JournalError A) → Keeps P (lift r)
  unfolding lift
  Keeps-lift (err x) = record { at = λ t t' b e h. cc }
  Keeps-lift (ok a) = record { at = λ t t' b e h. same_tables P a b t t' e h }

  pub Keeps-if : (b : Bool) (m n : Tx A) → Keeps P m → Keeps P n → Keeps P (if b then m else n)
  Keeps-if true m n km kn = km
  Keeps-if false m n km kn = kn

module _ {ℓ} {A : Type ℓ} (P : Tables → Type 0) where
  -- A call that fails is rolled back, so whatever every success keeps, every call keeps.
  pub transact_keeps : (m : Tx A) (t : Tables) → Keeps P m → P t → P (transact m t).1
  unfolding transact
  transact_keeps m t km h = go (m t) refl
    where
      go : (r : Result JournalError (A × Tables)) → m t ≡ r → P (close r t).1
      go (err x) e = h
      go (ok (a, t')) e = km.at t t' a e h

pub Keeps-refuse_tx : {P : Tables → Type 0} (b : Bool) (x : JournalError) → Keeps P (refuse_tx b x)
unfolding refuse_tx
Keeps-refuse_tx true x = record { at = λ t t' b e h. cc }
Keeps-refuse_tx {P} false x = record { at = λ t t' b e h. same_tables P tt b t t' e h }

pub Keeps-when_tx :
    {P : Tables → Type 0} (b : Bool) (m : Tx (Unit {0})) → Keeps P m → Keeps P (when_tx b m)
unfolding when_tx
Keeps-when_tx true m km = km
Keeps-when_tx {P} false m km = record { at = λ t t' b e h. same_tables P tt b t t' e h }

module _ {ℓ κ} {A : Type ℓ} {B : Type κ} {P : Tables → Type 0} where
  pub Keeps-bind :
      (m : Tx A) (f : A → Tx B) → Keeps P m → ((a : A) → Keeps P (f a)) → Keeps P (m >>= f)
  unfolding ◌>>=◌
  Keeps-bind m f km kf = record { at = λ t t' b e h. go t t' b (m t) refl e h }
    where
      go :
          (t t' : Tables) (b : B) (r : Result JournalError (A × Tables))
          → m t ≡ r
          → (elim r [ err x ↦ err x | ok (a, u) ↦ f a u ]) ≡ ok (b, t')
          → P t
          → P t'
      go t t' b (err x) e e' h = cc
      go t t' b (ok (a, u)) e e' h = (kf a).at u t' b e' (km.at t u a e h)

module _ {ℓ} {A : Type ℓ} {P : Tables → Type 0} where
  -- Behind a check the rest may use that the check has passed.
  pub Keeps-guard :
      (b : Bool) (x : JournalError) (k : Tx A)
      → (b ≡ false → Keeps P k)
      → Keeps P (refuse_tx b x >> k)
  unfolding ◌>>=◌
  Keeps-guard true x k h = record { at = λ t t' a e p. cc }
  Keeps-guard false x k h = record { at = (h refl).at }

pub ruleset keeps_rules = (
  Keeps-pure, Keeps-fail, Keeps-gets, Keeps-or_missing, Keeps-lift_option, Keeps-lift, Keeps-if,
  Keeps-refuse_tx, Keeps-when_tx, Keeps-bind,
)
