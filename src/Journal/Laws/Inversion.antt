-- ===== src/Journal/Laws/Inversion.antt =====
-- What a transaction that succeeded has passed.
use self_hosted_deployer.Common.{
  Bool, true, false, Option, none, some, ◌≡◌, refl, arith, Result, ok, err,
}
use self_hosted_deployer.Journal.Types.{Tables, JournalError}
use self_hosted_deployer.Journal.Transaction.{
  lift, Tx, ◌>>=◌, ◌>>◌, pure, gets, or_missing, lift_option, refuse_tx, close, transact,
}

module _ {ℓ} {A : Type ℓ} where
  pub transact-ok :
      (m : Tx A) (t : Tables) (a : A) → (transact m t).0 ≡ ok a → m t ≡ ok (a, (transact m t).1)
  unfolding transact
  transact-ok m t a h = go (m t) refl h
    where
      go :
          (r : Result JournalError (A × Tables))
          → m t ≡ r
          → (close r t).0 ≡ ok a
          → r ≡ ok (a, (close r t).1)
      go (err x) e h = cc
      go (ok (b, u)) e h = ground arith

  pub transact_of_ok :
      (m : Tx A) (t u : Tables) (a : A) → m t ≡ ok (a, u) → transact m t ≡ (ok a, u)
  unfolding transact
  transact_of_ok m t u a h = rw h

module _ {ℓ κ} {A : Type ℓ} {B : Type κ} where
  pub bind-ok :
      (m : Tx A) (f : A → Tx B) (t t' : Tables) (b : B)
      → (m >>= f) t ≡ ok (b, t')
      → (a : A) × (u : Tables) × (m t ≡ ok (a, u)) × (f a u ≡ ok (b, t'))
  unfolding ◌>>=◌
  bind-ok m f t t' b h = go (m t) refl h
    where
      go :
          (r : Result JournalError (A × Tables))
          → m t ≡ r
          → (elim r [ err x ↦ err x | ok (a, u) ↦ f a u ]) ≡ ok (b, t')
          → (a : A) × (u : Tables) × (r ≡ ok (a, u)) × (f a u ≡ ok (b, t'))
      go (err x) e h = cc
      go (ok (a, u)) e h = (a, u, refl, h)

  pub row-ok :
      (o : Option A) (f : A → Tx B) (t t' : Tables) (b : B)
      → (or_missing o >>= f) t ≡ ok (b, t')
      → (a : A) × (o ≡ some a) × (f a t ≡ ok (b, t'))
  unfolding ◌>>=◌
  row-ok none f t t' b h = cc
  row-ok (some a) f t t' b h = (a, refl, h)

  pub decoded-ok :
      (x : JournalError) (o : Option A) (f : A → Tx B) (t t' : Tables) (b : B)
      → (lift_option x o >>= f) t ≡ ok (b, t')
      → (a : A) × (o ≡ some a) × (f a t ≡ ok (b, t'))
  unfolding ◌>>=◌
  decoded-ok x none f t t' b h = cc
  decoded-ok x (some a) f t t' b h = (a, refl, h)

  pub checked-ok :
      (r : Result JournalError A) (f : A → Tx B) (t t' : Tables) (b : B)
      → (lift r >>= f) t ≡ ok (b, t')
      → (a : A) × (r ≡ ok a) × (f a t ≡ ok (b, t'))
  unfolding ◌>>=◌
  checked-ok (err x) f t t' b h = cc
  checked-ok (ok a) f t t' b h = (a, refl, h)

  pub read-ok :
      (q : Tables → A) (f : A → Tx B) (t t' : Tables) (b : B)
      → (gets q >>= f) t ≡ ok (b, t')
      → f (q t) t ≡ ok (b, t')
  unfolding ◌>>=◌
  read-ok q f t t' b h = h

module _ {ℓ} {B : Type ℓ} where
  pub guard-ok :
      (c : Bool) (x : JournalError) (k : Tx B) (t t' : Tables) (b : B)
      → (refuse_tx c x >> k) t ≡ ok (b, t')
      → (c ≡ false) × (k t ≡ ok (b, t'))
  unfolding ◌>>=◌
  guard-ok true x k t t' b h = cc
  guard-ok false x k t t' b h = (refl, h)

  pub pure-ok : (a b : B) (t t' : Tables) → pure a t ≡ ok (b, t') → (a ≡ b) × (t ≡ t')
  unfolding pure
  pure-ok a b t t' h = (ground arith, ground arith)
