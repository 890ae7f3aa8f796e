-- ===== src/Common/Lists/Rows.antt =====
-- What a query finds after the rows of a table have been updated or a row has been added.
use Prim.Native.Nat.{◌+◌, ◌≤◌}
use mathlib.Core.Path.{◌≡◌, refl}
use mathlib.Core.Bool.{Bool, true, false}
use mathlib.Core.Option.{Option, none, some}
use mathlib.Core.List.{List, [], ◌∷◌, ◌++◌}
use native.Mathlib.Omega.{arith}
use self_hosted_deployer.Common.Tests.{if◌then◌else◌}
use self_hosted_deployer.Common.Lists.{any, find?, update, count}

module _ {ℓ} {A : Type ℓ} where
  abbrev pub map_option : (A → A) → Option A → Option A
  map_option f none = none
  map_option f (some x) = some (f x)

  -- What an update makes of a row.
  abbrev pub updated : (A → Bool) → (A → A) → A → A
  updated p f x = if p x then f x else x

  pub find?-update :
      (q p : A → Bool) (f : A → A) (xs : List A)
      → ((x : A) → q (f x) ≡ q x)
      → find? q (update p f xs) ≡ map_option (updated p f) (find? q xs)
  unfolding find? update
  find?-update q p f [] h = refl
  find?-update q p f (x ∷ xs) h = ground (arith, h x, find?-update q p f xs h)

  -- A row that is found stays found when rows are added behind.
  pub find?-append :
      (q : A → Bool) (xs ys : List A) (x : A) → find? q xs ≡ some x → find? q (xs ++ ys) ≡ some x
  unfolding find?
  find?-append q [] ys x h = cc
  find?-append q (y ∷ xs) ys x h = ground (arith, find?-append q xs ys x)

  pub find?-append_new :
      (q : A → Bool) (xs : List A) (x : A)
      → any q xs ≡ false
      → q x ≡ true
      → find? q (xs ++ x ∷ []) ≡ some x
  unfolding find?
  find?-append_new q [] x h e = rw e
  find?-append_new q (y ∷ xs) x h e = ground (arith, find?-append_new q xs x)

  pub count-append : (q : A → Bool) (xs ys : List A) → count q (xs ++ ys) ≡ count q xs + count q ys
  unfolding count
  count-append q [] ys = ground arith
  count-append q (x ∷ xs) ys = ground (arith, count-append q xs ys)

  pub count_of_none :
      (q p : A → Bool) (xs : List A)
      → ((x : A) → q x ≡ true → p x ≡ true)
      → any p xs ≡ false
      → count q xs ≡ 0
  unfolding count
  count_of_none q p [] i h = refl
  count_of_none q p (x ∷ xs) i h = ground (arith, i x, count_of_none q p xs i)

  -- An update that makes no row pass leaves no more rows that pass.
  pub count-update_le :
      (q p : A → Bool) (f : A → A) (xs : List A)
      → ((x : A) → q (f x) ≡ true → q x ≡ true)
      → count q (update p f xs) ≤ count q xs
  unfolding count update
  count-update_le q p f [] i = ground arith
  count-update_le q p f (x ∷ xs) i = ground (arith, i x, count-update_le q p f xs i)
