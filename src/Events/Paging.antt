-- ===== src/Events/Paging.antt =====
-- The pages of a query behind a cursor.
use self_hosted_deployer.Common.{
  ℕ, zero, suc, ◌-◌, ◌≤◌, ◌<◌, Bool, true, false, Option, none, some, List, [], ◌∷◌, ◌++◌, ◌≡◌,
  refl, ap, inl, inr, ◌&&◌, All, Bool-cases, arith, length,
}
use self_hosted_deployer.Events.Types.{Event, EventCursor, cursor_of, Collation}
use self_hosted_deployer.Events.Table.{filter, take, drop, follows, is_after, ordered, insert_event}
use self_hosted_deployer.Events.Sorting.{Ascending, follows_trans, follows_irrefl}

-- The cursor behind some sent events.
unfoldable pub last_cursor : Option EventCursor → List Event → Option EventCursor
last_cursor a [] = a
last_cursor a (e ∷ es) = last_cursor (some (cursor_of e)) es

module _ {ℓ} {A : Type ℓ} where
  pub All-take : (P : A → Type 0) (n : ℕ) (xs : List A) → All P xs → All P (take n xs)
  unfolding take
  All-take P zero xs h = tt
  All-take P (suc n) [] h = tt
  All-take P (suc n) (x ∷ xs) (p, ps) = (p, All-take P n xs ps)

  pub take-short : (n : ℕ) (xs : List A) → length (take n xs) < n → take n xs ≡ xs
  unfolding take
  take-short zero xs h = absurd (omega arith)
  take-short (suc n) [] h = refl
  take-short (suc n) (x ∷ xs) h = ap (λ l. x ∷ l) (take-short n xs (omega arith))

  pub length-take_le : (n : ℕ) (xs : List A) → length (take n xs) ≤ n
  unfolding take
  length-take_le zero xs = omega arith
  length-take_le (suc n) [] = omega arith
  length-take_le (suc n) (x ∷ xs) = omega (arith, length-take_le n xs)

  pub take-drop : (n : ℕ) (xs : List A) → take n xs ++ drop n xs ≡ xs
  unfolding take drop
  take-drop zero xs = refl
  take-drop (suc n) [] = refl
  take-drop (suc n) (x ∷ xs) = ap (λ l. x ∷ l) (take-drop n xs)

  pub length-drop_le : (n : ℕ) (xs : List A) → length (drop n xs) ≤ length xs - n
  unfolding drop
  length-drop_le zero xs = omega arith
  length-drop_le (suc n) [] = omega arith
  length-drop_le (suc n) (x ∷ xs) = omega (arith, length-drop_le n xs)

  pub filter-filter :
      (p q r : A → Bool) (xs : List A)
      → ((x : A) → p x ≡ (q x && r x))
      → filter p xs ≡ filter q (filter r xs)
  unfolding filter
  filter-filter p q r [] h = refl
  filter-filter p q r (x ∷ xs) h = ground (arith, h x, filter-filter p q r xs h)

  pub All-of_filter : (p : A → Bool) (xs : List A) → All (λ x. p x ≡ true) (filter p xs)
  unfolding filter
  All-of_filter p [] = tt
  All-of_filter p (x ∷ xs) = elim (Bool-cases (p x)) [
    | inl h ↦ rw h (h, All-of_filter p xs)
    | inr h ↦ rw h (All-of_filter p xs)
  ]

  pub filter-all : (p : A → Bool) (xs : List A) → All (λ x. p x ≡ true) xs → filter p xs ≡ xs
  unfolding filter
  filter-all p [] h = refl
  filter-all p (x ∷ xs) (h, hs) = rw h (ap (λ l. x ∷ l) (filter-all p xs hs))

  pub length-filter_le : (p : A → Bool) (xs : List A) → length (filter p xs) ≤ length xs
  unfolding filter
  length-filter_le p [] = omega arith
  length-filter_le p (x ∷ xs) = ground (arith, length-filter_le p xs)

module _ (c : Collation) where
  length-insert_event :
      (e : Event) (es : List Event) → length (insert_event c e es) ≡ suc (length es)
  unfolding insert_event
  length-insert_event e [] = refl
  length-insert_event e (x ∷ es) = ground (arith, length-insert_event e es)

  pub length-ordered : (es : List Event) → length (ordered c es) ≡ length es
  unfolding ordered
  length-ordered [] = refl
  length-ordered (e ∷ es) = omega (arith, length-insert_event e (ordered c es), length-ordered es)

  pub All-Ascending_after :
      (k : EventCursor) (x : Event) (ys : List Event)
      → follows c k x ≡ false
      → All (λ y. follows c (cursor_of x) y ≡ true) ys
      → is_after c (last_cursor (some k) ys) x ≡ false
  unfolding last_cursor
  All-Ascending_after k x [] h hs = h
  All-Ascending_after k x (y ∷ ys) h (g, hs) =
      All-Ascending_after (cursor_of y) x ys
        (ground (arith, follows_irrefl c x, follows_trans c (cursor_of x) y x)) hs

  -- The rows behind a full page.
  pub filter-page :
      (n : ℕ) (a : Option EventCursor) (xs : List Event)
      → Ascending c xs
      → length (take (suc n) xs) ≡ suc n
      → filter (is_after c (last_cursor a (take (suc n) xs))) xs ≡ drop (suc n) xs
  unfolding take drop last_cursor filter
  filter-page n a [] h e = absurd (omega arith)
  filter-page zero a (x ∷ xs) (h, hs) e = rw (follows_irrefl c x) (filter-all _ xs h)
  filter-page (suc n) a (x ∷ xs) (h, hs) e =
      let skip : is_after c (last_cursor (some (cursor_of x)) (take (suc n) xs)) x ≡ false =
        All-Ascending_after (cursor_of x) x (take (suc n) xs) (follows_irrefl c x)
          (All-take _ (suc n) xs h) in
      rw skip (filter-page n (some (cursor_of x)) xs hs (omega arith))

  -- What comes behind a later cursor comes behind an earlier one.
  pub is_after-earlier :
      (a : Option EventCursor) (ys : List Event) (e : Event)
      → All (λ y. is_after c a y ≡ true) ys
      → Ascending c ys
      → is_after c (last_cursor a ys) e ≡ true
      → is_after c a e ≡ true
  unfolding last_cursor
  is_after-earlier a [] e h s g = g
  is_after-earlier none (y ∷ ys) e h s g = refl
  is_after-earlier (some k) (y ∷ ys) e (h, hs) (s, ss) g =
      follows_trans c k y e h (is_after-earlier (some (cursor_of y)) ys e s ss g)
