-- ===== src/Events/Sorting.antt =====
-- The order of the rows of a query.
use self_hosted_deployer.Common.{
  Bool, true, false, List, [], ◌∷◌, ◌≡◌, refl, ◌∙◌, inl, inr, ◌==◌, eq_iff, ◌||◌, any, All,
  Bool-cases, arith,
}
use self_hosted_deployer.Events.Types.{Event, EventCursor, cursor_of, Collation}
use self_hosted_deployer.Events.Table.{filter, follows, insert_event, ordered}

-- No two rows have one id.
abbrev pub Distinct : List Event → Type 0
Distinct [] = Unit
Distinct (e ∷ es) = (any (λ x. x.id == e.id) es ≡ false) × Distinct es

module _ (c : Collation) where
  -- Every event is later than those before it.
  abbrev pub Ascending : List Event → Type 0
  Ascending [] = Unit
  Ascending (e ∷ es) = All (λ x. follows c (cursor_of e) x ≡ true) es × Ascending es

  pub follows_trans :
      (k : EventCursor) (e x : Event)
      → follows c k e ≡ true
      → follows c (cursor_of e) x ≡ true
      → follows c k x ≡ true
  unfolding follows
  follows_trans k e x h g = ground (arith, c.before_trans k.id e.id x.id)

  pub follows_irrefl : (e : Event) → follows c (cursor_of e) e ≡ false
  unfolding follows
  follows_irrefl e = ground (arith, c.before_irrefl e.id)

  follows_total :
      (e x : Event)
      → (x.id == e.id) ≡ false
      → follows c (cursor_of e) x ≡ false
      → follows c (cursor_of x) e ≡ true
  unfolding follows
  follows_total e x h g = ground (arith, c.before_total e.id x.id, eq_iff x.id e.id)

  pub All-follows :
      (k : EventCursor) (e : Event) (es : List Event)
      → follows c k e ≡ true
      → All (λ x. follows c (cursor_of e) x ≡ true) es
      → All (λ x. follows c k x ≡ true) es
  All-follows k e [] h hs = tt
  All-follows k e (x ∷ es) h (g, hs) = (follows_trans k e x h g, All-follows k e es h hs)

  All-insert_event :
      (P : Event → Type 0) (e : Event) (es : List Event)
      → P e
      → All P es
      → All P (insert_event c e es)
  unfolding insert_event
  All-insert_event P e [] p ps = (p, tt)
  All-insert_event P e (x ∷ es) p (q, ps) = elim (Bool-cases (follows c (cursor_of e) x)) [
    | inl h ↦ rw h (p, (q, ps))
    | inr h ↦ rw h (q, All-insert_event P e es p ps)
  ]

  insert_event-Ascending :
      (e : Event) (es : List Event)
      → any (λ x. x.id == e.id) es ≡ false
      → Ascending es
      → Ascending (insert_event c e es)
  unfolding insert_event
  insert_event-Ascending e [] d h = (tt, tt)
  insert_event-Ascending e (x ∷ es) d (hs, h) = elim (Bool-cases (follows c (cursor_of e) x)) [
    | inl g ↦ rw g ((g, All-follows (cursor_of e) x es g hs), (hs, h))
    | inr g ↦ rw g (
      All-insert_event (λ y. follows c (cursor_of x) y ≡ true) e es
          (follows_total e x (ground arith) g) hs,
      insert_event-Ascending e es (ground arith) h,
    )
  ]

  any-insert_event :
      (p : Event → Bool) (e : Event) (es : List Event)
      → any p (insert_event c e es) ≡ (p e || any p es)
  unfolding insert_event
  any-insert_event p e [] = refl
  any-insert_event p e (x ∷ es) = ground (arith, any-insert_event p e es)

  any-ordered : (p : Event → Bool) (es : List Event) → any p (ordered c es) ≡ any p es
  unfolding ordered
  any-ordered p [] = refl
  any-ordered p (e ∷ es) = ground (arith, any-insert_event p e (ordered c es), any-ordered p es)

  -- A query of rows with distinct ids is ordered.
  pub ordered-Ascending : (es : List Event) → Distinct es → Ascending (ordered c es)
  unfolding ordered
  ordered-Ascending [] d = tt
  ordered-Ascending (e ∷ es) (d, ds) =
      insert_event-Ascending e (ordered c es) (any-ordered (λ x. x.id == e.id) es ∙ d)
        (ordered-Ascending es ds)

  All-filter :
      (P : Event → Type 0) (p : Event → Bool) (es : List Event) → All P es → All P (filter p es)
  unfolding filter
  All-filter P p [] h = tt
  All-filter P p (e ∷ es) (h, hs) = elim (Bool-cases (p e)) [
    | inl g ↦ rw g (h, All-filter P p es hs)
    | inr g ↦ rw g (All-filter P p es hs)
  ]

  pub filter-Ascending :
      (p : Event → Bool) (es : List Event) → Ascending es → Ascending (filter p es)
  unfolding filter
  filter-Ascending p [] h = tt
  filter-Ascending p (e ∷ es) (h, hs) = elim (Bool-cases (p e)) [
    | inl g ↦
        rw g (All-filter (λ x. follows c (cursor_of e) x ≡ true) p es h, filter-Ascending p es hs)
    | inr g ↦ rw g (filter-Ascending p es hs)
  ]
