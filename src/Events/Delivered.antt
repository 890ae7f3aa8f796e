-- ===== src/Events/Delivered.antt =====
-- What a watch delivers.
use mathlib.Core.Path.{subst}
use self_hosted_deployer.Common.{
  ℕ, zero, suc, Bool, true, Option, some, List, [], ◌∷◌, ◌++◌, ◌≡◌, refl, sym, ap, ◌∙◌, inl, inr,
  ◌&&◌, All, ltb, Bool-cases, arith, length, pos, Result, ok, err,
}
use self_hosted_deployer.Events.Types.{Event, EventCursor, EventFilter, cursor_of, Collation}
use self_hosted_deployer.Events.Table.{take, is_after, matches, ordered, selected, list_events}
use self_hosted_deployer.Events.Sorting.{Ascending, ordered-Ascending, filter-Ascending, Distinct}
use self_hosted_deployer.Events.Watch.{
  watch_filter, WatchError, Delivery, event_watch_batch_size, send_page, behind_page, send_new,
  watch, behind_tick,
}
use self_hosted_deployer.Events.Paging.{last_cursor, All-take, All-of_filter, is_after-earlier}

module _ (c : Collation) where
  -- What is sent comes in the order of the keys, behind the cursor, and the cursor that is left is the
  -- last event's.
  pub record InOrder (a : Option EventCursor) (d : Delivery) : Type 0 where
    pub sorted : Ascending c d.sent
    pub behind : All (λ e. is_after c a e ≡ true) d.sent
    pub left : d.after ≡ last_cursor a d.sent

  pub last_cursor-append :
      (a : Option EventCursor) (xs ys : List Event)
      → last_cursor a (xs ++ ys) ≡ last_cursor (last_cursor a xs) ys
  unfolding last_cursor
  last_cursor-append a [] ys = refl
  last_cursor-append a (x ∷ xs) ys = last_cursor-append (some (cursor_of x)) xs ys

  All-behind :
      (a : Option EventCursor) (xs ys : List Event)
      → Ascending c xs
      → All (λ e. is_after c a e ≡ true) xs
      → All (λ e. is_after c (last_cursor a xs) e ≡ true) ys
      → All (λ e. is_after c a e ≡ true) ys
  All-behind a xs [] s h hs = tt
  All-behind a xs (y ∷ ys) s h (g, gs) =
      (is_after-earlier c a xs y h s g, All-behind a xs ys s h gs)

  All-append {ℓ} :
      (P : Event → Type ℓ) (xs ys : List Event) → All P xs → All P ys → All P (xs ++ ys)
  All-append P [] ys h g = g
  All-append P (x ∷ xs) ys (p, h) g = (p, All-append P xs ys h g)

  Ascending-append :
      (a : Option EventCursor) (xs ys : List Event)
      → Ascending c xs
      → Ascending c ys
      → All (λ e. is_after c (last_cursor a xs) e ≡ true) ys
      → Ascending c (xs ++ ys)
  unfolding last_cursor
  Ascending-append a [] ys s t h = t
  Ascending-append a (x ∷ xs) ys (p, s) t h = (
    All-append _ xs ys p (All-behind (some (cursor_of x)) xs ys s p h),
    Ascending-append (some (cursor_of x)) xs ys s t h,
  )

  pub InOrder-append :
      (a : Option EventCursor) (d e : Delivery)
      → InOrder a d
      → InOrder d.after e
      → InOrder a (record e { sent = d.sent ++ e.sent })
  InOrder-append a d e i j = record {
    sorted = Ascending-append a d.sent e.sent i.sorted j.sorted behind_last;
    behind =
        All-append _ d.sent e.sent i.behind
          (All-behind a d.sent e.sent i.sorted i.behind behind_last);
    left =
        j.left ∙ ap (λ k. last_cursor k e.sent) i.left ∙ sym (last_cursor-append a d.sent e.sent);
  }
    where
      behind_last : All (λ x. is_after c (last_cursor a d.sent) x ≡ true) e.sent
      behind_last = subst (λ k. All (λ x. is_after c k x ≡ true) e.sent) i.left j.behind

  pub take-Ascending : (n : ℕ) (es : List Event) → Ascending c es → Ascending c (take n es)
  unfolding take
  take-Ascending zero es h = tt
  take-Ascending (suc n) [] h = tt
  take-Ascending (suc n) (e ∷ es) (h, hs) = (All-take _ n es h, take-Ascending n es hs)

  pub selected-Ascending :
      (rows : List Event) → Distinct rows → (f : EventFilter) → Ascending c (selected c f rows)
  unfolding selected
  selected-Ascending rows d f = filter-Ascending c _ (ordered c rows) (ordered-Ascending c rows d)

  All-right :
      (p q : Event → Bool) (es : List Event)
      → All (λ e. (p e && q e) ≡ true) es
      → All (λ e. q e ≡ true) es
  All-right p q [] h = tt
  All-right p q (e ∷ es) (h, hs) = (ground arith, All-right p q es hs)

  pub selected-behind :
      (rows : List Event) (f : EventFilter)
      → All (λ e. is_after c f.after e ≡ true) (selected c f rows)
  unfolding selected
  selected-behind rows f =
      All-right (matches f) (is_after c f.after) (selected c f rows)
        (All-of_filter _ (ordered c rows))

  -- A page of a query in ascending order.
  abbrev pub next_page : EventFilter → List Event → List Event
  next_page f rows = take event_watch_batch_size (selected c f rows)

  pub list_events-page :
      (f : EventFilter) (rows : List Event)
      → f.oldest_first ≡ true
      → f.limit ≡ pos event_watch_batch_size
      → list_events c f rows ≡ next_page f rows
  unfolding list_events
  list_events-page f rows o l = rw (o, l) refl

  module _ (accepts : Event → Bool) where
    pub send_page-InOrder :
        (es : List Event) (a : Option EventCursor)
        → Ascending c es
        → All (λ e. is_after c a e ≡ true) es
        → InOrder a (send_page accepts es a)
    unfolding send_page last_cursor
    send_page-InOrder [] a s h = record { sorted = tt; behind = tt; left = refl }
    send_page-InOrder (e ∷ es) a (p, s) (q, h) =
        let rest = send_page-InOrder es (some (cursor_of e)) s p in
        elim (Bool-cases (accepts e)) [
          | inl g ↦ rw g (record {
            sorted = (rest.behind, rest.sorted);
            behind = (q, All-behind a (e ∷ []) _ (tt, tt) (q, tt) rest.behind);
            left = rest.left;
          })
          | inr g ↦ rw g (record { sorted = tt; behind = tt; left = refl })
        ]

    behind_page-InOrder :
        (r : Result WatchError (Unit {0})) (size : ℕ) (a : Option EventCursor)
        (page rest : Delivery)
        → InOrder a page
        → InOrder page.after rest
        → InOrder a (behind_page r size page rest)
    behind_page-InOrder (err e) size a page rest i j = i
    behind_page-InOrder (ok done) size a page rest i j =
        elim (Bool-cases (ltb size event_watch_batch_size)) [
          | inl g ↦ rw g i
          | inr g ↦ rw g (InOrder-append a page rest i j)
        ]

    pub next_page-InOrder :
        (rows : List Event)
        → Distinct rows
        → (f : EventFilter) → InOrder f.after (send_page accepts (next_page f rows) f.after)
    unfolding selected
    next_page-InOrder rows d f =
        send_page-InOrder (next_page f rows) f.after
          (take-Ascending event_watch_batch_size (selected c f rows) (selected-Ascending rows d f))
          (All-take _ event_watch_batch_size (selected c f rows) (selected-behind rows f))

    pub send_new-InOrder :
        (rows : List Event)
        → Distinct rows
        → (fuel : ℕ) (f : EventFilter) → f.oldest_first ≡ true
        → f.limit ≡ pos event_watch_batch_size
        → InOrder f.after (send_new accepts c rows fuel f)
    unfolding send_new last_cursor
    send_new-InOrder rows d zero f o l = record { sorted = tt; behind = tt; left = refl }
    send_new-InOrder rows d (suc fuel) f o l =
        let page = send_page accepts (list_events c f rows) f.after in
        let further = record f { after = page.after } in
        behind_page-InOrder page.result (length (list_events c f rows)) f.after page
          (send_new accepts c rows fuel further)
          (subst (λ es. InOrder f.after (send_page accepts es f.after))
            (sym (list_events-page f rows o l)) (next_page-InOrder rows d f))
          (send_new-InOrder rows d fuel further o l)

  behind_tick-InOrder :
      (r : Result WatchError (Unit {0})) (a : Option EventCursor) (now rest : Delivery)
      → InOrder a now
      → InOrder now.after rest
      → InOrder a (behind_tick r now rest)
  behind_tick-InOrder (err e) a now rest i j = i
  behind_tick-InOrder (ok done) a now rest i j = InOrder-append a now rest i j

  behind-InOrder :
      (accepts : Event → Bool) (ticks : List (List Event))
      → All Distinct ticks
      → (f : EventFilter) → f.oldest_first ≡ true
      → f.limit ≡ pos event_watch_batch_size
      → InOrder f.after (watch c accepts ticks f)
  unfolding watch last_cursor
  behind-InOrder accepts [] d f o l = record { sorted = tt; behind = tt; left = refl }
  behind-InOrder accepts (rows ∷ later) (d, ds) f o l =
      let now = send_new accepts c rows (suc (length rows)) f in
      let further = record f { after = now.after } in
      behind_tick-InOrder now.result f.after now (watch c accepts later further)
        (send_new-InOrder accepts rows d (suc (length rows)) f o l)
        (behind-InOrder accepts later ds further o l)

  -- Over any tables at the ticks of a watch, in which ids are unique, and any stream, a watch sends
  -- events in the strict order of time and id, so none of them twice, all behind the cursor of the
  -- filter that it is called with, and keeps the last one as its cursor.
  pub watch-InOrder :
      (accepts : Event → Bool) (ticks : List (List Event)) (f : EventFilter) (now : ℕ)
      → All Distinct ticks
      → InOrder f.after (watch c accepts ticks (watch_filter f now))
  unfolding watch_filter
  watch-InOrder accepts ticks f now d =
      behind-InOrder accepts ticks d (watch_filter f now) refl refl
