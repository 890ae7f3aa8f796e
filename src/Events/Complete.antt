-- ===== src/Events/Complete.antt =====
-- A watch over a stream that takes every event delivers the whole query, in as many pages as it needs.
use self_hosted_deployer.Common.{
  ℕ, zero, suc, ◌≤◌, ◌<◌, Bool, true, Option, some, List, [], ◌∷◌, ◌++◌, ◌≡◌, refl, ap, ◌∙◌, inl,
  inr, ◌&&◌, ltb, Bool-cases, arith, length, pos, ok,
}
use self_hosted_deployer.Common.Lists.{length-append}
use self_hosted_deployer.Events.Types.{Event, EventCursor, EventFilter, cursor_of, Collation}
use self_hosted_deployer.Events.Table.{drop, is_after, matches, ordered, selected}
use self_hosted_deployer.Events.Sorting.{Distinct}
use self_hosted_deployer.Events.Watch.{Delivery, event_watch_batch_size, send_page, send_new}
use self_hosted_deployer.Events.Paging.{
  last_cursor, All-take, take-short, length-take_le, take-drop, length-drop_le, filter-filter,
  length-filter_le, length-ordered, filter-page, is_after-earlier,
}
use self_hosted_deployer.Events.Delivered.{
  last_cursor-append, take-Ascending, selected-Ascending, selected-behind, next_page,
  list_events-page,
}

-- All of these sent.
abbrev pub delivered : Option EventCursor → List Event → Delivery
delivered a es = record { sent = es; after = last_cursor a es; result = ok tt }

send_page-all :
    (accepts : Event → Bool)
    → ((e : Event) → accepts e ≡ true)
    → (es : List Event) (a : Option EventCursor) → send_page accepts es a ≡ delivered a es
unfolding send_page last_cursor
send_page-all accepts h [] a = refl
send_page-all accepts h (e ∷ es) a = rw (h e, send_page-all accepts h es (some (cursor_of e))) refl

module _ (c : Collation) (rows : List Event) (d : Distinct rows) where
  abbrev behind : EventFilter → Option EventCursor
  behind f = last_cursor f.after (next_page c f rows)

  narrower :
      (f : EventFilter) (x : Event)
      → (matches (record f { after = behind f }) x && is_after c (behind f) x)
        ≡ (is_after c (behind f) x && (matches f x && is_after c f.after x))
  unfolding matches
  narrower f x = ground (
    arith,
    is_after-earlier c f.after (next_page c f rows) x
        (All-take _ event_watch_batch_size (selected c f rows) (selected-behind c rows f))
        (take-Ascending c event_watch_batch_size (selected c f rows)
          (selected-Ascending c rows d f)),
  )

  -- The query with the cursor behind a full page is what that page has left.
  selected-behind_page :
      (f : EventFilter)
      → length (next_page c f rows) ≡ event_watch_batch_size
      → selected c (record f { after = behind f }) rows
        ≡ drop event_watch_batch_size (selected c f rows)
  unfolding selected matches
  selected-behind_page f e =
      filter-filter _ (is_after c (behind f)) (λ x. matches f x && is_after c f.after x)
        (ordered c rows) (narrower f)
      ∙ filter-page c 999 f.after (selected c f rows) (selected-Ascending c rows d f) e

  full_le :
      (f : EventFilter)
      → length (next_page c f rows) ≡ event_watch_batch_size
      → event_watch_batch_size ≤ length (selected c f rows)
  full_le f e =
      let whole = take-drop event_watch_batch_size (selected c f rows) in
      omega (
        arith,
        length-append (next_page c f rows) (drop event_watch_batch_size (selected c f rows)),
        ap length whole,
      )

  joined :
      (f : EventFilter)
      → ◌≡◌ {A = Delivery}
          (record {
            sent = next_page c f rows ++ drop event_watch_batch_size (selected c f rows);
            after = last_cursor (behind f) (drop event_watch_batch_size (selected c f rows));
            result = ok tt;
          })
          (delivered f.after (selected c f rows))
  joined f =
      rw
        (
          ← last_cursor-append c f.after (next_page c f rows)
              (drop event_watch_batch_size (selected c f rows)),
          take-drop event_watch_batch_size (selected c f rows),
        )
        refl

  module _ (accepts : Event → Bool) (h : (e : Event) → accepts e ≡ true) where
    send_new-delivers :
        (fuel : ℕ) (f : EventFilter)
        → length (selected c f rows) < fuel
        → f.oldest_first ≡ true
        → f.limit ≡ pos event_watch_batch_size
        → send_new accepts c rows fuel f ≡ delivered f.after (selected c f rows)
    unfolding send_new
    send_new-delivers zero f lt o l = absurd (omega arith)
    send_new-delivers (suc fuel) f lt o l =
        rw (list_events-page c f rows o l, send_page-all accepts h (next_page c f rows) f.after)
          elim (Bool-cases (ltb (length (next_page c f rows)) event_watch_batch_size)) [
            | inl g ↦
                rw (g, take-short event_watch_batch_size (selected c f rows) (ground arith)) refl
            | inr g ↦
                let e : length (next_page c f rows) ≡ event_watch_batch_size =
                  ground (arith, length-take_le event_watch_batch_size (selected c f rows)) in
                let further = record f { after = behind f } in
                let shorter : length (selected c further rows) < fuel =
                  rw (selected-behind_page f e) omega (
                    arith,
                    length-drop_le event_watch_batch_size (selected c f rows),
                    full_le f e,
                  ) in
                rw (g, send_new-delivers fuel further shorter o l, selected-behind_page f e)
                  (joined f)
          ]

-- A call of `sendNew` over a table with unique ids and a stream that takes every event ends within
-- one page more than there are rows, and has sent just the events that the filter selects behind its
-- cursor, in their order, whatever the number of pages.
pub send_new_complete :
    (c : Collation) (rows : List Event) (accepts : Event → Bool) (f : EventFilter)
    → Distinct rows
    → ((e : Event) → accepts e ≡ true)
    → f.oldest_first ≡ true
    → f.limit ≡ pos event_watch_batch_size
    → send_new accepts c rows (suc (length rows)) f ≡ delivered f.after (selected c f rows)
unfolding selected
send_new_complete c rows accepts f d h o l =
    send_new-delivers c rows d accepts h (suc (length rows)) f
      (omega (
        arith,
        length-filter_le (λ e. matches f e && is_after c f.after e) (ordered c rows),
        length-ordered c rows,
      ))
      o l
