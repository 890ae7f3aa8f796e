-- ===== src/Events/Watch.antt =====
-- `WatchEvents` of internal/server/event.go: pages of events behind a cursor, at every tick.
use self_hosted_deployer.Common.{
  ℕ, zero, suc, Bool, true, Option, none, some, List, [], ◌∷◌, ◌++◌, ltb, length, if◌then◌else◌,
  pos, Result, ok, err,
}
use self_hosted_deployer.Events.Types.{Event, EventCursor, EventFilter, cursor_of, Collation}
use self_hosted_deployer.Events.Table.{list_events}

pub data WatchError : Type 0 where
  send_failed out_of_fuel : WatchError

-- What a call of `sendNew` has sent, the cursor that it leaves, and its result.
pub record Delivery : Type 0 where
  pub sent : List Event
  pub after : Option EventCursor
  pub result : Result WatchError (Unit {0})

-- eventWatchBatchSize
abbrev pub event_watch_batch_size : ℕ
event_watch_batch_size = 1000

-- The filter of a watch: `filter.Since` is the present where the request has none.
abbrev pub since_or_now : Option ℕ → ℕ → Option ℕ
since_or_now none now = some now
since_or_now (some time) now = some time

unfoldable pub watch_filter : EventFilter → ℕ → EventFilter
watch_filter f now = record f {
  since = since_or_now f.since now;
  oldest_first = true;
  limit = pos event_watch_batch_size;
}

-- The rest of `sendNew` behind a page with that result, of so many events.
abbrev pub behind_page : Result WatchError (Unit {0}) → ℕ → Delivery → Delivery → Delivery
behind_page (err e) size page rest = page
behind_page (ok done) size page rest =
    if ltb size event_watch_batch_size then page else record rest { sent = page.sent ++ rest.sent }

-- The ticks behind the first of these.
abbrev pub behind_tick : Result WatchError (Unit {0}) → Delivery → Delivery → Delivery
behind_tick (err e) now rest = now
behind_tick (ok done) now rest = record rest { sent = now.sent ++ rest.sent }

-- The stream takes an event, or fails.
module _ (accepts : Event → Bool) where
  -- The loop over one page.
  unfoldable pub send_page : List Event → Option EventCursor → Delivery
  send_page [] after = record { sent = []; after = after; result = ok tt }
  send_page (e ∷ es) after =
      let rest = send_page es (some (cursor_of e)) in
      if accepts e
      then record rest { sent = e ∷ rest.sent }
      else record { sent = []; after = after; result = err send_failed }

  module _ (c : Collation) (rows : List Event) where
    -- sendNew, for at most so many pages.
    unfoldable pub send_new : ℕ → EventFilter → Delivery
    unfolding send_page
    send_new zero f = record { sent = []; after = f.after; result = err out_of_fuel }
    send_new (suc fuel) f =
        let events = list_events c f rows in
        let page = send_page events f.after in
        let rest = send_new fuel (record f { after = page.after }) in
        behind_page page.result (length events) page rest

-- The first call and one call at every tick, over the rows that the table has then.
unfoldable pub watch : Collation → (Event → Bool) → List (List Event) → EventFilter → Delivery
unfolding send_new
watch c accepts [] f = record { sent = []; after = f.after; result = ok tt }
watch c accepts (rows ∷ later) f =
    let now = send_new accepts c rows (suc (length rows)) f in
    let rest = watch c accepts later (record f { after = now.after }) in
    behind_tick now.result now rest
