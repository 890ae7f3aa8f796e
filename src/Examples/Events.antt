-- ===== src/Examples/Events.antt =====
-- The theorems on events over a table of three rows.
use self_hosted_deployer.Common.{
  ℕ, String, true, false, none, some, List, [], ◌∷◌, ◌≡◌, refl, ◌++◌, ◌==◌, any, trim_space, pos,
}
use self_hosted_deployer.Examples.TextOrder.{texts}
use self_hosted_deployer.Events.Types.{Event, EventFilter}
use self_hosted_deployer.Events.Table.{selected}
use self_hosted_deployer.Events.Service.{Recorder, matches_event_type, record_event}
use self_hosted_deployer.Events.Recorded.{IsRecorded, record_event-IsRecorded}
use self_hosted_deployer.Events.Sorting.{Distinct}
use self_hosted_deployer.Events.Watch.{watch_filter, send_new, watch, event_watch_batch_size}
use self_hosted_deployer.Events.Delivered.{InOrder, watch-InOrder}
use self_hosted_deployer.Events.Complete.{delivered, send_new_complete}

abbrev event_at : String → ℕ → Event
event_at id time = record {
  id = id;
  created_at = time;
  event_type = "node.joined";
  severity = "info";
  message = "a node joined";
  app_id = "";
  node_id = "n1";
  deployment_id = "";
  metadata_json = "{}";
}

abbrev table : List Event
table = event_at "event_b" 7 ∷ event_at "event_a" 7 ∷ event_at "event_c" 5 ∷ []

abbrev wanted : EventFilter
wanted = record {
  app_id = "";
  node_id = "n1";
  event_type = "";
  severity = "";
  since = none;
  after = none;
  oldest_first = true;
  limit = pos event_watch_batch_size;
}

table-Distinct : Distinct table
table-Distinct = (refl, (refl, (refl, tt)))

send_new_complete_example :
    send_new (λ e. true) texts table 4 wanted ≡ delivered none (selected texts wanted table)
send_new_complete_example =
    send_new_complete texts table (λ e. true) wanted table-Distinct (λ e. refl) refl refl

-- The first poll sees the last row alone, the second one all three.
watch-InOrder_example :
    InOrder texts none
      (watch texts (λ e. true) ((event_at "event_c" 5 ∷ []) ∷ table ∷ []) (watch_filter wanted 3))
watch-InOrder_example =
    watch-InOrder texts (λ e. true) ((event_at "event_c" 5 ∷ []) ∷ table ∷ []) wanted 3
      ((refl, tt), (table-Distinct, tt))

abbrev recorder : Recorder
recorder = record { valid_json = λ s. s == "{}"; new_id = some "event_d"; now = 9 }

abbrev unnamed : Event
unnamed = record (event_at "" 0) { metadata_json = "" }

abbrev as_recorded : Event
as_recorded = event_at "event_d" 9

record_event-IsRecorded_example :
    (row : Event) × (table ++ as_recorded ∷ [] ≡ table ++ row ∷ [])
    × (any (λ x. x.id == row.id) table ≡ false)
    × IsRecorded recorder row
unfolding record_event matches_event_type trim_space
record_event-IsRecorded_example =
    record_event-IsRecorded recorder unnamed table (table ++ as_recorded ∷ []) refl refl
