-- ===== src/Events/Service.antt =====
-- internal/server/event.go: what is recorded, and what a request selects.
use Prim.Native.Char.{code}
use Prim.Native.String.{[], ◌∷◌}
use self_hosted_deployer.Common.{
  ℕ, String, Bool, true, false, Option, none, some, List, not, ◌==◌, ◌&&◌, ◌||◌, ◌≡◌, refl, leb,
  nat_eq, is_empty, trim_space, if◌then◌else◌, ℤ, Result, ok, err, ◌>>=◌, ◌>>◌, refuse, require,
}
use self_hosted_deployer.Events.Types.{Event, EventFilter}
use self_hosted_deployer.Events.Table.{create_event}

abbrev is_letter : ℕ → Bool
is_letter c = leb 97 c && leb c 122

abbrev is_letter_or_digit : ℕ → Bool
is_letter_or_digit c = is_letter c || leb 48 c && leb c 57

unfoldable mutual
  -- A name must begin here.
  pub event_type_name : Bool → String → Bool
  event_type_name dotted [] = false
  event_type_name dotted (c ∷ s) = is_letter (code c) && event_type_rest dotted s

  -- Behind the letter of a name; `dotted` when a dot has been read.
  pub event_type_rest : Bool → String → Bool
  event_type_rest dotted [] = dotted
  event_type_rest dotted (c ∷ s) =
      let name = event_type_name true s in
      let rest = event_type_rest dotted s in
      if nat_eq (code c) 46 then name else is_letter_or_digit (code c) && rest

-- eventTypePattern: `^[a-z][a-z0-9]*(\.[a-z][a-z0-9]*)+$`
unfoldable pub matches_event_type : String → Bool
unfolding event_type_name event_type_rest
matches_event_type s = event_type_name false s

matches_event_type_run :
    (matches_event_type "node.joined" ≡ true)
    × (matches_event_type "node" ≡ false)
    × (matches_event_type "node." ≡ false)
unfolding matches_event_type
matches_event_type_run = (refl, refl, refl)

abbrev pub is_severity : String → Bool
is_severity s = s == "info" || s == "warning" || s == "error"

pub data EventError : Type 0 where
  invalid_type invalid_severity message_required invalid_metadata : EventError
  id_unavailable not_configured create_failed : EventError
  app_not_found node_not_found lookup_failed type_argument severity_argument since_argument :
      EventError

-- encoding/json, the source of ids, and the clock.
pub record Recorder : Type 0 where
  pub valid_json : String → Bool
  pub new_id : Option String
  pub now : ℕ

-- validateEvent
unfoldable pub validate_event : (String → Bool) → Event → Result EventError (Unit {0})
validate_event valid_json e =
    require (matches_event_type e.event_type) invalid_type
    >> require (is_severity e.severity) invalid_severity
    >> refuse (is_empty (trim_space e.message)) message_required
    >> refuse (not (is_empty e.metadata_json) && not (valid_json e.metadata_json)) invalid_metadata

abbrev pub or_new_id : String → Option String → Result EventError String
or_new_id id new =
    if is_empty id then elim new [ none ↦ err id_unavailable | some fresh ↦ ok fresh ] else ok id

-- The row that `Record` creates; a time of 0 is Go's zero time.
abbrev pub completed : Recorder → Event → String → Event
completed r e id = record e {
  id = id;
  created_at = if nat_eq e.created_at 0 then r.now else e.created_at;
  metadata_json = if is_empty e.metadata_json then "{}" else e.metadata_json;
}

abbrev pub created : Option (List Event) → Result EventError (List Event)
created none = err create_failed
created (some rows) = ok rows

-- Record, with the rows of the table that it is configured with.
unfoldable pub record_event :
    Recorder → Event → Option (List Event) → Result EventError (List Event)
unfolding validate_event create_event
record_event r e table =
    validate_event r.valid_json e
    >> (or_new_id e.id r.new_id >>= λ id. elim table [
      | none ↦ err not_configured
      | some rows ↦ created (create_event (completed r e id) rows)
    ])

-- The answers of FindByName and FindByID.
pub data Lookup : Type 0 where
  found_id : String → Lookup
  absent : Lookup
  broken : Lookup

pub record Directory : Type 0 where
  pub app_by_name : String → Lookup
  pub app_by_id : String → Lookup
  pub node_by_name : String → Lookup
  pub node_by_id : String → Lookup
  pub parse_time : String → Option ℕ

-- Where the name is absent the reference is tried as an id.
abbrev pub or_by_id : Lookup → Lookup → Lookup
or_by_id absent by_id = by_id
or_by_id by_name by_id = by_name

abbrev pub resolved : Lookup → EventError → Result EventError String
resolved (found_id id) missing = ok id
resolved absent missing = err missing
resolved broken missing = err lookup_failed

unfoldable pub resolve :
    (String → Lookup) → (String → Lookup) → EventError → String → Result EventError String
resolve by_name by_id missing ref =
    if is_empty ref then ok "" else resolved (or_by_id (by_name ref) (by_id ref)) missing

abbrev pub parsed_time : Option ℕ → Result EventError (Option ℕ)
parsed_time none = err since_argument
parsed_time (some time) = ok (some time)

-- EventService.filter
unfoldable pub event_filter :
    Directory → (app node event_type severity since : String) → ℤ → Result EventError EventFilter
unfolding resolve
event_filter d app node event_type severity since limit =
    resolve d.app_by_name d.app_by_id app_not_found (trim_space app) >>= λ app_id.
    resolve d.node_by_name d.node_by_id node_not_found (trim_space node) >>= λ node_id.
    refuse
      (not (is_empty (trim_space event_type)) && not (matches_event_type (trim_space event_type)))
      type_argument
    >> refuse (not (is_empty (trim_space severity)) && not (is_severity (trim_space severity)))
        severity_argument
    >> (if is_empty (trim_space since)
        then ok none
        else parsed_time (d.parse_time (trim_space since)))
    >>= λ since_time. ok (record {
      app_id = app_id;
      node_id = node_id;
      event_type = trim_space event_type;
      severity = trim_space severity;
      since = since_time;
      after = none;
      oldest_first = false;
      limit = limit;
    })
