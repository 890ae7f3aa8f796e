-- ===== src/Events/Recorded.antt =====
-- What `Record` leaves in the table of events.
use self_hosted_deployer.Common.{
  ◌≤◌, String, Bool, true, false, some, List, [], ◌∷◌, ◌++◌, not, ◌==◌, ◌&&◌, ◌≡◌, refl, ◌⊎◌, inl,
  inr, is_empty, trim_space, any, Bool-cases, ok, refuse, require, ◌>>=◌, if◌then◌else◌, arith,
  >>-ok, >>=-ok, refuse-ok, require-ok,
}
use self_hosted_deployer.Events.Types.{Event}
use self_hosted_deployer.Events.Table.{create_event}
use self_hosted_deployer.Events.Service.{
  matches_event_type, is_severity, Recorder, validate_event, record_event, completed, or_new_id,
  created, invalid_type, invalid_severity, message_required, invalid_metadata,
}

-- A row that a reader of events can rely on.
pub record IsRecorded (r : Recorder) (e : Event) : Type 0 where
  pub typed : matches_event_type e.event_type ≡ true
  pub graded : is_severity e.severity ≡ true
  pub told : is_empty (trim_space e.message) ≡ false
  pub encoded : r.valid_json e.metadata_json ≡ true
  pub timed : (e.created_at ≡ r.now) ⊎ (1 ≤ e.created_at)

validated :
    (valid_json : String → Bool) (e : Event)
    → validate_event valid_json e ≡ ok tt
    → (matches_event_type e.event_type ≡ true)
      × (is_severity e.severity ≡ true)
      × (is_empty (trim_space e.message) ≡ false)
      × ((not (is_empty e.metadata_json) && not (valid_json e.metadata_json)) ≡ false)
unfolding validate_event
validated valid_json e h =
    let (h3, d) =
      >>-ok _
        (refuse (not (is_empty e.metadata_json) && not (valid_json e.metadata_json))
          invalid_metadata)
        h in
    let (h2, m) = >>-ok _ (refuse (is_empty (trim_space e.message)) message_required) h3 in
    let (t, g) =
      >>-ok (require (matches_event_type e.event_type) invalid_type)
        (require (is_severity e.severity) invalid_severity) h2 in
    (
      require-ok _ invalid_type t,
      require-ok _ invalid_severity g,
      refuse-ok _ message_required m,
      refuse-ok _ invalid_metadata d,
    )

default_set : (m : String) → is_empty (if is_empty m then "{}" else m) ≡ false
default_set m = elim (Bool-cases (is_empty m)) [ inl g ↦ rw g refl | inr g ↦ rw (g, g) refl ]

default_json :
    (valid_json : String → Bool) (m : String)
    → valid_json "{}" ≡ true
    → (not (is_empty m) && not (valid_json m)) ≡ false
    → valid_json (if is_empty m then "{}" else m) ≡ true
default_json valid_json m j d = elim (Bool-cases (is_empty m)) [
  | inl g ↦ rw g j
  | inr g ↦ rw g (ground arith)
]

created-ok :
    (e : Event) (rows rows' : List Event)
    → is_empty e.metadata_json ≡ false
    → created (create_event e rows) ≡ ok rows'
    → (rows' ≡ rows ++ e ∷ []) × (any (λ x. x.id == e.id) rows ≡ false)
unfolding create_event
created-ok e rows rows' n h = elim (Bool-cases (any (λ x. x.id == e.id) rows)) [
  | inl g ↦ ground arith
  | inr g ↦ (let h' : created (some (rows ++ e ∷ [])) ≡ ok rows' = rw (n, g) at h in cc, g)
]

-- A record that succeeds adds one row at the end, of a new id, in shape, and with JSON in it, if `{}`
-- is JSON.
pub record_event-IsRecorded :
    (r : Recorder) (e : Event) (rows rows' : List Event)
    → r.valid_json "{}" ≡ true
    → record_event r e (some rows) ≡ ok rows'
    → (row : Event) × (rows' ≡ rows ++ row ∷ [])
      × (any (λ x. x.id == row.id) rows ≡ false)
      × IsRecorded r row
unfolding record_event validate_event create_event
record_event-IsRecorded r e rows rows' j h =
    let (v, k) =
      >>-ok (validate_event r.valid_json e)
        (or_new_id e.id r.new_id >>= λ id. created (create_event (completed r e id) rows)) h in
    let (id, i, w) =
      >>=-ok (or_new_id e.id r.new_id) (λ id. created (create_event (completed r e id) rows)) k in
    let (t, g, m, d) = validated r.valid_json e v in
    let (q, u) = created-ok (completed r e id) rows rows' (default_set e.metadata_json) w in
    (
      completed r e id,
      q,
      u,
      record {
        typed = t;
        graded = g;
        told = m;
        encoded = default_json r.valid_json e.metadata_json j d;
        timed = ground arith;
      },
    )
