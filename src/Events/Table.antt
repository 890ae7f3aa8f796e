-- ===== src/Events/Table.antt =====
-- `EventRepository` of internal/db/event_repository.go: queries and deletions over the rows.
use self_hosted_deployer.Common.{
  ℕ, zero, suc, String, Bool, true, Option, none, some, List, [], ◌∷◌, ◌++◌, ◌==◌, not, ◌&&◌, ◌||◌,
  ltb, leb, nat_eq, is_empty, any, if◌then◌else◌, ℤ, pos, negsuc,
}
use self_hosted_deployer.Events.Types.{Event, EventCursor, EventFilter, cursor_of, Collation}

module _ {ℓ} {A : Type ℓ} where
  -- WHERE
  unfoldable pub filter : (A → Bool) → List A → List A
  filter p [] = []
  filter p (x ∷ xs) = let rest = filter p xs in if p x then x ∷ rest else rest

  -- LIMIT
  unfoldable pub take : ℕ → List A → List A
  take zero xs = []
  take (suc n) [] = []
  take (suc n) (x ∷ xs) = x ∷ take n xs

  -- OFFSET
  unfoldable pub drop : ℕ → List A → List A
  drop zero xs = xs
  drop (suc n) [] = []
  drop (suc n) (x ∷ xs) = drop n xs

  unfoldable pub reverse : List A → List A
  reverse [] = []
  reverse (x ∷ xs) = reverse xs ++ x ∷ []

-- An empty field of a filter selects every row.
abbrev pub selects : String → String → Bool
selects wanted value = is_empty wanted || value == wanted

abbrev pub is_since : Option ℕ → Event → Bool
is_since none e = true
is_since (some time) e = leb time e.created_at

-- limit <= 0, and limit > maxEventListLimit
abbrev pub list_limit : ℤ → ℕ
list_limit (pos n) = if nat_eq n 0 then 100 else if ltb 1000 n then 1000 else n
list_limit (negsuc n) = 100

-- The conditions but the cursor's.
unfoldable pub matches : EventFilter → Event → Bool
matches f e =
    selects f.app_id e.app_id
    && selects f.node_id e.node_id
    && selects f.event_type e.event_type
    && selects f.severity e.severity
    && is_since f.since e

-- PruneBefore
unfoldable pub prune_before : ℕ → List Event → List Event
unfolding filter
prune_before cutoff rows = filter (λ e. not (ltb e.created_at cutoff)) rows

-- Create, with its primary key.
unfoldable pub create_event : Event → List Event → Option (List Event)
create_event e rows =
    if any (λ x. x.id == e.id) rows
    then none
    else some (
        rows
        ++ record e { metadata_json = if is_empty e.metadata_json then "{}" else e.metadata_json }
          ∷ [])

module _ (c : Collation) where
  open c use {before}

  -- created_at > ? OR (created_at = ? AND id > ?)
  unfoldable pub follows : EventCursor → Event → Bool
  follows k e =
      ltb k.created_at e.created_at || nat_eq k.created_at e.created_at && before k.id e.id

  abbrev pub is_after : Option EventCursor → Event → Bool
  is_after none e = true
  is_after (some k) e = follows k e

  -- ORDER BY created_at ASC, id ASC
  unfoldable pub insert_event : Event → List Event → List Event
  insert_event e [] = e ∷ []
  insert_event e (x ∷ xs) =
      let rest = insert_event e xs in if follows (cursor_of e) x then e ∷ x ∷ xs else x ∷ rest

  unfoldable pub ordered : List Event → List Event
  unfolding insert_event
  ordered [] = []
  ordered (e ∷ es) = insert_event e (ordered es)

  unfoldable pub selected : EventFilter → List Event → List Event
  unfolding ordered filter
  selected f rows = filter (λ e. matches f e && is_after f.after e) (ordered rows)

  -- List
  unfoldable pub list_events : EventFilter → List Event → List Event
  unfolding selected take reverse
  list_events f rows =
      take (list_limit f.limit)
        (if f.oldest_first then selected f rows else reverse (selected f rows))

  -- PruneToLimit: all but the newest `max_count` rows are deleted.
  unfoldable pub prune_to_limit : ℕ → List Event → List Event
  unfolding filter ordered drop reverse
  prune_to_limit max_count rows =
      if ltb max_count 1
      then rows
      else filter (λ e. not (any (λ d. d.id == e.id) (drop max_count (reverse (ordered rows)))))
          rows
