-- ===== src/Events/Store.antt =====
-- autoweave/events/schema.py (`EventCursor`), stream.py (`InMemoryEventStore`, `LiveEventStream`)
-- and local.py, whose store keeps the same lists and also writes each event to a file.
use autoweave_library.Common.{
  ℕ, zero, suc, Option, none, some, List, [], ◌∷◌, ◌++◌, String, Dict, insert, get_or, length,
  Result, ok, err, value_error, Action, keep, ltb, if◌then◌else◌, ◌==◌, string_eq,
}
use autoweave_library.Events.Redaction.{JsonFields}

pub data EventSeverity : Type 0 where
  debug : EventSeverity
  info : EventSeverity
  warning : EventSeverity
  error : EventSeverity

pub record EventRecord : Type 0 where
  pub id : String
  pub workflow_run_id : String
  pub task_id : Option String
  pub task_attempt_id : Option String
  pub agent_id : Option String
  pub agent_role : Option String
  pub sandbox_id : Option String
  pub provider_name : Option String
  pub model_name : Option String
  pub route_reason : Option String
  pub event_type : String
  pub source : String
  pub severity : EventSeverity
  pub sequence_no : ℕ
  pub payload_json : JsonFields
  pub created_at : ℕ

pub record EventCursor : Type 0 where
  pub workflow_run_id : String
  pub sequence_no : ℕ
  pub event_id : Option String
  pub created_at : ℕ

unfoldable pub advance : ℕ → EventCursor → EventRecord → EventCursor
advance now cursor event = record {
  workflow_run_id = event.workflow_run_id;
  sequence_no = event.sequence_no;
  event_id = some event.id;
  created_at = now;
}

abbrev pub EventStore : Type 0
EventStore = Dict String (List EventRecord)

-- `event.sequence_no or len(run_events) + 1`
unfoldable pub number_or_next : ℕ → ℕ → ℕ
number_or_next zero next = next
number_or_next (suc n) next = suc n

unfoldable pub append : EventRecord → Action EventStore EventRecord
unfolding number_or_next
append event store =
    let run_events = get_or [] event.workflow_run_id store in
    let stored = record event {
      sequence_no = number_or_next event.sequence_no (suc (length run_events));
    } in
    (ok stored, insert event.workflow_run_id (run_events ++ (stored ∷ [])) store)

unfoldable pub list_events : String → EventStore → List EventRecord
list_events workflow_run_id store = get_or [] workflow_run_id store

unfoldable pub replay_from : String → Option EventCursor → EventStore → Result (List EventRecord)
unfolding list_events
replay_from workflow_run_id none store = ok (list_events workflow_run_id store)
replay_from workflow_run_id (some cursor) store =
    if cursor.workflow_run_id == workflow_run_id
    then ok (
        keep (λ (e : EventRecord). ltb cursor.sequence_no e.sequence_no)
          (list_events workflow_run_id store))
    else err value_error

-- `events[-1]`, if there is one.
unfoldable pub last_event : List EventRecord → Option EventRecord
last_event [] = none
last_event (event ∷ events) = elim (last_event events) [ none ↦ some event | some last ↦ some last ]

unfoldable pub cursor_at : EventRecord → EventCursor
cursor_at event = record {
  workflow_run_id = event.workflow_run_id;
  sequence_no = event.sequence_no;
  event_id = some event.id;
  created_at = event.created_at;
}

unfoldable pub latest_cursor : String → EventStore → Option EventCursor
unfolding last_event cursor_at list_events
latest_cursor workflow_run_id store = elim (last_event (list_events workflow_run_id store)) [
  | none ↦ none
  | some event ↦ some (cursor_at event)
]

pub record EventStreamSnapshot : Type 0 where
  pub workflow_run_id : String
  pub cursor : Option EventCursor
  pub events : List EventRecord

unfoldable pub snapshot : String → Option EventCursor → EventStore → Result EventStreamSnapshot
unfolding replay_from latest_cursor
snapshot workflow_run_id cursor store = elim (replay_from workflow_run_id cursor store) [
  | err e ↦ err e
  | ok events ↦ ok (record {
    workflow_run_id = workflow_run_id;
    cursor = latest_cursor workflow_run_id store;
    events = events;
  })
]
