-- ===== src/Events/Publish.antt =====
-- autoweave/events/schema.py and service.py: `make_event`, `normalize_event` and the event service,
-- without metrics and traces. A mapping is made a record by Pydantic, so events are records here.
use autoweave_library.Common.{
  ℕ, ◌≡◌, refl, sym, ap, subst, true, false, Bool, Option, none, some, List, [], ◌∷◌, ◌++◌, String,
  Action, All, All-append, if◌then◌else◌, ◌==◌, ==_iff, string_eq, suc, length,
}
use autoweave_library.Events.Redaction.{JsonFields, Json, Scalar, redact_payload}
use autoweave_library.Events.Redaction.Clean.{is_clean_fields, redact_payload-is_clean}
use autoweave_library.Events.Store.{
  EventSeverity, EventRecord, EventStore, append, list_events, number_or_next,
}
use autoweave_library.Events.Replay.{list_events-insert}
use autoweave_library.Routing.Policy.{ModelRouteRecord}

unfoldable pub with_type : Option String → EventRecord → EventRecord
with_type none event = event
with_type (some event_type) event = record event { event_type = event_type }

unfoldable pub with_source : Option String → EventRecord → EventRecord
with_source none event = event
with_source (some source) event = record event { source = source }

unfoldable pub normalize_event : (event_type source : Option String) → EventRecord → EventRecord
unfolding with_type with_source
normalize_event event_type source event = with_source source (with_type event_type event)

unfoldable pub redacted_event : Bool → EventRecord → EventRecord
unfolding redact_payload
redacted_event redact event =
    if redact
    then record event { payload_json = redact_payload (some event.payload_json) }
    else event

unfoldable pub publish : Bool → EventRecord → Action EventStore EventRecord
unfolding normalize_event redacted_event append
publish redact event store = append (redacted_event redact (normalize_event none none event)) store

-- `value` as JSON.
unfoldable pub json_text : Option String → Json
json_text none = Json.leaf Scalar.null
json_text (some value) = Json.leaf (Scalar.text value)

unfoldable pub route_event : (new_id : String) → ℕ → ModelRouteRecord → EventRecord
unfolding json_text
route_event new_id now route = record {
  id = new_id;
  workflow_run_id = route.workflow_run_id;
  task_id = some route.task_id;
  task_attempt_id = some route.task_attempt_id;
  agent_id = none;
  agent_role = none;
  sandbox_id = none;
  provider_name = some route.provider_name;
  model_name = some route.model_name;
  route_reason = some route.route_reason;
  event_type = "route.selected";
  source = "routing";
  severity = EventSeverity.info;
  sequence_no = 0;
  payload_json = JsonFields.field "fallback_from" (json_text route.fallback_from) (
      JsonFields.field "estimated_cost_class" (json_text (some route.estimated_cost_class))
        JsonFields.end);
  created_at = now;
}

unfoldable pub publish_route :
    (new_id : String) → ℕ → ModelRouteRecord → Action EventStore EventRecord
unfolding route_event publish
publish_route new_id now route = publish true (route_event new_id now route)

-- The store after the events are published one after another, with redaction.
abbrev pub publish_all : List EventRecord → EventStore → EventStore
publish_all [] store = store
publish_all (e ∷ es) store = publish_all es (publish true e store).1

abbrev IsClean : EventRecord → Type 0
IsClean e = is_clean_fields e.payload_json ≡ true

if-All :
    (b : Bool) (xs ys : List EventRecord) (e : EventRecord)
    → (b ≡ true → xs ≡ ys)
    → IsClean e
    → All IsClean ys
    → All IsClean (if b then xs ++ (e ∷ []) else ys)
if-All true xs ys e same clean old =
    All-append IsClean xs (e ∷ []) (subst (All IsClean) (sym (same refl)) old) (clean, tt)
if-All false xs ys e same clean old = old

append-All :
    (run : String) (e : EventRecord) (store : EventStore)
    → IsClean e
    → All IsClean (list_events run store)
    → All IsClean (list_events run (append e store).1)
unfolding append list_events
append-All run e store clean old =
    let stored = record e {
      sequence_no =
          number_or_next e.sequence_no (suc (length (list_events e.workflow_run_id store)));
    } in
    rw
      (list_events-insert run e.workflow_run_id
        (list_events e.workflow_run_id store ++ (stored ∷ [])) store)
      (if-All (run == e.workflow_run_id) (list_events e.workflow_run_id store)
        (list_events run store) stored
        (λ same. ap (λ k. list_events k store) (sym ((==_iff run e.workflow_run_id).0 same))) clean
        old)

publish-All :
    (run : String) (events : List EventRecord) (store : EventStore)
    → All IsClean (list_events run store)
    → All IsClean (list_events run (publish_all events store))
unfolding publish redacted_event normalize_event
publish-All run [] store old = old
publish-All run (e ∷ events) store old =
    let e' = record e { payload_json = redact_payload (some e.payload_json) } in
    publish-All run events (append e' store).1
      (append-All run e' store (redact_payload-is_clean (some e.payload_json)).0 old)

-- However the events are published with redaction, one after another from an empty store, no
-- stored event of any run holds a value under a secret key other than the replacement.
pub publish_all-is_clean :
    (run : String) (events : List EventRecord)
    → All
        (λ (e : EventRecord). is_clean_fields e.payload_json ≡ true)
        (list_events run (publish_all events []))
unfolding list_events
publish_all-is_clean run events = publish-All run events [] tt
