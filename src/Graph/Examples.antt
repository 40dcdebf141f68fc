-- ===== src/Graph/Examples.antt =====
-- The theorem of this folder at a concrete database, and an event that the projection in memory
-- refuses after it has kept it.
use autoweave_library.Common.{
  ◌≡◌, keep, values, if◌then◌else◌, ◌==◌, Result, ok, value_error, refl, none, List, [], ◌∷◌,
  String, Dict, insert, err, type_error, same_text, string_eq,
}
use autoweave_library.Events.Redaction.{JsonFields, Json, JsonItems, Scalar}
use autoweave_library.Events.Store.{EventRecord, EventSeverity}
use autoweave_library.Graph.Projection.{
  project_event, query_related_entities, list_projected_events, is_hashable, label_of,
}
use autoweave_library.Graph.Projection.Sql.{
  Database, Codec, limited, query_related_rows, list_event_rows,
}
use autoweave_library.Graph.Projection.Agreement.{
  project_all_rows, created_tables, query_related_rows-query_related_entities,
}
use autoweave_library.Graph.Projection.Stated.{project_all, no_events}

abbrev plain_database : Database (Dict String)
plain_database = record {
  created = [];
  upsert = λ key row t. insert key row t;
  rows = λ t. t;
  rows-created = refl;
  rows-upsert = λ key row t. refl;
  select = λ test count t. limited count (keep test (values t));
  select-rows = λ test count t. refl;
}

abbrev text_json : String → Json
text_json t = Json.leaf (Scalar.text t)

abbrev entity_event : (id : String) → (kind : Json) → (target : String) → EventRecord
entity_event id kind target = record {
  id = id;
  workflow_run_id = "run";
  task_id = none;
  task_attempt_id = none;
  agent_id = none;
  agent_role = none;
  sandbox_id = none;
  provider_name = none;
  model_name = none;
  route_reason = none;
  event_type = "task.linked";
  source = "orchestration";
  severity = EventSeverity.info;
  sequence_no = 1;
  payload_json = JsonFields.field "entity_id" (text_json "t1") (
      JsonFields.field "entity_type" kind (
        JsonFields.field "relation" (text_json "precedes")
          (JsonFields.field "target_id" (text_json target) JsonFields.end)));
  created_at = 1;
}

abbrev two_links : List EventRecord
two_links =
    entity_event "e1" (text_json "Task") "t2" ∷ entity_event "e2" (text_json "Task") "t3" ∷ []

-- The texts of the two events are their ids.
read_event : String → Result EventRecord
read_event text =
    if text == "e1"
    then ok (entity_event "e1" (text_json "Task") "t2")
    else if text == "e2"
    then ok (entity_event "e2" (text_json "Task") "t3")
    else err value_error

abbrev plain_codec : Codec
plain_codec = record {
  str_of = λ j. "";
  model_dump_json = λ event. event.id;
  model_validate_json = read_event;
  dumps_labels = λ labels. "[]";
  loads_labels = λ text. [];
  dumps_properties = λ properties. "{}";
  loads_properties = λ text. [];
}

query_related_rows-query_related_entities_example :
    let s = project_all two_links no_events in
    let t =
      project_all_rows
        (Dict String)
        plain_database
        plain_codec
        two_links
        (created_tables (Dict String) plain_database plain_codec) in
    (list_event_rows (Dict String) plain_database plain_codec t ≡ ok (list_projected_events s))
    × (query_related_rows (Dict String) plain_database plain_codec "t1" 2 t
        ≡ query_related_entities "t1" 2 s)
unfolding is_hashable label_of same_text read_event
query_related_rows-query_related_entities_example =
    query_related_rows-query_related_entities (Dict String) plain_database plain_codec two_links
      "t1" 2 ((refl, tt), (tt, tt)) (refl, (refl, tt)) (refl, (refl, tt))

two_answers : query_related_entities "t1" 2 (project_all two_links no_events) ≡ (
    record { source_id = "t1"; relation = "precedes"; target_id = "t2"; event_id = "e1" }
    ∷ record { source_id = "t1"; relation = "precedes"; target_id = "t3"; event_id = "e2" }
    ∷ [])
unfolding query_related_entities project_event same_text
two_answers = refl

abbrev list_typed : EventRecord
list_typed = entity_event "e3" (Json.array JsonItems.nil) "t2"

unhashable_type :
    ((project_event list_typed no_events).0 ≡ err type_error)
    × (list_projected_events (project_event list_typed no_events).1 ≡ list_typed ∷ [])
unfolding list_projected_events project_event same_text
unhashable_type = (refl, refl)
