-- ===== src/Events/Examples.antt =====
-- The theorems of this folder at concrete logs.
use autoweave_library.Common.{
  ◌≡◌, refl, none, some, true, All, List, [], ◌∷◌, String, same_text, ok, ℕ,
}
use autoweave_library.Events.Store.{
  EventRecord, EventSeverity, EventStore, append, list_events, replay_from, latest_cursor,
  number_or_next,
}
use autoweave_library.Events.Redaction.{Json, JsonFields, Scalar, redact_payload}
use autoweave_library.Events.Redaction.Clean.{is_clean_fields, redact_payload-is_clean}
use autoweave_library.Events.Publish.{publish_all, publish_all-is_clean}
use autoweave_library.Events.Replay.{append_all, replay_from-resumes}

abbrev event_of : (run id : String) → ℕ → EventRecord
event_of run id number = record {
  id = id;
  workflow_run_id = run;
  task_id = none;
  task_attempt_id = none;
  agent_id = none;
  agent_role = none;
  sandbox_id = none;
  provider_name = none;
  model_name = none;
  route_reason = none;
  event_type = "task.started";
  source = "scheduler";
  severity = EventSeverity.info;
  sequence_no = number;
  payload_json = JsonFields.end;
  created_at = 0;
}

abbrev seen : List EventRecord
seen = event_of "r1" "a" 0 ∷ event_of "r2" "b" 0 ∷ event_of "r1" "c" 0 ∷ []

abbrev unseen : List EventRecord
unseen = event_of "r2" "d" 0 ∷ event_of "r1" "e" 0 ∷ []

abbrev log : EventStore
log = append_all seen []

replay_from-resumes_example :
    replay_from "r1" (latest_cursor "r1" log) (append_all unseen log)
    ≡ ok (event_of "r1" "e" 3 ∷ [])
unfolding same_text append list_events number_or_next
replay_from-resumes_example =
    replay_from-resumes "r1" seen unseen (refl, (refl, (refl, tt))) (refl, (refl, tt))

abbrev secrets : JsonFields
secrets =
    JsonFields.field "tool" (Json.leaf (Scalar.text "git"))
      (JsonFields.field "Auth" (Json.leaf (Scalar.text "abc")) JsonFields.end)

redact_payload-is_clean_example :
    (is_clean_fields (redact_payload (some secrets)) ≡ true)
    × ((fields : JsonFields)
        → is_clean_fields fields ≡ true
        → redact_payload (some fields) ≡ fields)
    × (redact_payload (some (redact_payload (some secrets))) ≡ redact_payload (some secrets))
redact_payload-is_clean_example = redact_payload-is_clean (some secrets)

secrets_redacted :
    redact_payload (some secrets)
    ≡ JsonFields.field "tool"
        (Json.leaf (Scalar.text "git"))
        (JsonFields.field "Auth" (Json.leaf (Scalar.text "[REDACTED]")) JsonFields.end)
unfolding redact_payload
secrets_redacted = refl

publish_all-is_clean_example :
    All
      (λ (e : EventRecord). is_clean_fields e.payload_json ≡ true)
      (list_events "r1"
        (publish_all (record (event_of "r1" "a" 0) { payload_json = secrets } ∷ []) []))
publish_all-is_clean_example =
    publish_all-is_clean "r1" (record (event_of "r1" "a" 0) { payload_json = secrets } ∷ [])
