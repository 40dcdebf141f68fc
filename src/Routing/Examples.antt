-- ===== src/Routing/Examples.antt =====
-- The theorems of this folder at a configuration of two profiles.
use autoweave_library.Common.{
  ℕ, length, ==_iff, ◌≡◌, ◌≢◌, refl, none, [], ◌∷◌, String, same_text, err, stop_iteration, arith,
  string_eq, List, min, ◌-◌, suc,
}
use autoweave_library.Models.{TaskAttemptRecord, AttemptState}
use autoweave_library.Orchestration.Samples.{new_task}
use autoweave_library.Routing.Policy.{
  VertexProfileConfig, VertexConfig, VertexModelRouter, RouteFailureLedger, baseline_from, choice,
  ordered_profiles, index_of,
}
use autoweave_library.Routing.Bounds.{Chooses, after_failure, choice-record_failure}

abbrev profile : (name model : String) → VertexProfileConfig
profile name model = record {
  name = name;
  model = model;
  timeout_seconds = 60;
  max_retries = 1;
  budget_class = "balanced";
}

abbrev configured : List String → VertexConfig
configured order = record {
  provider_name = "VertexAI";
  profile_definitions = profile "fast" "flash" ∷ profile "deep" "pro" ∷ [];
  fallback_order = order;
}

abbrev ledger : RouteFailureLedger
ledger = record { failures_by_attempt = ("a1", 1) ∷ []; last_route_by_attempt = [] }

abbrev router : VertexModelRouter
router = record {
  vertex_config = configured ("fast" ∷ "deep" ∷ []);
  preferred_profile = none;
  ledger = ledger;
  audit_log = [];
}

abbrev attempt : TaskAttemptRecord
attempt = record {
  id = "a1";
  task_id = "t1";
  attempt_number = 2;
  state = AttemptState.queued;
  worker_mode = "agent";
  agent_definition_id = "agent";
  workspace_id = none;
  compiled_worker_config_json = "{}";
  model_route_id = none;
  lease_key = none;
  started_at = none;
  ended_at = none;
}

-- The order names one of the two profiles, and the hint the other.
unlisted_hint :
    baseline_from (configured ("fast" ∷ [])) 1 0 ("critical" ∷ "deep" ∷ []) ≡ err stop_iteration
unfolding baseline_from ordered_profiles index_of same_text
unlisted_hint = refl

other_attempt : ◌≢◌ {A = String} "a2" "a1"
unfolding same_text
other_attempt = ground (arith, ==_iff {A = String} "a2" "a1")

choice-record_failure_example :
    (i : ℕ) × (Chooses router (new_task "t1" "plan") attempt [] i
      × Chooses
          (after_failure "a1" router)
          (new_task "t1" "plan")
          attempt
          []
          (min (suc i) (length (ordered_profiles router.vertex_config) - 1))
      × (choice (after_failure "a2" router) (new_task "t1" "plan") attempt []
          ≡ choice router (new_task "t1" "plan") attempt []))
choice-record_failure_example =
    choice-record_failure router (new_task "t1" "plan") attempt [] "a2" refl (omega arith) tt
      other_attempt
