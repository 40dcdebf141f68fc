-- ===== src/Routing/Policy.antt =====
-- autoweave/routing/policy.py: the profiles in order, the choice among them, and what a choice
-- writes down. With no profile at all, the index that the source takes is -1; it is 0 here, and
-- both reach past the end of the empty list.
use autoweave_library.Common.{
  ℕ, zero, suc, ◌+◌, ◌-◌, min, max, Option, none, some, List, [], ◌∷◌, ◌++◌, map, String, Dict,
  lookup, insert, get_or, Result, ok, err, required, bind, index_error, stop_iteration, Action,
  length, member, if◌then◌else◌, ◌==◌, string_eq, strip, is_some_text, join, decimal,
}
use autoweave_library.Models.{TaskRecord, TaskAttemptRecord}

pub record VertexProfileConfig : Type 0 where
  pub name : String
  pub model : String
  pub timeout_seconds : ℕ
  pub max_retries : ℕ
  pub budget_class : String

-- The policies and budgets of the configuration are not read here.
pub record VertexConfig : Type 0 where
  pub provider_name : String
  pub profile_definitions : List VertexProfileConfig
  pub fallback_order : List String

pub record ModelRouteRecord : Type 0 where
  pub id : String
  pub workflow_run_id : String
  pub task_id : String
  pub task_attempt_id : String
  pub provider_name : String
  pub model_name : String
  pub route_reason : String
  pub fallback_from : Option String
  pub estimated_cost_class : String
  pub created_at : ℕ

-- `_ROLE_BASELINE` and `_HINT_BASELINE`.
unfoldable pub role_baseline : Dict String ℕ
role_baseline =
    ("manager", 2) ∷ ("reviewer", 2) ∷ ("integration", 2) ∷ ("backend", 1) ∷ ("frontend", 1) ∷ []

unfoldable pub hint_baseline : Dict String ℕ
hint_baseline =
    ("critical", 2)
    ∷ ("escalate", 2)
    ∷ ("high_reasoning", 2)
    ∷ ("planning", 2)
    ∷ ("review", 2)
    ∷ ("integration", 2)
    ∷ ("analysis", 1)
    ∷ ("implementation", 1)
    ∷ ("complex", 1)
    ∷ ("boilerplate", 0)
    ∷ []

pub record RouteFailureLedger : Type 0 where
  pub failures_by_attempt : Dict String ℕ
  pub last_route_by_attempt : Dict String String

unfoldable pub failure_count : String → RouteFailureLedger → ℕ
failure_count attempt_id ledger = get_or 0 attempt_id ledger.failures_by_attempt

unfoldable pub record_failure : String → Action RouteFailureLedger ℕ
unfolding failure_count
record_failure attempt_id ledger =
    let count = suc (failure_count attempt_id ledger) in
    (
      ok count,
      record ledger { failures_by_attempt = insert attempt_id count ledger.failures_by_attempt },
    )

unfoldable pub record_route :
    (attempt_id model_name : String) → RouteFailureLedger → RouteFailureLedger
record_route attempt_id model_name ledger = record ledger {
  last_route_by_attempt = insert attempt_id model_name ledger.last_route_by_attempt;
}

unfoldable pub last_route : String → RouteFailureLedger → Option String
last_route attempt_id ledger = lookup attempt_id ledger.last_route_by_attempt

pub record VertexModelRouter : Type 0 where
  pub vertex_config : VertexConfig
  pub preferred_profile : Option String
  pub ledger : RouteFailureLedger
  pub audit_log : List ModelRouteRecord

-- `{profile.name: profile for profile in profiles}`
unfoldable pub index_profiles :
    List VertexProfileConfig → Dict String VertexProfileConfig → Dict String VertexProfileConfig
index_profiles [] d = d
index_profiles (p ∷ ps) d = index_profiles ps (insert p.name p d)

-- `[by_name[name] for name in names if name in by_name]`
unfoldable pub profiles_named :
    Dict String VertexProfileConfig → List String → List VertexProfileConfig
profiles_named by_name [] = []
profiles_named by_name (name ∷ names) =
    let rest = profiles_named by_name names in
    elim (lookup name by_name) [ none ↦ rest | some p ↦ p ∷ rest ]

-- `ordered`, or all profiles where it is empty.
unfoldable pub or_all :
    List VertexProfileConfig → List VertexProfileConfig → List VertexProfileConfig
or_all [] profiles = profiles
or_all (p ∷ ps) profiles = p ∷ ps

-- An empty fallback order names no profile, so the source's test on it needs no case.
unfoldable pub ordered_profiles : VertexConfig → List VertexProfileConfig
unfolding index_profiles profiles_named or_all
ordered_profiles config =
    or_all (profiles_named (index_profiles config.profile_definitions []) config.fallback_order)
      config.profile_definitions

unfoldable pub find_profile : String → List VertexProfileConfig → Option VertexProfileConfig
find_profile name [] = none
find_profile name (p ∷ ps) = if p.name == name then some p else find_profile name ps

-- `self.preferred_profile or ""`
abbrev or_empty : Option String → String
or_empty none = ""
or_empty (some text) = text

unfoldable pub select_preferred_profile :
    Option String → List VertexProfileConfig → Option VertexProfileConfig
unfolding find_profile
select_preferred_profile preferred_profile profiles =
    let preferred = strip (or_empty preferred_profile) in
    if is_some_text preferred then find_profile preferred profiles else none

-- `next(i for i, profile in enumerate(profiles) if profile.name == name)`
unfoldable pub index_of : String → List VertexProfileConfig → Option ℕ
index_of name [] = none
index_of name (p ∷ ps) =
    let rest = index_of name ps in
    if p.name == name then some 0 else elim rest [ none ↦ none | some i ↦ some (suc i) ]

-- The loop over the hints.
unfoldable pub baseline_from : VertexConfig → ℕ → ℕ → List String → Result ℕ
unfolding ordered_profiles index_of hint_baseline
baseline_from config profile_count baseline [] = ok (min baseline (profile_count - 1))
baseline_from config profile_count baseline (hint ∷ hints) =
    let baseline' = max baseline (get_or baseline hint hint_baseline) in
    let rest = baseline_from config profile_count baseline' hints in
    if member hint (map (λ (p : VertexProfileConfig). p.name) config.profile_definitions)
    then bind (required (index_of hint (ordered_profiles config)) stop_iteration)
        (λ i. ok (min i (profile_count - 1)))
    else rest

unfoldable pub baseline_index : VertexConfig → String → List String → ℕ → Result ℕ
unfolding baseline_from role_baseline
baseline_index config role hints profile_count =
    baseline_from config profile_count (get_or 0 role role_baseline) hints

unfoldable pub get_profile : ℕ → List VertexProfileConfig → Result VertexProfileConfig
get_profile i [] = err index_error
get_profile zero (p ∷ ps) = ok p
get_profile (suc i) (p ∷ ps) = get_profile i ps

-- `preferred_profile or profiles[selected_index]`
unfoldable pub choose_profile :
    Option VertexProfileConfig → ℕ → List VertexProfileConfig → Result VertexProfileConfig
unfolding get_profile
choose_profile none i profiles = get_profile i profiles
choose_profile (some p) i profiles = ok p

unfoldable pub selected_index : (index_floor failures profile_count : ℕ) → ℕ
selected_index index_floor failures profile_count = min (index_floor + failures) (profile_count - 1)

-- `",".join(hints) if hints else "none"`
abbrev hint_text : List String → String
hint_text [] = "none"
hint_text (h ∷ hints) = join "," (h ∷ hints)

abbrev forced_text : Option VertexProfileConfig → List String
forced_text none = []
forced_text (some p) = "; forced_profile=" ∷ p.name ∷ []

unfoldable pub build_route_reason :
    TaskRecord
    → List String
    → VertexProfileConfig
    → (index_floor failures : ℕ) → Option VertexProfileConfig
    → String
build_route_reason task hints selected index_floor failures preferred = join "" (
    "role="
    ∷ task.payload.assigned_role
    ∷ "; hints="
    ∷ hint_text hints
    ∷ "; baseline_index="
    ∷ decimal index_floor
    ∷ "; failure_count="
    ∷ decimal failures
    ∷ "; profile="
    ∷ selected.name
    ∷ "; model="
    ∷ selected.model
    ∷ forced_text preferred)

-- `previous_model if previous_model != selected_profile.model else None`
unfoldable pub fallback_source : Option String → String → Option String
fallback_source none model = none
fallback_source (some previous) model = if previous == model then none else some previous

-- What `select_route` settles before it writes: the floor and the profile.
unfoldable pub choice :
    VertexModelRouter
    → TaskRecord
    → TaskAttemptRecord
    → List String
    → Result (ℕ × VertexProfileConfig)
unfolding ordered_profiles baseline_index select_preferred_profile choose_profile selected_index
    failure_count
choice router task attempt hints =
    let profiles = ordered_profiles router.vertex_config in
    let preferred = select_preferred_profile router.preferred_profile profiles in
    bind (baseline_index router.vertex_config task.payload.assigned_role hints (length profiles))
      λ index_floor.
        bind
          (choose_profile preferred
            (selected_index index_floor (failure_count attempt.id router.ledger) (length profiles))
            profiles)
          λ selected. ok (index_floor, selected)

unfoldable pub route_record :
    VertexModelRouter
    → TaskRecord
    → TaskAttemptRecord
    → List String
    → ℕ
    → VertexProfileConfig
    → String
    → ℕ
    → ModelRouteRecord
unfolding build_route_reason fallback_source last_route select_preferred_profile ordered_profiles
    failure_count
route_record router task attempt hints index_floor selected new_id now = record {
  id = new_id;
  workflow_run_id = task.workflow_run_id;
  task_id = task.id;
  task_attempt_id = attempt.id;
  provider_name = router.vertex_config.provider_name;
  model_name = selected.model;
  route_reason =
      build_route_reason task hints selected index_floor (failure_count attempt.id router.ledger)
        (select_preferred_profile router.preferred_profile (ordered_profiles router.vertex_config));
  fallback_from = fallback_source (last_route attempt.id router.ledger) selected.model;
  estimated_cost_class = selected.budget_class;
  created_at = now;
}

unfoldable pub note_route : String → ModelRouteRecord → VertexModelRouter → VertexModelRouter
unfolding record_route
note_route attempt_id route router = record router {
  ledger = record_route attempt_id route.model_name router.ledger;
  audit_log = router.audit_log ++ (route ∷ []);
}

unfoldable pub select_route :
    TaskRecord
    → TaskAttemptRecord
    → List String
    → String
    → ℕ
    → Action VertexModelRouter ModelRouteRecord
unfolding choice route_record note_route
select_route task attempt hints new_id now router = elim (choice router task attempt hints) [
  | err e ↦ (err e, router)
  | ok (index_floor, selected) ↦ (
    ok (route_record router task attempt hints index_floor selected new_id now),
    note_route attempt.id (route_record router task attempt hints index_floor selected new_id now)
        router,
  )
]
