-- ===== src/Routing/Bounds.antt =====
-- autoweave/routing/policy.py: when a choice is made, which profile it can be, and how failures
-- move it.
use autoweave_library.Common.{
  ℕ, zero, suc, ◌+◌, ◌-◌, ◌<◌, ◌≡◌, ◌≢◌, ◌∙◌, subst, refl, min, max, true, none, some, List, [],
  ◌∷◌, map, String, get_or, lookup-insert, Result, ok, length, member, All, if◌then◌else◌, ◌==◌,
  ==_iff, ==_refl, string_eq, strip, is_some_text, arith, Bool-cases, inl, inr,
}
use autoweave_library.Models.{TaskRecord, TaskAttemptRecord}
use autoweave_library.Routing.Policy.{
  VertexProfileConfig, VertexConfig, VertexModelRouter, RouteFailureLedger, failure_count,
  record_failure, ordered_profiles, or_all, profiles_named, index_profiles, index_of, baseline_from,
  baseline_index, get_profile, choose_profile, selected_index, choice, select_preferred_profile,
  hint_baseline, role_baseline,
}

abbrev pub names : List VertexProfileConfig → List String
names ps = map (λ (p : VertexProfileConfig). p.name) ps

or_all-ne : (ps qs : List VertexProfileConfig) → 0 < length qs → 0 < length (or_all ps qs)
unfolding or_all
or_all-ne [] qs h = h
or_all-ne (p ∷ ps) qs h = omega arith

ordered_profiles-ne :
    (config : VertexConfig)
    → 0 < length config.profile_definitions
    → 0 < length (ordered_profiles config)
unfolding ordered_profiles
ordered_profiles-ne config h =
    or_all-ne (profiles_named (index_profiles config.profile_definitions []) config.fallback_order)
      config.profile_definitions h

-- A hint that names a configured profile finds it among the ordered ones.
abbrev pub IsListed : VertexConfig → String → Type 0
IsListed config hint =
    member hint (names config.profile_definitions) ≡ true
    → (i : ℕ) × (index_of hint (ordered_profiles config) ≡ some i)

-- A floor below the number of profiles.
abbrev Floor : ℕ → Result ℕ → Type 0
Floor n r = (i : ℕ) × ((r ≡ ok i) × (i < n))

baseline_from-Floor :
    (config : VertexConfig) (n baseline : ℕ) (hints : List String)
    → 0 < n
    → All (IsListed config) hints
    → Floor n (baseline_from config n baseline hints)
unfolding baseline_from
baseline_from-Floor config n baseline [] h listed = (min baseline (n - 1), (refl, ground arith))
baseline_from-Floor config n baseline (hint ∷ hints) h listed =
    elim (Bool-cases (member hint (names config.profile_definitions))) [
      | inl named ↦
          let (i, found) = listed.0 named in (min i (n - 1), (rw (named, found) refl, ground arith))
      | inr other ↦ rw other (
          baseline_from-Floor config n (max baseline (get_or baseline hint hint_baseline)) hints h
            listed.1)
    ]

get_profile_total :
    (i : ℕ) (ps : List VertexProfileConfig)
    → i < length ps
    → (p : VertexProfileConfig) × (get_profile i ps ≡ ok p)
unfolding get_profile
get_profile_total i [] h = absurd (omega arith)
get_profile_total zero (p ∷ ps) h = (p, refl)
get_profile_total (suc i) (p ∷ ps) h = get_profile_total i ps (omega arith)

-- `p` stands in the list.
abbrev pub IsIn : VertexProfileConfig → List VertexProfileConfig → Type 0
IsIn p ps = (i : ℕ) × (get_profile i ps ≡ ok p)

-- A choice with its floor below the number of profiles, and its profile as the code picks it.
abbrev pub IsChosen : VertexModelRouter → TaskRecord → TaskAttemptRecord → List String → Type 0
IsChosen router task attempt hints =
    let profiles = ordered_profiles router.vertex_config in
    (floor : ℕ) × (p : VertexProfileConfig) × ((choice router task attempt hints ≡ ok (floor, p))
      × (floor < length profiles)
      × IsIn p profiles
      × (choose_profile (select_preferred_profile router.preferred_profile profiles)
            (min (floor + failure_count attempt.id router.ledger) (length profiles - 1)) profiles
          ≡ ok p))

failure_count-record_failure :
    (a b : String) (ledger : RouteFailureLedger)
    → failure_count b (record_failure a ledger).1
      ≡ (if b == a then suc (failure_count a ledger) else failure_count b ledger)
unfolding failure_count record_failure
failure_count-record_failure a b ledger =
    let d = ledger.failures_by_attempt in ground (arith, lookup-insert b a (suc (get_or 0 a d)) d)

-- The router after a failure of an attempt was recorded.
abbrev pub after_failure : String → VertexModelRouter → VertexModelRouter
after_failure attempt_id router = record router {
  ledger = (record_failure attempt_id router.ledger).1;
}

-- The choice is the profile at this place of the ordered ones.
abbrev pub Chooses : VertexModelRouter → TaskRecord → TaskAttemptRecord → List String → ℕ → Type 0
Chooses router task attempt hints i =
    (floor : ℕ) × (p : VertexProfileConfig) × ((choice router task attempt hints ≡ ok (floor, p))
      × (get_profile i (ordered_profiles router.vertex_config) ≡ ok p))

unpreferred-Chooses :
    (router : VertexModelRouter) (task : TaskRecord) (attempt : TaskAttemptRecord)
    (hints : List String) (floor : ℕ)
    → router.preferred_profile ≡ none
    → 0 < length router.vertex_config.profile_definitions
    → baseline_index router.vertex_config task.payload.assigned_role hints
        (length (ordered_profiles router.vertex_config))
      ≡ ok floor
    → Chooses router task attempt hints (
        min
          (floor + failure_count attempt.id router.ledger)
          (length (ordered_profiles router.vertex_config) - 1))
unfolding choice selected_index select_preferred_profile choose_profile is_some_text strip
unpreferred-Chooses router task attempt hints floor plain h e =
    let profiles = ordered_profiles router.vertex_config in
    let n = length profiles in
    let i = min (floor + failure_count attempt.id router.ledger) (n - 1) in
    let some_profile = ordered_profiles-ne router.vertex_config h in
    let (p, found) = get_profile_total i profiles (ground (arith, some_profile)) in
    (floor, p, (rw e (rw plain (rw found refl)), found))

choice_same :
    (router : VertexModelRouter) (task : TaskRecord) (attempt : TaskAttemptRecord)
    (hints : List String) (other : String)
    → failure_count attempt.id (after_failure other router).ledger
      ≡ failure_count attempt.id router.ledger
    → choice (after_failure other router) task attempt hints ≡ choice router task attempt hints
unfolding choice
choice_same router task attempt hints other same = rw (choice, same) refl

-- Where no profile is preferred, at least one is configured, and each hint that names a configured
-- profile names one of the ordered profiles, the choice of a route is the ordered profile at some
-- place; after a failure of the attempt it is the one at the next place, or the last one, and after
-- a failure of another attempt it is the same.
pub choice-record_failure :
    (router : VertexModelRouter) (task : TaskRecord) (attempt : TaskAttemptRecord)
    (hints : List String) (other : String)
    → router.preferred_profile ≡ none
    → 0 < length router.vertex_config.profile_definitions
    → All (IsListed router.vertex_config) hints
    → other ≢ attempt.id
    → (i : ℕ) × (Chooses router task attempt hints i
        × Chooses
            (after_failure attempt.id router)
            task
            attempt
            hints
            (min (suc i) (length (ordered_profiles router.vertex_config) - 1))
        × (choice (after_failure other router) task attempt hints
            ≡ choice router task attempt hints))
unfolding baseline_index
choice-record_failure router task attempt hints other plain h listed differs =
    let profiles = ordered_profiles router.vertex_config in
    let n = length profiles in
    let (floor, (e, low)) =
      baseline_from-Floor router.vertex_config n (get_or 0 task.payload.assigned_role role_baseline)
        hints (ordered_profiles-ne router.vertex_config h) listed in
    let failures = failure_count attempt.id router.ledger in
    let failed = after_failure attempt.id router in
    let count : failure_count attempt.id failed.ledger ≡ suc failures =
      failure_count-record_failure attempt.id attempt.id router.ledger
      ∙ ground (arith, ==_refl attempt.id) in
    let same : failure_count attempt.id (after_failure other router).ledger ≡ failures =
      failure_count-record_failure other attempt.id router.ledger
      ∙ ground (arith, ==_iff attempt.id other) in
    let place : min (floor + failure_count attempt.id failed.ledger) (n - 1)
        ≡ min (suc (min (floor + failures) (n - 1))) (n - 1) =
      ground (arith, count) in
    (
      min (floor + failures) (n - 1),
      (
        unpreferred-Chooses router task attempt hints floor plain h e,
        subst (Chooses failed task attempt hints) place
            (unpreferred-Chooses failed task attempt hints floor plain h e),
        choice_same router task attempt hints other same,
      ),
    )
