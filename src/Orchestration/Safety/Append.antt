-- ===== src/Orchestration/Safety/Append.antt =====
-- `add_dynamic_tasks` and `from_graph` leave indices that agree with the graph.
use mathlib.Core.Path.{subst}
use autoweave_library.Common.{
  ◌≡◌, refl, sym, ◌∙◌, false, Option, none, some, List, [], ◌∷◌, ◌++◌, String, lookup, arith, All,
  All-append, All-map, All-zip, member, ◌==◌, ==_iff, ==_refl, string_eq, Option-cases, Bool-cases,
  inl, inr, ap, append-nil,
}
use autoweave_library.Models.{TaskRecord, TaskEdgeRecord}
use autoweave_library.Orchestration.Graph.Counts.{task_ids}
use autoweave_library.Orchestration.State.{WorkflowRunState, index_ids, index_keys}
use autoweave_library.Orchestration.State.Valid.{IsValid, HasId, HasKey, KeyFits}
use autoweave_library.Orchestration.State.Dependencies.{parents, IsDone, AllDone}
use autoweave_library.Orchestration.Tasks.{append_tasks}
use autoweave_library.Orchestration.Safety.{IsSafe}
use autoweave_library.Orchestration.Safety.Dynamic.{
  task_keys, IsDistinct, by_id, by_key, or_else, lookup-index_ids, lookup-index_keys, by_id-HasId,
  by_key-LeadsTo, by_id-by_key,
}
use autoweave_library.Orchestration.Steps.{IsStarted}

ids_apart :
    (k : String) (ts : List TaskRecord)
    → member k (task_ids ts) ≡ false
    → All (λ (t : TaskRecord). (t.id == k) ≡ false) ts
ids_apart k [] h = tt
ids_apart k (t ∷ ts) h =
    (ground (arith, ==_iff k t.id, ==_iff t.id k), ids_apart k ts (ground arith))

by_id_self :
    (ts : List TaskRecord)
    → IsDistinct (task_ids ts)
    → All (λ (t : TaskRecord). by_id t.id ts ≡ some t) ts
by_id_self [] h = tt
by_id_self (t ∷ ts) h = (
  rw (==_refl t.id),
  All-zip (λ x. (x.id == t.id) ≡ false) (λ x. by_id x.id ts ≡ some x)
      (λ x. by_id x.id (t ∷ ts) ≡ some x) ts (λ x apart e. ground arith) (ids_apart t.id ts h.0)
      (by_id_self ts h.1),
)

-- A batch whose ids and keys are distinct, with ids and keys that are not stored yet.
pub record IsFresh (ts : List TaskRecord) (s : WorkflowRunState) : Type 0 where
  pub distinct_ids : IsDistinct (task_ids ts)
  pub distinct_keys : IsDistinct (task_keys ts)
  pub unknown_ids : All (λ (t : TaskRecord). lookup t.id s.tasks_by_id ≡ none) ts
  pub unknown_keys : All (λ (t : TaskRecord). lookup t.task_key s.tasks_by_key ≡ none) ts

-- No hard edge of the batch leads into a task that is stored already.
abbrev pub LeadsToNew : List TaskEdgeRecord → WorkflowRunState → Type 0
LeadsToNew es s =
    (k : String) (x : TaskRecord) → lookup k s.tasks_by_id ≡ some x → parents k es ≡ []

parents-append :
    (k : String) (es es' : List TaskEdgeRecord)
    → parents k (es ++ es') ≡ parents k es ++ parents k es'
parents-append k [] es' = refl
parents-append k (e ∷ es) es' = ground (arith, parents-append k es es')

abbrev pub NoneStarted : List TaskRecord → Type 0
NoneStarted ts = All (λ (t : TaskRecord). ¬ IsStarted t.state) ts

abbrev NotStartedAt : Option TaskRecord → Type 0
NotStartedAt none = Unit
NotStartedAt (some t) = ¬ IsStarted t.state

by_id-NoneStarted :
    (k : String) (ts : List TaskRecord) (t : TaskRecord)
    → NoneStarted ts
    → by_id k ts ≡ some t
    → ¬ IsStarted t.state
by_id-NoneStarted k [] t h e = λ started. cc
by_id-NoneStarted k (u ∷ us) t h e = elim (Bool-cases (k == u.id)) [
  | inl same ↦
      let e' : some u ≡ some t = ground arith in
      subst (λ (o : Option TaskRecord). NotStartedAt o) e' h.0
  | inr other ↦ by_id-NoneStarted k us t h.1 (ground arith)
]

module _ (ts : List TaskRecord) (s : WorkflowRunState) (fresh : IsFresh ts s) where
  by_id_stored :
      (k : String) (x : TaskRecord) (us : List TaskRecord)
      → All (λ (t : TaskRecord). lookup t.id s.tasks_by_id ≡ none) us
      → lookup k s.tasks_by_id ≡ some x
      → by_id k us ≡ none
  by_id_stored k x [] h e = refl
  by_id_stored k x (t ∷ us) h e = ground (arith, by_id_stored k x us h.1 e, ==_iff k t.id)

  -- What was stored stays where it is.
  pub index_ids_keeps :
      (k : String) (x : TaskRecord)
      → lookup k s.tasks_by_id ≡ some x
      → lookup k (index_ids ts s.tasks_by_id) ≡ some x
  index_ids_keeps k x e = ground (
    arith,
    lookup-index_ids k ts s.tasks_by_id fresh.distinct_ids,
    by_id_stored k x ts fresh.unknown_ids e,
  )

  index_ids-HasId :
      (k : String)
      → HasId k (lookup k s.tasks_by_id)
      → HasId k (lookup k (index_ids ts s.tasks_by_id))
  index_ids-HasId k h =
      rw (lookup-index_ids k ts s.tasks_by_id fresh.distinct_ids)
        (either (by_id k ts) (by_id-HasId k ts))
    where
      either : (o : Option TaskRecord) → HasId k o → HasId k (or_else o (lookup k s.tasks_by_id))
      either none g = h
      either (some t) g = g

  index_keys-KeyFits :
      (k : String)
      → KeyFits s.tasks_by_id k (lookup k s.tasks_by_key)
      → KeyFits (index_ids ts s.tasks_by_id) k (lookup k (index_keys ts s.tasks_by_key))
  index_keys-KeyFits k h = elim (Option-cases (by_key k ts)) [
    | inr (i, known) ↦ ground (
      arith,
      known,
      lookup-index_keys k ts s.tasks_by_key fresh.distinct_keys,
      lookup-index_ids i ts s.tasks_by_id fresh.distinct_ids,
      by_key-LeadsTo k ts fresh.distinct_ids,
    )
    | inl new ↦
        rw (lookup-index_keys k ts s.tasks_by_key fresh.distinct_keys, new)
          (old_key (lookup k s.tasks_by_key) h)
  ]
    where
      old_task :
          (i : String) (o : Option TaskRecord)
          → lookup i s.tasks_by_id ≡ o
          → HasKey k o
          → HasKey k (lookup i (index_ids ts s.tasks_by_id))
      old_task i none e g = absurd g
      old_task i (some x) e g = rw (index_ids_keeps i x e) g

      old_key :
          (o : Option String) → KeyFits s.tasks_by_id k o → KeyFits (index_ids ts s.tasks_by_id) k o
      old_key none g = tt
      old_key (some i) g = old_task i (lookup i s.tasks_by_id) refl g

  by_key_stored :
      (k i : String) (us : List TaskRecord)
      → All (λ (t : TaskRecord). lookup t.task_key s.tasks_by_key ≡ none) us
      → lookup k s.tasks_by_key ≡ some i
      → by_key k us ≡ none
  by_key_stored k i [] h e = refl
  by_key_stored k i (t ∷ us) h e = ground (arith, by_key_stored k i us h.1 e, ==_iff k t.task_key)

  index_keys-keyed :
      (v : IsValid s) (i : String) (t : TaskRecord)
      → lookup i (index_ids ts s.tasks_by_id) ≡ some t
      → lookup t.task_key (index_keys ts s.tasks_by_key) ≡ some i
  index_keys-keyed v i t h =
      let at_i = sym (lookup-index_ids i ts s.tasks_by_id fresh.distinct_ids) ∙ h in
      let at_key = lookup-index_keys t.task_key ts s.tasks_by_key fresh.distinct_keys in
      elim (Option-cases (by_id i ts)) [
        | inr (u, new) ↦
            let e : by_id i ts ≡ some t = new ∙ (rw new at at_i) in
            at_key ∙ rw (by_id-by_key i t ts fresh.distinct_keys e) refl
        | inl old ↦
            let kept = v.keyed i t (rw old at at_i) in
            at_key ∙ rw (by_key_stored t.task_key i ts fresh.unknown_keys kept) kept
      ]

  pub append_tasks-IsValid : (es : List TaskEdgeRecord) → IsValid s → IsValid (append_tasks ts es s)
  unfolding append_tasks
  append_tasks-IsValid es v = record {
    ids_match = λ k. index_ids-HasId k (v.ids_match k);
    keys_match = λ k. index_keys-KeyFits k (v.keys_match k);
    keyed = index_keys-keyed v;
    mirrors =
        All-append (λ (t : TaskRecord). lookup t.id (index_ids ts s.tasks_by_id) ≡ some t)
          s.graph.tasks ts
          (All-map (λ (t : TaskRecord). lookup t.id s.tasks_by_id ≡ some t) _ s.graph.tasks
            (λ t. index_ids_keeps t.id t) v.mirrors)
          (All-map (λ (t : TaskRecord). by_id t.id ts ≡ some t) _ ts
            (λ t e. ground (arith, lookup-index_ids t.id ts s.tasks_by_id fresh.distinct_ids))
            (by_id_self ts fresh.distinct_ids));
  }

  IsDone-index_ids :
      (k : String)
      → IsDone (lookup k s.tasks_by_id)
      → IsDone (lookup k (index_ids ts s.tasks_by_id))
  IsDone-index_ids k h = elim (Option-cases (lookup k s.tasks_by_id)) [
    | inl missing ↦ absurd (rw missing at h)
    | inr (x, e) ↦ rw (index_ids_keeps k x e) (rw e at h)
  ]

  -- A batch of tasks that have not started, with edges into the batch only, keeps the run safe.
  pub append_tasks-IsSafe :
      (es : List TaskEdgeRecord)
      → NoneStarted ts
      → LeadsToNew es s
      → IsSafe s
      → IsSafe (append_tasks ts es s)
  unfolding append_tasks
  append_tasks-IsSafe es idle forward safe k x known started = elim (Option-cases (by_id k ts)) [
    | inr (t, e) ↦
        let e' : by_id k ts ≡ some x =
          ground (arith, lookup-index_ids k ts s.tasks_by_id fresh.distinct_ids) in
        absurd (by_id-NoneStarted k ts x idle e' started)
    | inl e ↦
        let old : lookup k s.tasks_by_id ≡ some x =
          ground (arith, lookup-index_ids k ts s.tasks_by_id fresh.distinct_ids) in
        let same : parents k (s.graph.edges ++ es) ≡ parents k s.graph.edges =
          parents-append k s.graph.edges es
          ∙ ap (λ r. parents k s.graph.edges ++ r) (forward k x old)
          ∙ append-nil (parents k s.graph.edges) in
        subst (AllDone (index_ids ts s.tasks_by_id)) (sym same) (
          All-map (λ p. IsDone (lookup p s.tasks_by_id)) _ (parents k s.graph.edges)
            IsDone-index_ids (safe k x old started))
  ]
