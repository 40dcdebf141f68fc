-- ===== src/Graph/Projection/Stated.antt =====
-- autoweave/graph/projection.py: what `project_event` in memory adds for an event.
use autoweave_library.Common.{
  ◌≡◌, refl, sym, subst, true, false, Option, none, some, List, [], ◌∷◌, ◌++◌, String, Dict, lookup,
  insert, values, All, Option-cases, inl, inr, ◌==◌, string_eq, arith,
}
use autoweave_library.Events.Store.{EventRecord}
use autoweave_library.Graph.Projection.{
  ProjectedRelation, GraphProjection, text_field, label_of, is_hashable, relation_of, add_relation,
  project_entity, project_event,
}

pub values-insert :
    {V : Type 0} (k : String) (v : V) (d : Dict String V)
    → lookup k d ≡ none
    → values (insert k v d) ≡ values d ++ (v ∷ [])
values-insert k v [] h = refl
values-insert k v ((j, w) ∷ d) h = ground (arith, values-insert k v d)

-- No two events have the same id.
abbrev pub NoRepeat : List EventRecord → Type 0
NoRepeat [] = Unit {0}
NoRepeat (e ∷ es) = All (λ (f : EventRecord). (f.id == e.id) ≡ false) es × NoRepeat es

-- The type of the entity is no list and no dict, so that projecting the event does not raise.
abbrev pub IsProjectable : EventRecord → Type 0
IsProjectable e = is_hashable (label_of e.payload_json) ≡ true

abbrev pub project_all : List EventRecord → GraphProjection → GraphProjection
project_all [] s = s
project_all (e ∷ es) s = project_all es (project_event e s).1

abbrev pub no_events : GraphProjection
no_events = record { events = []; nodes = []; relations = [] }

pub project_entity-events :
    (entity_id : String) (e : EventRecord) (s : GraphProjection)
    → (project_entity entity_id e s).1.events ≡ s.events
unfolding project_entity
project_entity-events entity_id e s = ground arith

pub project_entity-relations :
    (entity_id : String) (e : EventRecord) (s : GraphProjection)
    → IsProjectable e
    → (project_entity entity_id e s).1.relations
      ≡ add_relation (relation_of entity_id e) s.relations
unfolding project_entity
project_entity-relations entity_id e s h = rw h refl

-- A relation stands under the id of its event.
abbrev pub IsOf : EventRecord → Option ProjectedRelation → Type 0
IsOf e none = Unit {0}
IsOf e (some r) = r.event_id ≡ e.id

pub relation_of-IsOf : (entity_id : String) (e : EventRecord) → IsOf e (relation_of entity_id e)
unfolding relation_of
relation_of-IsOf entity_id e =
    split (text_field "relation" e.payload_json) (text_field "target_id" e.payload_json)
  where
    split :
        (a b : Option String)
        → IsOf e (elim a [
          | none ↦ none
          | some relation ↦ elim b [
            | none ↦ none
            | some target_id ↦ some (record {
              source_id = entity_id;
              relation = relation;
              target_id = target_id;
              event_id = e.id;
            })
          ]
        ])
    split none b = tt
    split (some a) none = tt
    split (some a) (some b) = refl

-- The relation that an event states.
abbrev pub stated : EventRecord → Option ProjectedRelation
stated e = elim (text_field "entity_id" e.payload_json) [ none ↦ none | some i ↦ relation_of i e ]

pub stated-IsOf : (e : EventRecord) → IsOf e (stated e)
stated-IsOf e = elim (Option-cases (text_field "entity_id" e.payload_json)) [
  | inl absent ↦
      subst (λ o. IsOf e (elim o [ none ↦ none | some i ↦ relation_of i e ])) (sym absent) tt
  | inr (i, found) ↦
      subst (λ o. IsOf e (elim o [ none ↦ none | some i ↦ relation_of i e ])) (sym found)
        (relation_of-IsOf i e)
]

pub project_event-events :
    (e : EventRecord) (s : GraphProjection) → (project_event e s).1.events ≡ s.events ++ (e ∷ [])
unfolding project_event
project_event-events e s = elim (Option-cases (text_field "entity_id" e.payload_json)) [
  | inl absent ↦ rw (project_event, absent) refl
  | inr (i, found) ↦
      rw (project_event, found)
        (project_entity-events i e (record s { events = s.events ++ (e ∷ []) }))
]

pub project_event-relations :
    (e : EventRecord) (s : GraphProjection)
    → IsProjectable e
    → (project_event e s).1.relations ≡ add_relation (stated e) s.relations
unfolding project_event
project_event-relations e s plain = elim (Option-cases (text_field "entity_id" e.payload_json)) [
  | inl absent ↦ rw (project_event, stated, absent) refl
  | inr (i, found) ↦
      rw (project_event, stated, found)
        (project_entity-relations i e (record s { events = s.events ++ (e ∷ []) }) plain)
]
