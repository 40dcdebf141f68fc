-- ===== src/Graph/Projection.antt =====
-- autoweave/graph/projection.py: `InMemoryGraphProjectionBackend`. A set of labels is the list of
-- what was added to it.
pub mod Sql
pub mod Stated
pub mod Agreement
use autoweave_library.Common.{
  ℕ, zero, suc, ◌≤◌, Bool, true, false, ◌||◌, Option, none, some, List, [], ◌∷◌, ◌++◌, String, Dict,
  lookup, insert, get_or, Result, ok, err, type_error, Action, keep, max, if◌then◌else◌, ◌==◌,
  string_eq,
}
use autoweave_library.Events.Redaction.{JsonFields, Json, JsonItems, Scalar}
use autoweave_library.Events.Store.{EventRecord}

pub record ProjectedRelation : Type 0 where
  pub source_id : String
  pub relation : String
  pub target_id : String
  pub event_id : String

pub record ProjectedNode : Type 0 where
  pub node_id : String
  pub labels : List Json
  pub properties : Dict String String

pub record GraphProjection : Type 0 where
  pub events : List EventRecord
  pub nodes : Dict String ProjectedNode
  pub relations : List ProjectedRelation

-- `payload.get(key, default)`
unfoldable pub json_get : Json → String → JsonFields → Json
json_get default key JsonFields.end = default
json_get default key (JsonFields.field k v fields) =
    if key == k then v else json_get default key fields

-- `value` where `isinstance(value, str)`.
unfoldable pub text_of : Json → Option String
text_of (Json.leaf (Scalar.text t)) = some t
text_of (Json.leaf Scalar.null) = none
text_of (Json.leaf (Scalar.boolean b)) = none
text_of (Json.leaf (Scalar.number n)) = none
text_of (Json.leaf (Scalar.float t)) = none
text_of (Json.array items) = none
text_of (Json.object fields) = none

unfoldable pub text_field : String → JsonFields → Option String
unfolding json_get text_of
text_field key fields = text_of (json_get (Json.leaf Scalar.null) key fields)

-- A list or a dict is not hashable.
unfoldable pub is_hashable : Json → Bool
is_hashable (Json.leaf s) = true
is_hashable (Json.array items) = false
is_hashable (Json.object fields) = false

unfoldable pub label_of : JsonFields → Json
unfolding json_get
label_of payload = json_get (Json.leaf (Scalar.text "Entity")) "entity_type" payload

-- `for key, value in payload.items(): if isinstance(value, str): properties[key] = value`
unfoldable pub text_properties : JsonFields → Dict String String → Dict String String
unfolding text_of
text_properties JsonFields.end d = d
text_properties (JsonFields.field k v fields) d =
    text_properties fields (elim (text_of v) [ none ↦ d | some t ↦ insert k t d ])

-- The relation that an event states of an entity.
unfoldable pub relation_of : (entity_id : String) → EventRecord → Option ProjectedRelation
unfolding text_field
relation_of entity_id event = elim (text_field "relation" event.payload_json) [
  | none ↦ none
  | some relation ↦ elim (text_field "target_id" event.payload_json) [
    | none ↦ none
    | some target_id ↦ some (record {
      source_id = entity_id;
      relation = relation;
      target_id = target_id;
      event_id = event.id;
    })
  ]
]

abbrev pub add_relation : Option ProjectedRelation → List ProjectedRelation → List ProjectedRelation
add_relation none rs = rs
add_relation (some r) rs = rs ++ (r ∷ [])

-- The part of `project_event` after the check of `entity_id`.
unfoldable pub project_entity :
    (entity_id : String) → EventRecord → Action GraphProjection (Unit {0})
unfolding is_hashable label_of text_properties relation_of
project_entity entity_id event s =
    let payload = event.payload_json in
    let node =
      get_or (record { node_id = entity_id; labels = []; properties = [] }) entity_id s.nodes in
    let node' = record node {
      labels = node.labels ++ (label_of payload ∷ []);
      properties = text_properties payload node.properties;
    } in
    if is_hashable (label_of payload)
    then (
      ok tt,
      record s {
        nodes = insert entity_id node' s.nodes;
        relations = add_relation (relation_of entity_id event) s.relations;
      },
    )
    else (err type_error, record s { nodes = insert entity_id node s.nodes })

unfoldable pub project_event : EventRecord → Action GraphProjection (Unit {0})
unfolding text_field project_entity
project_event event s =
    let s' = record s { events = s.events ++ (event ∷ []) } in
    elim (text_field "entity_id" event.payload_json) [
      | none ↦ (ok tt, s')
      | some entity_id ↦ project_entity entity_id event s'
    ]

unfoldable pub touches : String → ProjectedRelation → Bool
touches entity_id r = r.source_id == entity_id || r.target_id == entity_id

-- `relations[:count]`
unfoldable pub first_relations : ℕ → List ProjectedRelation → List ProjectedRelation
first_relations zero rs = []
first_relations (suc n) [] = []
first_relations (suc n) (r ∷ rs) = r ∷ first_relations n rs

-- A negative `depth` counts as 0.
unfoldable pub query_related_entities :
    (entity_id : String) → (depth : ℕ) → GraphProjection → List ProjectedRelation
unfolding touches first_relations
query_related_entities entity_id depth s =
    first_relations (max depth 1) (keep (touches entity_id) s.relations)

unfoldable pub list_projected_events : GraphProjection → List EventRecord
list_projected_events s = s.events
