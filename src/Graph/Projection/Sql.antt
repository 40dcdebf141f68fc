-- ===== src/Graph/Projection/Sql.antt =====
-- autoweave/graph/projection.py: `SQLiteGraphProjectionBackend`, over a database that is an
-- argument: tables whose rows have a text as their primary key.
use autoweave_library.Common.{
  ℕ, zero, suc, ◌≡◌, Bool, ◌||◌, ◌==◌, Option, none, some, List, [], ◌∷◌, values, String, Dict,
  lookup, insert, keep, max, Result, ok, bind, string_eq,
}
use autoweave_library.Events.Redaction.{JsonFields, Json}
use autoweave_library.Events.Store.{EventRecord}
use autoweave_library.Graph.Projection.{
  ProjectedRelation, text_field, label_of, text_properties, relation_of,
}

-- At most so many rows, the first ones.
abbrev pub limited : {V : Type 0} → ℕ → List V → List V
limited zero vs = []
limited (suc n) [] = []
limited (suc n) (v ∷ vs) = v ∷ limited n vs

-- What SQLite does with a table: `upsert` is INSERT ... ON CONFLICT DO UPDATE on the primary key,
-- which leaves an updated row at its place, `rows` reads it in the order of its row ids, and
-- `select` is SELECT ... WHERE ... ORDER BY rowid LIMIT.
pub record Database (Table : Type 0 → Type 0) : Type 1 where
  pub created : {V : Type 0} → Table V
  pub upsert : {V : Type 0} → String → V → Table V → Table V
  pub rows : {V : Type 0} → Table V → Dict String V
  pub select : {V : Type 0} → (V → Bool) → ℕ → Table V → List V
  pub rows-created : {V : Type 0} → rows (created {V = V}) ≡ []
  pub rows-upsert :
      {V : Type 0} (key : String) (row : V) (t : Table V)
      → rows (upsert key row t) ≡ insert key row (rows t)
  pub select-rows :
      {V : Type 0} (test : V → Bool) (count : ℕ) (t : Table V)
      → select test count t ≡ limited count (keep test (values (rows t)))

-- The texts that the columns keep, by pydantic and the json module: of an event, of the sorted set
-- of labels, and of the properties; `str_of` is `str` on a value.
pub record Codec : Type 0 where
  pub str_of : Json → String
  pub model_dump_json : EventRecord → String
  pub model_validate_json : String → Result EventRecord
  pub dumps_labels : List String → String
  pub loads_labels : String → List String
  pub dumps_properties : Dict String String → String
  pub loads_properties : String → Dict String String

pub record NodeRow : Type 0 where
  pub labels_json : String
  pub properties_json : String

pub record EventRow : Type 0 where
  pub workflow_run_id : String
  pub data_json : String

module _ (Table : Type 0 → Type 0) (db : Database Table) (codec : Codec) where
  pub record GraphTables : Type 0 where
    pub events : Table EventRow
    pub nodes : Table NodeRow
    pub relations : Table ProjectedRelation

  abbrev pub event_row : EventRecord → EventRow
  event_row event = record {
    workflow_run_id = event.workflow_run_id;
    data_json = codec.model_dump_json event;
  }

  -- A node's row after an event on it.
  unfoldable pub node_row : JsonFields → Option NodeRow → NodeRow
  unfolding label_of text_properties
  node_row payload none = record {
    labels_json = codec.dumps_labels (codec.str_of (label_of payload) ∷ []);
    properties_json = codec.dumps_properties (text_properties payload []);
  }
  node_row payload (some found) = record {
    labels_json =
        codec.dumps_labels (codec.str_of (label_of payload) ∷ codec.loads_labels found.labels_json);
    properties_json =
        codec.dumps_properties
          (text_properties payload (codec.loads_properties found.properties_json));
  }

  abbrev pub upsert_relation :
      Option ProjectedRelation → Table ProjectedRelation → Table ProjectedRelation
  upsert_relation none t = t
  upsert_relation (some r) t = db.upsert r.event_id r t

  unfoldable pub project_rows : EventRecord → GraphTables → GraphTables
  unfolding node_row text_field relation_of
  project_rows event s =
      let payload = event.payload_json in
      let events = db.upsert event.id (event_row event) s.events in
      elim (text_field "entity_id" payload) [
        | none ↦ record s { events = events }
        | some entity_id ↦ record {
          events = events;
          nodes =
              db.upsert entity_id (node_row payload (lookup entity_id (db.rows s.nodes))) s.nodes;
          relations = upsert_relation (relation_of entity_id event) s.relations;
        }
      ]

  unfoldable pub query_related_rows :
      (entity_id : String) → (depth : ℕ) → GraphTables → List ProjectedRelation
  query_related_rows entity_id depth s =
      db.select (λ (r : ProjectedRelation). r.source_id == entity_id || r.target_id == entity_id)
        (max depth 1) s.relations

  unfoldable pub validated : List EventRow → Result (List EventRecord)
  validated [] = ok []
  validated (row ∷ later) =
      bind (codec.model_validate_json row.data_json)
        λ event. bind (validated later) λ events. ok (event ∷ events)

  unfoldable pub list_event_rows : GraphTables → Result (List EventRecord)
  unfolding validated
  list_event_rows s = validated (values (db.rows s.events))

  unfoldable pub clear_namespace : GraphTables → GraphTables
  clear_namespace s = record { events = db.created; nodes = db.created; relations = db.created }
