-- ===== src/Graph/Projection/Agreement.antt =====
-- autoweave/graph/projection.py: the two projections answer alike.
use autoweave_library.Common.{
  ℕ, zero, suc, ◌≡◌, map, ok, refl, sym, ◌∙◌, ap, subst, false, Option, none, some, List, [], ◌∷◌,
  ◌++◌, String, lookup, values, lookup-insert, All, All-append, All-zip, Option-cases, inl, inr,
  keep, max, ◌==◌, string_eq,
}
use autoweave_library.Events.Store.{EventRecord}
use autoweave_library.Graph.Projection.{
  ProjectedRelation, GraphProjection, text_field, add_relation, project_event,
  query_related_entities, list_projected_events, first_relations, touches,
}
use autoweave_library.Graph.Projection.Sql.{
  Database, Codec, GraphTables, event_row, validated, limited, upsert_relation, project_rows,
  query_related_rows, list_event_rows,
}
use autoweave_library.Graph.Projection.Stated.{
  values-insert, NoRepeat, IsProjectable, project_all, no_events, IsOf, stated, stated-IsOf,
  project_event-events, project_event-relations,
}

map-snoc :
    {A B : Type 0} (f : A → B) (xs : List A) (x : A)
    → map f (xs ++ (x ∷ [])) ≡ map f xs ++ (f x ∷ [])
map-snoc f [] x = refl
map-snoc f (y ∷ xs) x = ap (λ zs. f y ∷ zs) (map-snoc f xs x)

limited-first_relations :
    (n : ℕ) (rs : List ProjectedRelation) → limited n rs ≡ first_relations n rs
unfolding first_relations
limited-first_relations zero rs = refl
limited-first_relations (suc n) [] = refl
limited-first_relations (suc n) (r ∷ rs) = ap (λ qs. r ∷ qs) (limited-first_relations n rs)

module _ (Table : Type 0 → Type 0) (db : Database Table) (codec : Codec) where
  abbrev Tables : Type 0
  Tables = GraphTables Table db codec

  abbrev pub project_all_rows : List EventRecord → Tables → Tables
  project_all_rows [] t = t
  project_all_rows (e ∷ es) t = project_all_rows es (project_rows Table db codec e t)

  record Agrees (s : GraphProjection) (t : Tables) : Type 0 where
    pub same_events : values (db.rows t.events) ≡ map (event_row Table db codec) s.events
    pub same_relations : values (db.rows t.relations) ≡ s.relations

  -- No row stands under the id of the event.
  abbrev IsFresh : Tables → EventRecord → Type 0
  IsFresh t e = (lookup e.id (db.rows t.events) ≡ none) × (lookup e.id (db.rows t.relations) ≡ none)

  upserted :
      {V : Type 0} (k : String) (v : V) (t : Table V) (vs : List V)
      → lookup k (db.rows t) ≡ none
      → values (db.rows t) ≡ vs
      → values (db.rows (db.upsert k v t)) ≡ vs ++ (v ∷ [])
  upserted k v t vs fresh same =
      ap values (db.rows-upsert k v t)
      ∙ values-insert k v (db.rows t) fresh
      ∙ ap (λ ws. ws ++ (v ∷ [])) same

  upsert_relation-values :
      (e : EventRecord) (o : Option ProjectedRelation) (t : Table ProjectedRelation)
      (rs : List ProjectedRelation)
      → IsOf e o
      → lookup e.id (db.rows t) ≡ none
      → values (db.rows t) ≡ rs
      → values (db.rows (upsert_relation Table db codec o t)) ≡ add_relation o rs
  upsert_relation-values e none t rs own fresh same = same
  upsert_relation-values e (some r) t rs own fresh same =
      upserted r.event_id r t rs (subst (λ k. lookup k (db.rows t) ≡ none) (sym own) fresh) same

  project_rows-events :
      (e : EventRecord) (t : Tables)
      → (project_rows Table db codec e t).events
        ≡ db.upsert e.id (event_row Table db codec e) t.events
  unfolding project_rows
  project_rows-events e t = elim (Option-cases (text_field "entity_id" e.payload_json)) [
    | inl absent ↦ rw (project_rows, absent) refl
    | inr (i, found) ↦ rw (project_rows, found) refl
  ]

  project_rows-relations :
      (e : EventRecord) (t : Tables)
      → (project_rows Table db codec e t).relations
        ≡ upsert_relation Table db codec (stated e) t.relations
  unfolding project_rows
  project_rows-relations e t = elim (Option-cases (text_field "entity_id" e.payload_json)) [
    | inl absent ↦ rw (project_rows, stated, absent) refl
    | inr (i, found) ↦ rw (project_rows, stated, found) refl
  ]

  project_event-Agrees :
      (e : EventRecord) (s : GraphProjection) (t : Tables)
      → IsProjectable e
      → IsFresh t e
      → Agrees s t
      → Agrees (project_event e s).1 (project_rows Table db codec e t)
  project_event-Agrees e s t plain fresh a = record {
    same_events =
        ap (λ es. values (db.rows es)) (project_rows-events e t)
        ∙ upserted e.id (event_row Table db codec e) t.events
            (map (event_row Table db codec) s.events) fresh.0 a.same_events
        ∙ sym (
            ap (map (event_row Table db codec)) (project_event-events e s)
            ∙ map-snoc (event_row Table db codec) s.events e);
    same_relations =
        ap (λ rs. values (db.rows rs)) (project_rows-relations e t)
        ∙ upsert_relation-values e (stated e) t.relations s.relations (stated-IsOf e) fresh.1
            a.same_relations
        ∙ sym (project_event-relations e s plain);
  }

  upsert_relation-none :
      (k : String) (e : EventRecord) (o : Option ProjectedRelation) (t : Table ProjectedRelation)
      → IsOf e o
      → (k == e.id) ≡ false
      → lookup k (db.rows t) ≡ none
      → lookup k (db.rows (upsert_relation Table db codec o t)) ≡ none
  upsert_relation-none k e none t own differs fresh = fresh
  upsert_relation-none k e (some r) t own differs fresh =
      let differs' = subst (λ j. (k == j) ≡ false) (sym own) differs in
      ap (lookup k) (db.rows-upsert r.event_id r t)
      ∙ lookup-insert k r.event_id r (db.rows t)
      ∙ rw differs' fresh

  project_rows-IsFresh :
      (e f : EventRecord) (t : Tables)
      → (f.id == e.id) ≡ false
      → IsFresh t f
      → IsFresh (project_rows Table db codec e t) f
  project_rows-IsFresh e f t differs fresh = (
    ap (λ es. lookup f.id (db.rows es)) (project_rows-events e t)
        ∙ ap (lookup f.id) (db.rows-upsert e.id (event_row Table db codec e) t.events)
        ∙ lookup-insert f.id e.id (event_row Table db codec e) (db.rows t.events)
        ∙ rw differs fresh.0,
    ap (λ rs. lookup f.id (db.rows rs)) (project_rows-relations e t)
        ∙ upsert_relation-none f.id e (stated e) t.relations (stated-IsOf e) differs fresh.1,
  )

  project_all-Agrees :
      (es : List EventRecord) (s : GraphProjection) (t : Tables)
      → NoRepeat es
      → All IsProjectable es
      → All (IsFresh t) es
      → Agrees s t
      → Agrees (project_all es s) (project_all_rows es t)
  project_all-Agrees [] s t once plain fresh a = a
  project_all-Agrees (e ∷ es) s t once plain fresh a =
      let t' = project_rows Table db codec e t in
      project_all-Agrees es (project_event e s).1 t' once.1 plain.1
        (All-zip (λ (f : EventRecord). (f.id == e.id) ≡ false) (IsFresh t) (IsFresh t') es
          (λ f differs new. project_rows-IsFresh e f t differs new) once.0 fresh.1)
        (project_event-Agrees e s t plain.0 fresh.0 a)

  -- The text of the event is read back as the event.
  abbrev pub IsReadBack : EventRecord → Type 0
  IsReadBack e = codec.model_validate_json (codec.model_dump_json e) ≡ ok e

  validated-rows :
      (es : List EventRecord)
      → All IsReadBack es
      → validated Table db codec (map (event_row Table db codec) es) ≡ ok es
  unfolding validated
  validated-rows [] h = refl
  validated-rows (e ∷ es) h = rw (h.0, validated-rows es h.1) refl

  project_all-IsReadBack :
      (es : List EventRecord) (s : GraphProjection)
      → All IsReadBack s.events
      → All IsReadBack es
      → All IsReadBack (project_all es s).events
  project_all-IsReadBack [] s there h = there
  project_all-IsReadBack (e ∷ es) s there h =
      project_all-IsReadBack es (project_event e s).1
        (subst (All IsReadBack) (sym (project_event-events e s))
          (All-append IsReadBack s.events (e ∷ []) there (h.0, tt)))
        h.1

  abbrev pub created_tables : Tables
  created_tables = record { events = db.created; nodes = db.created; relations = db.created }

  created-IsFresh : (es : List EventRecord) → All (IsFresh created_tables) es
  created-IsFresh [] = tt
  created-IsFresh (e ∷ es) =
      ((ap (lookup e.id) db.rows-created, ap (lookup e.id) db.rows-created), created-IsFresh es)

  -- Of events with different ids, none with a list or a dict as the type of its entity, and each
  -- read back from its JSON text as it was, the projection in memory and the one in tables, both
  -- empty before, list the same events and answer every query with the same relations.
  pub query_related_rows-query_related_entities :
      (es : List EventRecord) (entity_id : String) (depth : ℕ)
      → NoRepeat es
      → All IsProjectable es
      → All IsReadBack es
      → let s = project_all es no_events in
        let t = project_all_rows es created_tables in
        (list_event_rows Table db codec t ≡ ok (list_projected_events s))
        × (query_related_rows Table db codec entity_id depth t
            ≡ query_related_entities entity_id depth s)
  unfolding list_event_rows query_related_rows query_related_entities list_projected_events touches
  query_related_rows-query_related_entities es entity_id depth once plain readable =
      let a =
        project_all-Agrees es no_events created_tables once plain (created-IsFresh es) (record {
          same_events = ap values db.rows-created;
          same_relations = ap values db.rows-created;
        }) in
      (
        ap (validated Table db codec) a.same_events
            ∙ validated-rows (project_all es no_events).events
                (project_all-IsReadBack es no_events tt readable),
        db.select-rows (touches entity_id) (max depth 1)
              (project_all_rows es created_tables).relations
            ∙ limited-first_relations (max depth 1) (
                keep (touches entity_id)
                  (values (db.rows (project_all_rows es created_tables).relations)))
            ∙ ap (λ rs. first_relations (max depth 1) (keep (touches entity_id) rs))
                a.same_relations,
      )
