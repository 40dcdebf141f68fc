-- ===== src/Artifacts/Registry/Upstream.antt =====
-- autoweave/artifacts/registry.py: what `get_upstream_artifacts` and `visibility_decision` answer.
pub mod Visible
use autoweave_library.Common.{
  ℕ, zero, suc, max, Bool, true, false, not, ◌&&◌, ◌||◌, Option, none, some, List, [], ◌∷◌, map,
  String, Dict, lookup, insert, get_or, values, Result, ok, err, bind, key_error, Action, keep,
  member, HasEq, ltb, leb, if◌then◌else◌, ◌==◌, string_eq, nat_eq, text_leb, same_text,
}
use autoweave_library.Common.Int.{ℤ, pos, negsuc, is_zero}
use autoweave_library.Models.{WorkflowGraph}
use autoweave_library.Events.Redaction.{JsonFields, Json, JsonItems, Scalar}
use autoweave_library.Storage.Artifact.{ArtifactRecord, ArtifactStatus, artifact_status_eq}
use autoweave_library.Storage.Repository.{Repository, graph_for_task, add_at, rows_of}
use autoweave_library.Storage.Repository.Rows.{
  save_artifact, list_artifacts_for_run, list_artifacts_for_task,
}
use autoweave_library.Storage.Repository.Traverse.{upstream_task_ids}
use autoweave_library.Artifacts.Registry.{
  VersionEntry, ArtifactRegistry, same_kind, version_of, set_version, list_task_artifacts,
  list_run_artifacts, persist_artifact, max_version, next_version, supersede, prior_records,
  Written, with_payload, current_max_version, numbered_artifact, note_version, put_artifact,
  get_artifact,
}

-- `bool(value)` of a JSON value.
unfoldable pub is_truthy : Json → Bool
unfolding is_zero
is_truthy (Json.leaf Scalar.null) = false
is_truthy (Json.leaf (Scalar.boolean b)) = b
is_truthy (Json.leaf (Scalar.number n)) = not (is_zero n)
is_truthy (Json.leaf (Scalar.float t)) = not (t == "0.0" || t == "-0.0")
is_truthy (Json.leaf (Scalar.text t)) = not (t == "")
is_truthy (Json.array JsonItems.nil) = false
is_truthy (Json.array (JsonItems.item v vs)) = true
is_truthy (Json.object JsonFields.end) = false
is_truthy (Json.object (JsonFields.field k v fs)) = true

-- `fields.get(key, False)`, and whether it is true.
unfoldable pub has_flag : String → JsonFields → Bool
unfolding is_truthy
has_flag key JsonFields.end = false
has_flag key (JsonFields.field k v fields) = if key == k then is_truthy v else has_flag key fields

-- `status.value`
unfoldable pub status_text : ArtifactStatus → String
status_text ArtifactStatus.draft = "draft"
status_text ArtifactStatus.final = "final"
status_text ArtifactStatus.superseded = "superseded"
status_text ArtifactStatus.archived = "archived"

unfoldable pub status_passes : Option String → ArtifactRecord → Bool
unfolding status_text has_flag
status_passes none a = a.status == ArtifactStatus.final
status_passes (some status) a =
    status_text a.status == status
    && not (
        a.status == ArtifactStatus.draft && not (has_flag "allow_draft_visibility" a.metadata_json))

-- `wanted is not None and wanted != found`, the other way round.
unfoldable pub passes : Option String → String → Bool
passes none found = true
passes (some wanted) found = found == wanted

unfoldable pub is_visible :
    (run : String)
    → List String
    → (artifact_type from_role status : Option String) → ArtifactRecord
    → Bool
unfolding passes status_passes
is_visible run eligible artifact_type from_role status a =
    a.workflow_run_id == run
    && member a.task_id eligible
    && passes artifact_type a.artifact_type
    && passes from_role a.produced_by_role
    && status_passes status a

-- `(created_at, version, id) <= (created_at, version, id)`
unfoldable pub artifact_leb : ArtifactRecord → ArtifactRecord → Bool
artifact_leb a b =
    ltb a.created_at b.created_at
    || (a.created_at == b.created_at
        && (ltb a.version b.version || (a.version == b.version && text_leb a.id b.id)))

unfoldable pub insert_artifact : ArtifactRecord → List ArtifactRecord → List ArtifactRecord
unfolding artifact_leb
insert_artifact a [] = a ∷ []
insert_artifact a (b ∷ bs) = if artifact_leb a b then a ∷ b ∷ bs else b ∷ insert_artifact a bs

unfoldable pub sort_artifacts : List ArtifactRecord → List ArtifactRecord
unfolding insert_artifact
sort_artifacts [] = []
sort_artifacts (a ∷ rest) = insert_artifact a (sort_artifacts rest)

unfoldable pub get_upstream_artifacts :
    String
    → (artifact_type from_role status : Option String) → ArtifactRegistry
    → Result (List ArtifactRecord)
unfolding is_visible sort_artifacts list_run_artifacts
get_upstream_artifacts task_id artifact_type from_role status s =
    bind (graph_for_task task_id s.repository) λ (graph : WorkflowGraph).
      bind (upstream_task_ids task_id s.repository) λ eligible. ok (
        sort_artifacts (
          keep (is_visible graph.workflow_run.id eligible artifact_type from_role status)
            (list_run_artifacts graph.workflow_run.id s.repository)))

pub record ArtifactVisibilityDecision : Type 0 where
  pub artifact_id : String
  pub visible : Bool
  pub reason : String

unfoldable pub visibility_decision :
    (artifact_id task_id : String) → ArtifactRegistry → Result ArtifactVisibilityDecision
unfolding get_artifact get_upstream_artifacts
visibility_decision artifact_id task_id s =
    bind (get_artifact artifact_id s) λ (a : ArtifactRecord).
      bind (get_upstream_artifacts task_id none none none s) λ upstream.
        let seen = member a.id (map (λ (c : ArtifactRecord). c.id) upstream) in
        ok (record {
          artifact_id = a.id;
          visible = seen;
          reason = if seen then "dependency_scope" else "outside_scope";
        })
