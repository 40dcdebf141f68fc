-- ===== src/Artifacts/Examples.antt =====
-- The theorems of this folder at concrete registries: two final reports of one task.
use autoweave_library.Common.{
  true, Has, same_text, List, ◌≡◌, refl, ◌<◌, ◌≤◌, none, some, [], ok, All, String, string_eq,
  arith,
}
use autoweave_library.Storage.Artifact.{ArtifactRecord, ArtifactStatus, artifact_status_eq}
use autoweave_library.Storage.Repository.{save_graph, graph_for_task}
use autoweave_library.Storage.Examples.{stored, review_found}
use autoweave_library.Orchestration.Samples.{three_tasks, chain, graph_of}
use autoweave_library.Events.Redaction.{JsonFields}
use autoweave_library.Storage.Repository.Traverse.Upstream.{IsUpstream}
use autoweave_library.Artifacts.Registry.{
  list_run_artifacts, ArtifactRegistry, put_artifact, get_artifact, list_task_artifacts, version_of,
}
use autoweave_library.Artifacts.Registry.Upstream.{get_upstream_artifacts, has_flag}
use autoweave_library.Artifacts.Registry.Kept.{IsKeyed}
use autoweave_library.Artifacts.Registry.Finals.{stored_artifact, put_artifact-one_final}
use autoweave_library.Artifacts.Registry.Versions.{put_artifact-version}
use autoweave_library.Artifacts.Registry.Upstream.Visible.{
  Shows, IsShared, get_upstream_artifacts-Shows, get_upstream_artifacts-drafts,
}

abbrev report : String → ArtifactStatus → ArtifactRecord
report id status = record {
  id = id;
  workflow_run_id = "run";
  task_id = "t1";
  task_attempt_id = "a1";
  produced_by_role = "backend";
  artifact_type = "report";
  title = "Report";
  summary = "";
  status = status;
  version = 0;
  storage_uri = "";
  checksum = "";
  metadata_json = JsonFields.end;
  created_at = 5;
}

abbrev no_artifacts : ArtifactRegistry
no_artifacts = record {
  repository = stored;
  artifacts = [];
  artifacts_by_task = [];
  artifact_versions = [];
}

no_artifacts-IsKeyed : IsKeyed no_artifacts
unfolding save_graph
no_artifacts-IsKeyed i c h = absurd (ground arith)

abbrev first_report : ArtifactRecord
first_report = report "r1" ArtifactStatus.final

abbrev second_report : ArtifactRecord
second_report = report "r2" ArtifactStatus.final

abbrev one_report : ArtifactRegistry
one_report = (put_artifact none first_report none no_artifacts).1

one_report-IsKeyed : IsKeyed one_report
one_report-IsKeyed =
    (put_artifact-one_final none first_report none no_artifacts no_artifacts-IsKeyed refl).3

put_artifact-one_final_example :
    let r = stored_artifact none second_report none one_report in
    let s' = (put_artifact none second_report none one_report).1 in
    ((put_artifact none second_report none one_report).0 ≡ ok r)
    × (get_artifact "r2" s' ≡ ok r)
    × All
        (λ (c : ArtifactRecord).
          c.artifact_type ≡ "report" → c.status ≡ ArtifactStatus.final → c.id ≡ "r2")
        (list_task_artifacts "t1" "run" s'.repository)
    × IsKeyed s'
put_artifact-one_final_example =
    put_artifact-one_final none second_report none one_report one_report-IsKeyed refl

put_artifact-version_example :
    let r = stored_artifact none second_report none one_report in
    ((put_artifact none second_report none one_report).0 ≡ ok r)
    × (version_of second_report one_report.artifact_versions < r.version)
    × All
        (λ (c : ArtifactRecord). c.artifact_type ≡ "report" → c.version < r.version)
        (list_task_artifacts "t1" "run" one_report.repository)
    × (0 ≤ r.version)
    × (version_of second_report
          (put_artifact none second_report none one_report).1.artifact_versions
        ≡ r.version)
put_artifact-version_example = put_artifact-version none second_report none one_report

get_upstream_artifacts-Shows_example :
    Shows
      (get_upstream_artifacts "t3" none none none no_artifacts)
      (IsShared (graph_of three_tasks chain) "t3" no_artifacts)
get_upstream_artifacts-Shows_example =
    get_upstream_artifacts-Shows "t3" no_artifacts (graph_of three_tasks chain) review_found

-- The registry with a draft of the first task.
abbrev with_draft : ArtifactRegistry
with_draft = (put_artifact none (report "r3" ArtifactStatus.draft) none no_artifacts).1

draft_found : graph_for_task "t3" with_draft.repository ≡ ok (graph_of three_tasks chain)
unfolding put_artifact save_graph graph_for_task same_text
draft_found = refl

get_upstream_artifacts-drafts_example :
    (answer : List ArtifactRecord) × ((get_upstream_artifacts "t3" none none
          (some "draft")
          with_draft
        ≡ ok answer)
      × ((c : ArtifactRecord)
          → Has c answer
          → Has c (list_run_artifacts "run" with_draft.repository)
            × IsUpstream chain "t3" c.task_id
            × (c.status ≡ ArtifactStatus.draft
                → has_flag "allow_draft_visibility" c.metadata_json ≡ true)))
get_upstream_artifacts-drafts_example =
    get_upstream_artifacts-drafts "t3" none none (some "draft") with_draft
      (graph_of three_tasks chain) draft_found
