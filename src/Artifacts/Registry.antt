-- ===== src/Artifacts/Registry.antt =====
-- autoweave/artifacts/registry.py: `InMemoryArtifactRegistry` over the repository in memory, which
-- lists and saves artifacts and has no `get_artifact`. The payload store writes files; what it
-- answers is the argument `write`.
pub mod Kept
pub mod Finals
pub mod Versions
pub mod Upstream
use autoweave_library.Common.{
  ℕ, zero, suc, max, Bool, true, false, not, ◌&&◌, ◌||◌, Option, none, some, List, [], ◌∷◌, map,
  String, Dict, lookup, insert, get_or, values, Result, ok, err, bind, key_error, Action, keep,
  member, HasEq, ltb, leb, if◌then◌else◌, ◌==◌, string_eq, nat_eq, text_leb, same_text,
}
use autoweave_library.Common.Int.{ℤ, pos, negsuc, is_zero}
use autoweave_library.Models.{WorkflowGraph}
use autoweave_library.Events.Redaction.{JsonFields, Json, JsonItems, Scalar}
use autoweave_library.Storage.Artifact.{ArtifactRecord, ArtifactStatus, artifact_status_eq}
use autoweave_library.Storage.Repository.{Repository, graph_for_task, add_at, rows_of}
use autoweave_library.Storage.Repository.Rows.{
  save_artifact, list_artifacts_for_run, list_artifacts_for_task,
}
use autoweave_library.Storage.Repository.Traverse.{upstream_task_ids}

-- `(workflow_run_id, task_id, artifact_type)`, with the numbers of a dictionary of such keys.
pub record VersionEntry : Type 0 where
  pub workflow_run_id : String
  pub task_id : String
  pub artifact_type : String
  pub version : ℕ

pub record ArtifactRegistry : Type 0 where
  pub repository : Repository
  pub artifacts : Dict String ArtifactRecord
  pub artifacts_by_task : Dict String (List String)
  pub artifact_versions : List VersionEntry

abbrev pub same_kind : ArtifactRecord → VersionEntry → Bool
same_kind a e =
    e.workflow_run_id == a.workflow_run_id
    && e.task_id == a.task_id
    && e.artifact_type == a.artifact_type

-- `_artifact_versions[version_key]`, 0 where there is none.
unfoldable pub version_of : ArtifactRecord → List VersionEntry → ℕ
version_of a [] = 0
version_of a (e ∷ es) = if same_kind a e then e.version else version_of a es

unfoldable pub set_version : ArtifactRecord → ℕ → List VersionEntry → List VersionEntry
set_version a n [] =
    record {
      workflow_run_id = a.workflow_run_id;
      task_id = a.task_id;
      artifact_type = a.artifact_type;
      version = n;
    }
    ∷ []
set_version a n (e ∷ es) =
    if same_kind a e then record e { version = n } ∷ es else e ∷ set_version a n es

unfoldable pub list_task_artifacts : (task_id run : String) → Repository → List ArtifactRecord
unfolding list_artifacts_for_task
list_task_artifacts task_id run repository =
    keep (λ (a : ArtifactRecord). a.workflow_run_id == run)
      (list_artifacts_for_task task_id repository)

unfoldable pub list_run_artifacts : String → Repository → List ArtifactRecord
unfolding list_artifacts_for_run
list_run_artifacts run repository = list_artifacts_for_run run repository

unfoldable pub persist_artifact : ArtifactRecord → ArtifactRegistry → ArtifactRegistry
unfolding add_at save_artifact
persist_artifact artifact s = record s {
  artifacts = insert artifact.id artifact s.artifacts;
  artifacts_by_task = add_at artifact.task_id artifact.id s.artifacts_by_task;
  repository = (save_artifact artifact s.repository).1;
}

-- The highest version of a type in a list, or the given one.
unfoldable pub max_version : String → ℕ → List ArtifactRecord → ℕ
max_version type n [] = n
max_version type n (a ∷ rest) =
    max_version type (if a.artifact_type == type then max n a.version else n) rest

-- `record.version` as it is stored, where `top` is the highest version so far.
unfoldable pub next_version : (top version : ℕ) → ℕ
next_version top zero = suc top
next_version top (suc n) = if leb (suc n) top then suc top else suc n

-- `for prior in prior_records: if prior.status == FINAL: ...`
unfoldable pub supersede : List ArtifactRecord → ArtifactRegistry → ArtifactRegistry
unfolding persist_artifact
supersede [] s = s
supersede (prior ∷ priors) s = supersede priors (
    if prior.status == ArtifactStatus.final
    then persist_artifact (record prior { status = ArtifactStatus.superseded }) s
    else s)

-- The other artifacts of the type among those of the task.
unfoldable pub prior_records : ArtifactRecord → List ArtifactRecord → List ArtifactRecord
prior_records a existing =
    keep (λ (c : ArtifactRecord). c.artifact_type == a.artifact_type && not (c.id == a.id)) existing

-- `(storage_uri, checksum)` of what a payload store has written.
abbrev pub Written : Type 0
Written = String × String

-- `self._payload_store.write(record, ...)`, where there is a store.
unfoldable pub with_payload :
    Option (ArtifactRecord → String → Written) → Option String → ArtifactRecord → ArtifactRecord
with_payload none payload a = a
with_payload (some write) none a =
    let (uri, sum) = write a a.summary in record a { storage_uri = uri; checksum = sum }
with_payload (some write) (some payload) a =
    let (uri, sum) = write a payload in record a { storage_uri = uri; checksum = sum }

-- `current_max_version`
unfoldable pub current_max_version : ArtifactRecord → ArtifactRegistry → ℕ
unfolding version_of list_task_artifacts max_version
current_max_version artifact s =
    max_version artifact.artifact_type (version_of artifact s.artifact_versions)
      (list_task_artifacts artifact.task_id artifact.workflow_run_id s.repository)

unfoldable pub numbered_artifact : ArtifactRecord → ArtifactRegistry → ArtifactRecord
unfolding current_max_version next_version
numbered_artifact artifact s = record artifact {
  version = next_version (current_max_version artifact s) artifact.version;
}

-- `_artifact_versions[version_key] = max(current_max_version, record.version)`
unfoldable pub note_version : ArtifactRecord → ArtifactRegistry → ArtifactRegistry
unfolding numbered_artifact current_max_version set_version
note_version artifact s = record s {
  artifact_versions =
      set_version artifact
        (max (current_max_version artifact s) (numbered_artifact artifact s).version)
        s.artifact_versions;
}

unfoldable pub put_artifact :
    Option (ArtifactRecord → String → Written)
    → ArtifactRecord
    → Option String
    → Action ArtifactRegistry ArtifactRecord
unfolding numbered_artifact with_payload note_version supersede prior_records persist_artifact
put_artifact write artifact payload s =
    let existing = list_task_artifacts artifact.task_id artifact.workflow_run_id s.repository in
    let numbered = numbered_artifact artifact s in
    let stored = with_payload write payload numbered in
    let s' = note_version artifact s in
    let s'' =
      if stored.status == ArtifactStatus.final
      then supersede (prior_records stored existing) s'
      else s' in
    (ok stored, persist_artifact stored s'')

unfoldable pub get_artifact : String → ArtifactRegistry → Result ArtifactRecord
get_artifact artifact_id s = elim (lookup artifact_id s.artifacts) [
  | none ↦ err key_error
  | some a ↦ ok a
]
