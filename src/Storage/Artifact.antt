-- ===== src/Storage/Artifact.antt =====
-- autoweave/models.py: artifacts. A version is not negative.
use autoweave_library.Common.{ℕ, ◌≡◌, ◌↔◌, true, String, HasEq, nat_beq, arith}
use autoweave_library.Events.Redaction.{JsonFields}

pub data ArtifactStatus : Type 0 where
  draft : ArtifactStatus
  final : ArtifactStatus
  superseded : ArtifactStatus
  archived : ArtifactStatus

abbrev pub status_code : ArtifactStatus → ℕ
status_code ArtifactStatus.draft = 0
status_code ArtifactStatus.final = 1
status_code ArtifactStatus.superseded = 2
status_code ArtifactStatus.archived = 3

pub record ArtifactRecord : Type 0 where
  pub id : String
  pub workflow_run_id : String
  pub task_id : String
  pub task_attempt_id : String
  pub produced_by_role : String
  pub artifact_type : String
  pub title : String
  pub summary : String
  pub status : ArtifactStatus
  pub version : ℕ
  pub storage_uri : String
  pub checksum : String
  pub metadata_json : JsonFields
  pub created_at : ℕ

pub status_code_iff :
    (a b : ArtifactStatus) → (nat_beq (status_code a) (status_code b) ≡ true) ↔ (a ≡ b)
status_code_iff a b = ground arith

instance abbrev pub artifact_status_eq : HasEq ArtifactStatus
artifact_status_eq = record {
  same = λ a b. nat_beq (status_code a) (status_code b);
  same_iff = status_code_iff;
}
