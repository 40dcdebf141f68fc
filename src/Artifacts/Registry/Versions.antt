-- ===== src/Artifacts/Registry/Versions.antt =====
-- autoweave/artifacts/registry.py: the versions that `put_artifact` gives.
use autoweave_library.Common.{
  ℕ, zero, suc, ◌≤◌, ◌<◌, ◌≡◌, ◌∙◌, ap, refl, max, Option, List, [], ◌∷◌, String, ok, All, All-map,
  Bool-cases, inl, inr, true, if◌then◌else◌, ◌==◌, ==_iff, ==_refl, string_eq, arith,
}
use autoweave_library.Storage.Artifact.{ArtifactRecord, ArtifactStatus, artifact_status_eq}
use autoweave_library.Artifacts.Registry.{
  ArtifactRegistry, VersionEntry, Written, same_kind, version_of, set_version, max_version,
  next_version, current_max_version, numbered_artifact, note_version, list_task_artifacts,
  put_artifact, persist_artifact, supersede, prior_records,
}
use autoweave_library.Artifacts.Registry.Kept.{is_final}
use autoweave_library.Artifacts.Registry.Finals.{stored_artifact, with_payload-same}

next_version-lt :
    (top version : ℕ) → (top < next_version top version) × (version ≤ next_version top version)
unfolding next_version
next_version-lt top zero = ground arith
next_version-lt top (suc n) = ground arith

-- The artifacts of the type in the list have at most this version.
abbrev AtMost : String → ℕ → List ArtifactRecord → Type 0
AtMost type n cs = All (λ (c : ArtifactRecord). c.artifact_type ≡ type → c.version ≤ n) cs

max_version-ge : (type : String) (n : ℕ) (cs : List ArtifactRecord) → n ≤ max_version type n cs
unfolding max_version
max_version-ge type n [] = ground arith
max_version-ge type n (c ∷ cs) =
    ground (arith, max_version-ge type (max n c.version) cs, max_version-ge type n cs)

max_version-AtMost :
    (type : String) (n : ℕ) (cs : List ArtifactRecord) → AtMost type (max_version type n cs) cs
unfolding max_version
max_version-AtMost type n [] = tt
max_version-AtMost type n (c ∷ cs) =
    let next = if c.artifact_type == type then max n c.version else n in
    (
      λ e. ground (arith, max_version-ge type next cs, ==_iff c.artifact_type type),
      max_version-AtMost type next cs,
    )

same_kind_refl :
    (a : ArtifactRecord) (n : ℕ)
    → same_kind a (record {
      workflow_run_id = a.workflow_run_id;
      task_id = a.task_id;
      artifact_type = a.artifact_type;
      version = n;
    })
      ≡ true
same_kind_refl a n =
    ground (arith, ==_refl a.workflow_run_id, ==_refl a.task_id, ==_refl a.artifact_type)

version_of-set_version :
    (a : ArtifactRecord) (n : ℕ) (es : List VersionEntry) → version_of a (set_version a n es) ≡ n
unfolding version_of set_version
version_of-set_version a n [] =
    ground (arith, ==_refl a.workflow_run_id, ==_refl a.task_id, ==_refl a.artifact_type)
version_of-set_version a n (e ∷ es) = elim (Bool-cases (same_kind a e)) [
  | inl same ↦ rw (set_version, same) (rw (version_of, same) refl)
  | inr other ↦ rw (set_version, other) (rw (version_of, other) (version_of-set_version a n es))
]

persist_artifact-versions :
    (r : ArtifactRecord) (s : ArtifactRegistry)
    → (persist_artifact r s).artifact_versions ≡ s.artifact_versions
unfolding persist_artifact
persist_artifact-versions r s = refl

supersede-versions :
    (ps : List ArtifactRecord) (s : ArtifactRegistry)
    → (supersede ps s).artifact_versions ≡ s.artifact_versions
unfolding supersede
supersede-versions [] s = refl
supersede-versions (p ∷ ps) s = elim (Bool-cases (is_final p)) [
  | inl final ↦
      let p' = record p { status = ArtifactStatus.superseded } in
      rw (supersede, final)
        (supersede-versions ps (persist_artifact p' s) ∙ persist_artifact-versions p' s)
  | inr other ↦ rw (supersede, other) (supersede-versions ps s)
]

put_artifact-versions :
    (write : Option (ArtifactRecord → String → Written)) (a : ArtifactRecord)
    (payload : Option String) (s : ArtifactRegistry)
    → (put_artifact write a payload s).1.artifact_versions
      ≡ set_version a
          (max (current_max_version a s) (numbered_artifact a s).version)
          s.artifact_versions
unfolding put_artifact note_version
put_artifact-versions write a payload s =
    let r = stored_artifact write a payload s in
    let ps = prior_records r (list_task_artifacts a.task_id a.workflow_run_id s.repository) in
    elim (Bool-cases (is_final r)) [
      | inl final ↦
          rw (put_artifact, final)
            (persist_artifact-versions r (supersede ps (note_version a s))
              ∙ supersede-versions ps (note_version a s))
      | inr other ↦ rw (put_artifact, other) (persist_artifact-versions r (note_version a s))
    ]

-- `put_artifact` returns an artifact whose version is above the version kept for its run, task and
-- type, above that of each stored artifact of its type and task in the run, and not below the
-- version asked for; afterwards that version is the one kept.
pub put_artifact-version :
    (write : Option (ArtifactRecord → String → Written)) (a : ArtifactRecord)
    (payload : Option String) (s : ArtifactRegistry)
    → let r = stored_artifact write a payload s in
      ((put_artifact write a payload s).0 ≡ ok r)
      × (version_of a s.artifact_versions < r.version)
      × All
          (λ (c : ArtifactRecord). c.artifact_type ≡ a.artifact_type → c.version < r.version)
          (list_task_artifacts a.task_id a.workflow_run_id s.repository)
      × (a.version ≤ r.version)
      × (version_of a (put_artifact write a payload s).1.artifact_versions ≡ r.version)
unfolding put_artifact numbered_artifact current_max_version
put_artifact-version write a payload s =
    let top = current_max_version a s in
    let listed = list_task_artifacts a.task_id a.workflow_run_id s.repository in
    let n = (numbered_artifact a s).version in
    let above = next_version-lt top a.version in
    let least = max_version-ge a.artifact_type (version_of a s.artifact_versions) listed in
    let e : (stored_artifact write a payload s).version ≡ n =
      (with_payload-same write payload (numbered_artifact a s)).3 in
    (
      refl,
      ground arith,
      All-map (λ (c : ArtifactRecord). c.artifact_type ≡ a.artifact_type → c.version ≤ top)
          (λ (c : ArtifactRecord).
            c.artifact_type ≡ a.artifact_type
            → c.version < (stored_artifact write a payload s).version)
          listed (λ c below same. ground (arith, below same))
          (max_version-AtMost a.artifact_type (version_of a s.artifact_versions) listed),
      ground arith,
      ap (version_of a) (put_artifact-versions write a payload s)
          ∙ version_of-set_version a (max top n) s.artifact_versions
          ∙ ground arith,
    )
