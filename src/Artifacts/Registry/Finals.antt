-- ===== src/Artifacts/Registry/Finals.antt =====
-- autoweave/artifacts/registry.py: which artifacts of a task are final after `put_artifact`.
use autoweave_library.Common.{
  ◌≡◌, inl, inr, refl, sym, ap, ◌∙◌, subst, true, false, not, ◌&&◌, Option, none, some, List, [],
  ◌∷◌, String, lookup, get_or, lookup-insert, ok, keep, member, All, Bool-cases, if◌then◌else◌,
  ◌==◌, ==_iff, ==_refl, string_eq, arith,
}
use autoweave_library.Storage.Artifact.{ArtifactRecord, ArtifactStatus, artifact_status_eq}
use autoweave_library.Storage.Repository.{rows_of}
use autoweave_library.Storage.Repository.Rows.{list_artifacts_for_task}
use autoweave_library.Artifacts.Registry.{
  ArtifactRegistry, persist_artifact, supersede, prior_records, put_artifact, list_task_artifacts,
  Written, get_artifact, with_payload, numbered_artifact, note_version,
}
use autoweave_library.Artifacts.Registry.Kept.{
  rows, ids, IsKeyed, is_final, final_ids, persist-rows, persist-ids, supersede-rows, supersede-ids,
  Has-keep, Has-member, Has-rows_of, All-rows_of, All-keep,
}

module _ (a r : ArtifactRecord) (s s0 : ArtifactRegistry) (keyed : IsKeyed s)
    (same : s0.repository ≡ s.repository) where
  -- The artifacts of the task of `a` in its run, before the call.
  abbrev existing : List ArtifactRecord
  existing = list_task_artifacts a.task_id a.workflow_run_id s.repository

  abbrev after : ArtifactRegistry
  after = persist_artifact r (supersede (prior_records r existing) s0)

  -- A final artifact of the type among the old ones, other than `r`, is one to supersede.
  prior_listed :
      (c : ArtifactRecord)
      → member c.id (ids a.task_id s) ≡ true
      → lookup c.id (rows s) ≡ some c
      → (c.workflow_run_id == a.workflow_run_id) ≡ true
      → c.artifact_type ≡ r.artifact_type
      → (c.id == r.id) ≡ false
      → c.status ≡ ArtifactStatus.final
      → member c.id (final_ids (prior_records r existing)) ≡ true
  unfolding list_task_artifacts list_artifacts_for_task prior_records
  prior_listed c listed stored here kind differs final =
      Has-member c (keep is_final (prior_records r existing)) (
        Has-keep is_final c (prior_records r existing)
          (Has-keep
            (λ (x : ArtifactRecord). x.artifact_type == r.artifact_type && not (x.id == r.id)) c
            existing
            (Has-keep (λ (x : ArtifactRecord). x.workflow_run_id == a.workflow_run_id) c
              (rows_of (rows s) (ids a.task_id s))
              (Has-rows_of c.id c (rows s) (ids a.task_id s) listed stored) here)
            (ground (arith, ==_iff c.artifact_type r.artifact_type)))
          (ground arith))

  -- An old row of the task under another id than that of `r`, left as it was, is not such a one.
  old_final :
      (i : String) (c : ArtifactRecord)
      → member i (ids a.task_id s) ≡ true
      → lookup i (rows s) ≡ some c
      → (c.workflow_run_id == a.workflow_run_id) ≡ true
      → c.artifact_type ≡ r.artifact_type
      → c.status ≡ ArtifactStatus.final
      → member i (final_ids (prior_records r existing)) ≡ false
      → c.id ≡ r.id
  old_final i c listed stored here kind final spared =
      let e = keyed i c stored in
      elim (Bool-cases (c.id == r.id)) [
        | inl equal ↦ (==_iff c.id r.id).0 equal
        | inr differs ↦
            let found =
              prior_listed c (subst (λ k. member k (ids a.task_id s) ≡ true) (sym e) listed)
                (subst (λ k. lookup k (rows s) ≡ some c) (sym e) stored) here kind differs final in
            let found' =
              subst (λ k. member k (final_ids (prior_records r existing)) ≡ true) e found in
            absurd (ground arith)
      ]

  ids_before :
      (i : String)
      → member i (ids a.task_id after) ≡ true
      → (i == r.id) ≡ false
      → member i (final_ids (prior_records r existing)) ≡ false
      → member i (ids a.task_id s) ≡ true
  ids_before i listed old spared =
      let ps = prior_records r existing in
      elim (persist-ids r (supersede ps s0) i a.task_id listed) [
        | inr new ↦ absurd (ground (arith, ==_iff i r.id))
        | inl there ↦ elim (supersede-ids ps s0 i a.task_id there) [
          | inl before ↦
              subst (λ q. member i (get_or [] a.task_id q.artifacts_by_task) ≡ true) same before
          | inr one ↦ absurd (cc)
        ]
      ]

  one_final :
      (i : String) (c : ArtifactRecord)
      → member i (ids a.task_id after) ≡ true
      → lookup i (rows after) ≡ some c
      → (c.workflow_run_id == a.workflow_run_id) ≡ true
      → c.artifact_type ≡ r.artifact_type
      → c.status ≡ ArtifactStatus.final
      → c.id ≡ r.id
  one_final i c listed stored here kind final =
      let ps = prior_records r existing in
      let row = persist-rows r (supersede ps s0) i in
      elim (Bool-cases (i == r.id)) [
        | inl new ↦ let e : some r ≡ some c = sym (rw new at row) ∙ stored in ground arith
        | inr old ↦
            let found : lookup i (rows (supersede ps s0)) ≡ some c = sym (rw old at row) ∙ stored in
            elim (supersede-rows ps s0 i c found) [
              | inl gone ↦ absurd (cc)
              | inr (kept, spared) ↦
                  old_final i c (ids_before i listed old spared)
                    (subst (λ q. lookup i q.artifacts.rows ≡ some c) same kept) here kind final
                    spared
            ]
      ]

persist-IsKeyed :
    (p : ArtifactRecord) (s : ArtifactRegistry) → IsKeyed s → IsKeyed (persist_artifact p s)
persist-IsKeyed p s keyed i c h = elim (Bool-cases (i == p.id)) [
  | inl new ↦
      let e : some p ≡ some c = sym (rw new at (persist-rows p s i)) ∙ h in
      ground (arith, ==_iff i p.id)
  | inr old ↦ keyed i c (sym (rw old at (persist-rows p s i)) ∙ h)
]

supersede-IsKeyed :
    (ps : List ArtifactRecord) (s : ArtifactRegistry) → IsKeyed s → IsKeyed (supersede ps s)
unfolding supersede
supersede-IsKeyed [] s keyed = keyed
supersede-IsKeyed (p ∷ ps) s keyed = elim (Bool-cases (is_final p)) [
  | inl final ↦
      let p' = record p { status = ArtifactStatus.superseded } in
      rw final (supersede-IsKeyed ps (persist_artifact p' s) (persist-IsKeyed p' s keyed))
  | inr other ↦ rw other (supersede-IsKeyed ps s keyed)
]

pub with_payload-same :
    (write : Option (ArtifactRecord → String → Written)) (payload : Option String)
    (a : ArtifactRecord)
    → let r = with_payload write payload a in
      (r.artifact_type ≡ a.artifact_type)
      × (r.status ≡ a.status)
      × (r.id ≡ a.id)
      × (r.version ≡ a.version)
unfolding with_payload
with_payload-same none payload a = (refl, refl, refl, refl)
with_payload-same (some write) none a = (refl, refl, refl, refl)
with_payload-same (some write) (some payload) a = (refl, refl, refl, refl)

-- The artifact as `put_artifact` stores and answers it.
abbrev pub stored_artifact :
    Option (ArtifactRecord → String → Written)
    → ArtifactRecord
    → Option String
    → ArtifactRegistry
    → ArtifactRecord
stored_artifact write a payload s = with_payload write payload (numbered_artifact a s)

-- The registry after `put_artifact` of a final artifact.
abbrev pub final_state :
    Option (ArtifactRecord → String → Written)
    → ArtifactRecord
    → Option String
    → ArtifactRegistry
    → ArtifactRegistry
final_state write a payload s =
    let r = stored_artifact write a payload s in
    persist_artifact r (
      supersede (prior_records r (list_task_artifacts a.task_id a.workflow_run_id s.repository))
        (note_version a s))

pub put_final :
    (write : Option (ArtifactRecord → String → Written)) (a : ArtifactRecord)
    (payload : Option String) (s : ArtifactRegistry)
    → a.status ≡ ArtifactStatus.final
    → put_artifact write a payload s
      ≡ (ok (stored_artifact write a payload s), final_state write a payload s)
unfolding put_artifact numbered_artifact
put_final write a payload s final =
    let r = stored_artifact write a payload s in
    let existing = list_task_artifacts a.task_id a.workflow_run_id s.repository in
    let s0 = note_version a s in
    let test : (r.status == ArtifactStatus.final) ≡ true =
      ap (λ z. z == ArtifactStatus.final)
        ((with_payload-same write payload (numbered_artifact a s)).1 ∙ final) in
    ap (λ b. (ok r, persist_artifact r (if b then supersede (prior_records r existing) s0 else s0)))
      test

get_artifact-persist :
    (r : ArtifactRecord) (s : ArtifactRegistry) → get_artifact r.id (persist_artifact r s) ≡ ok r
unfolding get_artifact persist_artifact
get_artifact-persist r s = ground (arith, lookup-insert r.id r.id r s.artifacts, ==_refl r.id)

All-listed :
    (a r : ArtifactRecord) (s s0 : ArtifactRegistry)
    → IsKeyed s
    → s0.repository ≡ s.repository
    → let existing = list_task_artifacts a.task_id a.workflow_run_id s.repository in
      All
        (λ (c : ArtifactRecord).
          c.artifact_type ≡ r.artifact_type → c.status ≡ ArtifactStatus.final → c.id ≡ r.id)
        (list_task_artifacts a.task_id a.workflow_run_id
          (persist_artifact r (supersede (prior_records r existing) s0)).repository)
unfolding list_task_artifacts list_artifacts_for_task
All-listed a r s s0 keyed same =
    let last = after a r s s0 keyed same in
    let Q : ArtifactRecord → Type 0 =
      λ c. c.artifact_type ≡ r.artifact_type → c.status ≡ ArtifactStatus.final → c.id ≡ r.id in
    All-keep Q (λ (c : ArtifactRecord). c.workflow_run_id == a.workflow_run_id)
      (rows_of (rows last) (ids a.task_id last))
      (All-rows_of (λ c. (c.workflow_run_id == a.workflow_run_id) ≡ true → Q c) (rows last)
        (ids a.task_id last)
        (λ i c listed stored here kind final.
          one_final a r s s0 keyed same i c listed stored here kind final))

-- In a registry that stores each artifact under its own id, `put_artifact` of a final artifact
-- returns; afterwards that artifact is found under its id, it is the only final one of its type
-- among those of its task in its run, and each artifact is still stored under its own id.
pub put_artifact-one_final :
    (write : Option (ArtifactRecord → String → Written)) (a : ArtifactRecord)
    (payload : Option String) (s : ArtifactRegistry)
    → IsKeyed s
    → a.status ≡ ArtifactStatus.final
    → let r = stored_artifact write a payload s in
      let s' = (put_artifact write a payload s).1 in
      ((put_artifact write a payload s).0 ≡ ok r)
      × (get_artifact a.id s' ≡ ok r)
      × All
          (λ (c : ArtifactRecord).
            c.artifact_type ≡ a.artifact_type → c.status ≡ ArtifactStatus.final → c.id ≡ a.id)
          (list_task_artifacts a.task_id a.workflow_run_id s'.repository)
      × IsKeyed s'
unfolding numbered_artifact note_version
put_artifact-one_final write a payload s keyed final =
    let r = stored_artifact write a payload s in
    let existing = list_task_artifacts a.task_id a.workflow_run_id s.repository in
    let s0 = note_version a s in
    let alike = with_payload-same write payload (numbered_artifact a s) in
    rw (put_final write a payload s final) (
      refl,
      subst (λ k. get_artifact k (final_state write a payload s) ≡ ok r) alike.2
          (get_artifact-persist r (supersede (prior_records r existing) s0)),
      subst
          (λ k.
            All
              (λ (c : ArtifactRecord).
                c.artifact_type ≡ a.artifact_type → c.status ≡ ArtifactStatus.final → c.id ≡ k)
              (list_task_artifacts a.task_id a.workflow_run_id
                (final_state write a payload s).repository))
          alike.2
          (subst
            (λ k.
              All
                (λ (c : ArtifactRecord).
                  c.artifact_type ≡ k → c.status ≡ ArtifactStatus.final → c.id ≡ r.id)
                (list_task_artifacts a.task_id a.workflow_run_id
                  (final_state write a payload s).repository))
            alike.0 (All-listed a r s s0 keyed refl)),
      persist-IsKeyed r (supersede (prior_records r existing) s0)
          (supersede-IsKeyed (prior_records r existing) s0 keyed),
    )
