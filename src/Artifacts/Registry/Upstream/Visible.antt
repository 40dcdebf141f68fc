-- ===== src/Artifacts/Registry/Upstream/Visible.antt =====
-- autoweave/artifacts/registry.py: what `get_upstream_artifacts` lets a task see.
use autoweave_library.Common.{
  Has, ◌≡◌, ◌⊎◌, ◌↔◌, inl, inr, refl, sym, subst, Bool, true, false, Option, none, some, List, [],
  ◌∷◌, String, Result, ok, keep, member, Bool-cases, ==_iff, string_eq, arith,
}
use autoweave_library.Models.{WorkflowGraph}
use autoweave_library.Storage.Artifact.{ArtifactRecord, ArtifactStatus, artifact_status_eq}
use autoweave_library.Storage.Repository.{graph_for_task}
use autoweave_library.Storage.Repository.Traverse.Upstream.{
  IsUpstream, upstream_task_ids-IsUpstream,
}
use autoweave_library.Artifacts.Registry.{ArtifactRegistry, list_run_artifacts}
use autoweave_library.Artifacts.Registry.Upstream.{
  artifact_leb, insert_artifact, sort_artifacts, is_visible, passes, status_passes, has_flag,
  get_upstream_artifacts,
}
use autoweave_library.Artifacts.Registry.Kept.{Has-keep}

-- Two ways to say that one of three holds.
middle : {P Q R S : Type 0} → (S ↔ (Q ⊎ R)) → (P ⊎ S) ↔ (Q ⊎ (P ⊎ R))
middle f = (
  λ h. elim h [
    | inl p ↦ inr (inl p)
    | inr s ↦ elim (f.0 s) [ inl q ↦ inl q | inr r ↦ inr (inr r) ]
  ],
  λ h. elim h [
    | inl q ↦ inr (f.1 (inl q))
    | inr k ↦ elim k [ inl p ↦ inl p | inr r ↦ inr (f.1 (inr r)) ]
  ],
)

Has-insert_artifact :
    (c a : ArtifactRecord) (bs : List ArtifactRecord)
    → Has c (insert_artifact a bs) ↔ ((c ≡ a) ⊎ Has c bs)
unfolding insert_artifact
Has-insert_artifact c a [] = (λ h. h, λ h. h)
Has-insert_artifact c a (b ∷ bs) = elim (Bool-cases (artifact_leb a b)) [
  | inl first ↦ rw first (λ h. h, λ h. h)
  | inr later ↦ rw later (middle (Has-insert_artifact c a bs))
]

Has-sort_artifacts :
    (c : ArtifactRecord) (cs : List ArtifactRecord) → Has c (sort_artifacts cs) ↔ Has c cs
unfolding sort_artifacts
Has-sort_artifacts c [] = (λ h. h, λ h. h)
Has-sort_artifacts c (b ∷ bs) =
    let here = Has-insert_artifact c b (sort_artifacts bs) in
    let there = Has-sort_artifacts c bs in
    (
      λ h. elim (here.0 h) [ inl e ↦ inl e | inr k ↦ inr (there.0 k) ],
      λ h. elim h [ inl e ↦ here.1 (inl e) | inr k ↦ here.1 (inr (there.1 k)) ],
    )

keep-Has :
    (test : ArtifactRecord → Bool) (c : ArtifactRecord) (cs : List ArtifactRecord)
    → Has c (keep test cs)
    → Has c cs × (test c ≡ true)
keep-Has test c [] h = absurd h
keep-Has test c (b ∷ bs) h = elim (Bool-cases (test b)) [
  | inl passed ↦ elim (rw passed at h) [
    | inl e ↦ (inl e, subst (λ z. test z ≡ true) (sym e) passed)
    | inr k ↦ let (inside, good) = keep-Has test c bs k in (inr inside, good)
  ]
  | inr refused ↦ let (inside, good) = keep-Has test c bs (rw refused at h) in (inr inside, good)
]

-- What a task sees without naming a status, a type or a role.
abbrev pub IsShared : WorkflowGraph → String → ArtifactRegistry → ArtifactRecord → Type 0
IsShared graph task_id s c =
    Has c (list_run_artifacts graph.workflow_run.id s.repository)
    × (c.workflow_run_id ≡ graph.workflow_run.id)
    × IsUpstream graph.edges task_id c.task_id
    × (c.status ≡ ArtifactStatus.final)

abbrev pub Shows : Result (List ArtifactRecord) → (ArtifactRecord → Type 0) → Type 0
Shows r P =
    (answer : List ArtifactRecord) × ((r ≡ ok answer) × ((c : ArtifactRecord) → Has c answer ↔ P c))

visible_test :
    (run : String) (eligible : List String) (c : ArtifactRecord)
    → (is_visible run eligible none none none c ≡ true) ↔ (
        (c.workflow_run_id ≡ run)
        × (member c.task_id eligible ≡ true)
        × (c.status ≡ ArtifactStatus.final))
unfolding is_visible passes status_passes
visible_test run eligible c =
    ground (arith, ==_iff c.workflow_run_id run, ==_iff c.status ArtifactStatus.final)

-- On a task of a stored run, `get_upstream_artifacts` without a type, a role and a status returns,
-- and it shows an artifact exactly when the repository lists it for the run, it is final, and a
-- way of one or more hard edges leads from its task to the given one.
pub get_upstream_artifacts-Shows :
    (task_id : String) (s : ArtifactRegistry) (graph : WorkflowGraph)
    → graph_for_task task_id s.repository ≡ ok graph
    → Shows (get_upstream_artifacts task_id none none none s) (IsShared graph task_id s)
unfolding get_upstream_artifacts
get_upstream_artifacts-Shows task_id s graph found =
    let run = graph.workflow_run.id in
    let (eligible, (returned, upstream)) =
      upstream_task_ids-IsUpstream task_id s.repository graph found in
    let test = is_visible run eligible none none none in
    let listed = list_run_artifacts run s.repository in
    (
      sort_artifacts (keep test listed),
      (
        rw found (rw returned refl),
        λ c. (
          λ h.
              let (inside, passed) =
                keep-Has test c listed ((Has-sort_artifacts c (keep test listed)).0 h) in
              let (same, member_of, final) = (visible_test run eligible c).0 passed in
              (inside, same, (upstream c.task_id).0 member_of, final),
          λ h. (Has-sort_artifacts c (keep test listed)).1 (
              Has-keep test c listed h.0
                ((visible_test run eligible c).1 (h.1, (upstream c.task_id).1 h.2, h.3))),
        ),
      ),
    )

is_visible-member :
    (run : String) (eligible : List String) (artifact_type from_role status : Option String)
    (c : ArtifactRecord)
    → is_visible run eligible artifact_type from_role status c ≡ true
    → member c.task_id eligible ≡ true
unfolding is_visible
is_visible-member run eligible artifact_type from_role status c h = ground arith

is_visible_draft :
    (run : String) (eligible : List String) (artifact_type from_role status : Option String)
    (c : ArtifactRecord)
    → c.status ≡ ArtifactStatus.draft
    → has_flag "allow_draft_visibility" c.metadata_json ≡ false
    → is_visible run eligible artifact_type from_role status c ≡ false
unfolding is_visible status_passes
is_visible_draft run eligible artifact_type from_role none c draft flag =
    ground (arith, ==_iff c.status ArtifactStatus.final)
is_visible_draft run eligible artifact_type from_role (some status) c draft flag =
    ground (arith, ==_iff c.status ArtifactStatus.draft)

-- On a task of a stored run, `get_upstream_artifacts` returns, whatever type, role and status it is
-- asked for; each artifact in its answer is listed for the run and stands on a task from which a way
-- of one or more hard edges leads to the given one, and a draft is in the answer only if its
-- metadata allow it.
pub get_upstream_artifacts-drafts :
    (task_id : String) (artifact_type from_role status : Option String) (s : ArtifactRegistry)
    (graph : WorkflowGraph)
    → graph_for_task task_id s.repository ≡ ok graph
    → (answer : List ArtifactRecord) × ((get_upstream_artifacts task_id artifact_type from_role
            status s
          ≡ ok answer)
        × ((c : ArtifactRecord)
            → Has c answer
            → Has c (list_run_artifacts graph.workflow_run.id s.repository)
              × IsUpstream graph.edges task_id c.task_id
              × (c.status ≡ ArtifactStatus.draft
                  → has_flag "allow_draft_visibility" c.metadata_json ≡ true)))
unfolding get_upstream_artifacts
get_upstream_artifacts-drafts task_id artifact_type from_role status s graph found =
    let run = graph.workflow_run.id in
    let (eligible, (returned, upstream)) =
      upstream_task_ids-IsUpstream task_id s.repository graph found in
    let test = is_visible run eligible artifact_type from_role status in
    let listed = list_run_artifacts run s.repository in
    (
      sort_artifacts (keep test listed),
      (
        rw found (rw returned refl),
        λ c h.
            let (inside, passed) =
              keep-Has test c listed ((Has-sort_artifacts c (keep test listed)).0 h) in
            (
              inside,
              (upstream c.task_id).0
                  (is_visible-member run eligible artifact_type from_role status c passed),
              λ draft. elim (Bool-cases (has_flag "allow_draft_visibility" c.metadata_json)) [
                | inl allowed ↦ allowed
                | inr kept ↦
                    let hidden =
                      is_visible_draft run eligible artifact_type from_role status c draft kept in
                    absurd (cc)
              ],
            ),
      ),
    )
