-- ===== src/Artifacts/Registry/Kept.antt =====
-- autoweave/artifacts/registry.py: the rows and lists of artifacts under the writes of `put_artifact`.
use autoweave_library.Common.{
  Has, ◌≡◌, ◌⊎◌, inl, inr, refl, ap, subst, Bool, true, false, some, List, [], ◌∷◌, map, String,
  Dict, lookup, get_or, lookup-insert, set_add, keep, member, member-append, All, Bool-cases,
  Option-cases, if◌then◌else◌, ◌==◌, ==_iff, ==_refl, string_eq, arith,
}
use autoweave_library.Storage.Artifact.{ArtifactRecord, ArtifactStatus, artifact_status_eq}
use autoweave_library.Storage.Repository.{rows_of, add_at, save_row}
use autoweave_library.Storage.Repository.Rows.{save_artifact}
use autoweave_library.Artifacts.Registry.{ArtifactRegistry, persist_artifact, supersede}

abbrev pub rows : ArtifactRegistry → Dict String ArtifactRecord
rows s = s.repository.artifacts.rows

abbrev pub ids : String → ArtifactRegistry → List String
ids task s = get_or [] task s.repository.artifacts_by_task

-- Each artifact is stored under its own id.
abbrev pub IsKeyed : ArtifactRegistry → Type 0
IsKeyed s = (i : String) (c : ArtifactRecord) → lookup i (rows s) ≡ some c → c.id ≡ i

abbrev pub is_final : ArtifactRecord → Bool
is_final c = c.status == ArtifactStatus.final

abbrev pub id_of : ArtifactRecord → String
id_of c = c.id

abbrev pub final_ids : List ArtifactRecord → List String
final_ids cs = map id_of (keep is_final cs)

pub persist-rows :
    (a : ArtifactRecord) (s : ArtifactRegistry) (i : String)
    → lookup i (rows (persist_artifact a s)) ≡ (if i == a.id then some a else lookup i (rows s))
unfolding persist_artifact save_artifact save_row
persist-rows a s i = lookup-insert i a.id a (rows s)

pub persist-ids :
    (a : ArtifactRecord) (s : ArtifactRegistry) (i task : String)
    → member i (ids task (persist_artifact a s)) ≡ true
    → (member i (ids task s) ≡ true) ⊎ (i ≡ a.id)
unfolding persist_artifact save_artifact add_at set_add
persist-ids a s i task h = ground (
  arith,
  lookup-insert task a.task_id (set_add a.id (get_or [] a.task_id s.repository.artifacts_by_task))
      s.repository.artifacts_by_task,
  member-append i (get_or [] a.task_id s.repository.artifacts_by_task) (a.id ∷ []),
  ==_iff task a.task_id,
  ==_iff i a.id,
)

-- What is stored under an id after some final artifacts are superseded: a superseded one, or what
-- was there, if it is none of them.
abbrev pub Kept : List ArtifactRecord → ArtifactRegistry → String → ArtifactRecord → Type 0
Kept ps s i c =
    (c.status ≡ ArtifactStatus.superseded)
    ⊎ ((lookup i (rows s) ≡ some c) × (member i (final_ids ps) ≡ false))

pub supersede-rows :
    (ps : List ArtifactRecord) (s : ArtifactRegistry) (i : String) (c : ArtifactRecord)
    → lookup i (rows (supersede ps s)) ≡ some c
    → Kept ps s i c
unfolding supersede
supersede-rows [] s i c h = inr (h, refl)
supersede-rows (p ∷ ps) s i c h = elim (Bool-cases (is_final p)) [
  | inl final ↦
      let p' = record p { status = ArtifactStatus.superseded } in
      ground
        (arith, supersede-rows ps (persist_artifact p' s) i c, persist-rows p' s i, ==_iff i p.id)
  | inr other ↦ ground (arith, supersede-rows ps s i c)
]

pub supersede-ids :
    (ps : List ArtifactRecord) (s : ArtifactRegistry) (i task : String)
    → member i (ids task (supersede ps s)) ≡ true
    → (member i (ids task s) ≡ true) ⊎ (member i (final_ids ps) ≡ true)
unfolding supersede
supersede-ids [] s i task h = inl h
supersede-ids (p ∷ ps) s i task h = elim (Bool-cases (is_final p)) [
  | inl final ↦
      let p' = record p { status = ArtifactStatus.superseded } in
      ground (
        arith,
        supersede-ids ps (persist_artifact p' s) i task,
        persist-ids p' s i task,
        ==_iff i p.id,
      )
  | inr other ↦ ground (arith, supersede-ids ps s i task)
]

pub Has-keep :
    (test : ArtifactRecord → Bool) (x : ArtifactRecord) (xs : List ArtifactRecord)
    → Has x xs
    → test x ≡ true
    → Has x (keep test xs)
Has-keep test x [] h k = h
Has-keep test x (y ∷ ys) (inl e) k = rw (subst (λ z. test z ≡ true) e k) (inl e)
Has-keep test x (y ∷ ys) (inr h) k = elim (Bool-cases (test y)) [
  | inl here ↦ rw here (inr (Has-keep test x ys h k))
  | inr skip ↦ rw skip (Has-keep test x ys h k)
]

pub Has-member :
    (x : ArtifactRecord) (xs : List ArtifactRecord) → Has x xs → member x.id (map id_of xs) ≡ true
Has-member x [] h = absurd h
Has-member x (y ∷ ys) (inl e) = ground (arith, ap id_of e, ==_iff x.id y.id)
Has-member x (y ∷ ys) (inr h) = ground (arith, Has-member x ys h)

pub Has-rows_of :
    (i : String) (c : ArtifactRecord) (d : Dict String ArtifactRecord) (is : List String)
    → member i is ≡ true
    → lookup i d ≡ some c
    → Has c (rows_of d is)
unfolding rows_of
Has-rows_of i c d [] h k = absurd (cc)
Has-rows_of i c d (j ∷ is) h k = elim (Bool-cases (i == j)) [
  | inl same ↦
      let found : lookup j d ≡ some c = ground (arith, ==_iff i j) in rw (rows_of, found) (inl refl)
  | inr other ↦
      let later = Has-rows_of i c d is (ground arith) k in
      elim (Option-cases (lookup j d)) [
        | inl missing ↦ rw (rows_of, missing) later
        | inr (b, found) ↦ rw (rows_of, found) (inr later)
      ]
]

pub All-rows_of :
    (Q : ArtifactRecord → Type 0) (d : Dict String ArtifactRecord) (is : List String)
    → ((i : String) (c : ArtifactRecord) → member i is ≡ true → lookup i d ≡ some c → Q c)
    → All Q (rows_of d is)
unfolding rows_of
All-rows_of Q d [] each = tt
All-rows_of Q d (j ∷ is) each =
    let later = All-rows_of Q d is (λ i c h. each i c (ground arith)) in
    elim (Option-cases (lookup j d)) [
      | inl missing ↦ rw (rows_of, missing) later
      | inr (c, found) ↦ rw (rows_of, found) (each j c (ground (arith, ==_refl j)) found, later)
    ]

pub All-keep :
    (Q : ArtifactRecord → Type 0) (test : ArtifactRecord → Bool) (xs : List ArtifactRecord)
    → All (λ x. test x ≡ true → Q x) xs
    → All Q (keep test xs)
All-keep Q test [] h = tt
All-keep Q test (x ∷ xs) h = elim (Bool-cases (test x)) [
  | inl here ↦ rw here (h.0 here, All-keep Q test xs h.1)
  | inr skip ↦ rw skip (All-keep Q test xs h.1)
]
