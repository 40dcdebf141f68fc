-- ===== src/Orchestration/Safety/Dynamic.antt =====
-- The start of a run, and tasks added to it: where the ids and the keys of a batch are distinct,
-- the indices stay right; where its edges lead into new tasks only, no started task is cut off.
use autoweave_library.Common.{
  ◌≡◌, refl, subst, true, false, Bool-cases, Option, none, some, List, [], ◌∷◌, map, String, Dict,
  lookup, insert, lookup-insert, arith, member, ◌==◌, ==_iff, ==_refl, string_eq, if◌then◌else◌,
  Option-cases, inl, inr,
}
use autoweave_library.Models.{TaskRecord}
use autoweave_library.Orchestration.Graph.Counts.{task_ids}
use autoweave_library.Orchestration.State.{index_ids, index_keys}
use autoweave_library.Orchestration.State.Valid.{HasId, HasKey}

abbrev pub task_keys : List TaskRecord → List String
task_keys tasks = map (λ (t : TaskRecord). t.task_key) tasks

-- Each text is listed once.
abbrev pub IsDistinct : List String → Type 0
IsDistinct [] = Unit
IsDistinct (x ∷ xs) = (member x xs ≡ false) × IsDistinct xs

-- The task of a batch with an id, and the id that a batch gives to a key.
abbrev pub by_id : String → List TaskRecord → Option TaskRecord
by_id k [] = none
by_id k (t ∷ ts) = if k == t.id then some t else by_id k ts

abbrev pub by_key : String → List TaskRecord → Option String
by_key k [] = none
by_key k (t ∷ ts) = if k == t.task_key then some t.id else by_key k ts

abbrev pub or_else {ℓ} : {A : Type ℓ} → Option A → Option A → Option A
or_else none o = o
or_else (some a) o = some a

by_id_absent :
    (k : String) (ts : List TaskRecord) → member k (task_ids ts) ≡ false → by_id k ts ≡ none
by_id_absent k [] h = refl
by_id_absent k (t ∷ ts) h = ground (arith, by_id_absent k ts)

by_key_absent :
    (k : String) (ts : List TaskRecord) → member k (task_keys ts) ≡ false → by_key k ts ≡ none
by_key_absent k [] h = refl
by_key_absent k (t ∷ ts) h = ground (arith, by_key_absent k ts)

pub lookup-index_ids :
    (k : String) (ts : List TaskRecord) (d : Dict String TaskRecord)
    → IsDistinct (task_ids ts)
    → lookup k (index_ids ts d) ≡ or_else (by_id k ts) (lookup k d)
unfolding index_ids
lookup-index_ids k [] d h = refl
lookup-index_ids k (t ∷ ts) d h = ground (
  arith,
  lookup-index_ids k ts (insert t.id t d) h.1,
  lookup-insert k t.id t d,
  by_id_absent t.id ts h.0,
  ==_iff k t.id,
)

pub lookup-index_keys :
    (k : String) (ts : List TaskRecord) (d : Dict String String)
    → IsDistinct (task_keys ts)
    → lookup k (index_keys ts d) ≡ or_else (by_key k ts) (lookup k d)
unfolding index_keys
lookup-index_keys k [] d h = refl
lookup-index_keys k (t ∷ ts) d h = ground (
  arith,
  lookup-index_keys k ts (insert t.task_key t.id d) h.1,
  lookup-insert k t.task_key t.id d,
  by_key_absent t.task_key ts h.0,
  ==_iff k t.task_key,
)

pub by_id-HasId : (k : String) (ts : List TaskRecord) → HasId k (by_id k ts)
by_id-HasId k [] = tt
by_id-HasId k (t ∷ ts) = ground (arith, by_id-HasId k ts, ==_iff k t.id)

-- In a batch with distinct ids, a key of the batch leads to a task of the batch with that key.
abbrev pub LeadsTo : String → List TaskRecord → Option String → Type 0
LeadsTo k ts none = Unit
LeadsTo k ts (some i) = HasKey k (by_id i ts)

pub by_key-LeadsTo :
    (k : String) (ts : List TaskRecord) → IsDistinct (task_ids ts) → LeadsTo k ts (by_key k ts)
by_key-LeadsTo k [] h = tt
by_key-LeadsTo k (t ∷ ts) h = elim (Option-cases (by_key k ts)) [
  | inl missing ↦ ground (arith, ==_iff k t.task_key, ==_refl t.id)
  | inr (i, known) ↦ ground (
    arith,
    by_key-LeadsTo k ts h.1,
    by_id_absent t.id ts h.0,
    ==_iff k t.task_key,
    ==_iff i t.id,
    ==_refl t.id,
  )
]

by_id-member :
    (i : String) (t : TaskRecord) (ts : List TaskRecord)
    → by_id i ts ≡ some t
    → member t.task_key (task_keys ts) ≡ true
by_id-member i t [] h = absurd (ground arith)
by_id-member i t (u ∷ us) h = elim (Bool-cases (i == u.id)) [
  | inl here ↦
      let e : some u ≡ some t = ground arith in ground (arith, ==_iff t.task_key u.task_key)
  | inr there ↦ ground (arith, by_id-member i t us)
]

-- In a batch with distinct keys, the key of a task of the batch leads to it.
pub by_id-by_key :
    (i : String) (t : TaskRecord) (ts : List TaskRecord)
    → IsDistinct (task_keys ts)
    → by_id i ts ≡ some t
    → by_key t.task_key ts ≡ some i
by_id-by_key i t [] d h = absurd (ground arith)
by_id-by_key i t (u ∷ us) d h = elim (Bool-cases (i == u.id)) [
  | inl here ↦
      let e : some u ≡ some t = ground arith in
      ground (arith, e, ==_iff i u.id, ==_iff t.task_key u.task_key)
  | inr there ↦
      let later : by_id i us ≡ some t = ground arith in
      let inside = by_id-member i t us later in
      let moved : (t.task_key == u.task_key) ≡ true → member u.task_key (task_keys us) ≡ true = λ e.
        subst (λ k. member k (task_keys us) ≡ true) ((==_iff t.task_key u.task_key).0 e) inside in
      ground (arith, moved, d.0, by_id-by_key i t us d.1 later)
]
