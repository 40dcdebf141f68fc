-- ===== src/Orchestration/Steps/Rules.antt =====
-- A rule for each statement that the operations are made of: what holds of the final state, where
-- a raise leaves the state as it is.
use autoweave_library.Common.{
  ℕ, ◌≡◌, refl, Bool, true, false, Option, none, some, String, lookup, get_or, Result, ok, err,
  Error, pure, or_raise, and_then, if◌then◌else◌, ◌>>=◌, ◌>>◌, guard, lift, arith, key_error,
  string_eq,
}
use autoweave_library.Models.{TaskState, TaskRecord, transition}
use autoweave_library.Orchestration.State.{
  WorkflowRunState, Run, find_task, move_to, update_task, hard_dependencies_satisfied,
}
use autoweave_library.Orchestration.State.Valid.{IsValid, put_task, update_task_lem}
use autoweave_library.Orchestration.State.Dependencies.{
  satisfied_result, hard_dependencies_satisfied_lem,
}

module _ {A : Type 0} (P : WorkflowRunState → Type 0) (s : WorkflowRunState) where
  pub guard-ends :
      (b : Bool) (e : Error) (f : Run A) → P s → (b ≡ true → P (f s).1) → P ((guard b e >> f) s).1
  guard-ends true e f stop go = go refl
  guard-ends false e f stop go = stop

  pub if-ends :
      {B : Type 0} (b : Bool) (m k : Run B) (f : B → Run A)
      → (b ≡ true → P ((m >>= f) s).1)
      → (b ≡ false → P ((k >>= f) s).1)
      → P (((if b then m else k) >>= f) s).1
  if-ends true m k f on off = on refl
  if-ends false m k f on off = off refl

  pub option-ends :
      {B : Type 0} (o : Option B) (e : Error) (f : B → Run A)
      → P s
      → ((b : B) → o ≡ some b → P (f b s).1)
      → P ((or_raise o e >>= f) s).1
  option-ends none e f stop go = stop
  option-ends (some b) e f stop go = go b refl

  pub if-end :
      (b : Bool) (m k : Run A)
      → (b ≡ true → P (m s).1)
      → (b ≡ false → P (k s).1)
      → P ((if b then m else k) s).1
  if-end true m k on off = on refl
  if-end false m k on off = off refl

  pub bind-ends :
      {B : Type 0} (m : Run B) (f : B → Run A)
      → P (m s).1
      → ((b : B) → (m s).0 ≡ ok b → P (f b (m s).1).1)
      → P ((m >>= f) s).1
  bind-ends {B} m f stop go = split (m s).0 refl
    where
      split : (r : Result B) → (m s).0 ≡ r → P (and_then r f (m s).1).1
      split (ok b) e = go b e
      split (err e') e = stop

  pub then_pure : {B : Type 0} (m : Run B) (g : B → A) → P (m s).1 → P ((m >>= λ b. pure (g b)) s).1
  then_pure {B} m g h = go (m s).0
    where
      go : (r : Result B) → P (and_then r (λ b. pure (g b)) (m s).1).1
      go (ok b) = h
      go (err e) = h

  pub result-ends :
      {B : Type 0} (r : Result B) (f : B → Run A)
      → P s
      → ((b : B) → r ≡ ok b → P (f b s).1)
      → P (and_then r f s).1
  result-ends (ok b) f stop go = go b refl
  result-ends (err e) f stop go = stop

  pub find_task-ends :
      (k : String) (f : TaskRecord → Run A)
      → IsValid s
      → P s
      → ((t : TaskRecord) → lookup t.id s.tasks_by_id ≡ some t → P (f t s).1)
      → P ((find_task k >>= f) s).1
  unfolding find_task
  find_task-ends k f v stop go = found (lookup i s.tasks_by_id) refl
    where
      i : String
      i = get_or k k s.tasks_by_key

      found :
          (o : Option TaskRecord)
          → lookup i s.tasks_by_id ≡ o
          → P ((or_raise o key_error >>= f) s).1
      found none e = stop
      found (some t) e = go t (ground (arith, v.ids_match i))

  pub satisfied-ends :
      (k : String) (f : Bool → Run A)
      → P s
      → ((b : Bool) → satisfied_result k s ≡ ok b → P (f b s).1)
      → P ((hard_dependencies_satisfied k >>= f) s).1
  satisfied-ends k f stop go =
      rw (hard_dependencies_satisfied_lem k s) (result-ends (satisfied_result k s) f stop go)

  pub update_task-ends :
      (t' : TaskRecord) (f : TaskRecord → Run A)
      → IsValid s
      → P (f t' (put_task t' s)).1
      → P ((update_task t' >>= f) s).1
  update_task-ends t' f v go = rw (update_task_lem t' s v) go

  pub move_to-ends :
      (target : TaskState) (reason : Option String) (now : ℕ) (t : TaskRecord)
      (f : TaskRecord → Run A)
      → IsValid s
      → P s
      → ((t' : TaskRecord) → transition target reason now t ≡ ok t' → P (f t' (put_task t' s)).1)
      → P ((move_to target reason now t >>= f) s).1
  unfolding move_to
  move_to-ends target reason now t f v stop go = moved (transition target reason now t) refl
    where
      moved :
          (r : Result TaskRecord)
          → transition target reason now t ≡ r
          → P (((lift r >>= update_task) >>= f) s).1
      moved (ok t') e = rw (update_task_lem t' s v) (go t' e)
      moved (err error) e = stop

module _ (P : WorkflowRunState → Type 0) (s : WorkflowRunState) where
  pub move_to-end :
      (target : TaskState) (reason : Option String) (now : ℕ) (t : TaskRecord)
      → IsValid s
      → P s
      → ((t' : TaskRecord) → transition target reason now t ≡ ok t' → P (put_task t' s))
      → P (move_to target reason now t s).1
  unfolding move_to
  move_to-end target reason now t v stop go = moved (transition target reason now t) refl
    where
      moved :
          (r : Result TaskRecord)
          → transition target reason now t ≡ r
          → P ((lift r >>= update_task) s).1
      moved (ok t') e = rw (update_task_lem t' s v) (go t' e)
      moved (err error) e = stop

  pub update_task-end : (t' : TaskRecord) → IsValid s → P (put_task t' s) → P (update_task t' s).1
  update_task-end t' v go = rw (update_task_lem t' s v) go
