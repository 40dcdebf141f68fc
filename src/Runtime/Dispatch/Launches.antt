-- ===== src/Runtime/Dispatch/Launches.antt =====
-- autoweave/local_runtime.py: what launching the tasks of a list does, and where it raises.
use autoweave_library.Common.{
  ℕ, zero, suc, ◌+◌, ◌≤◌, ◌≡◌, refl, subst, Bool, true, false, not, Result, ok, err, Error, bind,
  if◌then◌else◌, List, [], ◌∷◌, ◌++◌, map, String, keep, member, length, length-append, occurrences,
  ◌==◌, ==_iff, string_eq, nat_eq, arith,
}
use autoweave_library.Runtime.Dispatch.{Dispatch, Launched, submit, launch_tasks, first_ids}

-- What holds of the value of a result, and what of its error.
abbrev pub Yields : {A : Type 0} → (A → Type 0) → (Error → Type 0) → Result A → Type 0
Yields P E (ok a) = P a
Yields P E (err e) = E e

pub Yields-bind :
    {A B : Type 0} (P : A → Type 0) (Q : B → Type 0) (E : Error → Type 0) (r : Result A)
    (f : A → Result B)
    → Yields P E r
    → ((a : A) → P a → Yields Q E (f a))
    → Yields Q E (bind r f)
Yields-bind P Q E (ok a) f p h = h a p
Yields-bind P Q E (err e) f p h = p

pub Yields-equal : {A : Type 0} (r : Result A) → Yields (λ a. r ≡ ok a) (λ e. r ≡ err e) r
Yields-equal (ok a) = refl
Yields-equal (err e) = refl

pub Yields-weaken :
    {A : Type 0} (P Q : A → Type 0) (E F : Error → Type 0) (r : Result A)
    → Yields P E r
    → ((a : A) → r ≡ ok a → P a → Q a)
    → ((e : Error) → E e → F e)
    → Yields Q F r
Yields-weaken P Q E F (ok a) p f g = f a refl p
Yields-weaken P Q E F (err e) p f g = g e p

-- How often the task is among the running ones.
abbrev pub runs : String → List Launched → ℕ
runs id fs = occurrences id (map (λ (f : Launched). f.task_id) fs)

pub runs-snoc :
    (id : String) (fs : List Launched) (f : Launched)
    → runs id (fs ++ (f ∷ [])) ≡ runs id fs + occurrences id (f.task_id ∷ [])
runs-snoc id [] f = ground arith
runs-snoc id (g ∷ fs) f = ground (arith, runs-snoc id fs f)

pub first_ids-length : (n : ℕ) (ids : List String) → length (first_ids n ids) ≤ n
unfolding first_ids
first_ids-length zero ids = ground arith
first_ids-length (suc n) [] = ground arith
first_ids-length (suc n) (id ∷ ids) = ground (arith, first_ids-length n ids)

pub first_ids-occurrences :
    (n : ℕ) (id : String) (ids : List String)
    → occurrences id (first_ids n ids) ≤ occurrences id ids
unfolding first_ids
first_ids-occurrences zero id ids = ground arith
first_ids-occurrences (suc n) id [] = ground arith
first_ids-occurrences (suc n) id (j ∷ ids) = ground (arith, first_ids-occurrences n id ids)

pub keep-occurrences :
    (test : String → Bool) (id : String) (ids : List String)
    → occurrences id (keep test ids) ≤ occurrences id ids
keep-occurrences test id [] = ground arith
keep-occurrences test id (j ∷ ids) = ground (arith, keep-occurrences test id ids)

-- A task that runs is not launched again.
pub fresh-occurrences :
    (id : String) (running ids : List String)
    → member id running ≡ true
    → occurrences id (keep (λ (j : String). not (member j running)) ids) ≡ 0
fresh-occurrences id running [] h = ground arith
fresh-occurrences id running (j ∷ ids) h =
    let moved : (id == j) ≡ true → member j running ≡ true =
      λ e. subst (λ k. member k running ≡ true) ((==_iff id j).0 e) h in
    ground (arith, fresh-occurrences id running ids h, moved)

-- What launching the tasks of a list does.
pub record Launches (ids : List String) (d d' : Dispatch) : Type 0 where
  pub grows : length d'.running_futures ≤ length d.running_futures + length ids
  pub spends :
      d'.remaining_steps + length d'.running_futures ≡ d.remaining_steps + length d.running_futures
  pub counts :
      d'.next_launch_index + length d.running_futures
      ≡ d.next_launch_index + length d'.running_futures
  pub repeats :
      (id : String) → runs id d'.running_futures ≤ runs id d.running_futures + occurrences id ids
  pub reports : d'.step_reports_by_index ≡ d.step_reports_by_index

-- The look-up of a task raises the error.
abbrev pub LooksUp : (String → Result Bool) → Error → Type 0
LooksUp is_ready e = (id : String) × (is_ready id ≡ err e)

pub launch_tasks-Launches :
    (left : ℕ) (is_ready : String → Result Bool) (ids : List String) (d : Dispatch)
    → d.remaining_steps ≡ left
    → Yields (Launches ids d) (LooksUp is_ready) (launch_tasks left is_ready ids d)
unfolding launch_tasks submit
launch_tasks-Launches left is_ready [] d e = record {
  grows = omega arith;
  spends = refl;
  counts = refl;
  repeats = λ id. ground arith;
  reports = refl;
}
launch_tasks-Launches zero is_ready (id ∷ ids) d e = record {
  grows = ground arith;
  spends = refl;
  counts = refl;
  repeats = λ j. ground arith;
  reports = refl;
}
launch_tasks-Launches (suc left) is_ready (id ∷ ids) d e =
    Yields-bind (λ ready. is_ready id ≡ ok ready) (Launches (id ∷ ids) d) (LooksUp is_ready)
      (is_ready id) _
      (Yields-weaken (λ r. is_ready id ≡ ok r) (λ r. is_ready id ≡ ok r) (λ x. is_ready id ≡ err x)
        (LooksUp is_ready) (is_ready id) (Yields-equal (is_ready id)) (λ a q p. p) (λ x p. (id, p)))
      (λ ready found.
        one (launch_tasks-Launches left is_ready ids (submit left id d) refl)
          (launch_tasks-Launches (suc left) is_ready ids d e) ready)
  where
    one :
        Yields
          (Launches ids (submit left id d))
          (LooksUp is_ready)
          (launch_tasks left is_ready ids (submit left id d))
        → Yields (Launches ids d) (LooksUp is_ready) (launch_tasks (suc left) is_ready ids d)
        → (ready : Bool)
        → Yields (Launches (id ∷ ids) d) (LooksUp is_ready) (
            if ready
            then launch_tasks left is_ready ids (submit left id d)
            else launch_tasks (suc left) is_ready ids d)
    one taken passed true =
        let d1 = submit left id d in
        let f : Launched = record { launch_index = d.next_launch_index; task_id = id } in
        let longer = length-append d.running_futures (f ∷ []) in
        Yields-weaken (Launches ids d1) (Launches (id ∷ ids) d) (LooksUp is_ready)
          (LooksUp is_ready) (launch_tasks left is_ready ids d1) taken
          (λ d' q l. record {
            grows = ground (arith, l.grows, longer);
            spends = ground (arith, l.spends, longer);
            counts = ground (arith, l.counts, longer);
            repeats = λ j. ground (arith, l.repeats j, runs-snoc j d.running_futures f);
            reports = l.reports;
          })
          (λ x p. p)
    one taken passed false =
        Yields-weaken (Launches ids d) (Launches (id ∷ ids) d) (LooksUp is_ready) (LooksUp is_ready)
          (launch_tasks (suc left) is_ready ids d) passed
          (λ d' q l. record {
            grows = ground (arith, l.grows);
            spends = l.spends;
            counts = l.counts;
            repeats = λ j. ground (arith, l.repeats j);
            reports = l.reports;
          })
          (λ x p. p)
