-- ===== src/Runtime/Dispatch/Bounds.antt =====
-- autoweave/local_runtime.py: what holds in every state of the dispatching loop.
use autoweave_library.Common.{
  ℕ, suc, ◌+◌, ◌-◌, ◌≤◌, ◌≡◌, ◌⊎◌, refl, sym, ap, subst, Bool, not, Result, ok, err, Error, bind,
  Has, ◌&&◌, List, [], ◌∷◌, String, keep, member, length, length-append, max, ltb, occurrences,
  member-eq-ltb, string_eq, nat_eq, arith, Bool-cases, inl, inr,
}
use autoweave_library.Runtime.Dispatch.{
  Dispatch, Launched, LocalTaskRunReport, Schedule, World, launch_tasks, first_ids,
  available_capacity, launch, launch_scheduled, results_of, collect, running_ids, new_dispatch,
}
use autoweave_library.Runtime.Dispatch.Launches.{
  Yields, Yields-bind, Yields-weaken, Yields-equal, runs, first_ids-length, first_ids-occurrences,
  keep-occurrences, fresh-occurrences, Launches, LooksUp, launch_tasks-Launches,
}

-- At most `limit` futures run, no two of one task; every step taken is one future launched, and
-- every future launched runs or is reported.
pub record IsBounded (limit max_steps : ℕ) (d : Dispatch) : Type 0 where
  pub few : length d.running_futures ≤ limit
  pub once : (id : String) → runs id d.running_futures ≤ 1
  pub budget : d.remaining_steps + d.next_launch_index ≡ max 1 max_steps
  pub accounted : length d.running_futures + length d.step_reports_by_index ≡ d.next_launch_index

scheduled-IsBounded :
    (limit max_steps : ℕ) (schedule : Schedule) (d d' : Dispatch)
    → ((id : String) → occurrences id schedule.ready_tasks ≤ 1)
    → IsBounded limit max_steps d
    → Launches
        (first_ids
          (available_capacity limit schedule d)
          (keep (λ (j : String). not (member j (running_ids d))) schedule.ready_tasks))
        d
        d'
    → IsBounded limit max_steps d'
unfolding available_capacity
scheduled-IsBounded limit max_steps schedule d d' listed b l =
    let running = running_ids d in
    let fresh = keep (λ (j : String). not (member j running)) schedule.ready_tasks in
    let capacity = limit - max (length d.running_futures) schedule.active_attempt_count in
    let short = first_ids-length capacity fresh in
    record {
      few = ground (arith, l.grows, short, b.few);
      once = λ id. ground (
        arith,
        l.repeats id,
        first_ids-occurrences capacity id fresh,
        keep-occurrences (λ (j : String). not (member j running)) id schedule.ready_tasks,
        fresh-occurrences id running schedule.ready_tasks,
        member-eq-ltb id running,
        listed id,
        b.once id,
      );
      budget = ground (arith, l.spends, l.counts, b.budget);
      accounted = ground (arith, l.counts, b.accounted, ap length l.reports);
    }

-- The schedule of the round, or the look-up of a task in it, raises the error.
abbrev pub Unscheduled : Result Schedule → Error → Type 0
Unscheduled schedule e =
    (schedule ≡ err e)
    ⊎ ((listed : Schedule) × ((schedule ≡ ok listed) × LooksUp listed.is_ready e))

-- What the start of a round leaves: the state itself, or one with tasks of the schedule launched.
abbrev pub Starts : ℕ → Result Schedule → Dispatch → Dispatch → Type 0
Starts limit schedule d d' =
    (d' ≡ d)
    ⊎ ((listed : Schedule) × ((schedule ≡ ok listed)
          × Launches
              (first_ids (available_capacity limit listed d)
                (keep (λ (j : String). not (member j (running_ids d))) listed.ready_tasks))
              d d'))

pub launch-Starts :
    (limit : ℕ) (schedule : Result Schedule) (d : Dispatch)
    → Yields (Starts limit schedule d) (Unscheduled schedule) (launch limit schedule d)
unfolding launch launch_scheduled
launch-Starts limit schedule d =
    elim (Bool-cases (not d.stop_launching && ltb 0 d.remaining_steps)) [
      | inr stopped ↦ rw (launch, stopped) (inl refl)
      | inl open_round ↦ rw (launch, open_round) (on schedule)
    ]
  where
    on :
        (r : Result Schedule)
        → Yields (Starts limit r d) (Unscheduled r) (bind r (launch_scheduled limit d))
    on (err e) = inl refl
    on (ok listed) =
        let ids =
          first_ids (available_capacity limit listed d)
            (keep (λ (j : String). not (member j (running_ids d))) listed.ready_tasks) in
        Yields-weaken (Launches ids d) (Starts limit (ok listed) d) (LooksUp listed.is_ready)
          (Unscheduled (ok listed)) (launch_tasks d.remaining_steps listed.is_ready ids d)
          (launch_tasks-Launches d.remaining_steps listed.is_ready ids d refl)
          (λ d' q l. inr (listed, (refl, l))) (λ e p. inr (listed, (refl, p)))

pub keep-split :
    (test : Launched → Bool) (fs : List Launched)
    → length (keep (λ f. not (test f)) fs) + length (keep test fs) ≡ length fs
keep-split test [] = refl
keep-split test (f ∷ fs) = ground (arith, keep-split test fs)

keep-runs :
    (test : Launched → Bool) (id : String) (fs : List Launched)
    → runs id (keep test fs) ≤ runs id fs
keep-runs test id [] = ground arith
keep-runs test id (f ∷ fs) = ground (arith, keep-runs test id fs)

-- The report of one of these futures raises the error.
abbrev pub Unreported : (ℕ → Result LocalTaskRunReport) → List Launched → Error → Type 0
Unreported report fs e = (f : Launched) × (Has f fs × (report f.launch_index ≡ err e))

results_of-length :
    (report : ℕ → Result LocalTaskRunReport) (fs : List Launched)
    → Yields (λ rs. length rs ≡ length fs) (Unreported report fs) (results_of report fs)
unfolding results_of
results_of-length report [] = refl
results_of-length report (f ∷ fs) =
    let raises = Unreported report (f ∷ fs) in
    Yields-bind (λ a. report f.launch_index ≡ ok a) (λ rs. length rs ≡ suc (length fs)) raises
      (report f.launch_index) _
      (Yields-weaken (λ a. report f.launch_index ≡ ok a) (λ a. report f.launch_index ≡ ok a)
        (λ e. report f.launch_index ≡ err e) raises (report f.launch_index)
        (Yields-equal (report f.launch_index)) (λ a q p. p) (λ e p. (f, (inl refl, p))))
      (λ a found.
        Yields-bind (λ rs. length rs ≡ length fs) (λ rs. length rs ≡ suc (length fs)) raises
          (results_of report fs) _
          (Yields-weaken (λ rs. length rs ≡ length fs) (λ rs. length rs ≡ length fs)
            (Unreported report fs) raises (results_of report fs) (results_of-length report fs)
            (λ rs q p. p) (λ e (g, (inside, p)). (g, (inr inside, p))))
          (λ rs same. ap suc same))

-- What a round's wait leaves: the completed futures are reported, the others run.
pub record Collects (is_done : ℕ → Bool) (d d' : Dispatch) : Type 0 where
  pub rest :
      d'.running_futures ≡ keep (λ (f : Launched). not (is_done f.launch_index)) d.running_futures
  pub steps : d'.remaining_steps ≡ d.remaining_steps
  pub launches : d'.next_launch_index ≡ d.next_launch_index
  pub added :
      length d'.step_reports_by_index
      ≡ length d.step_reports_by_index
        + length (keep (λ (f : Launched). is_done f.launch_index) d.running_futures)

pub collect-Collects :
    (is_done : ℕ → Bool) (report : ℕ → Result LocalTaskRunReport) (d : Dispatch)
    → Yields
        (Collects is_done d)
        (Unreported report (keep (λ (f : Launched). is_done f.launch_index) d.running_futures))
        (collect is_done report d)
unfolding collect
collect-Collects is_done report d =
    let completed = keep (λ (f : Launched). is_done f.launch_index) d.running_futures in
    Yields-bind (λ rs. length rs ≡ length completed) (Collects is_done d)
      (Unreported report completed) (results_of report completed) _
      (results_of-length report completed)
      (λ rs same. record {
        rest = refl;
        steps = refl;
        launches = refl;
        added = omega (arith, length-append d.step_reports_by_index rs, same);
      })

Collects-IsBounded :
    (limit max_steps : ℕ) (is_done : ℕ → Bool) (d d' : Dispatch)
    → IsBounded limit max_steps d
    → Collects is_done d d'
    → IsBounded limit max_steps d'
Collects-IsBounded limit max_steps is_done d d' b c =
    let done : Launched → Bool = λ f. is_done f.launch_index in
    let parts = keep-split done d.running_futures in
    let left = ap length c.rest in
    record {
      few = omega (arith, parts, left, b.few);
      once = λ id. omega (
        arith,
        ap (runs id) c.rest,
        keep-runs (λ f. not (done f)) id d.running_futures,
        b.once id,
      );
      budget = omega (arith, c.steps, c.launches, b.budget);
      accounted = omega (arith, parts, left, c.added, c.launches, b.accounted);
    }

-- The states of the loop, and those inside a round.
pub data Reach (limit max_steps : ℕ) (world : World) : Dispatch → Type 0 where
  begin : Reach limit max_steps world (new_dispatch max_steps)
  launched :
      {d d' : Dispatch} (round : ℕ)
      → Reach limit max_steps world d
      → launch limit (world.schedule round d) d ≡ ok d'
      → Reach limit max_steps world d'
  collected :
      {d d' : Dispatch} (round : ℕ)
      → Reach limit max_steps world d
      → collect (world.is_done round d) world.report d ≡ ok d'
      → Reach limit max_steps world d'

-- In every round the scheduler lists each task at most once.
abbrev pub ListsOnce : World → Type 0
ListsOnce world =
    (round : ℕ) (d : Dispatch) (schedule : Schedule)
    → world.schedule round d ≡ ok schedule
    → (id : String) → occurrences id schedule.ready_tasks ≤ 1

Starts-IsBounded :
    (limit max_steps : ℕ) (schedule : Result Schedule) (d d' : Dispatch)
    → ((listed : Schedule)
        → schedule ≡ ok listed
        → (id : String) → occurrences id listed.ready_tasks ≤ 1)
    → IsBounded limit max_steps d
    → Starts limit schedule d d'
    → IsBounded limit max_steps d'
Starts-IsBounded limit max_steps schedule d d' once b (inl same) =
    subst (IsBounded limit max_steps) (sym same) b
Starts-IsBounded limit max_steps schedule d d' once b (inr (listed, (found, l))) =
    scheduled-IsBounded limit max_steps listed d d' (once listed found) b l

-- If the scheduler never lists a task twice, then in every state of the dispatching loop, whatever
-- the threads do, at most `limit` futures run, no two of them for one task; the steps left and the
-- futures launched make up the steps given, at least one; and every future launched runs or is
-- reported.
pub Reach-IsBounded :
    (limit max_steps : ℕ) (world : World) (d : Dispatch)
    → ListsOnce world
    → Reach limit max_steps world d
    → IsBounded limit max_steps d
unfolding new_dispatch
Reach-IsBounded limit max_steps world _ listed begin = record {
  few = ground arith;
  once = λ id. ground arith;
  budget = ground arith;
  accounted = refl;
}
Reach-IsBounded limit max_steps world _ listed (launched {d = d} {d' = d'} round r same) =
    let schedule = world.schedule round d in
    Starts-IsBounded limit max_steps schedule d d' (listed round d)
      (Reach-IsBounded limit max_steps world d listed r)
      (subst (Yields (Starts limit schedule d) (Unscheduled schedule)) same
        (launch-Starts limit schedule d))
Reach-IsBounded limit max_steps world _ listed (collected {d = d} {d' = d'} round r same) =
    let is_done = world.is_done round d in
    let completed = keep (λ (f : Launched). is_done f.launch_index) d.running_futures in
    Collects-IsBounded limit max_steps is_done d d'
      (Reach-IsBounded limit max_steps world d listed r)
      (subst (Yields (Collects is_done d) (Unreported world.report completed)) same
        (collect-Collects is_done world.report d))
