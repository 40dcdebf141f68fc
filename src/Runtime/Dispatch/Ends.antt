-- ===== src/Runtime/Dispatch/Ends.antt =====
-- autoweave/local_runtime.py: the dispatching loop ends.
use autoweave_library.Common.{
  ℕ, zero, suc, ◌+◌, ◌≤◌, ◌<◌, ◌≡◌, ◌⊎◌, refl, ap, Error, Result, ok, err, Bool, if◌then◌else◌,
  true, false, not, ◌||◌, Option, some, List, [], ◌∷◌, keep, string_eq, any, length, max, ltb,
  nat_eq, arith, Bool-cases, inl, inr,
}
use autoweave_library.Runtime.Dispatch.{
  Dispatch, Launched, Schedule, World, launch, collect, dispatch_rounds, is_running, new_dispatch,
}
use autoweave_library.Runtime.Dispatch.Launches.{Yields}
use autoweave_library.Runtime.Dispatch.Bounds.{
  Starts, launch-Starts, Unscheduled, Collects, collect-Collects, Unreported, keep-split, Reach,
  begin, launched, collected, ListsOnce, Reach-IsBounded,
}

-- While a future runs, the wait of a round returns with a completed one.
abbrev pub WaitReturns : World → Type 0
WaitReturns world =
    (round : ℕ) (d : Dispatch)
    → is_running d ≡ true
    → any (λ (f : Launched). world.is_done round d f.launch_index) d.running_futures ≡ true

-- The steps left and the futures running: how many rounds the loop has at most.
abbrev pub work : Dispatch → ℕ
work d = d.remaining_steps + length d.running_futures

Starts-work :
    (limit : ℕ) (schedule : Result Schedule) (d d' : Dispatch)
    → Starts limit schedule d d'
    → work d' ≡ work d
Starts-work limit schedule d d' (inl same) = ap work same
Starts-work limit schedule d d' (inr (listed, (found, l))) = l.spends

nothing_runs : (fs : List Launched) → ltb 0 (length fs) ≡ false → fs ≡ []
nothing_runs [] h = refl
nothing_runs (f ∷ fs) h = absurd (ground arith)

keep-lt :
    (test : Launched → Bool) (fs : List Launched)
    → any test fs ≡ true
    → length (keep (λ f. not (test f)) fs) < length fs
keep-lt test [] h = absurd (ground arith)
keep-lt test (f ∷ fs) h = ground (arith, keep-lt test fs, keep-split test fs)

Collects-work :
    (round : ℕ) (world : World) (d d' : Dispatch)
    → WaitReturns world
    → is_running d ≡ true
    → Collects (world.is_done round d) d d'
    → work d' < work d
Collects-work round world d d' returns runs c = omega (
  arith,
  ap length c.rest,
  c.steps,
  keep-lt (λ (f : Launched). world.is_done round d f.launch_index) d.running_futures
      (returns round d runs),
)

-- In a state of the loop, the schedule or the look-up of a task in it raises the error, or the
-- report of a completed future does.
abbrev pub Raises : (limit max_steps : ℕ) → World → Error → Type 0
Raises limit max_steps world e =
    (round : ℕ) × (d : Dispatch) × (Reach limit max_steps world d
      × (Unscheduled (world.schedule round d) e
          ⊎ Unreported world.report
              (keep (λ (f : Launched). world.is_done round d f.launch_index) d.running_futures) e))

-- The loop ends in a state of the run in which nothing runs, or with an error.
abbrev Ends : ℕ → ℕ → World → Option (Result Dispatch) → Type 0
Ends limit max_steps world r =
    ((d : Dispatch) × ((r ≡ some (ok d)) × (is_running d ≡ false) × Reach limit max_steps world d))
    ⊎ ((e : Error) × ((r ≡ some (err e)) × Raises limit max_steps world e))

module _ (limit max_steps : ℕ) (world : World) (returns : WaitReturns world) where
  -- What the rounds after this one do.
  abbrev Later : (fuel round : ℕ) → Type 0
  Later fuel round =
      (d : Dispatch)
      → work d < fuel
      → Reach limit max_steps world d
      → Ends limit max_steps world (dispatch_rounds limit world fuel round d)

  collect_then :
      (fuel round : ℕ) (d : Dispatch) (c : Result Dispatch)
      → Later fuel (suc round)
      → Reach limit max_steps world d
      → work d < suc fuel
      → is_running d ≡ true
      → collect (world.is_done round d) world.report d ≡ c
      → Yields
          (Collects (world.is_done round d) d)
          (Unreported world.report
            (keep (λ (f : Launched). world.is_done round d f.launch_index) d.running_futures))
          c
      → Ends limit max_steps world (elim c [
        | err e ↦ some (err e)
        | ok next ↦ dispatch_rounds limit world fuel (suc round) next
      ])
  collect_then fuel round d (err e) later reached enough busy collects p =
      inr (e, (refl, (round, d, (reached, inr p))))
  collect_then fuel round d (ok next) later reached enough busy collects c =
      later next (omega (arith, enough, Collects-work round world d next returns busy c))
        (collected round reached collects)

  launch_then :
      (fuel round : ℕ) (d : Dispatch) (l : Result Dispatch)
      → Later fuel (suc round)
      → Reach limit max_steps world d
      → work d < suc fuel
      → launch limit (world.schedule round d) d ≡ l
      → Yields (Starts limit (world.schedule round d) d) (Unscheduled (world.schedule round d)) l
      → Ends limit max_steps world (elim l [
        | err e ↦ some (err e)
        | ok d' ↦
            if is_running d'
            then elim (collect (world.is_done round d') world.report d') [
              | err e ↦ some (err e)
              | ok next ↦ dispatch_rounds limit world fuel (suc round) next
            ]
            else some (ok d')
      ])
  launch_then fuel round d (err e) later r enough launches p =
      inr (e, (refl, (round, d, (r, inl p))))
  launch_then fuel round d (ok d') later r enough launches p =
      let reached : Reach limit max_steps world d' = launched round r launches in
      let same = Starts-work limit (world.schedule round d) d d' p in
      elim (Bool-cases (is_running d')) [
        | inr idle ↦ rw idle (inl (d', (refl, idle, reached)))
        | inl busy ↦ rw busy (
            collect_then fuel round d' (collect (world.is_done round d') world.report d') later
              reached (omega (arith, same, enough)) busy refl
              (collect-Collects (world.is_done round d') world.report d'))
      ]

  dispatch_rounds-Ends : (fuel round : ℕ) → Later fuel round
  unfolding dispatch_rounds
  dispatch_rounds-Ends zero round d enough r = absurd (ground arith)
  dispatch_rounds-Ends (suc fuel) round d enough r =
      elim (Bool-cases (ltb 0 d.remaining_steps || is_running d)) [
        | inr over ↦ inl (d, (rw (dispatch_rounds, over) refl, ground arith, r))
        | inl goes ↦
            rw (dispatch_rounds, goes)
              (launch_then fuel round d (launch limit (world.schedule round d) d)
                (dispatch_rounds-Ends fuel (suc round)) r enough refl
                (launch-Starts limit (world.schedule round d) d))
      ]

  new_work : (n : ℕ) → work (new_dispatch n) < suc (max 1 n)
  unfolding new_dispatch
  new_work n = omega arith

  -- If in every round the wait returns with a completed future while one runs, and the scheduler
  -- never lists a task twice, then the loop ends within one round more than the steps given. Either
  -- it returns: then no future runs, at most that many were launched, and each is reported. Or it
  -- raises an error which, in a state of the loop, the schedule, the look-up of a scheduled task or
  -- the report of a completed future raises.
  pub dispatch_rounds_stop :
      ListsOnce world
      → let r = dispatch_rounds limit world (suc (max 1 max_steps)) 0 (new_dispatch max_steps) in
        ((last : Dispatch) × ((r ≡ some (ok last))
            × (last.running_futures ≡ [])
            × (length last.step_reports_by_index ≡ last.next_launch_index)
            × (last.next_launch_index ≤ max 1 max_steps)))
        ⊎ ((e : Error) × ((r ≡ some (err e)) × Raises limit max_steps world e))
  dispatch_rounds_stop listed =
      elim (dispatch_rounds-Ends (suc (max 1 max_steps)) 0 (new_dispatch max_steps)
        (new_work max_steps) begin) [
          | inr raised ↦ inr raised
          | inl (last, (same, idle, reached)) ↦
              let b = Reach-IsBounded limit max_steps world last listed reached in
              inl (
                last,
                (
                  same,
                  nothing_runs last.running_futures idle,
                  ground (arith, b.accounted, idle),
                  omega (arith, b.budget),
                ),
              )
        ]
