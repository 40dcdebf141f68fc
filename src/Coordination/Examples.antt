-- ===== src/Coordination/Examples.antt =====
-- The theorems of this folder at concrete histories.
use autoweave_library.Common.{
  if◌then◌else◌, ℕ, none, ◌≡◌, ◌≢◌, refl, true, false, some, List, [], ◌∷◌, String, same_text, ok,
  arith, string_eq, ==_iff,
}
use autoweave_library.Coordination.Leases.{
  Leases, acquire, granted, get_lease, lease_active, is_held, reap_expired_leases, heartbeat,
  heartbeat_on, renewed,
}
use autoweave_library.Coordination.Leases.Exclusion.{Call, all_called, acquire-IsExclusive}
use autoweave_library.Coordination.Leases.Refinement.{
  in_force, answers, spec_answers, spec_leases, answers-refine,
}
use autoweave_library.Coordination.Windows.{expired_keys, pop_all}
use autoweave_library.Coordination.Leases.Answers.{acquire-get_lease, reap_expired_leases-get_lease}
use autoweave_library.Coordination.Idempotency.{claim, claimed_record, is_claimed, get_record}
use autoweave_library.Coordination.Idempotency.First.{Delivery, all_delivered, claim-is_first}

other_ne : ◌≢◌ {A = String} "other" "run"
unfolding same_text
other_ne = ground (arith, ==_iff {A = String} "other" "run")

abbrev earlier : List Call
earlier = Call.acquiring "run" 3 0 ∷ Call.acquiring "other" 30 2 ∷ []

abbrev meanwhile : List Call
meanwhile =
    Call.beating "run" 9 6
    ∷ Call.acquiring "run" 5 7
    ∷ Call.reaping 8
    ∷ Call.releasing "other" 9
    ∷ []

abbrev acquired_again : Leases
acquired_again = (acquire "run" 10 5 (all_called earlier [])).1

acquire-IsExclusive_example :
    acquire "run" 20 14 (all_called meanwhile acquired_again)
    ≡ (ok false, all_called meanwhile acquired_again)
unfolding same_text acquire is_held lease_active granted
acquire-IsExclusive_example =
    acquire-IsExclusive "run" 10 5 earlier meanwhile 20 14 refl
      ((ground arith, λ same. ground arith), (ground arith, (ground arith, (other_ne, tt))))
      (ground arith)

acquire-get_lease_example :
    ((acquire "run" 10 5 []).0 ≡ ok true)
    × ((acquire "run" 10 5 []).0 ≡ ok true
        → get_lease "run" 12 (acquire "run" 10 5 []).1 ≡ some (granted "run" 10 5))
unfolding get_lease is_held granted
acquire-get_lease_example = acquire-get_lease "run" 10 5 12 []

reap_expired_leases-get_lease_example :
    get_lease "run" 5 (reap_expired_leases 4 (("run", granted "run" 3 0) ∷ [])).1
    ≡ get_lease "run" 5 (("run", granted "run" 3 0) ∷ [])
reap_expired_leases-get_lease_example =
    reap_expired_leases-get_lease "run" 4 5 (("run", granted "run" 3 0) ∷ []) (refl, tt)
      (ground arith)

abbrev repeats : List (Delivery String)
repeats =
    Delivery.claiming "run" 9 (some "second") 6
    ∷ Delivery.sweeping 7
    ∷ Delivery.dropping "other" 8
    ∷ []

claim-is_first_example :
    let s = all_delivered repeats (claim "run" 10 (some "first") 5 []).1 in
    (get_record "run" 14 s ≡ some (claimed_record "run" 10 (some "first") 5))
    × (claim "run" 20 (some "third") 14 s ≡ (ok false, s))
unfolding claim is_claimed
claim-is_first_example =
    claim-is_first "run" 10 (some "first") 5 [] repeats 20 (some "third") 14 refl
      (ground arith, (ground arith, (other_ne, tt))) (ground arith)

abbrev timed_calls : List Call
timed_calls =
    Call.acquiring "lease:t1" 30 0
    ∷ Call.acquiring "lease:t1" 30 10
    ∷ Call.beating "lease:t1" 30 20
    ∷ Call.reaping 60
    ∷ Call.acquiring "lease:t1" 30 61
    ∷ []

answers-refine_example :
    (answers "lease:t1" timed_calls [] ≡ spec_answers "lease:t1" timed_calls (λ k. none))
    × ((k : String) (now : ℕ)
        → get_lease k now (all_called timed_calls []) ≡ (
            if in_force now (spec_leases timed_calls (λ j. none) k)
            then spec_leases timed_calls (λ j. none) k
            else none))
answers-refine_example = answers-refine timed_calls "lease:t1"

watched_answers :
    answers "lease:t1" timed_calls [] ≡ ok true ∷ ok false ∷ ok true ∷ ok true ∷ ok true ∷ []
unfolding same_text acquire is_held lease_active granted heartbeat heartbeat_on renewed
    reap_expired_leases expired_keys pop_all
watched_answers = refl
