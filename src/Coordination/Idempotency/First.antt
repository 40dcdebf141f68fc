-- ===== src/Coordination/Idempotency/First.antt =====
-- autoweave/storage/coordination.py: sequences of calls on the idempotency store.
use autoweave_library.Common.{
  ℕ, ◌+◌, ◌<◌, ◌≡◌, ◌≢◌, true, false, Option, some, List, [], ◌∷◌, String, lookup, Unique,
  insert-Unique, erase-Unique, lookup-insert, lookup-erase, ok, arith, ==_iff, string_eq, All,
}
use autoweave_library.Coordination.Windows.{expired_keys, pop_all-Unique, lookup-reaped}
use autoweave_library.Coordination.Idempotency.{
  Records, IdempotencyRecord, record_active, is_claimed, claimed_record, claim, get_record,
  release_record, reap_expired_records,
}

-- One call on a store, with the clock's answer during it.
pub data Delivery (T : Type 0) : Type 0 where
  claiming : (action_key : String) (ttl_seconds : ℕ) (value : Option T) (now : ℕ) → Delivery T
  dropping : (action_key : String) (now : ℕ) → Delivery T
  sweeping : (now : ℕ) → Delivery T

module _ {T : Type 0} where
  abbrev pub delivered : Delivery T → Records T → Records T
  delivered (Delivery.claiming k ttl value now) s = (claim k ttl value now s).1
  delivered (Delivery.dropping k now) s = (release_record k s).1
  delivered (Delivery.sweeping now) s = (reap_expired_records now s).1

  abbrev pub all_delivered : List (Delivery T) → Records T → Records T
  all_delivered [] s = s
  all_delivered (c ∷ cs) s = all_delivered cs (delivered c s)

  -- A call before `until` that does not release the action `k`.
  abbrev pub IsWithin : String → ℕ → Delivery T → Type 0
  IsWithin k until (Delivery.claiming j ttl value now) = now < until
  IsWithin k until (Delivery.dropping j now) = j ≢ k
  IsWithin k until (Delivery.sweeping now) = now < until

  delivered-Unique : (c : Delivery T) (s : Records T) → Unique s → Unique (delivered c s)
  unfolding claim release_record reap_expired_records
  delivered-Unique (Delivery.claiming k ttl value now) s u =
      ground (arith, insert-Unique k (claimed_record k ttl value now) s u)
  delivered-Unique (Delivery.dropping k now) s u = erase-Unique k s u
  delivered-Unique (Delivery.sweeping now) s u =
      pop_all-Unique (expired_keys record_active now s) s u

  pub all_delivered-Unique :
      (cs : List (Delivery T)) (s : Records T) → Unique s → Unique (all_delivered cs s)
  all_delivered-Unique [] s u = u
  all_delivered-Unique (c ∷ cs) s u =
      all_delivered-Unique cs (delivered c s) (delivered-Unique c s u)

  delivered-kept :
      (k : String) (r : IdempotencyRecord T) (c : Delivery T) (s : Records T)
      → Unique s
      → IsWithin k r.expires_at c
      → lookup k s ≡ some r
      → lookup k (delivered c s) ≡ some r
  unfolding claim release_record reap_expired_records is_claimed record_active
  delivered-kept k r (Delivery.claiming j ttl value now) s u keep here =
      ground (arith, ==_iff k j, lookup-insert k j (claimed_record j ttl value now) s)
  delivered-kept k r (Delivery.dropping j now) s u keep here =
      ground (arith, ==_iff k j, lookup-erase k j s u)
  delivered-kept k r (Delivery.sweeping now) s u keep here =
      rw (lookup-reaped record_active k now s u, here) (ground arith)

  all_delivered-kept :
      (k : String) (r : IdempotencyRecord T) (cs : List (Delivery T)) (s : Records T)
      → Unique s
      → All (IsWithin k r.expires_at) cs
      → lookup k s ≡ some r
      → lookup k (all_delivered cs s) ≡ some r
  all_delivered-kept k r [] s u keep here = here
  all_delivered-kept k r (c ∷ cs) s u keep here =
      all_delivered-kept k r cs (delivered c s) (delivered-Unique c s u) keep.1
        (delivered-kept k r c s u keep.0 here)

  claimed :
      (k : String) (ttl : ℕ) (value : Option T) (start : ℕ) (s : Records T)
      → (claim k ttl value start s).0 ≡ ok true
      → lookup k (claim k ttl value start s).1 ≡ some (claimed_record k ttl value start)
  unfolding claim
  claimed k ttl value start s success =
      ground (arith, ==_iff k k, lookup-insert k k (claimed_record k ttl value start) s)

  -- Take any history of calls on a new store, in which then a claim of an action succeeds with a
  -- value for `ttl` seconds. After any further calls that do not release the action, the claims
  -- and sweeps among them before that end, `get` before that end answers the record of the first
  -- claim, and another claim answers False and changes nothing.
  pub claim-is_first :
      (k : String) (ttl : ℕ) (value : Option T) (start : ℕ) (before between : List (Delivery T))
      (ttl' : ℕ) (value' : Option T) (now : ℕ)
      → (claim k ttl value start (all_delivered before [])).0 ≡ ok true
      → All (IsWithin k (start + ttl)) between
      → now < start + ttl
      → (get_record k now
            (all_delivered between (claim k ttl value start (all_delivered before [])).1)
          ≡ some (claimed_record k ttl value start))
        × (claim k ttl' value' now
              (all_delivered between (claim k ttl value start (all_delivered before [])).1)
            ≡ (
              ok false,
              all_delivered between (claim k ttl value start (all_delivered before [])).1,
            ))
  unfolding claim get_record is_claimed record_active claimed_record
  claim-is_first k ttl value start before between ttl' value' now success keep early =
      let s = all_delivered before [] in
      let s' = (claim k ttl value start s).1 in
      let u =
        delivered-Unique (Delivery.claiming k ttl value start) s
          (all_delivered-Unique before [] tt) in
      let here =
        all_delivered-kept k (claimed_record k ttl value start) between s' u keep
          (claimed k ttl value start s success) in
      (rw here (ground arith), rw here (ground arith))
