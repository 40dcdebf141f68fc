-- ===== src/Coordination/Leases/Answers.antt =====
-- What the calls of the lease manager answer, and what `get` answers after them.
use autoweave_library.Common.{
  ℕ, ◌≤◌, ◌≡◌, refl, Bool, true, false, Option, none, some, String, lookup, Unique, lookup-insert,
  ok, arith, ==_iff, string_eq, ltb, if◌then◌else◌,
}
use autoweave_library.Coordination.Windows.{lookup-reaped, live}
use autoweave_library.Coordination.Leases.{
  Leases, LeaseRecord, lease_active, is_held, acquire, granted, get_lease, reap_expired_leases,
}

abbrev pub is_none : Option LeaseRecord → Bool
is_none none = true
is_none (some lease) = false

abbrev until_end : LeaseRecord → ℕ → Option LeaseRecord
until_end lease now = if ltb now lease.expires_at then some lease else none

-- `acquire` answers True exactly when `get` answers None at that moment; and after a True answer
-- `get` answers the new lease until its time is over, and None from then on.
pub acquire-get_lease :
    (k : String) (ttl now later : ℕ) (s : Leases)
    → ((acquire k ttl now s).0 ≡ ok (is_none (get_lease k now s)))
      × ((acquire k ttl now s).0 ≡ ok true
          → get_lease k later (acquire k ttl now s).1 ≡ until_end (granted k ttl now) later)
unfolding acquire get_lease is_held lease_active granted
acquire-get_lease k ttl now later s =
    (ground arith, λ success. ground (arith, ==_iff k k, lookup-insert k k (granted k ttl now) s))

pub get_lease-live :
    (k : String) (now : ℕ) (s : Leases) → get_lease k now s ≡ live lease_active now (lookup k s)
unfolding get_lease is_held
get_lease-live k now s = ground arith

pub live_twice :
    (now later : ℕ) (o : Option LeaseRecord)
    → now ≤ later
    → live lease_active later (live lease_active now o) ≡ live lease_active later o
unfolding lease_active
live_twice now later none ordered = refl
live_twice now later (some lease) ordered = ground arith

-- `reap_expired` on leases that hold each key once changes no answer: at its moment and at every
-- later one, `get` answers on each key what it would have answered without it.
pub reap_expired_leases-get_lease :
    (k : String) (now later : ℕ) (s : Leases)
    → Unique s
    → now ≤ later
    → get_lease k later (reap_expired_leases now s).1 ≡ get_lease k later s
unfolding reap_expired_leases
reap_expired_leases-get_lease k now later s u ordered =
    rw
      (
        get_lease-live k later (reap_expired_leases now s).1,
        get_lease-live k later s,
        lookup-reaped lease_active k now s u,
      )
      (live_twice now later (lookup k s) ordered)
