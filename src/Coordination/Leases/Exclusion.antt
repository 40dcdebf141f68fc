-- ===== src/Coordination/Leases/Exclusion.antt =====
-- autoweave/storage/coordination.py: sequences of calls on the lease manager.
use autoweave_library.Common.{
  ℕ, ◌+◌, ◌<◌, ◌≤◌, ◌≡◌, ◌≢◌, true, false, Option, none, some, List, [], ◌∷◌, String, lookup,
  Unique, insert-Unique, erase-Unique, lookup-insert, lookup-erase, ok, arith, ==_iff, string_eq,
  All,
}
use autoweave_library.Coordination.Windows.{expired_keys, pop_all-Unique, lookup-reaped}
use autoweave_library.Coordination.Leases.{
  Leases, LeaseRecord, lease_active, is_held, acquire, granted, heartbeat, heartbeat_on, renewed,
  release_lease, reap_expired_leases,
}

-- One call on a manager, with the clock's answer during it.
pub data Call : Type 0 where
  acquiring : (lease_key : String) (ttl_seconds now : ℕ) → Call
  beating : (lease_key : String) (ttl_seconds now : ℕ) → Call
  releasing : (lease_key : String) (now : ℕ) → Call
  reaping : (now : ℕ) → Call

abbrev pub called : Call → Leases → Leases
called (Call.acquiring k ttl now) s = (acquire k ttl now s).1
called (Call.beating k ttl now) s = (heartbeat k ttl now s).1
called (Call.releasing k now) s = (release_lease k s).1
called (Call.reaping now) s = (reap_expired_leases now s).1

abbrev pub all_called : List Call → Leases → Leases
all_called [] s = s
all_called (c ∷ cs) s = all_called cs (called c s)

-- A call before `until` that leaves the lease `k` to its holder: no release of `k`, and no
-- heartbeat that lets it end earlier.
abbrev pub IsKeeping : String → ℕ → Call → Type 0
IsKeeping k until (Call.acquiring j ttl now) = now < until
IsKeeping k until (Call.beating j ttl now) = (now < until) × (j ≡ k → until ≤ now + ttl)
IsKeeping k until (Call.releasing j now) = j ≢ k
IsKeeping k until (Call.reaping now) = now < until

-- The lease `k` is there and lasts at least until `until`.
abbrev pub IsLasting : ℕ → Option LeaseRecord → Type 0
IsLasting until none = ⊥
IsLasting until (some lease) = until ≤ lease.expires_at

pub called-Unique : (c : Call) (s : Leases) → Unique s → Unique (called c s)
unfolding acquire heartbeat heartbeat_on release_lease reap_expired_leases
called-Unique (Call.acquiring k ttl now) s u =
    ground (arith, insert-Unique k (granted k ttl now) s u)
called-Unique (Call.beating k ttl now) s u = renew (lookup k s)
  where
    renew : (o : Option LeaseRecord) → Unique (heartbeat_on o k ttl now s).1
    renew none = u
    renew (some lease) = ground (arith, insert-Unique k (renewed k ttl now lease) s u)
called-Unique (Call.releasing k now) s u = erase-Unique k s u
called-Unique (Call.reaping now) s u = pop_all-Unique (expired_keys lease_active now s) s u

beating-IsLasting :
    (k j : String) (until ttl now : ℕ) (s : Leases)
    → (now < until) × (j ≡ k → until ≤ now + ttl)
    → IsLasting until (lookup k s)
    → (o : Option LeaseRecord) → IsLasting until (lookup k (heartbeat_on o j ttl now s).1)
unfolding heartbeat_on renewed
beating-IsLasting k j until ttl now s keep last none = last
beating-IsLasting k j until ttl now s keep last (some lease) =
    ground (arith, ==_iff k j, lookup-insert k j (renewed j ttl now lease) s)

called-IsLasting :
    (k : String) (until : ℕ) (c : Call) (s : Leases)
    → Unique s
    → IsKeeping k until c
    → IsLasting until (lookup k s)
    → IsLasting until (lookup k (called c s))
unfolding acquire heartbeat release_lease reap_expired_leases is_held lease_active granted
called-IsLasting k until (Call.acquiring j ttl now) s u keep last =
    ground (arith, ==_iff k j, lookup-insert k j (granted j ttl now) s)
called-IsLasting k until (Call.beating j ttl now) s u keep last =
    beating-IsLasting k j until ttl now s keep last (lookup j s)
called-IsLasting k until (Call.releasing j now) s u keep last =
    ground (arith, ==_iff k j, lookup-erase k j s u)
called-IsLasting k until (Call.reaping now) s u keep last =
    rw (lookup-reaped lease_active k now s u) (ground arith)

all_called-IsLasting :
    (k : String) (until : ℕ) (cs : List Call) (s : Leases)
    → Unique s
    → All (IsKeeping k until) cs
    → IsLasting until (lookup k s)
    → IsLasting until (lookup k (all_called cs s))
all_called-IsLasting k until [] s u keep last = last
all_called-IsLasting k until (c ∷ cs) s u keep last =
    all_called-IsLasting k until cs (called c s) (called-Unique c s u) keep.1
      (called-IsLasting k until c s u keep.0 last)

pub all_called-Unique : (cs : List Call) (s : Leases) → Unique s → Unique (all_called cs s)
all_called-Unique [] s u = u
all_called-Unique (c ∷ cs) s u = all_called-Unique cs (called c s) (called-Unique c s u)

acquired :
    (k : String) (ttl start : ℕ) (s : Leases)
    → (acquire k ttl start s).0 ≡ ok true
    → IsLasting (start + ttl) (lookup k (acquire k ttl start s).1)
unfolding acquire granted
acquired k ttl start s success =
    ground (arith, ==_iff k k, lookup-insert k k (granted k ttl start) s)

IsLasting-is_held :
    (until now : ℕ) (o : Option LeaseRecord)
    → now < until
    → IsLasting until o
    → is_held o now ≡ true
unfolding is_held lease_active
IsLasting-is_held until now none early last = elim last [ ]
IsLasting-is_held until now (some lease) early last = ground arith

-- Take any history of calls on a new manager, in which then `acquire` succeeds on a key for `ttl`
-- seconds. After any further calls that do not release the key, the acquiring, beating and
-- reaping ones before that end, and none a heartbeat that lets the key end earlier, an `acquire`
-- on the key before that end answers False and changes nothing.
pub acquire-IsExclusive :
    (k : String) (ttl start : ℕ) (before between : List Call) (ttl' now : ℕ)
    → (acquire k ttl start (all_called before [])).0 ≡ ok true
    → All (IsKeeping k (start + ttl)) between
    → now < start + ttl
    → acquire k ttl' now (all_called between (acquire k ttl start (all_called before [])).1)
      ≡ (ok false, all_called between (acquire k ttl start (all_called before [])).1)
unfolding acquire
acquire-IsExclusive k ttl start before between ttl' now success keep early =
    let s = all_called before [] in
    let s' = (acquire k ttl start s).1 in
    let stored = acquired k ttl start s success in
    let distinct = called-Unique (Call.acquiring k ttl start) s (all_called-Unique before [] tt) in
    rw (
      IsLasting-is_held (start + ttl) now (lookup k (all_called between s')) early
        (all_called-IsLasting k (start + ttl) between s' distinct keep stored))
