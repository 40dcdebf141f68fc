-- ===== src/Coordination/Leases.antt =====
-- autoweave/storage/coordination.py: `InMemoryLeaseManager`.
pub mod Exclusion
pub mod Answers
pub mod Refinement
use autoweave_library.Common.{
  ℕ, ◌+◌, Bool, true, false, Option, none, some, List, String, Dict, lookup, insert, erase, Result,
  ok, err, key_error, Action, ltb, if◌then◌else◌, string_eq,
}
use autoweave_library.Coordination.Windows.{expired_keys, pop_all}

pub record LeaseRecord : Type 0 where
  pub lease_key : String
  pub acquired_at : ℕ
  pub expires_at : ℕ
  pub holder : Option String

unfoldable pub lease_active : LeaseRecord → ℕ → Bool
lease_active lease now = ltb now lease.expires_at

abbrev pub Leases : Type 0
Leases = Dict String LeaseRecord

-- `current is not None and current.is_active(now)`
unfoldable pub is_held : Option LeaseRecord → ℕ → Bool
unfolding lease_active
is_held none now = false
is_held (some lease) now = lease_active lease now

-- The lease that `acquire` stores.
unfoldable pub granted : String → ℕ → ℕ → LeaseRecord
granted lease_key ttl_seconds now = record {
  lease_key = lease_key;
  acquired_at = now;
  expires_at = now + ttl_seconds;
  holder = none;
}

unfoldable pub acquire : String → ℕ → ℕ → Action Leases Bool
unfolding is_held granted
acquire lease_key ttl_seconds now leases =
    if is_held (lookup lease_key leases) now
    then (ok false, leases)
    else (ok true, insert lease_key (granted lease_key ttl_seconds now) leases)

-- The lease as a heartbeat leaves it.
unfoldable pub renewed : String → ℕ → ℕ → LeaseRecord → LeaseRecord
renewed lease_key ttl_seconds now current = record {
  lease_key = lease_key;
  acquired_at = current.acquired_at;
  expires_at = now + ttl_seconds;
  holder = current.holder;
}

unfoldable pub heartbeat_on : Option LeaseRecord → String → ℕ → ℕ → Action Leases (Unit {0})
unfolding lease_active renewed
heartbeat_on none lease_key ttl_seconds now leases = (err key_error, leases)
heartbeat_on (some current) lease_key ttl_seconds now leases =
    if lease_active current now
    then (ok tt, insert lease_key (renewed lease_key ttl_seconds now current) leases)
    else (err key_error, leases)

unfoldable pub heartbeat : String → ℕ → ℕ → Action Leases (Unit {0})
unfolding heartbeat_on
heartbeat lease_key ttl_seconds now leases =
    heartbeat_on (lookup lease_key leases) lease_key ttl_seconds now leases

unfoldable pub release_lease : String → Action Leases (Unit {0})
release_lease lease_key leases = (ok tt, erase lease_key leases)

unfoldable pub get_lease : String → ℕ → Leases → Option LeaseRecord
unfolding is_held
get_lease lease_key now leases =
    let found = lookup lease_key leases in if is_held found now then found else none

unfoldable pub reap_expired_leases : ℕ → Action Leases (List String)
unfolding expired_keys pop_all lease_active
reap_expired_leases now leases =
    let expired = expired_keys lease_active now leases in (ok expired, pop_all expired leases)
