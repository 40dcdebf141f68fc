-- ===== src/Coordination/Idempotency.antt =====
-- autoweave/storage/coordination.py: `InMemoryIdempotencyStore`.
pub mod First
use autoweave_library.Common.{
  ℕ, ◌+◌, Bool, true, false, Option, none, some, List, String, Dict, lookup, insert, erase, Result,
  ok, Action, ltb, if◌then◌else◌, string_eq,
}
use autoweave_library.Coordination.Windows.{expired_keys, pop_all}

pub record IdempotencyRecord (T : Type 0) : Type 0 where
  pub action_key : String
  pub claimed_at : ℕ
  pub expires_at : ℕ
  pub value : Option T

abbrev pub Records : Type 0 → Type 0
Records T = Dict String (IdempotencyRecord T)

module _ {T : Type 0} where
  unfoldable pub record_active : IdempotencyRecord T → ℕ → Bool
  record_active claimed now = ltb now claimed.expires_at

  unfoldable pub is_claimed : Option (IdempotencyRecord T) → ℕ → Bool
  unfolding record_active
  is_claimed none now = false
  is_claimed (some claimed) now = record_active claimed now

  -- The record that `claim` stores.
  unfoldable pub claimed_record : String → ℕ → Option T → ℕ → IdempotencyRecord T
  claimed_record action_key ttl_seconds value now = record {
    action_key = action_key;
    claimed_at = now;
    expires_at = now + ttl_seconds;
    value = value;
  }

  unfoldable pub claim : String → ℕ → Option T → ℕ → Action (Records T) Bool
  unfolding is_claimed claimed_record
  claim action_key ttl_seconds value now records =
      if is_claimed (lookup action_key records) now
      then (ok false, records)
      else (ok true, insert action_key (claimed_record action_key ttl_seconds value now) records)

  unfoldable pub get_record : String → ℕ → Records T → Option (IdempotencyRecord T)
  unfolding is_claimed
  get_record action_key now records =
      let found = lookup action_key records in if is_claimed found now then found else none

  unfoldable pub release_record : String → Action (Records T) (Unit {0})
  release_record action_key records = (ok tt, erase action_key records)

  unfoldable pub reap_expired_records : ℕ → Action (Records T) (List String)
  unfolding expired_keys pop_all record_active
  reap_expired_records now records =
      let expired = expired_keys record_active now records in (ok expired, pop_all expired records)
