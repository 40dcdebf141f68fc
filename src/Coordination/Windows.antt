-- ===== src/Coordination/Windows.antt =====
-- autoweave/storage/coordination.py: the dictionaries of records that expire, which the lease
-- manager and the idempotency store share.
use autoweave_library.Common.{
  ℕ, ◌≡◌, refl, Bool, false, not, Option, none, some, List, [], ◌∷◌, String, Dict, lookup, erase,
  Unique, lookup-erase, erase-Unique, member, arith, ==_iff, string_eq, if◌then◌else◌,
}

-- `for key in keys: d.pop(key, None)`
unfoldable pub pop_all : {V : Type 0} → List String → Dict String V → Dict String V
pop_all [] d = d
pop_all (key ∷ rest) d = pop_all rest (erase key d)

module _ {V : Type 0} (active : V → ℕ → Bool) where
  -- `[key for key, record in d.items() if not record.is_active(now)]`
  unfoldable pub expired_keys : ℕ → Dict String V → List String
  expired_keys now [] = []
  expired_keys now ((key, value) ∷ d) =
      let rest = expired_keys now d in if active value now then rest else key ∷ rest

  -- A record that is there and active.
  abbrev pub live : ℕ → Option V → Option V
  live now none = none
  live now (some value) = if active value now then some value else none

  abbrev pub stale : ℕ → Option V → Bool
  stale now none = false
  stale now (some value) = not (active value now)

  pub member-expired_keys :
      (k : String) (now : ℕ) (d : Dict String V)
      → Unique d
      → member k (expired_keys now d) ≡ stale now (lookup k d)
  unfolding expired_keys
  member-expired_keys k now [] u = refl
  member-expired_keys k now ((key, value) ∷ d) u =
      ground (arith, member-expired_keys k now d u.1, ==_iff k key)

pub pop_all-Unique :
    {V : Type 0} (ks : List String) (d : Dict String V) → Unique d → Unique (pop_all ks d)
unfolding pop_all
pop_all-Unique [] d u = u
pop_all-Unique (k ∷ ks) d u = pop_all-Unique ks (erase k d) (erase-Unique k d u)

pub lookup-pop_all :
    {V : Type 0} (k : String) (ks : List String) (d : Dict String V)
    → Unique d
    → lookup k (pop_all ks d) ≡ (if member k ks then none else lookup k d)
unfolding pop_all
lookup-pop_all k [] d u = refl
lookup-pop_all k (j ∷ ks) d u =
    ground (arith, lookup-pop_all k ks (erase j d) (erase-Unique j d u), lookup-erase k j d u)

module _ {V : Type 0} (active : V → ℕ → Bool) where
  -- Dropping the expired keys leaves the active records and nothing else.
  pub lookup-reaped :
      (k : String) (now : ℕ) (d : Dict String V)
      → Unique d
      → lookup k (pop_all (expired_keys active now d) d) ≡ live active now (lookup k d)
  lookup-reaped k now d u = ground (
    arith,
    lookup-pop_all k (expired_keys active now d) d u,
    member-expired_keys active k now d u,
  )
