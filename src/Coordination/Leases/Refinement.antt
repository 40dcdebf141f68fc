-- ===== src/Coordination/Leases/Refinement.antt =====
-- The lease manager against a specification: what each key holds, told without the program.
use autoweave_library.Common.{
  ℕ, ◌+◌, ◌≡◌, refl, ◌∙◌, ap, subst, inl, inr, Bool-cases, Bool, true, false, Option, none, some,
  List, [], ◌∷◌, String, lookup, Unique, lookup-insert, lookup-erase, member, ltb, leb, Result, ok,
  err, key_error, arith, ==_iff, string_eq, if◌then◌else◌, ◌==◌,
}
use autoweave_library.Coordination.Windows.{stale, live, member-expired_keys, lookup-reaped}
use autoweave_library.Coordination.Leases.{
  Leases, LeaseRecord, lease_active, is_held, acquire, granted, heartbeat, heartbeat_on, renewed,
  release_lease, reap_expired_leases, get_lease,
}
use autoweave_library.Coordination.Leases.Exclusion.{Call, called, all_called, called-Unique}

-- What a client that watches one key learns from a call: the Boolean of `acquire`, whether
-- `heartbeat` and `release` raise, and whether `reap_expired` names the key.
abbrev pub answer : (watched : String) → Call → Leases → Result Bool
answer watched (Call.acquiring k ttl now) s = (acquire k ttl now s).0
answer watched (Call.beating k ttl now) s = elim (heartbeat k ttl now s).0 [
  | ok u ↦ ok true
  | err e ↦ err e
]
answer watched (Call.releasing k now) s = elim (release_lease k s).0 [
  | ok u ↦ ok true
  | err e ↦ err e
]
answer watched (Call.reaping now) s = elim (reap_expired_leases now s).0 [
  | ok ks ↦ ok (member watched ks)
  | err e ↦ err e
]

abbrev pub answers : (watched : String) → List Call → Leases → List (Result Bool)
answers watched [] s = []
answers watched (c ∷ cs) s = answer watched c s ∷ answers watched cs (called c s)

-- The lease each key holds, over or not.
abbrev pub Held : Type 0
Held = String → Option LeaseRecord

abbrev pub in_force : ℕ → Option LeaseRecord → Bool
in_force now none = false
in_force now (some lease) = ltb now lease.expires_at

abbrev pub is_over : ℕ → Option LeaseRecord → Bool
is_over now none = false
is_over now (some lease) = leb lease.expires_at now

abbrev pub with_lease : String → Option LeaseRecord → Held → Held
with_lease k lease held j = if j == k then lease else held j

-- The lease of a key from `now` on, for `ttl`; an earlier one keeps its beginning and its holder.
abbrev pub leased : (k : String) → (ttl now begun : ℕ) → (holder : Option String) → LeaseRecord
leased k ttl now begun holder = record {
  lease_key = k;
  acquired_at = begun;
  expires_at = now + ttl;
  holder = holder;
}

abbrev pub beat_answer : ℕ → Option LeaseRecord → Result Bool
beat_answer now none = err key_error
beat_answer now (some lease) = if ltb now lease.expires_at then ok true else err key_error

abbrev pub beaten : Option LeaseRecord → String → (ttl now : ℕ) → Held → Held
beaten none k ttl now held = held
beaten (some lease) k ttl now held =
    if ltb now lease.expires_at
    then with_lease k (some (leased k ttl now lease.acquired_at lease.holder)) held
    else held

-- A call as the specification answers it.
abbrev pub spec_answer : (watched : String) → Call → Held → Result Bool
spec_answer watched (Call.acquiring k ttl now) held =
    if in_force now (held k) then ok false else ok true
spec_answer watched (Call.beating k ttl now) held = beat_answer now (held k)
spec_answer watched (Call.releasing k now) held = ok true
spec_answer watched (Call.reaping now) held = ok (is_over now (held watched))

-- What the keys hold after a call.
abbrev pub spec_next : Call → Held → Held
spec_next (Call.acquiring k ttl now) held =
    if in_force now (held k) then held else with_lease k (some (leased k ttl now now none)) held
spec_next (Call.beating k ttl now) held = beaten (held k) k ttl now held
spec_next (Call.releasing k now) held = with_lease k none held
spec_next (Call.reaping now) held = λ j. if is_over now (held j) then none else held j

abbrev pub spec_answers : (watched : String) → List Call → Held → List (Result Bool)
spec_answers watched [] held = []
spec_answers watched (c ∷ cs) held =
    spec_answer watched c held ∷ spec_answers watched cs (spec_next c held)

abbrev pub spec_leases : List Call → Held → Held
spec_leases [] held = held
spec_leases (c ∷ cs) held = spec_leases cs (spec_next c held)

abbrev pub Holds : Leases → Held → Type 0
Holds s held = (k : String) → lookup k s ≡ held k

stale-is_over : (now : ℕ) (o : Option LeaseRecord) → stale lease_active now o ≡ is_over now o
unfolding lease_active
stale-is_over now none = refl
stale-is_over now (some lease) = ground arith

live-is_over :
    (now : ℕ) (o : Option LeaseRecord)
    → live lease_active now o ≡ (if is_over now o then none else o)
unfolding lease_active
live-is_over now none = refl
live-is_over now (some lease) = ground arith

is_held-in_force : (now : ℕ) (o : Option LeaseRecord) → is_held o now ≡ in_force now o
unfolding is_held lease_active
is_held-in_force now none = refl
is_held-in_force now (some lease) = refl

acquiring_lem :
    (k : String) (ttl now : ℕ) (s : Leases) (held : Held)
    → Holds s held
    → ((acquire k ttl now s).0 ≡ (if in_force now (held k) then ok false else ok true))
      × Holds (acquire k ttl now s).1 (spec_next (Call.acquiring k ttl now) held)
unfolding acquire granted
acquiring_lem k ttl now s held h =
    let same : is_held (lookup k s) now ≡ in_force now (held k) =
      is_held-in_force now (lookup k s) ∙ ap (in_force now) (h k) in
    elim (Bool-cases (in_force now (held k))) [
      | inl busy ↦ rw (acquire, same, busy) (refl, h)
      | inr free ↦
          rw (acquire, same, free)
            (refl, λ j. ground (arith, h j, lookup-insert j k (granted k ttl now) s, ==_iff j k))
    ]

beating_lem :
    (o : Option LeaseRecord) (k : String) (ttl now : ℕ) (s : Leases) (held : Held)
    → Holds s held
    → ((elim (heartbeat_on o k ttl now s).0 [ ok u ↦ ok true | err e ↦ err e ]) ≡ beat_answer now o)
      × Holds (heartbeat_on o k ttl now s).1 (beaten o k ttl now held)
unfolding heartbeat_on lease_active renewed
beating_lem none k ttl now s held h = (refl, h)
beating_lem (some lease) k ttl now s held h = (
  ground arith,
  λ j. ground (arith, h j, lookup-insert j k (renewed k ttl now lease) s, ==_iff j k),
)

step :
    (watched : String) (c : Call) (s : Leases) (held : Held)
    → Unique s
    → Holds s held
    → (answer watched c s ≡ spec_answer watched c held) × Holds (called c s) (spec_next c held)
unfolding heartbeat release_lease reap_expired_leases
step watched (Call.acquiring k ttl now) s held u h = acquiring_lem k ttl now s held h
step watched (Call.beating k ttl now) s held u h =
    subst
      (λ v.
        ((elim (heartbeat k ttl now s).0 [ ok u ↦ ok true | err e ↦ err e ]) ≡ beat_answer now v)
        × Holds (heartbeat k ttl now s).1 (beaten v k ttl now held))
      (h k) (beating_lem (lookup k s) k ttl now s held h)
step watched (Call.releasing k now) s held u h =
    (refl, λ j. ground (arith, h j, lookup-erase j k s u, ==_iff j k))
step watched (Call.reaping now) s held u h = (
  ap ok (
      member-expired_keys lease_active watched now s u
      ∙ stale-is_over now (lookup watched s)
      ∙ ap (is_over now) (h watched)),
  λ j.
      lookup-reaped lease_active j now s u
      ∙ live-is_over now (lookup j s)
      ∙ ap (λ o. if is_over now o then none else o) (h j),
)

refined :
    (watched : String) (cs : List Call) (s : Leases) (held : Held)
    → Unique s
    → Holds s held
    → (answers watched cs s ≡ spec_answers watched cs held)
      × Holds (all_called cs s) (spec_leases cs held)
refined watched [] s held u h = (refl, h)
refined watched (c ∷ cs) s held u h =
    let (same, next) = step watched c s held u h in
    let (rest, last) =
      refined watched cs (called c s) (spec_next c held) (called-Unique c s u) next in
    (cc, last)

get_lease-in_force :
    (k : String) (now : ℕ) (s : Leases) (held : Held)
    → Holds s held
    → get_lease k now s ≡ (if in_force now (held k) then held k else none)
unfolding get_lease
get_lease-in_force k now s held h = rw (h k, is_held-in_force now (held k)) refl

-- Any calls on a new manager, at any times, answer as in the specification that says what each key
-- holds: for each key a client watches, `acquire` succeeds exactly where the key's lease is not in
-- force, `heartbeat` raises KeyError exactly there, `release` answers, and `reap_expired` names the
-- key exactly where its lease is over; and then, at any time, `get` answers for each key the lease
-- that the specification holds, until its end.
pub answers-refine :
    (cs : List Call) (watched : String)
    → (answers watched cs [] ≡ spec_answers watched cs (λ k. none))
      × ((k : String) (now : ℕ)
          → get_lease k now (all_called cs []) ≡ (
              if in_force now (spec_leases cs (λ j. none) k)
              then spec_leases cs (λ j. none) k
              else none))
answers-refine cs watched =
    let (same, last) = refined watched cs [] (λ k. none) tt (λ k. refl) in
    (same, λ k now. get_lease-in_force k now (all_called cs []) (spec_leases cs (λ j. none)) last)
