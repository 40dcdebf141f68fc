-- ===== src/Common/Dicts.antt =====
-- A Python dict as an association list in insertion order.
use Prim.Native.Nat.{suc}
use mathlib.Core.Path.{◌≡◌, refl}
use mathlib.Core.Logic.{◌≢◌}
use mathlib.Core.Bool.{Bool, true, false}
use mathlib.Core.Option.{Option, none, some}
use mathlib.Core.List.{List, [], ◌∷◌}
use native.Mathlib.Omega.{arith}
use autoweave_library.Common.Tests.{HasEq, ◌==◌, if◌then◌else◌, ==_refl, ==_ne, ==_iff}
use autoweave_library.Common.Lists.{length}

abbrev pub Dict {ℓ} : Type 0 → Type ℓ → Type ℓ
Dict K V = List (K × V)

module _ {ℓ} {K : Type 0} {V : Type ℓ} ⦃e : HasEq K⦄ where
  -- `d.get(key)`
  abbrev pub lookup : K → Dict K V → Option V
  lookup key [] = none
  lookup key ((found, value) ∷ rest) = if key == found then some value else lookup key rest

  -- `d[key] = value` keeps the place of a key that is there.
  abbrev pub insert : K → V → Dict K V → Dict K V
  insert key value [] = (key, value) ∷ []
  insert key value ((found, old) ∷ rest) =
      if key == found then (found, value) ∷ rest else (found, old) ∷ insert key value rest

  -- `d.pop(key, None)`
  abbrev pub erase : K → Dict K V → Dict K V
  erase key [] = []
  erase key ((found, old) ∷ rest) = if key == found then rest else (found, old) ∷ erase key rest

  -- `k in d`
  abbrev pub has_key : K → Dict K V → Bool
  has_key k [] = false
  has_key k ((j, v) ∷ d) = if k == j then true else has_key k d

  abbrev pub get_or : V → K → Dict K V → V
  get_or v k d = elim (lookup k d) [ none ↦ v | some w ↦ w ]

  pub lookup-insert :
      (j k : K) (v : V) (d : Dict K V)
      → lookup j (insert k v d) ≡ (if j == k then some v else lookup j d)
  lookup-insert j k v [] = refl
  lookup-insert j k v ((i, w) ∷ d) =
      ground (arith, e.same_iff j k, e.same_iff k i, e.same_iff j i, lookup-insert j k v d)

  pub lookup-insert_self : (k : K) (v : V) (d : Dict K V) → lookup k (insert k v d) ≡ some v
  lookup-insert_self k v d = rw (lookup-insert, ==_refl k)

  pub lookup-insert_ne :
      (j k : K) (v : V) (d : Dict K V) → j ≢ k → lookup j (insert k v d) ≡ lookup j d
  lookup-insert_ne j k v d h = rw (lookup-insert, ==_ne j k h)

  pub lookup-erase_ne : (j k : K) (d : Dict K V) → j ≢ k → lookup j (erase k d) ≡ lookup j d
  lookup-erase_ne j k [] h = refl
  lookup-erase_ne j k ((i, w) ∷ d) h =
      ground (arith, e.same_iff j k, e.same_iff k i, e.same_iff j i, lookup-erase_ne j k d h)

abbrev pub keys {ℓ} : {K : Type 0} {V : Type ℓ} → Dict K V → List K
keys [] = []
keys ((k, v) ∷ d) = k ∷ keys d

abbrev pub values {ℓ} : {K : Type 0} {V : Type ℓ} → Dict K V → List V
values [] = []
values ((k, v) ∷ d) = v ∷ values d

-- Each key is listed once.
abbrev pub Unique {ℓ} : {K : Type 0} {V : Type ℓ} ⦃e : HasEq K⦄ → Dict K V → Type ℓ
Unique [] = Unit
Unique ((k, v) ∷ d) = (lookup k d ≡ none) × Unique d

module _ {ℓ} {K : Type 0} {V : Type ℓ} ⦃e : HasEq K⦄ where
  pub insert-Unique : (k : K) (v : V) (d : Dict K V) → Unique d → Unique (insert k v d)
  insert-Unique k v [] u = (refl, tt)
  insert-Unique k v ((j, w) ∷ d) u =
      ground (arith, insert-Unique k v d u.1, lookup-insert j k v d, e.same_iff j k, e.same_iff k j)

  pub length-insert :
      (k : K) (v : V) (d : Dict K V)
      → length (insert k v d) ≡ elim (lookup k d) [ none ↦ suc (length d) | some _ ↦ length d ]
  length-insert k v [] = refl
  length-insert k v ((j, w) ∷ d) = ground (arith, length-insert k v d)

module _ {ℓ} {K : Type 0} {V : Type ℓ} ⦃e : HasEq K⦄ where
  lookup-erase-none : (k j : K) (d : Dict K V) → lookup k d ≡ none → lookup k (erase j d) ≡ none
  lookup-erase-none k j [] h = refl
  lookup-erase-none k j ((i, v) ∷ d) h = ground (arith, lookup-erase-none k j d)

  pub erase-Unique : (k : K) (d : Dict K V) → Unique d → Unique (erase k d)
  erase-Unique k [] u = tt
  erase-Unique k ((i, v) ∷ d) u = ground (arith, erase-Unique k d u.1, lookup-erase-none i k d u.0)

  pub lookup-erase :
      (k j : K) (d : Dict K V)
      → Unique d
      → lookup k (erase j d) ≡ (if k == j then none else lookup k d)
  lookup-erase k j [] u = ground arith
  lookup-erase k j ((i, v) ∷ d) u =
      ground (arith, lookup-erase k j d u.1, ==_iff k j, ==_iff k i, ==_iff j i)
