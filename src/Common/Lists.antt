-- ===== src/Common/Lists.antt =====
-- Lists measured by native numbers, membership tests, and sets of texts as lists.
use Prim.Native.Nat.{ℕ, suc, ◌+◌, ◌≤◌}
use Prim.Native.String.{String}
use mathlib.Core.Path.{◌≡◌, refl, ap}
use mathlib.Core.Logic.{◌⊎◌}
use mathlib.Core.Bool.{Bool, true, false, ◌||◌, ◌&&◌}
use mathlib.Core.List.{List, [], ◌∷◌, ◌++◌}
use native.Mathlib.Omega.{arith}
use autoweave_library.Common.Tests.{ltb, HasEq, ◌==◌, if◌then◌else◌, text_leb, string_eq, ==_iff}

abbrev pub All {ℓ κ} : {A : Type ℓ} → (A → Type κ) → List A → Type κ
All P [] = Unit
All P (x ∷ xs) = P x × All P xs

module _ {ℓ κ} {A : Type ℓ} where
  pub All-append :
      (P : A → Type κ) (front back : List A) → All P front → All P back → All P (front ++ back)
  All-append P [] back early late = late
  All-append P (a ∷ front) back early late = (early.0, All-append P front back early.1 late)

  pub All-map :
      (P : A → Type κ) (Q : A → Type κ) (xs : List A) → ((x : A) → P x → Q x) → All P xs → All Q xs
  All-map P Q [] f h = tt
  All-map P Q (x ∷ xs) f h = (f x h.0, All-map P Q xs f h.1)

  pub All-zip :
      (P Q R : A → Type κ) (xs : List A)
      → ((x : A) → P x → Q x → R x)
      → All P xs
      → All Q xs
      → All R xs
  All-zip P Q R [] f h k = tt
  All-zip P Q R (x ∷ xs) f h k = (f x h.0 k.0, All-zip P Q R xs f h.1 k.1)

-- `x` is one of the elements.
abbrev pub Has : {A : Type 0} → A → List A → Type 0
Has x [] = ⊥
Has x (y ∷ ys) = (x ≡ y) ⊎ Has x ys

module _ {ℓ} {A : Type ℓ} where
  abbrev pub length : List A → ℕ
  length [] = 0
  length (x ∷ xs) = suc (length xs)

  pub length-append : (xs ys : List A) → length (xs ++ ys) ≡ length xs + length ys
  length-append [] ys = omega arith
  length-append (x ∷ xs) ys = omega (arith, length-append xs ys)

  -- `all(test(x) for x in xs)`
  abbrev pub all : (A → Bool) → List A → Bool
  all test [] = true
  all test (x ∷ xs) = test x && all test xs

  -- `any(test(x) for x in xs)`
  abbrev pub any : (A → Bool) → List A → Bool
  any test [] = false
  any test (x ∷ xs) = test x || any test xs

  -- `[x for x in xs if test(x)]`
  abbrev pub keep : (A → Bool) → List A → List A
  keep test [] = []
  keep test (x ∷ xs) = let rest = keep test xs in if test x then x ∷ rest else rest

  -- How many elements pass a test.
  abbrev pub tally : (A → Bool) → List A → ℕ
  tally test [] = 0
  tally test (x ∷ xs) = let rest = tally test xs in if test x then suc rest else rest

  pub tally-append :
      (test : A → Bool) (xs ys : List A) → tally test (xs ++ ys) ≡ tally test xs + tally test ys
  tally-append test [] ys = omega arith
  tally-append test (x ∷ xs) ys = ground (arith, tally-append test xs ys)

module _ {ℓ} {A : Type ℓ} ⦃e : HasEq A⦄ where
  -- `x in xs`
  abbrev pub member : A → List A → Bool
  member a [] = false
  member a (x ∷ xs) = a == x || member a xs

  abbrev pub occurrences : A → List A → ℕ
  occurrences a [] = 0
  occurrences a (x ∷ xs) = let rest = occurrences a xs in if a == x then suc rest else rest

  pub member-append : (a : A) (xs ys : List A) → member a (xs ++ ys) ≡ (member a xs || member a ys)
  member-append a [] ys = refl
  member-append a (x ∷ xs) ys = ground (arith, member-append a xs ys)

  pub occurrences-append :
      (a : A) (xs ys : List A) → occurrences a (xs ++ ys) ≡ occurrences a xs + occurrences a ys
  occurrences-append a [] ys = omega arith
  occurrences-append a (x ∷ xs) ys = ground (arith, occurrences-append a xs ys)

  pub member-eq-ltb : (a : A) (xs : List A) → member a xs ≡ ltb 0 (occurrences a xs)
  member-eq-ltb a [] = refl
  member-eq-ltb a (x ∷ xs) = ground (arith, member-eq-ltb a xs)

  pub not-member : (a : A) (xs : List A) → occurrences a xs ≡ 0 → member a xs ≡ false
  not-member a xs h = ground (arith, member-eq-ltb a xs)

pub member-keep {ℓ} :
    {A : Type ℓ} ⦃e : HasEq A⦄ (test : A → Bool) (a : A) (xs : List A)
    → member a (keep test xs) ≡ (member a xs && test a)
member-keep test a [] = ground arith
member-keep test a (x ∷ xs) =
    let same : (a == x) ≡ true → test a ≡ test x = λ h. ap test ((==_iff a x).0 h) in
    ground (arith, member-keep test a xs, same)

-- `set.add`, on a set kept as a list without repetitions.
unfoldable pub set_add : String → List String → List String
set_add a s = if member a s then s else s ++ (a ∷ [])

-- `sorted(s)`, by insertion.
unfoldable pub insert_sorted : String → List String → List String
insert_sorted a [] = a ∷ []
insert_sorted a (x ∷ xs) =
    let rest = insert_sorted a xs in if text_leb a x then a ∷ x ∷ xs else x ∷ rest

unfoldable pub sorted : List String → List String
unfolding insert_sorted
sorted [] = []
sorted (x ∷ xs) = insert_sorted x (sorted xs)

pub occurrences-insert_sorted :
    (b a : String) (xs : List String) → occurrences b (insert_sorted a xs) ≡ occurrences b (a ∷ xs)
unfolding insert_sorted
occurrences-insert_sorted b a [] = refl
occurrences-insert_sorted b a (x ∷ xs) = ground (arith, occurrences-insert_sorted b a xs)

-- Sorting rearranges: every text stays as often as it was.
pub occurrences-sorted :
    (b : String) (xs : List String) → occurrences b (sorted xs) ≡ occurrences b xs
unfolding sorted
occurrences-sorted b [] = refl
occurrences-sorted b (x ∷ xs) =
    ground (arith, occurrences-insert_sorted b x (sorted xs), occurrences-sorted b xs)

-- How many of `pool` are not in `seen`: each new one that is put there takes one away.
abbrev pub unseen : List String → List String → ℕ
unseen seen [] = 0
unseen seen (p ∷ pool) = let rest = unseen seen pool in if member p seen then rest else suc rest

unseen-le : (p : String) (seen pool : List String) → unseen (p ∷ seen) pool ≤ unseen seen pool
unseen-le p seen [] = ground arith
unseen-le p seen (q ∷ pool) = ground (arith, unseen-le p seen pool, ==_iff q p)

pub unseen-lt :
    (p : String) (seen pool : List String)
    → member p pool ≡ true
    → member p seen ≡ false
    → suc (unseen (p ∷ seen) pool) ≤ unseen seen pool
unseen-lt p seen [] h k = ground arith
unseen-lt p seen (q ∷ pool) h k =
    ground (arith, unseen-lt p seen pool, unseen-le p seen pool, ==_iff q p, ==_iff p q)
