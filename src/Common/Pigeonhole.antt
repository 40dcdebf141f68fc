-- ===== src/Common/Pigeonhole.antt =====
-- Two lists of one length, one with each element at most as often as the other, rearrange each
-- other.
use Prim.Native.Nat.{suc, ◌≤◌, ◌<◌, ◌-◌}
use mathlib.Core.Path.{◌≡◌, refl}
use mathlib.Core.List.{List, [], ◌∷◌}
use native.Mathlib.Omega.{arith}
use autoweave_library.Common.Tests.{HasEq, ◌==◌, ==_refl, if◌then◌else◌}
use autoweave_library.Common.Lists.{length, occurrences}

module _ {ℓ} {A : Type ℓ} ⦃e : HasEq A⦄ where
  abbrev erase_first : A → List A → List A
  erase_first a [] = []
  erase_first a (x ∷ xs) = if a == x then xs else x ∷ erase_first a xs

  occurrences-erase_first :
      (v a : A) (xs : List A)
      → occurrences v (erase_first a xs)
        ≡ (if v == a then occurrences v xs - 1 else occurrences v xs)
  occurrences-erase_first v a [] = ground arith
  occurrences-erase_first v a (x ∷ xs) =
      ground (arith, occurrences-erase_first v a xs, e.same_iff v a, e.same_iff a x, e.same_iff v x)

  length-erase_first :
      (a : A) (xs : List A) → 0 < occurrences a xs → suc (length (erase_first a xs)) ≡ length xs
  length-erase_first a [] h = absurd (omega arith)
  length-erase_first a (x ∷ xs) h = ground (arith, length-erase_first a xs)

  pub occurrences-eq_of_le :
      (xs ys : List A)
      → ((v : A) → occurrences v xs ≤ occurrences v ys)
      → length xs ≡ length ys
      → (v : A) → occurrences v xs ≡ occurrences v ys
  occurrences-eq_of_le [] [] h l v = refl
  occurrences-eq_of_le [] (y ∷ ys) h l v = absurd (omega arith)
  occurrences-eq_of_le (x ∷ xs) ys h l v =
      let found : 0 < occurrences x ys = ground (arith, h x, ==_refl x) in
      let rest =
        occurrences-eq_of_le xs (erase_first x ys)
          (λ w. ground (arith, h w, occurrences-erase_first w x ys, e.same_iff w x))
          (omega (arith, length-erase_first x ys found)) in
      ground (arith, rest v, h v, occurrences-erase_first v x ys, e.same_iff v x)
