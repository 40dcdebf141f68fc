-- ===== src/Memory/Store/Search/Sorting.antt =====
-- autoweave/memory/store.py: the results of `search`, sorted and cut to the number asked for.
use autoweave_library.Common.{
  ℕ, zero, suc, ◌≤◌, ◌≡◌, ◌⊎◌, refl, sym, ap, subst, true, false, List, [], ◌∷◌, length, All,
  All-map, Has, Bool-cases, inl, inr, arith, nat_eq, string_eq,
}
use autoweave_library.Memory.Store.Search.{
  MemoryQueryResult, result_leb, insert_result, sort_results, first_results,
}

-- Better scores come first.
abbrev pub IsRanked : List MemoryQueryResult → Type 0
IsRanked [] = Unit {0}
IsRanked (r ∷ rs) = All (λ (q : MemoryQueryResult). q.score ≤ r.score) rs × IsRanked rs

insert_result-All :
    (P : MemoryQueryResult → Type 0) (a : MemoryQueryResult) (bs : List MemoryQueryResult)
    → P a
    → All P bs
    → All P (insert_result a bs)
unfolding insert_result
insert_result-All P a [] p h = (p, tt)
insert_result-All P a (b ∷ bs) p h = elim (Bool-cases (result_leb a b)) [
  | inl first ↦ rw first (p, h)
  | inr later ↦ rw later (h.0, insert_result-All P a bs p h.1)
]

leb-score : (a b : MemoryQueryResult) → result_leb a b ≡ true → b.score ≤ a.score
unfolding result_leb
leb-score a b h = ground arith

not_leb-score : (a b : MemoryQueryResult) → result_leb a b ≡ false → a.score ≤ b.score
unfolding result_leb
not_leb-score a b h = ground arith

insert_result-IsRanked :
    (a : MemoryQueryResult) (bs : List MemoryQueryResult)
    → IsRanked bs
    → IsRanked (insert_result a bs)
unfolding insert_result
insert_result-IsRanked a [] h = (tt, tt)
insert_result-IsRanked a (b ∷ bs) h = elim (Bool-cases (result_leb a b)) [
  | inl first ↦
      let below = leb-score a b first in
      rw first (
        (
          below,
          All-map (λ (q : MemoryQueryResult). q.score ≤ b.score)
              (λ (q : MemoryQueryResult). q.score ≤ a.score) bs (λ q k. omega (arith, below, k))
              h.0,
        ),
        h,
      )
  | inr later ↦ rw later (
    insert_result-All (λ (q : MemoryQueryResult). q.score ≤ b.score) a bs (not_leb-score a b later)
        h.0,
    insert_result-IsRanked a bs h.1,
  )
]

pub sort_results-IsRanked : (rs : List MemoryQueryResult) → IsRanked (sort_results rs)
unfolding sort_results
sort_results-IsRanked [] = tt
sort_results-IsRanked (r ∷ rs) =
    insert_result-IsRanked r (sort_results rs) (sort_results-IsRanked rs)

pub sort_results-All :
    (P : MemoryQueryResult → Type 0) (rs : List MemoryQueryResult)
    → All P rs
    → All P (sort_results rs)
unfolding sort_results
sort_results-All P [] h = tt
sort_results-All P (r ∷ rs) h =
    insert_result-All P r (sort_results rs) h.0 (sort_results-All P rs h.1)

pub first_results-All :
    (P : MemoryQueryResult → Type 0) (n : ℕ) (rs : List MemoryQueryResult)
    → All P rs
    → All P (first_results n rs)
unfolding first_results
first_results-All P zero rs h = tt
first_results-All P (suc n) [] h = tt
first_results-All P (suc n) (r ∷ rs) h = (h.0, first_results-All P n rs h.1)

pub first_results-IsRanked :
    (n : ℕ) (rs : List MemoryQueryResult) → IsRanked rs → IsRanked (first_results n rs)
unfolding first_results
first_results-IsRanked zero rs h = tt
first_results-IsRanked (suc n) [] h = tt
first_results-IsRanked (suc n) (r ∷ rs) h = (
  first_results-All (λ (q : MemoryQueryResult). q.score ≤ r.score) n rs h.0,
  first_results-IsRanked n rs h.1,
)

pub first_results-length : (n : ℕ) (rs : List MemoryQueryResult) → length (first_results n rs) ≤ n
unfolding first_results
first_results-length zero rs = ground arith
first_results-length (suc n) [] = ground arith
first_results-length (suc n) (r ∷ rs) = ground (arith, first_results-length n rs)

insert_result-Has :
    (r a : MemoryQueryResult) (bs : List MemoryQueryResult)
    → Has r (a ∷ bs)
    → Has r (insert_result a bs)
unfolding insert_result
insert_result-Has r a [] h = h
insert_result-Has r a (b ∷ bs) h = elim (Bool-cases (result_leb a b)) [
  | inl first ↦ rw first h
  | inr later ↦ rw later (elim h [
    | inl e ↦ inr (insert_result-Has r a bs (inl e))
    | inr k ↦ elim k [ inl e ↦ inl e | inr m ↦ inr (insert_result-Has r a bs (inr m)) ]
  ])
]

pub sort_results-Has :
    (r : MemoryQueryResult) (rs : List MemoryQueryResult) → Has r rs → Has r (sort_results rs)
unfolding sort_results
sort_results-Has r [] h = absurd h
sort_results-Has r (q ∷ rs) h =
    insert_result-Has r q (sort_results rs)
      (elim h [ inl e ↦ inl e | inr k ↦ inr (sort_results-Has r rs k) ])

Has-All :
    (P : MemoryQueryResult → Type 0) (r : MemoryQueryResult) (rs : List MemoryQueryResult)
    → Has r rs
    → All P rs
    → P r
Has-All P r [] h k = absurd h
Has-All P r (q ∷ rs) (inl e) k = subst P (sym e) k.0
Has-All P r (q ∷ rs) (inr h) k = Has-All P r rs h k.1

-- The result is among the answered ones, or these are as many as were asked for, and none of them
-- has a lower score.
abbrev pub IsAnswered : (top_k : ℕ) → List MemoryQueryResult → MemoryQueryResult → Type 0
IsAnswered top_k answer r =
    Has r answer
    ⊎ ((length answer ≡ top_k) × All (λ (q : MemoryQueryResult). r.score ≤ q.score) answer)

pub first_results-IsAnswered :
    (n : ℕ) (rs : List MemoryQueryResult) (r : MemoryQueryResult)
    → IsRanked rs
    → Has r rs
    → IsAnswered n (first_results n rs) r
unfolding first_results
first_results-IsAnswered zero rs r ranked h = inr (refl, tt)
first_results-IsAnswered (suc n) [] r ranked h = absurd h
first_results-IsAnswered (suc n) (q ∷ rs) r ranked (inl e) = inl (inl e)
first_results-IsAnswered (suc n) (q ∷ rs) r ranked (inr h) =
    elim (first_results-IsAnswered n rs r ranked.1 h) [
      | inl there ↦ inl (inr there)
      | inr (full, above) ↦ inr (
        ap suc full,
        (Has-All (λ (o : MemoryQueryResult). o.score ≤ q.score) r rs h ranked.0, above),
      )
    ]
