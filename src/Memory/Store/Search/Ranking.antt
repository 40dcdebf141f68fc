-- ===== src/Memory/Store/Search/Ranking.antt =====
-- autoweave/memory/store.py: what `search` answers.
use autoweave_library.Common.{
  ℕ, ◌≤◌, ◌<◌, ◌≡◌, refl, ◌∙◌, ap, tally, join, false, some, List, [], ◌∷◌, String, lookup, ok,
  length, All, All-map, Has, Bool-cases, inl, inr, arith, nat_eq, string_eq, ltb,
}
use autoweave_library.Events.Redaction.{JsonFields, is_infix}
use autoweave_library.Memory.Store.Search.Naming.{Names, scope_named-Names}
use autoweave_library.Memory.Store.{MemoryEntryRecord, MemoryStore, list_scope}
use autoweave_library.Memory.Store.Index.{IsIndexed}
use autoweave_library.Memory.Store.Scopes.{list_scope-Lists}
use autoweave_library.Memory.Store.Search.{
  MemoryQueryResult, sort_results, first_results, matches, search, scope_named, score_of,
  haystack_of, query_terms,
}
use autoweave_library.Memory.Store.Search.Sorting.{
  IsRanked, sort_results-IsRanked, sort_results-All, first_results-All, first_results-IsRanked,
  first_results-length, sort_results-Has, IsAnswered, first_results-IsAnswered,
}

module _ (lower : String → List ℕ) (str_of : JsonFields → String) where
  -- How many of the words are in the lowered content and metadata of the entry.
  abbrev pub score_in : List (List ℕ) → MemoryEntryRecord → ℕ
  score_in terms e =
      tally (λ term. is_infix term (lower (join " " (e.content ∷ str_of e.metadata_json ∷ []))))
        terms

  abbrev pub scored : List (List ℕ) → MemoryEntryRecord → MemoryQueryResult
  scored terms e = record { entry = e; score = score_in terms e }

  -- A result is an entry of the list with its score, which is not zero.
  abbrev IsMatch : List (List ℕ) → List MemoryEntryRecord → MemoryQueryResult → Type 0
  IsMatch terms es r = Has r.entry es × (0 < r.score) × (r.score ≡ score_in terms r.entry)

  matches-All :
      (terms : List (List ℕ)) (es : List MemoryEntryRecord)
      → All (IsMatch terms es) (matches lower str_of terms es)
  unfolding matches score_of haystack_of
  matches-All terms [] = tt
  matches-All terms (e ∷ es) =
      let later =
        All-map (IsMatch terms es) (IsMatch terms (e ∷ es)) (matches lower str_of terms es)
          (λ r m. (inr m.0, m.1, m.2)) (matches-All terms es) in
      elim (Bool-cases (ltb 0 (score_in terms e))) [
        | inl hit ↦ rw hit ((inl refl, ground arith, refl), later)
        | inr zero_score ↦ rw zero_score later
      ]

  matches-Has :
      (terms : List (List ℕ)) (es : List MemoryEntryRecord) (e : MemoryEntryRecord)
      → Has e es
      → 0 < score_in terms e
      → Has (scored terms e) (matches lower str_of terms es)
  unfolding matches score_of haystack_of
  matches-Has terms [] e h positive = absurd h
  matches-Has terms (o ∷ es) e h positive = elim (Bool-cases (ltb 0 (score_in terms o))) [
    | inl hit ↦ rw hit (elim h [
      | inl same ↦ inl (ap (scored terms) same)
      | inr k ↦ inr (matches-Has terms es e k positive)
    ])
    | inr zero_score ↦ rw zero_score (elim h [
      | inl same ↦
          let none_found : ltb 0 (score_in terms e) ≡ false =
            ap (λ x. ltb 0 (score_in terms x)) same ∙ zero_score in
          absurd (ground arith)
      | inr k ↦ matches-Has terms es e k positive
    ])
  ]

  -- The entry is stored in this scope.
  abbrev pub IsStored : (kind name : String) → MemoryStore → MemoryEntryRecord → Type 0
  IsStored kind name s e =
      (lookup e.id s.entries ≡ some e) × (e.scope_type ≡ kind) × (e.scope_id ≡ name)

  -- A stored entry of the scope, with its score for the words of the query, which is not zero.
  abbrev pub IsHit : (query kind name : String) → MemoryStore → MemoryQueryResult → Type 0
  IsHit query kind name s r =
      IsStored kind name s r.entry
      × (0 < r.score)
      × (r.score ≡ score_in (query_terms lower str_of query) r.entry)

  -- On a store whose index agrees with its entries, `search` reads the scope that the text names,
  -- by its kind and its name. It returns at most `top_k` results, the better scores first; each is
  -- a stored entry of that scope with its score for the words of the query, which is not zero; and
  -- each stored entry of the scope with such a score is among them, unless they are `top_k` results
  -- that all score at least as much.
  pub search-IsRanked :
      (query scope : String) (top_k : ℕ) (s : MemoryStore)
      → IsIndexed s
      → (kind : String) × (name : String) × (answer : List MemoryQueryResult) × (Names scope kind
            name
          × (search lower str_of query scope top_k s ≡ ok answer)
          × (length answer ≤ top_k)
          × IsRanked answer
          × All (IsHit query kind name s) answer
          × ((e : MemoryEntryRecord)
              → IsStored kind name s e
              → 0 < score_in (query_terms lower str_of query) e
              → IsAnswered top_k answer (scored (query_terms lower str_of query) e)))
  unfolding search list_scope
  search-IsRanked query scope top_k s x =
      let k = scope_named scope in
      let (es, (returned, lists)) = list_scope-Lists k.kind k.name s x in
      let terms = query_terms lower str_of query in
      let ms = matches lower str_of terms es in
      let ranked = sort_results ms in
      (
        k.kind,
        k.name,
        first_results top_k ranked,
        (
          scope_named-Names scope,
          rw returned refl,
          first_results-length top_k ranked,
          first_results-IsRanked top_k ranked (sort_results-IsRanked ms),
          first_results-All (IsHit query k.kind k.name s) top_k ranked (
              sort_results-All (IsHit query k.kind k.name s) ms (
                All-map (IsMatch terms es) (IsHit query k.kind k.name s) ms
                  (λ r (there, positive, score). ((lists r.entry).0 there, positive, score))
                  (matches-All terms es))),
          λ e stored positive.
              first_results-IsAnswered top_k ranked (scored terms e) (sort_results-IsRanked ms) (
                sort_results-Has (scored terms e) ms
                  (matches-Has terms es e ((lists e).1 stored) positive)),
        ),
      )
