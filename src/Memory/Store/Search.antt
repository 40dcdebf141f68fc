-- ===== src/Memory/Store/Search.antt =====
-- autoweave/memory/store.py: `search`. `str.lower` is the argument `lower`, which answers the code
-- points of the lowered text, and `str` on metadata is `str_of`.
pub mod Naming
pub mod Sorting
pub mod Ranking
use autoweave_library.Common.{
  ℕ, zero, suc, ◌≤◌, ◌<◌, ◌≡◌, ◌↔◌, refl, sym, ◌∙◌, subst, Bool, true, false, ◌&&◌, ◌||◌, Option,
  none, some, List, [], ◌∷◌, String, lookup, get_or, Result, ok, bind, tally, length, member, All,
  All-map, Has, HasEq, ltb, if◌then◌else◌, ◌==◌, ==_iff, string_eq, nat_eq, text_leb, arith,
  Bool-cases, inl, inr, join, is_space_code, split_at_colon, is_some_text,
}
use autoweave_library.Events.Redaction.{JsonFields, is_infix}
use autoweave_library.Memory.Store.{
  MemoryEntryRecord, Scope, scope_eq, MemoryStore, entries_at, list_scope,
}

pub record MemoryQueryResult : Type 0 where
  pub entry : MemoryEntryRecord
  pub score : ℕ

abbrev pub same_codes : List ℕ → List ℕ → Bool
same_codes [] [] = true
same_codes [] (d ∷ ds) = false
same_codes (c ∷ cs) [] = false
same_codes (c ∷ cs) (d ∷ ds) = c == d && same_codes cs ds

pub same_codes_iff : (s t : List ℕ) → (same_codes s t ≡ true) ↔ (s ≡ t)
same_codes_iff [] [] = ground arith
same_codes_iff [] (d ∷ ds) = ground arith
same_codes_iff (c ∷ cs) [] = ground arith
same_codes_iff (c ∷ cs) (d ∷ ds) = ground (arith, same_codes_iff cs ds)

instance abbrev pub codes_eq : HasEq (List ℕ)
codes_eq = record { same = same_codes; same_iff = same_codes_iff }

-- `scope.partition(":")`, as `search` reads it.
unfoldable pub scope_named : String → Scope
unfolding split_at_colon is_some_text
scope_named scope =
    let (before, after) = split_at_colon scope in
    if is_some_text before
    then record { kind = before; name = after }
    else record { kind = "project"; name = scope }

abbrev pub with_word : List ℕ → List (List ℕ) → List (List ℕ)
with_word [] words = words
with_word (c ∷ cs) words = (c ∷ cs) ∷ words

-- The letters up to the first space, and the words after it.
unfoldable pub pieces : List ℕ → List ℕ × List (List ℕ)
unfolding is_space_code
pieces [] = ([], [])
pieces (c ∷ cs) =
    let (word, words) = pieces cs in
    if is_space_code c then ([], with_word word words) else (c ∷ word, words)

-- `text.split()`
unfoldable pub split_words : List ℕ → List (List ℕ)
unfolding pieces
split_words text = let (word, words) = pieces text in with_word word words

-- A set of words.
unfoldable pub distinct : List (List ℕ) → List (List ℕ)
distinct [] = []
distinct (t ∷ ts) = let rest = distinct ts in if member t ts then rest else t ∷ rest

unfoldable pub score_of : List (List ℕ) → List ℕ → ℕ
unfolding is_infix
score_of terms haystack = tally (λ term. is_infix term haystack) terms

unfoldable pub result_leb : MemoryQueryResult → MemoryQueryResult → Bool
result_leb a b =
    ltb b.score a.score
    || (a.score == b.score
        && (ltb a.entry.created_at b.entry.created_at
            || (a.entry.created_at == b.entry.created_at && text_leb a.entry.id b.entry.id)))

unfoldable pub insert_result : MemoryQueryResult → List MemoryQueryResult → List MemoryQueryResult
unfolding result_leb
insert_result a [] = a ∷ []
insert_result a (b ∷ bs) = if result_leb a b then a ∷ b ∷ bs else b ∷ insert_result a bs

unfoldable pub sort_results : List MemoryQueryResult → List MemoryQueryResult
unfolding insert_result
sort_results [] = []
sort_results (a ∷ rest) = insert_result a (sort_results rest)

-- `matches[:top_k]`
unfoldable pub first_results : ℕ → List MemoryQueryResult → List MemoryQueryResult
first_results zero rs = []
first_results (suc n) [] = []
first_results (suc n) (r ∷ rs) = r ∷ first_results n rs

module _ (lower : String → List ℕ) (str_of : JsonFields → String) where
  unfoldable pub haystack_of : MemoryEntryRecord → List ℕ
  unfolding join
  haystack_of entry = lower (join " " (entry.content ∷ str_of entry.metadata_json ∷ []))

  unfoldable pub query_terms : String → List (List ℕ)
  unfolding distinct split_words
  query_terms query = distinct (split_words (lower query))

  unfoldable pub matches : List (List ℕ) → List MemoryEntryRecord → List MemoryQueryResult
  unfolding score_of haystack_of
  matches terms [] = []
  matches terms (e ∷ es) =
      let rest = matches terms es in
      let score = score_of terms (haystack_of e) in
      if ltb 0 score then record { entry = e; score = score } ∷ rest else rest

  unfoldable pub search :
      (query scope : String) → (top_k : ℕ) → MemoryStore → Result (List MemoryQueryResult)
  unfolding scope_named entries_at query_terms matches sort_results first_results
  search query scope top_k s =
      bind (entries_at s.entries (get_or [] (scope_named scope) s.by_scope))
        λ entries. ok (first_results top_k (sort_results (matches (query_terms query) entries)))
