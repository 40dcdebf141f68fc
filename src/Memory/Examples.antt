-- ===== src/Memory/Examples.antt =====
-- The theorems of this folder at concrete stores, and an entry that is written to another scope.
use autoweave_library.Common.{
  ◌<◌, ◌≡◌, ◌≤◌, refl, Bool, none, some, List, [], String, lookup, ok, err, key_error, length, All,
  if◌then◌else◌, ◌==◌, string_eq, same_text, arith,
}
use autoweave_library.Events.Redaction.{JsonFields, codes}
use autoweave_library.Memory.Store.{
  MemoryEntryRecord, MemoryLayer, MemoryStore, write, list_scope, delete_matching, scope_eq,
}
use autoweave_library.Memory.Store.Index.{IsIndexed}
use autoweave_library.Memory.Store.Deletion.{matching, unless, delete_matching_lem}
use autoweave_library.Memory.Store.Scopes.{Lists}
use autoweave_library.Memory.Store.Writing.{write-list_scope}
use autoweave_library.Memory.Store.Search.{MemoryQueryResult, search, query_terms}
use autoweave_library.Memory.Store.Search.Naming.{Names}
use autoweave_library.Memory.Store.Search.Sorting.{IsRanked, IsAnswered}
use autoweave_library.Memory.Store.Search.Ranking.{
  IsHit, IsStored, score_in, scored, search-IsRanked,
}

abbrev note : (id scope_id content : String) → MemoryEntryRecord
note id scope_id content = record {
  id = id;
  project_id = "p";
  scope_type = "project";
  scope_id = scope_id;
  memory_layer = MemoryLayer.semantic;
  content = content;
  metadata_json = JsonFields.end;
  valid_from = 1;
  valid_to = none;
  created_at = 1;
}

abbrev empty_store : MemoryStore
empty_store = record { entries = []; by_scope = [] }

empty_store-IsIndexed : IsIndexed empty_store
empty_store-IsIndexed = record {
  keyed = λ i e h. absurd (ground arith);
  listed = λ i e h. absurd (ground arith);
  known = λ k i h. absurd (ground arith);
  once = tt;
  once_scope = tt;
}

abbrev one_note : MemoryStore
one_note = (write (note "m1" "main" "retry the build") empty_store).1

one_note-IsIndexed : IsIndexed one_note
one_note-IsIndexed =
    (write-list_scope (note "m1" "main" "retry the build") empty_store empty_store-IsIndexed tt).1

m2_is_new : lookup "m2" one_note.entries ≡ none
unfolding write same_text
m2_is_new = refl

write-list_scope_example :
    let e = note "m2" "main" "build twice" in
    let s' = (write e one_note).1 in
    ((write e one_note).0 ≡ ok e)
    × IsIndexed s'
    × Lists (list_scope "project" "main" s') (λ c.
      (lookup c.id s'.entries ≡ some c) × (c.scope_type ≡ "project") × (c.scope_id ≡ "main"))
    × ((j : String)
        → lookup j s'.entries ≡ (if j == "m2" then some e else lookup j one_note.entries))
unfolding write same_text
write-list_scope_example =
    write-list_scope (note "m2" "main" "build twice") one_note one_note-IsIndexed tt

abbrev is_retry : MemoryEntryRecord → Bool
is_retry e = e.content == "retry the build"

delete_matching_lem_example :
    let s' = (delete_matching is_retry one_note).1 in
    ((delete_matching is_retry one_note).0 ≡ ok (matching is_retry one_note.entries))
    × IsIndexed s'
    × ((j : String) → lookup j s'.entries ≡ unless is_retry (lookup j one_note.entries))
delete_matching_lem_example = delete_matching_lem is_retry one_note one_note-IsIndexed

abbrev no_text : JsonFields → String
no_text m = "{}"

search-IsRanked_example :
    (kind : String) × (name : String) × (answer : List MemoryQueryResult) × (Names "project:main"
        kind name
      × (search codes no_text "build" "project:main" 5 one_note ≡ ok answer)
      × (length answer ≤ 5)
      × IsRanked answer
      × All (IsHit codes no_text "build" kind name one_note) answer
      × ((e : MemoryEntryRecord)
          → IsStored codes no_text kind name one_note e
          → 0 < score_in codes no_text (query_terms codes no_text "build") e
          → IsAnswered 5 answer (scored codes no_text (query_terms codes no_text "build") e)))
search-IsRanked_example =
    search-IsRanked codes no_text "build" "project:main" 5 one_note one_note-IsIndexed

-- Written again to another scope and then deleted, an entry leaves its id in the first scope.
stale_id_raises :
    let moved = (write (note "m1" "other" "retry the build") one_note).1 in
    let left = (delete_matching is_retry moved).1 in
    list_scope "project" "main" left ≡ err key_error
unfolding write list_scope delete_matching same_text
stale_id_raises = refl
