-- ===== src/Memory/Store.antt =====
-- autoweave/memory/store.py: `InMemoryMemoryStore`. `str.lower` is the argument `lower`, which
-- answers the code points of the lowered text, and `str` on metadata is `str_of`. The number of
-- results asked for is not negative.
pub mod Index
pub mod Deletion
pub mod Scopes
pub mod Writing
pub mod Search
use autoweave_library.Common.{
  ℕ, zero, suc, ◌≡◌, ◌↔◌, Bool, true, false, not, ◌&&◌, ◌||◌, Option, none, some, List, [], ◌∷◌,
  map, String, Dict, lookup, insert, erase, get_or, set_add, Result, ok, err, bind, key_error,
  Action, keep, tally, HasEq, ltb, nat_beq, if◌then◌else◌, ◌==◌, ==_iff, string_eq, nat_eq,
  text_leb, arith, join, is_space_code, split_at_colon,
}
use autoweave_library.Events.Redaction.{JsonFields, Json, JsonItems, Scalar, is_infix}

pub data MemoryLayer : Type 0 where
  episodic : MemoryLayer
  semantic : MemoryLayer
  procedural : MemoryLayer
  code : MemoryLayer
  graph : MemoryLayer

pub record MemoryEntryRecord : Type 0 where
  pub id : String
  pub project_id : String
  pub scope_type : String
  pub scope_id : String
  pub memory_layer : MemoryLayer
  pub content : String
  pub metadata_json : JsonFields
  pub valid_from : ℕ
  pub valid_to : Option ℕ
  pub created_at : ℕ

-- `(scope_type, scope_id)`
pub record Scope : Type 0 where
  pub kind : String
  pub name : String

pub same_scope_iff : (a b : Scope) → ((a.kind == b.kind && a.name == b.name) ≡ true) ↔ (a ≡ b)
same_scope_iff a b = ground (arith, ==_iff a.kind b.kind, ==_iff a.name b.name)

instance abbrev pub scope_eq : HasEq Scope
scope_eq = record { same = λ a b. a.kind == b.kind && a.name == b.name; same_iff = same_scope_iff }

abbrev pub scope_of : MemoryEntryRecord → Scope
scope_of e = record { kind = e.scope_type; name = e.scope_id }

pub record MemoryStore : Type 0 where
  pub entries : Dict String MemoryEntryRecord
  pub by_scope : Dict Scope (List String)

unfoldable pub write : MemoryEntryRecord → Action MemoryStore MemoryEntryRecord
unfolding set_add
write entry s = (
  ok entry,
  record {
    entries = insert entry.id entry s.entries;
    by_scope =
        insert (scope_of entry) (set_add entry.id (get_or [] (scope_of entry) s.by_scope))
          s.by_scope;
  },
)

-- `[self._entries[entry_id] for entry_id in entry_ids]`
unfoldable pub entries_at :
    Dict String MemoryEntryRecord → List String → Result (List MemoryEntryRecord)
entries_at d [] = ok []
entries_at d (id ∷ ids) = elim (lookup id d) [
  | none ↦ err key_error
  | some entry ↦ elim (entries_at d ids) [ err e ↦ err e | ok rest ↦ ok (entry ∷ rest) ]
]

unfoldable pub list_scope :
    (scope_type scope_id : String) → MemoryStore → Result (List MemoryEntryRecord)
unfolding entries_at
list_scope scope_type scope_id s =
    entries_at s.entries (get_or [] (record { kind = scope_type; name = scope_id }) s.by_scope)

-- The ids of a scope set to what is left of them, and the scope popped if nothing is.
unfoldable pub set_or_pop :
    Scope → List String → Dict Scope (List String) → Dict Scope (List String)
set_or_pop k [] d = erase k d
set_or_pop k (i ∷ is) d = insert k (i ∷ is) d

-- One round of the loop of `delete_matching`, on an entry that is to go.
unfoldable pub delete_entry : String → MemoryEntryRecord → MemoryStore → MemoryStore
unfolding set_or_pop
delete_entry entry_id entry s = record {
  entries = erase entry_id s.entries;
  by_scope =
      set_or_pop (scope_of entry)
        (keep (λ (i : String). not (i == entry_id)) (get_or [] (scope_of entry) s.by_scope))
        s.by_scope;
}

unfoldable pub delete_entries :
    (MemoryEntryRecord → Bool)
    → List (String × MemoryEntryRecord)
    → MemoryStore
    → List String × MemoryStore
unfolding delete_entry
delete_entries predicate [] s = ([], s)
delete_entries predicate ((entry_id, entry) ∷ rest) s =
    if predicate entry
    then (let (deleted, s') = delete_entries predicate rest (delete_entry entry_id entry s) in
        (entry_id ∷ deleted, s'))
    else delete_entries predicate rest s

unfoldable pub delete_matching : (MemoryEntryRecord → Bool) → Action MemoryStore (List String)
unfolding delete_entries
delete_matching predicate s =
    let (deleted, s') = delete_entries predicate s.entries s in (ok deleted, s')

unfoldable pub id_items : List MemoryEntryRecord → JsonItems
id_items [] = JsonItems.nil
id_items (e ∷ es) = JsonItems.item (Json.leaf (Scalar.text e.id)) (id_items es)

-- The entry that `compact` makes of the entries of a scope.
unfoldable pub compacted :
    (scope_type scope_id new_id : String) → ℕ → List MemoryEntryRecord → Option MemoryEntryRecord
unfolding id_items join
compacted scope_type scope_id new_id now [] = none
compacted scope_type scope_id new_id now (e ∷ es) = some (record {
  id = new_id;
  project_id = e.project_id;
  scope_type = scope_type;
  scope_id = scope_id;
  memory_layer = e.memory_layer;
  content = join "\n" (map (λ (c : MemoryEntryRecord). c.content) (e ∷ es));
  metadata_json = JsonFields.field "compacted_from" (Json.array (id_items (e ∷ es))) JsonFields.end;
  valid_from = now;
  valid_to = none;
  created_at = now;
})

unfoldable pub compact :
    (scope_type scope_id new_id : String) → ℕ → MemoryStore → Result (Option MemoryEntryRecord)
unfolding list_scope compacted
compact scope_type scope_id new_id now s =
    bind (list_scope scope_type scope_id s)
      λ entries. ok (compacted scope_type scope_id new_id now entries)
