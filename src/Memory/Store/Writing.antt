-- ===== src/Memory/Store/Writing.antt =====
-- autoweave/memory/store.py: what `write` changes.
use autoweave_library.Common.{
  ◌≡◌, ◌⊎◌, refl, sym, ◌∙◌, ap, subst, true, false, ◌&&◌, ◌||◌, Option, none, some, List, [], ◌∷◌,
  String, lookup, get_or, set_add, lookup-insert, insert-Unique, ok, member, member-append,
  if◌then◌else◌, ◌==◌, ==_iff, string_eq, arith, Bool-cases, inl, inr,
}
use autoweave_library.Memory.Store.{
  MemoryEntryRecord, Scope, scope_eq, scope_of, MemoryStore, write, list_scope,
}
use autoweave_library.Memory.Store.Index.{IsIndexed, IsIn, ids}
use autoweave_library.Memory.Store.Scopes.{Lists, IsIn-found, list_scope-Lists}

-- The scope of the entry under its id, if there is one, is that of the new entry.
abbrev pub Stays : MemoryEntryRecord → Option MemoryEntryRecord → Type 0
Stays entry none = Unit {0}
Stays entry (some old) = scope_of old ≡ scope_of entry

write-lookup :
    (entry : MemoryEntryRecord) (j : String) (s : MemoryStore)
    → lookup j (write entry s).1.entries
      ≡ (if j == entry.id then some entry else lookup j s.entries)
unfolding write
write-lookup entry j s = lookup-insert j entry.id entry s.entries

member-set_add :
    (j a : String) (is : List String) → member j (set_add a is) ≡ (member j is || j == a)
unfolding set_add
member-set_add j a is = elim (Bool-cases (member a is)) [
  | inl there ↦
      let moved : (j == a) ≡ true → member j is ≡ true =
        λ h. subst (λ b. member b is ≡ true) (sym ((==_iff j a).0 h)) there in
      rw there (ground (arith, moved))
  | inr fresh ↦ rw fresh (ground (arith, member-append j is (a ∷ [])))
]

write-ids :
    (entry : MemoryEntryRecord) (k : Scope) (s : MemoryStore)
    → ids k (write entry s).1
      ≡ (if k == scope_of entry then set_add entry.id (ids (scope_of entry) s) else ids k s)
unfolding write
write-ids entry k s =
    let added = set_add entry.id (ids (scope_of entry) s) in
    ground (arith, lookup-insert k (scope_of entry) added s.by_scope)

write-member :
    (entry : MemoryEntryRecord) (j : String) (k : Scope) (s : MemoryStore)
    → member j (ids k (write entry s).1)
      ≡ (member j (ids k s) || (k == scope_of entry && j == entry.id))
write-member entry j k s = elim (Bool-cases (k == scope_of entry)) [
  | inl same ↦
      let at_k = (==_iff k (scope_of entry)).0 same in
      let e : ids k (write entry s).1 ≡ set_add entry.id (ids (scope_of entry) s) =
        write-ids entry k s ∙ rw same refl in
      let moved : member j (ids (scope_of entry) s) ≡ member j (ids k s) =
        ap (λ c. member j (ids c s)) (sym at_k) in
      ap (member j) e ∙ member-set_add j entry.id (ids (scope_of entry) s) ∙ ground arith
  | inr other ↦
      let e : ids k (write entry s).1 ≡ ids k s = write-ids entry k s ∙ rw other refl in
      ap (member j) e ∙ ground arith
]

write-lookup_new :
    (entry : MemoryEntryRecord) (j : String) (s : MemoryStore)
    → (j == entry.id) ≡ true
    → lookup j (write entry s).1.entries ≡ some entry
write-lookup_new entry j s same = write-lookup entry j s ∙ rw same refl

write-lookup_old :
    (entry : MemoryEntryRecord) (j : String) (s : MemoryStore)
    → (j == entry.id) ≡ false
    → lookup j (write entry s).1.entries ≡ lookup j s.entries
write-lookup_old entry j s other = write-lookup entry j s ∙ rw other refl

-- An entry of the store after a write is the new one, or an old one under another id.
write-cases :
    (entry c : MemoryEntryRecord) (j : String) (s : MemoryStore)
    → lookup j (write entry s).1.entries ≡ some c
    → ((j ≡ entry.id) × (entry ≡ c)) ⊎ ((lookup j s.entries ≡ some c) × ((j == entry.id) ≡ false))
write-cases entry c j s h = elim (Bool-cases (j == entry.id)) [
  | inl same ↦
      let e : some entry ≡ some c = sym (write-lookup_new entry j s same) ∙ h in
      inl ((==_iff j entry.id).0 same, ground arith)
  | inr other ↦ inr (sym (write-lookup_old entry j s other) ∙ h, other)
]

write-known :
    (entry : MemoryEntryRecord) (s : MemoryStore) (k : Scope) (j : String)
    → IsIndexed s
    → Stays entry (lookup entry.id s.entries)
    → member j (ids k (write entry s).1) ≡ true
    → IsIn k (lookup j (write entry s).1.entries)
write-known entry s k j x stays h = elim (Bool-cases (j == entry.id)) [
  | inl same ↦
      subst (IsIn k) (sym (write-lookup_new entry j s same))
        (elim (Bool-cases (k == scope_of entry)) [
          | inl here ↦ sym ((==_iff k (scope_of entry)).0 here)
          | inr there ↦
              let before = sym (write-member entry j k s) ∙ h in
              let old =
                subst (λ i. member i (ids k s) ≡ true) ((==_iff j entry.id).0 same)
                  (ground arith) in
              let (e, (found, at_k)) =
                IsIn-found k (lookup entry.id s.entries) (x.known k entry.id old) in
              sym (subst (Stays entry) found stays) ∙ at_k
        ])
  | inr other ↦
      let before = sym (write-member entry j k s) ∙ h in
      subst (IsIn k) (sym (write-lookup_old entry j s other)) (x.known k j (ground arith))
]

write-IsIndexed :
    (entry : MemoryEntryRecord) (s : MemoryStore)
    → IsIndexed s
    → Stays entry (lookup entry.id s.entries)
    → IsIndexed (write entry s).1
unfolding write
write-IsIndexed entry s x stays = record {
  keyed = λ j c h. elim (write-cases entry c j s h) [
    | inl (same, new) ↦ ap (λ (e : MemoryEntryRecord). e.id) (sym new) ∙ sym same
    | inr (old, other) ↦ x.keyed j c old
  ];
  listed = λ j c h. write-member entry j (scope_of c) s ∙ elim (write-cases entry c j s h) [
    | inl (same, new) ↦
        let kind = (==_iff (scope_of c) (scope_of entry)).1 (ap scope_of (sym new)) in
        let named = (==_iff j entry.id).1 same in ground arith
    | inr (old, other) ↦ rw (x.listed j c old) refl
  ];
  known = λ k j h. write-known entry s k j x stays h;
  once = insert-Unique entry.id entry s.entries x.once;
  once_scope =
      insert-Unique (scope_of entry) (set_add entry.id (get_or [] (scope_of entry) s.by_scope))
        s.by_scope x.once_scope;
}

-- On a store whose index agrees with its entries, a write of an entry that is new or stays in its
-- scope answers it and leaves the index in agreement; `list_scope` on its scope then lists it, and
-- beside it just the entries of the scope that were there under other ids.
pub write-list_scope :
    (entry : MemoryEntryRecord) (s : MemoryStore)
    → IsIndexed s
    → Stays entry (lookup entry.id s.entries)
    → let s' = (write entry s).1 in
      ((write entry s).0 ≡ ok entry)
      × IsIndexed s'
      × Lists (list_scope entry.scope_type entry.scope_id s') (λ e.
        (lookup e.id s'.entries ≡ some e)
        × (e.scope_type ≡ entry.scope_type)
        × (e.scope_id ≡ entry.scope_id))
      × ((j : String)
          → lookup j s'.entries ≡ (if j == entry.id then some entry else lookup j s.entries))
unfolding write
write-list_scope entry s x stays =
    let x' = write-IsIndexed entry s x stays in
    (
      refl,
      x',
      list_scope-Lists entry.scope_type entry.scope_id (write entry s).1 x',
      λ j. write-lookup entry j s,
    )
