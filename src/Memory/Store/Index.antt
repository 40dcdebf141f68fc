-- ===== src/Memory/Store/Index.antt =====
-- autoweave/memory/store.py: when the index by scope agrees with the entries, and that writing and
-- deleting keep it so.
use autoweave_library.Common.{
  ◌≡◌, ap, refl, sym, ◌∙◌, subst, true, false, not, ◌&&◌, Option, none, some, List, [], ◌∷◌, String,
  Dict, lookup, get_or, Unique, lookup-insert, lookup-erase, insert-Unique, erase-Unique, keep,
  member, member-keep, if◌then◌else◌, ◌==◌, ==_iff, string_eq, arith, Bool-cases, inl, inr,
}
use autoweave_library.Memory.Store.{
  MemoryEntryRecord, Scope, scope_eq, scope_of, MemoryStore, set_or_pop, delete_entry,
}

abbrev pub ids : Scope → MemoryStore → List String
ids k s = get_or [] k s.by_scope

-- An entry of that scope is there.
abbrev pub IsIn : Scope → Option MemoryEntryRecord → Type 0
IsIn k none = ⊥
IsIn k (some e) = scope_of e ≡ k

-- Each entry stands under its own id and is listed in its scope, and a scope lists nothing else.
pub record IsIndexed (s : MemoryStore) : Type 0 where
  pub keyed : (i : String) (e : MemoryEntryRecord) → lookup i s.entries ≡ some e → e.id ≡ i
  pub listed :
      (i : String) (e : MemoryEntryRecord)
      → lookup i s.entries ≡ some e
      → member i (ids (scope_of e) s) ≡ true
  pub known : (k : Scope) (i : String) → member i (ids k s) ≡ true → IsIn k (lookup i s.entries)
  pub once : Unique s.entries
  pub once_scope : Unique s.by_scope

set_or_pop-ids :
    (j k : Scope) (is : List String) (d : Dict Scope (List String))
    → Unique d
    → get_or [] j (set_or_pop k is d) ≡ (if j == k then is else get_or [] j d)
unfolding set_or_pop
set_or_pop-ids j k [] d u = ground (arith, lookup-erase j k d u)
set_or_pop-ids j k (i ∷ is) d u = ground (arith, lookup-insert j k (i ∷ is) d)

set_or_pop-Unique :
    (k : Scope) (is : List String) (d : Dict Scope (List String))
    → Unique d
    → Unique (set_or_pop k is d)
unfolding set_or_pop
set_or_pop-Unique k [] d u = erase-Unique k d u
set_or_pop-Unique k (i ∷ is) d u = insert-Unique k (i ∷ is) d u

abbrev others : String → List String → List String
others i is = keep (λ (j : String). not (j == i)) is

delete_entry-ids :
    (i : String) (e : MemoryEntryRecord) (k : Scope) (s : MemoryStore)
    → Unique s.by_scope
    → ids k (delete_entry i e s) ≡ (if k == scope_of e then others i (ids k s) else ids k s)
unfolding delete_entry
delete_entry-ids i e k s u = elim (Bool-cases (k == scope_of e)) [
  | inl same ↦
      set_or_pop-ids k (scope_of e) (others i (ids (scope_of e) s)) s.by_scope u
      ∙ ap (λ j. if k == scope_of e then others i (ids j s) else ids k s)
          (sym ((==_iff k (scope_of e)).0 same))
  | inr other ↦
      set_or_pop-ids k (scope_of e) (others i (ids (scope_of e) s)) s.by_scope u ∙ rw other refl
]

pub delete_entry-lookup :
    (i j : String) (e : MemoryEntryRecord) (s : MemoryStore)
    → Unique s.entries
    → lookup j (delete_entry i e s).entries ≡ (if j == i then none else lookup j s.entries)
unfolding delete_entry
delete_entry-lookup i j e s u = lookup-erase j i s.entries u

member-others :
    (i j : String) (is : List String) → member j (others i is) ≡ (member j is && not (j == i))
member-others i j is = member-keep (λ (k : String). not (k == i)) j is

delete_entry-member :
    (i j : String) (e : MemoryEntryRecord) (k : Scope) (s : MemoryStore)
    → Unique s.by_scope
    → member j (ids k (delete_entry i e s))
      ≡ (member j (ids k s) && not (k == scope_of e && j == i))
delete_entry-member i j e k s u =
    ap (member j) (delete_entry-ids i e k s u) ∙ ground (arith, member-others i j (ids k s))

delete_entry-kept :
    (i j : String) (e c : MemoryEntryRecord) (s : MemoryStore)
    → Unique s.entries
    → lookup j (delete_entry i e s).entries ≡ some c
    → (lookup j s.entries ≡ some c) × ((j == i) ≡ false)
delete_entry-kept i j e c s u h = let l = sym (delete_entry-lookup i j e s u) ∙ h in ground arith

delete_entry-known :
    (i j : String) (e : MemoryEntryRecord) (k : Scope) (s : MemoryStore)
    → IsIndexed s
    → lookup i s.entries ≡ some e
    → member j (ids k (delete_entry i e s)) ≡ true
    → IsIn k (lookup j (delete_entry i e s).entries)
delete_entry-known i j e k s x found h =
    let still = sym (delete_entry-member i j e k s x.once_scope) ∙ h in
    let before = x.known k j (ground arith) in
    elim (Bool-cases (j == i)) [
      | inl same ↦
          let here = subst (λ a. IsIn k (lookup a s.entries)) ((==_iff j i).0 same) before in
          let at_k : scope_of e ≡ k = subst (IsIn k) found here in
          let test = (==_iff k (scope_of e)).1 (sym at_k) in absurd (ground arith)
      | inr other ↦ subst (IsIn k) (sym (delete_entry-lookup i j e s x.once ∙ rw other refl)) before
    ]

pub delete_entry-IsIndexed :
    (i : String) (e : MemoryEntryRecord) (s : MemoryStore)
    → IsIndexed s
    → lookup i s.entries ≡ some e
    → IsIndexed (delete_entry i e s)
unfolding delete_entry
delete_entry-IsIndexed i e s x found = record {
  keyed = λ j c h. x.keyed j c (delete_entry-kept i j e c s x.once h).0;
  listed = λ j c h.
      let (before, differs) = delete_entry-kept i j e c s x.once h in
      delete_entry-member i j e (scope_of c) s x.once_scope ∙ ground (arith, x.listed j c before);
  known = λ k j h. delete_entry-known i j e k s x found h;
  once = erase-Unique i s.entries x.once;
  once_scope =
      set_or_pop-Unique (scope_of e) (others i (ids (scope_of e) s)) s.by_scope x.once_scope;
}
