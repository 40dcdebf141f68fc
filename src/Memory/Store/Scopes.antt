-- ===== src/Memory/Store/Scopes.antt =====
-- autoweave/memory/store.py: what `list_scope` lists, and what `write` adds to it.
use autoweave_library.Common.{
  ◌≡◌, ◌↔◌, refl, sym, ◌∙◌, ap, subst, true, Option, none, some, List, [], ◌∷◌, String, Dict,
  lookup, Result, ok, member, Has, ◌==◌, ==_iff, ==_refl, string_eq, arith, Bool-cases, inl, inr,
}
use autoweave_library.Memory.Store.{
  MemoryEntryRecord, Scope, scope_eq, scope_of, MemoryStore, entries_at, list_scope,
}
use autoweave_library.Memory.Store.Index.{IsIndexed, IsIn, ids}

-- The call returns, and answers just the entries that `P` holds of.
abbrev pub Lists : Result (List MemoryEntryRecord) → (MemoryEntryRecord → Type 0) → Type 0
Lists r P =
    (answer : List MemoryEntryRecord) × ((r ≡ ok answer)
      × ((e : MemoryEntryRecord) → Has e answer ↔ P e))

pub IsIn-found :
    (k : Scope) (o : Option MemoryEntryRecord)
    → IsIn k o
    → (e : MemoryEntryRecord) × ((o ≡ some e) × (scope_of e ≡ k))
IsIn-found k none h = absurd h
IsIn-found k (some e) h = (e, (refl, h))

-- One of the listed ids leads to the entry.
abbrev IsAt : Dict String MemoryEntryRecord → List String → MemoryEntryRecord → Type 0
IsAt d is e = (i : String) × ((member i is ≡ true) × (lookup i d ≡ some e))

entries_at-ok :
    (d : Dict String MemoryEntryRecord) (i : String) (is : List String) (e : MemoryEntryRecord)
    (rest : List MemoryEntryRecord)
    → lookup i d ≡ some e
    → entries_at d is ≡ ok rest
    → entries_at d (i ∷ is) ≡ ok (e ∷ rest)
unfolding entries_at
entries_at-ok d i is e rest found returned = rw (entries_at, found, returned) refl

entries_at-Lists :
    (d : Dict String MemoryEntryRecord) (k : Scope) (is : List String)
    → ((i : String) → member i is ≡ true → IsIn k (lookup i d))
    → Lists (entries_at d is) (IsAt d is)
unfolding entries_at
entries_at-Lists d k [] all_in =
    ([], (refl, λ e. (λ h. absurd h, λ (i, (h, f)). absurd (ground arith))))
entries_at-Lists d k (i ∷ is) all_in =
    let (e, (found, here)) = IsIn-found k (lookup i d) (all_in i (rw (==_refl i) refl)) in
    let (rest, (returned, lists)) = entries_at-Lists d k is (λ j h. all_in j (ground arith)) in
    (
      e ∷ rest,
      (
        entries_at-ok d i is e rest found returned,
        λ c. (
          λ h. elim h [
            | inl same ↦ (i, (ground (arith, ==_refl i), found ∙ ap some (sym same)))
            | inr later ↦ let (j, (h', f)) = (lists c).0 later in (j, (ground arith, f))
          ],
          λ (j, (h, f)). elim (Bool-cases (j == i)) [
            | inl same ↦
                let at_i : lookup i d ≡ some c =
                  subst (λ a. lookup a d ≡ some c) ((==_iff j i).0 same) f in
                let both : some e ≡ some c = sym found ∙ at_i in inl (ground arith)
            | inr other ↦ inr ((lists c).1 (j, (ground arith, f)))
          ],
        ),
      ),
    )

-- On a store whose index agrees with its entries, `list_scope` returns, and it lists an entry
-- exactly when it is stored under its id and of that scope.
pub list_scope-Lists :
    (scope_type scope_id : String) (s : MemoryStore)
    → IsIndexed s
    → Lists (list_scope scope_type scope_id s) (λ e.
      (lookup e.id s.entries ≡ some e) × (e.scope_type ≡ scope_type) × (e.scope_id ≡ scope_id))
unfolding list_scope
list_scope-Lists scope_type scope_id s x =
    let k : Scope = record { kind = scope_type; name = scope_id } in
    let (answer, (returned, lists)) =
      entries_at-Lists s.entries k (ids k s) (λ i h. x.known k i h) in
    (
      answer,
      (
        returned,
        λ e. (
          λ h.
              let (i, (listed, found)) = (lists e).0 h in
              let here : scope_of e ≡ k = subst (IsIn k) found (x.known k i listed) in
              (
                subst (λ j. lookup j s.entries ≡ some e) (sym (x.keyed i e found)) found,
                ap (λ (c : Scope). c.kind) here,
                ap (λ (c : Scope). c.name) here,
              ),
          λ (found, kind, name).
              let here : scope_of e ≡ k = ground arith in
              (lists e).1 (
                e.id,
                (subst (λ c. member e.id (ids c s) ≡ true) here (x.listed e.id e found), found),
              ),
        ),
      ),
    )
