-- ===== src/Memory/Store/Deletion.antt =====
-- autoweave/memory/store.py: what `delete_matching` deletes and what it leaves.
use autoweave_library.Common.{
  ◌≡◌, refl, sym, ◌∙◌, ap, subst, Bool, true, false, Option, none, some, List, [], ◌∷◌, String,
  Dict, lookup, has_key, Unique, ok, All, All-zip, if◌then◌else◌, ◌==◌, ==_iff, ==_refl, string_eq,
  arith, Bool-cases, inl, inr,
}
use autoweave_library.Memory.Store.{
  MemoryEntryRecord, MemoryStore, delete_entry, delete_entries, delete_matching,
}
use autoweave_library.Memory.Store.Index.{IsIndexed, delete_entry-lookup, delete_entry-IsIndexed}

abbrev Entries : Type 0
Entries = Dict String MemoryEntryRecord

-- The ids of the entries that a predicate holds of, in their order.
abbrev pub matching : (MemoryEntryRecord → Bool) → Entries → List String
matching predicate [] = []
matching predicate ((i, e) ∷ rest) =
    let later = matching predicate rest in if predicate e then i ∷ later else later

-- An entry that is there and that the predicate does not hold of.
abbrev pub unless : (MemoryEntryRecord → Bool) → Option MemoryEntryRecord → Option MemoryEntryRecord
unless predicate none = none
unless predicate (some e) = if predicate e then none else some e

-- The entries still to go through are stored, each under one id.
abbrev Pending : Entries → MemoryStore → Type 0
Pending rest s =
    Unique rest
    × All (λ (row : String × MemoryEntryRecord). lookup row.0 s.entries ≡ some row.1) rest

fresh_rest :
    (i : String) (rest : Entries)
    → lookup i rest ≡ none
    → All (λ (row : String × MemoryEntryRecord). (row.0 == i) ≡ false) rest
fresh_rest i [] h = tt
fresh_rest i ((j, e) ∷ rest) h =
    (ground (arith, ==_iff i j, ==_iff j i), fresh_rest i rest (ground arith))

delete_entry-Pending :
    (i : String) (e : MemoryEntryRecord) (rest : Entries) (s : MemoryStore)
    → Unique s.entries
    → Pending ((i, e) ∷ rest) s
    → Pending rest (delete_entry i e s)
delete_entry-Pending i e rest s u p = (
  p.0.1,
  All-zip (λ (row : String × MemoryEntryRecord). (row.0 == i) ≡ false)
      (λ (row : String × MemoryEntryRecord). lookup row.0 s.entries ≡ some row.1)
      (λ (row : String × MemoryEntryRecord). lookup row.0 (delete_entry i e s).entries ≡ some row.1)
      rest (λ row differs stored. delete_entry-lookup i row.0 e s u ∙ rw differs stored)
      (fresh_rest i rest p.0.0) p.1.1,
)

-- What the loop leaves under an id.
abbrev left_over :
    (MemoryEntryRecord → Bool) → String → Entries → MemoryStore → Option MemoryEntryRecord
left_over predicate j rest s =
    if has_key j rest then unless predicate (lookup j s.entries) else lookup j s.entries

at_equal :
    (i j : String) (e : MemoryEntryRecord) (d : Entries)
    → lookup i d ≡ some e
    → (j == i) ≡ true
    → lookup j d ≡ some e
at_equal i j e d found same = subst (λ k. lookup k d ≡ some e) (sym ((==_iff j i).0 same)) found

gone_step :
    (predicate : MemoryEntryRecord → Bool) (i j : String) (e : MemoryEntryRecord) (rest : Entries)
    (s : MemoryStore)
    → Unique s.entries
    → lookup i s.entries ≡ some e
    → predicate e ≡ true
    → left_over predicate j rest (delete_entry i e s) ≡ left_over predicate j ((i, e) ∷ rest) s
gone_step predicate i j e rest s u found gone =
    rw (delete_entry-lookup i j e s u) (elim (Bool-cases (j == i)) [
      | inl same ↦ rw (same, at_equal i j e s.entries found same) (ground arith)
      | inr other ↦ rw other refl
    ])

stays_step :
    (predicate : MemoryEntryRecord → Bool) (i j : String) (e : MemoryEntryRecord) (rest : Entries)
    (s : MemoryStore)
    → lookup i s.entries ≡ some e
    → predicate e ≡ false
    → left_over predicate j rest s ≡ left_over predicate j ((i, e) ∷ rest) s
stays_step predicate i j e rest s found stays = elim (Bool-cases (j == i)) [
  | inl same ↦ rw (same, at_equal i j e s.entries found same) (ground arith)
  | inr other ↦ rw other refl
]

abbrev Deleted : (MemoryEntryRecord → Bool) → Entries → MemoryStore → Type 0
Deleted predicate rest s =
    let (deleted, s') = delete_entries predicate rest s in
    (deleted ≡ matching predicate rest)
    × IsIndexed s'
    × ((j : String) → lookup j s'.entries ≡ left_over predicate j rest s)

delete_entries-Deleted :
    (predicate : MemoryEntryRecord → Bool) (rest : Entries) (s : MemoryStore)
    → IsIndexed s
    → Pending rest s
    → Deleted predicate rest s
unfolding delete_entries
delete_entries-Deleted predicate [] s x p = (refl, x, λ j. refl)
delete_entries-Deleted predicate ((i, e) ∷ rest) s x p = elim (Bool-cases (predicate e)) [
  | inl gone ↦
      let s1 = delete_entry i e s in
      let (same, indexed, left) =
        delete_entries-Deleted predicate rest s1 (delete_entry-IsIndexed i e s x p.1.0)
          (delete_entry-Pending i e rest s x.once p) in
      rw gone (
        ap (λ is. i ∷ is) same,
        indexed,
        λ j. left j ∙ gone_step predicate i j e rest s x.once p.1.0 gone,
      )
  | inr stays ↦
      let (same, indexed, left) = delete_entries-Deleted predicate rest s x (p.0.1, p.1.1) in
      rw stays (same, indexed, λ j. left j ∙ stays_step predicate i j e rest s p.1.0 stays)
]

stored_each :
    (rest d : Entries)
    → Unique rest
    → ((i : String) (e : MemoryEntryRecord) → lookup i rest ≡ some e → lookup i d ≡ some e)
    → All (λ (row : String × MemoryEntryRecord). lookup row.0 d ≡ some row.1) rest
stored_each [] d u inside = tt
stored_each ((i, e) ∷ rest) d u inside = (
  inside i e (rw (==_refl i) refl),
  stored_each rest d u.1 (λ j c h. inside j c (elim (Bool-cases (j == i)) [
    | inl same ↦
        absurd (ground (arith, subst (λ k. lookup k rest ≡ some c) ((==_iff j i).0 same) h))
    | inr other ↦ rw other h
  ])),
)

missing : (j : String) (d : Entries) → has_key j d ≡ false → lookup j d ≡ none
missing j [] h = refl
missing j ((i, e) ∷ d) h = ground (arith, missing j d)

unless_unlisted :
    (predicate : MemoryEntryRecord → Bool) (j : String) (d : Entries)
    → (if has_key j d then unless predicate (lookup j d) else lookup j d)
      ≡ unless predicate (lookup j d)
unless_unlisted predicate j d = elim (Bool-cases (has_key j d)) [
  | inl there ↦ rw there refl
  | inr gone ↦ rw (gone, missing j d gone) refl
]

-- On a store whose index agrees with its entries, `delete_matching` answers the ids of exactly the
-- entries that the predicate holds of, in their order; then those entries are gone, every other is
-- as it was, and the index agrees with the entries again.
pub delete_matching_lem :
    (predicate : MemoryEntryRecord → Bool) (s : MemoryStore)
    → IsIndexed s
    → let s' = (delete_matching predicate s).1 in
      ((delete_matching predicate s).0 ≡ ok (matching predicate s.entries))
      × IsIndexed s'
      × ((j : String) → lookup j s'.entries ≡ unless predicate (lookup j s.entries))
unfolding delete_matching
delete_matching_lem predicate s x =
    let (same, indexed, left) =
      delete_entries-Deleted predicate s.entries s x
        (x.once, stored_each s.entries s.entries x.once (λ i e h. h)) in
    (ap ok same, indexed, λ j. left j ∙ unless_unlisted predicate j s.entries)
