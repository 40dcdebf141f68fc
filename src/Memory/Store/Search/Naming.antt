-- ===== src/Memory/Store/Search/Naming.antt =====
-- autoweave/memory/store.py: the scope that the text given to `search` names.
use Prim.Native.Char.{Char, code}
use autoweave_library.Common.{
  ◌≡◌, ◌⊎◌, refl, sym, ◌∙◌, ap, Bool, true, false, ◌||◌, ◌==◌, nat_eq, String, arith, Bool-cases,
  inl, inr, split_at_colon, is_some_text,
}
use autoweave_library.Memory.Store.Search.{scope_named}

abbrev pub has_colon : String → Bool
has_colon String.[] = false
has_colon (String.◌∷◌ c s) = code c == 58 || has_colon s

-- One text and then the other.
abbrev pub attached : String → String → String
attached String.[] after = after
attached (String.◌∷◌ c s) after = String.◌∷◌ c (attached s after)

-- The text with a colon in front.
abbrev pub IsAfterColon : String → String → Type 0
IsAfterColon after text = (c : Char) × ((code c ≡ 58) × (text ≡ String.◌∷◌ c after))

-- The text is the first part, a colon, and the second; or it has no colon and is the first part.
abbrev IsCut : (text before after : String) → Type 0
IsCut text before after =
    (has_colon before ≡ false)
    × (((rest : String) × (IsAfterColon after rest × (text ≡ attached before rest)))
        ⊎ ((before ≡ text) × (after ≡ "")))

-- What a scope's text names: "kind:name" with a kind that is not empty and has no colon; a text
-- without a colon is the kind of the empty name; and a text that is empty, or begins with a colon,
-- is the name of a project.
abbrev pub Names : (scope kind name : String) → Type 0
Names scope kind name =
    ((is_some_text kind ≡ true)
      × (has_colon kind ≡ false)
      × (((rest : String) × (IsAfterColon name rest × (scope ≡ attached kind rest)))
          ⊎ ((kind ≡ scope) × (name ≡ ""))))
    ⊎ ((kind ≡ "project")
        × (name ≡ scope)
        × ((scope ≡ "") ⊎ ((after : String) × IsAfterColon after scope)))

split_at_colon-IsCut : (s : String) → let (before, after) = split_at_colon s in IsCut s before after
unfolding split_at_colon
split_at_colon-IsCut String.[] = (refl, inr (refl, refl))
split_at_colon-IsCut (String.◌∷◌ c s) =
    let (clear, cut) = split_at_colon-IsCut s in
    elim (Bool-cases (code c == 58)) [
      | inl colon ↦ rw colon (refl, inl (String.◌∷◌ c s, ((c, (ground arith, refl)), refl)))
      | inr other ↦ rw other (
        rw other clear,
        elim cut [
          | inl (rest, (colon, whole)) ↦ inl (rest, (colon, ap (λ t. String.◌∷◌ c t) whole))
          | inr (same, nothing) ↦ inr (ap (λ t. String.◌∷◌ c t) same, nothing)
        ],
      )
    ]

empty_text : (s : String) → is_some_text s ≡ false → s ≡ ""
unfolding is_some_text
empty_text String.[] h = refl
empty_text (String.◌∷◌ c s) h = absurd (ground arith)

pub scope_named-Names :
    (scope : String) → Names scope (scope_named scope).kind (scope_named scope).name
unfolding scope_named
scope_named-Names scope =
    let (clear, cut) = split_at_colon-IsCut scope in
    let (before, after) = split_at_colon scope in
    elim (Bool-cases (is_some_text before)) [
      | inl there ↦ rw there (inl (there, clear, cut))
      | inr nothing ↦
          let none_before : before ≡ "" = empty_text before nothing in
          rw nothing (
            inr (
              refl,
              refl,
              elim cut [
                | inl (rest, ((c, (colon, e)), whole)) ↦
                    inr (after, (c, (colon, whole ∙ ap (λ b. attached b rest) none_before ∙ e)))
                | inr (same, last) ↦ inl (sym same ∙ none_before)
              ],
            ))
    ]
