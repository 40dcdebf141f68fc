-- ===== src/Workflows/Compile/Checked.antt =====
-- autoweave/workflows/spec.py: what a definition that passes the checks is known to be.
use autoweave_library.Common.{
  ◌≡◌, refl, sym, subst, Bool, true, ◌||◌, List, [], ◌∷◌, ◌++◌, String, get_or, has_key, values, ok,
  all, member, member-append, set_add, ◌==◌, ==_iff, string_eq, arith, Bool-cases, inl, inr,
}
use autoweave_library.Workflows.Definition.{
  TaskTemplateConfig, Templates, validate_dependency_references, dependencies, set_of,
  dependency_graph,
}
use autoweave_library.Workflows.Cycles.{validate_acyclic}
use autoweave_library.Workflows.Cycles.Decides.{IsDecided, validate_acyclic-IsDecided}

member-set_add : (x a : String) (s : List String) → member x (set_add a s) ≡ (member x s || x == a)
unfolding set_add
member-set_add x a s = ground (arith, member-append x s (a ∷ []), ==_iff x a)

member-set_of :
    (x : String) (xs bs : List String) → member x (set_of xs bs) ≡ (member x bs || member x xs)
unfolding set_of
member-set_of x [] bs = ground arith
member-set_of x (a ∷ xs) bs =
    ground (arith, member-set_of x xs (set_add a bs), member-set_add x a bs)

all-member :
    (test : String → Bool) (x : String) (xs : List String)
    → all test xs ≡ true
    → member x xs ≡ true
    → test x ≡ true
all-member test x [] h k = absurd (cc)
all-member test x (y ∷ ys) h k = elim (Bool-cases (x == y)) [
  | inl same ↦ subst (λ z. test z ≡ true) (sym ((==_iff x y).0 same)) (ground arith)
  | inr other ↦ all-member test x ys (ground arith) (ground arith)
]

has_key-dependency_graph :
    (k : String) (templates : Templates)
    → has_key k (dependency_graph templates) ≡ has_key k templates
unfolding dependency_graph
has_key-dependency_graph k [] = refl
has_key-dependency_graph k ((j, t) ∷ d) = ground (arith, has_key-dependency_graph k d)

-- All dependencies of the templates are keys of `known`.
abbrev refers : Templates → TaskTemplateConfig → Bool
refers known t = all (λ key. has_key key known) (t.hard_dependencies ++ t.soft_dependencies)

refers-has_key :
    (known templates : Templates) (k d : String)
    → all (refers known) (values templates) ≡ true
    → member d (get_or [] k (dependency_graph templates)) ≡ true
    → has_key d known ≡ true
unfolding dependency_graph dependencies
refers-has_key known [] k d h edge = absurd (cc)
refers-has_key known ((j, t) ∷ rest) k d h edge = elim (Bool-cases (k == j)) [
  | inl here ↦
      all-member (λ key. has_key key known) d (t.hard_dependencies ++ t.soft_dependencies)
        (ground arith)
        (ground (arith, member-set_of d (t.hard_dependencies ++ t.soft_dependencies) []))
  | inr later ↦ refers-has_key known rest k d (ground arith) (ground arith)
]

-- For templates whose references are all known, `_validate_acyclic` decides whether their
-- dependencies, hard and soft ones, have a cycle. Where it returns, there is none, and the keys
-- have an order in which each stands in front of all that it depends on. Where it raises, it
-- raises ValueError, and there is a cycle.
pub validate_acyclic_decides :
    (templates : Templates)
    → validate_dependency_references templates ≡ ok tt
    → IsDecided (dependency_graph templates) (validate_acyclic (dependency_graph templates))
unfolding validate_dependency_references
validate_acyclic_decides templates h =
    validate_acyclic-IsDecided (dependency_graph templates) λ k d edge.
      rw has_key-dependency_graph (refers-has_key templates templates k d (ground arith) edge)
