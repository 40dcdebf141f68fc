-- ===== src/Workflows/Cycles/Decides.antt =====
-- autoweave/workflows/spec.py: what `_validate_acyclic` finds out.
use autoweave_library.Common.{
  ℕ, zero, suc, ◌<◌, ◌≡◌, refl, sym, ap, ◌∙◌, subst, true, false, not, inl, inr, List, [], ◌∷◌,
  String, Dict, lookup, get_or, has_key, keys, Result, ok, err, value_error, bind, length, member,
  keep, unseen, unseen-lt, Bool-cases, if◌then◌else◌, ◌==◌, ==_iff, ==_refl, string_eq, arith, some,
}
use autoweave_library.Workflows.Cycles.{
  Marks, visit_node, visit_all, enter, leave, validate_acyclic,
}

abbrev Graph : Type 0
Graph = Dict String (List String)

abbrev next : Graph → String → List String
next graph node = get_or [] node graph

-- A way of one or more dependencies.
pub data Reaches (graph : Graph) (start : String) : String → Type 0 where
  one : (x : String) → member x (get_or [] start graph) ≡ true → Reaches graph start x
  more :
      (w x : String)
      → Reaches graph start w
      → member x (get_or [] w graph) ≡ true
      → Reaches graph start x

-- All of the first list is in the second.
abbrev pub Within : List String → List String → Type 0
Within xs ys = (x : String) → member x xs ≡ true → member x ys ≡ true

-- Each key stands in front of all that it depends on.
abbrev pub IsSorted : Graph → List String → Type 0
IsSorted graph [] = Unit
IsSorted graph (n ∷ ns) = Within (get_or [] n graph) ns × IsSorted graph ns

abbrev HasCycle : Graph → Type 0
HasCycle graph = (c : String) × Reaches graph c c

keep_others :
    (node : String) (temp : List String)
    → member node temp ≡ false
    → keep (λ n. not (n == node)) temp ≡ temp
keep_others node [] h = refl
keep_others node (t ∷ temp) h = ground (arith, keep_others node temp, ==_iff node t, ==_iff t node)

keep_entered :
    (node : String) (temp : List String)
    → member node temp ≡ false
    → keep (λ n. not (n == node)) (node ∷ temp) ≡ temp
keep_entered node temp h = ground (arith, keep_others node temp h, ==_refl node)

has_key-lookup :
    (node : String) (graph : Graph)
    → has_key node graph ≡ true
    → (deps : List String) × (lookup node graph ≡ some deps)
has_key-lookup node [] h = absurd (cc)
has_key-lookup node ((j, deps) ∷ graph) h = elim (Bool-cases (node == j)) [
  | inl here ↦ (deps, ground arith)
  | inr later ↦ let (found, e) = has_key-lookup node graph (ground arith) in (found, ground arith)
]

has_key-member :
    (node : String) (graph : Graph) → has_key node graph ≡ true → member node (keys graph) ≡ true
has_key-member node [] h = h
has_key-member node ((j, deps) ∷ graph) h = ground (arith, has_key-member node graph)

Reaches-next :
    (graph : Graph) (node n t : String) (temp : List String)
    → member n (get_or [] node graph) ≡ true
    → ((s : String) → member s temp ≡ true → Reaches graph s node)
    → member t (node ∷ temp) ≡ true
    → Reaches graph t n
Reaches-next graph node n t temp step way h = elim (Bool-cases (t == node)) [
  | inl same ↦ subst (λ s. Reaches graph s n) (sym ((==_iff t node).0 same)) (one n step)
  | inr other ↦ more node n (way t (ground arith)) step
]

module _ (graph : Graph) where
  -- The marks after a visit_node that returned.
  record Marked (nodes : List String) (m m' : Marks) : Type 0 where
    same : m'.temp_mark ≡ m.temp_mark
    sorted : IsSorted graph m'.permanent_mark
    there : Within nodes m'.permanent_mark
    grows : Within m.permanent_mark m'.permanent_mark

  -- A visit_node returns with such marks, or it raises because of a cycle.
  abbrev Outcome : List String → Marks → Result Marks → Type 0
  Outcome nodes m (ok m') = Marked nodes m m'
  Outcome nodes m (err e) = (e ≡ value_error) × HasCycle graph

  Outcome-cons :
      (n : String) (ns : List String) (m m' : Marks) (r : Result Marks)
      → Marked (n ∷ []) m m'
      → Outcome ns m' r
      → Outcome (n ∷ ns) m r
  Outcome-cons n ns m m' (err e) first rest = rest
  Outcome-cons n ns m m' (ok m'') first rest = record {
    same = rest.same ∙ first.same;
    sorted = rest.sorted;
    there = λ x h. ground (arith, rest.there x, rest.grows x, first.there x, ==_iff x n);
    grows = λ x h. rest.grows x (first.grows x h);
  }

  Outcome-bind :
      (n : String) (ns : List String) (m : Marks) (r : Result Marks) (k : Marks → Result Marks)
      → Outcome (n ∷ []) m r
      → ((m' : Marks) → Marked (n ∷ []) m m' → Outcome ns m' (k m'))
      → Outcome (n ∷ ns) m (bind r k)
  Outcome-bind n ns m (err e) k first rest = first
  Outcome-bind n ns m (ok m') k first rest = Outcome-cons n ns m m' (k m') first (rest m' first)

  visit_all-Outcome :
      (v : String → Marks → Result Marks) (temp : List String) (ns : List String) (m : Marks)
      → m.temp_mark ≡ temp
      → IsSorted graph m.permanent_mark
      → ((n : String) (m' : Marks)
          → member n ns ≡ true
          → m'.temp_mark ≡ temp
          → IsSorted graph m'.permanent_mark
          → Outcome (n ∷ []) m' (v n m'))
      → Outcome ns m (visit_all v ns m)
  unfolding visit_all
  visit_all-Outcome v temp [] m same sorted each = record {
    same = refl;
    sorted = sorted;
    there = λ x h. absurd (cc);
    grows = λ x h. h;
  }
  visit_all-Outcome v temp (n ∷ ns) m same sorted each =
      Outcome-bind n ns m (v n m) (visit_all v ns)
        (each n m (ground (arith, ==_refl n)) same sorted)
        (λ m' first.
          visit_all-Outcome v temp ns m' (first.same ∙ same) first.sorted
            (λ x m'' h. each x m'' (ground arith)))

  Outcome-leave :
      (node : String) (deps : List String) (m : Marks) (r : Result Marks)
      → get_or [] node graph ≡ deps
      → member node m.temp_mark ≡ false
      → Outcome deps (enter node m) r
      → Outcome (node ∷ []) m (bind r (λ after. ok (leave node after)))
  unfolding enter leave
  Outcome-leave node deps m (err e) next_deps fresh h = h
  Outcome-leave node deps m (ok after) next_deps fresh h = record {
    same = ap (keep (λ n. not (n == node))) h.same ∙ keep_entered node m.temp_mark fresh;
    sorted = (λ x d. h.there x (subst (λ l. member x l ≡ true) next_deps d), h.sorted);
    there = λ x d. ground arith;
    grows = λ x d. ground (arith, h.grows x);
  }

  module _
      (closed : (k d : String) → member d (get_or [] k graph) ≡ true → has_key d graph ≡ true) where
    visit_node-Outcome :
        (fuel : ℕ) (node : String) (m : Marks)
        → IsSorted graph m.permanent_mark
        → has_key node graph ≡ true
        → ((t : String) → member t m.temp_mark ≡ true → Reaches graph t node)
        → unseen m.temp_mark (keys graph) < fuel
        → Outcome (node ∷ []) m (visit_node fuel graph node m)
    unfolding visit_node enter
    visit_node-Outcome zero node m sorted known way enough = absurd (omega arith)
    visit_node-Outcome (suc fuel) node m sorted known way enough =
        elim (Bool-cases (member node m.permanent_mark)) [
          | inl done ↦
              rw (visit_node, done)
                (record {
                  same = refl;
                  sorted = sorted;
                  there = λ x h. ground (arith, ==_iff x node);
                  grows = λ x h. h;
                })
          | inr undone ↦ elim (Bool-cases (member node m.temp_mark)) [
            | inl again ↦ rw (visit_node, undone, again) (refl, (node, way node again))
            | inr fresh ↦
                let (deps, found) = has_key-lookup node graph known in
                let step : get_or [] node graph ≡ deps = ground arith in
                let less =
                  unseen-lt node m.temp_mark (keys graph) (has_key-member node graph known) fresh in
                rw (visit_node, undone, fresh, found)
                  (Outcome-leave node deps m (visit_all (visit_node fuel graph) deps (enter node m))
                    step fresh
                    (visit_all-Outcome (visit_node fuel graph) (node ∷ m.temp_mark) deps
                      (enter node m) refl sorted
                      (λ n m' inside same sorted'.
                        let edge = subst (λ l. member n l ≡ true) (sym step) inside in
                        visit_node-Outcome fuel n m' sorted' (closed node n edge)
                          (λ t h.
                            Reaches-next graph node n t m.temp_mark edge way
                              (subst (λ l. member t l ≡ true) same h))
                          (subst (λ l. unseen l (keys graph) < fuel) (sym same) (ground arith)))))
          ]
        ]

-- What stands in a list behind the last occurrence of a key that is in it.
abbrev behind : String → List String → List String
behind a [] = []
behind a (x ∷ xs) = let rest = behind a xs in if member a xs then rest else xs

not-member-behind : (a : String) (xs : List String) → member a (behind a xs) ≡ false
not-member-behind a [] = refl
not-member-behind a (x ∷ xs) = ground (arith, not-member-behind a xs)

behind_within :
    (b c : String) (xs : List String) → member c (behind b xs) ≡ true → member c xs ≡ true
behind_within b c [] h = h
behind_within b c (x ∷ xs) h = ground (arith, behind_within b c xs)

behind_trans :
    (a b c : String) (xs : List String)
    → member b (behind a xs) ≡ true
    → member c (behind b xs) ≡ true
    → member c (behind a xs) ≡ true
behind_trans a b c [] h k = h
behind_trans a b c (x ∷ xs) h k =
    ground (arith, behind_trans a b c xs, behind_within a b xs, behind_within b c xs)

next-behind :
    (graph : Graph) (a b : String) (order : List String)
    → IsSorted graph order
    → member a order ≡ true
    → member b (get_or [] a graph) ≡ true
    → member b (behind a order) ≡ true
next-behind graph a b [] sorted h k = absurd (cc)
next-behind graph a b (x ∷ xs) sorted h k = elim (Bool-cases (member a xs)) [
  | inl later ↦ rw later (next-behind graph a b xs sorted.1 later k)
  | inr last ↦
      let same : a ≡ x = ground (arith, ==_iff a x) in
      rw last (sorted.0 b (subst (λ l. member b (get_or [] l graph) ≡ true) same k))
]

Reaches-behind :
    (graph : Graph) (a b : String) (order : List String)
    → IsSorted graph order
    → member a order ≡ true
    → Reaches graph a b
    → member b (behind a order) ≡ true
Reaches-behind graph a b order sorted h (one _ step) = next-behind graph a b order sorted h step
Reaches-behind graph a b order sorted h (more w _ way step) =
    let there = Reaches-behind graph a w order sorted h way in
    behind_trans a w b order there
      (next-behind graph w b order sorted (behind_within a w order there) step)

next_known :
    (graph : Graph) (a b : String) → member b (get_or [] a graph) ≡ true → has_key a graph ≡ true
next_known [] a b h = h
next_known ((j, deps) ∷ graph) a b h = ground (arith, next_known graph a b)

start_known : (graph : Graph) (a b : String) → Reaches graph a b → has_key a graph ≡ true
start_known graph a b (one _ step) = next_known graph a b step
start_known graph a b (more w _ way step) = start_known graph a w way

-- A result of the check with its reason: where it returns, an order of the keys in which each
-- stands in front of all that it depends on, and there is no cycle; where it raises, a cycle.
abbrev pub IsDecided {ℓ} : {A : Type ℓ} → Dict String (List String) → Result A → Type 0
IsDecided graph (ok _) =
    ((order : List String) × (IsSorted graph order × Within (keys graph) order))
    × ¬ ((c : String) × Reaches graph c c)
IsDecided graph (err e) = (e ≡ value_error) × ((c : String) × Reaches graph c c)

Outcome-IsDecided :
    (graph : Graph) (r : Result Marks)
    → Outcome graph (keys graph) (record { temp_mark = []; permanent_mark = [] }) r
    → IsDecided graph (bind r (λ _. ok (tt {0})))
Outcome-IsDecided graph (err e) h = h
Outcome-IsDecided graph (ok after) h = (
  (after.permanent_mark, (h.sorted, h.there)),
  λ cycle.
      let (c, way) = cycle in
      let inside = h.there c (has_key-member c graph (start_known graph c c way)) in
      let found = Reaches-behind graph c c after.permanent_mark h.sorted inside way in
      absurd (ground (arith, not-member-behind c after.permanent_mark)),
)

has_key_of_member :
    (node : String) (graph : Graph) → member node (keys graph) ≡ true → has_key node graph ≡ true
has_key_of_member node [] h = h
has_key_of_member node ((j, deps) ∷ graph) h = ground (arith, has_key_of_member node graph)

unseen_nothing : (pool : List String) → unseen [] pool ≡ length pool
unseen_nothing [] = refl
unseen_nothing (p ∷ pool) = ground (arith, unseen_nothing pool)

length-keys : (graph : Graph) → length (keys graph) ≡ length graph
length-keys [] = refl
length-keys (e ∷ graph) = ground (arith, length-keys graph)

pub validate_acyclic-IsDecided :
    (graph : Graph)
    → ((k d : String) → member d (get_or [] k graph) ≡ true → has_key d graph ≡ true)
    → IsDecided graph (validate_acyclic graph)
unfolding validate_acyclic
validate_acyclic-IsDecided graph closed =
    let start : Marks = record { temp_mark = []; permanent_mark = [] } in
    Outcome-IsDecided graph (visit_all (visit_node (suc (length graph)) graph) (keys graph) start) (
      visit_all-Outcome graph (visit_node (suc (length graph)) graph) [] (keys graph) start refl tt
        (λ n m inside same sorted.
          visit_node-Outcome graph closed (suc (length graph)) n m sorted
            (has_key_of_member n graph inside) (λ t h. absurd (ground arith))
            (ground (arith, unseen_nothing (keys graph), length-keys graph))))
