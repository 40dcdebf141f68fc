-- ===== src/Events/Replay.antt =====
-- What a reader that resumes from its last cursor gets.
use autoweave_library.Common.{
  ℕ, zero, suc, ◌+◌, ◌≤◌, ◌≡◌, refl, sym, ap, subst, inl, inr, Bool, Bool-cases, true, false,
  Option, none, some, List, [], ◌∷◌, ◌++◌, append_assoc, append-nil, String, insert, get_or,
  lookup-insert, length, ok, arith, All, keep, ltb, if◌then◌else◌, ◌==◌, ==_iff, ==_refl, string_eq,
}
use autoweave_library.Events.Store.{
  EventRecord, EventStore, number_or_next, append, list_events, replay_from, last_event, cursor_at,
  latest_cursor,
}

abbrev pub append_all : List EventRecord → EventStore → EventStore
append_all [] s = s
append_all (e ∷ es) s = append_all es (append e s).1

abbrev with_number : ℕ → EventRecord → EventRecord
with_number n e = record e { sequence_no = n }

-- The events of one run, numbered from `n + 1` on.
abbrev pub numbered : String → ℕ → List EventRecord → List EventRecord
numbered run n [] = []
numbered run n (e ∷ es) =
    let here = with_number (suc n) e ∷ numbered run (suc n) es in
    let rest = numbered run n es in if run == e.workflow_run_id then here else rest

-- A new event carries no number yet.
abbrev pub IsNew : EventRecord → Type 0
IsNew e = e.sequence_no ≡ 0

abbrev IsNumbered : String → ℕ → List EventRecord → Type 0
IsNumbered run n [] = Unit
IsNumbered run n (e ∷ es) =
    (e.workflow_run_id ≡ run) × (e.sequence_no ≡ suc n) × IsNumbered run (suc n) es

length-snoc : (xs : List EventRecord) (x : EventRecord) → length (xs ++ (x ∷ [])) ≡ suc (length xs)
length-snoc [] x = refl
length-snoc (y ∷ xs) x = ground (arith, length-snoc xs x)

number_or_next-zero : (n next : ℕ) → n ≡ 0 → number_or_next n next ≡ next
unfolding number_or_next
number_or_next-zero zero next h = refl
number_or_next-zero (suc n) next h = ground arith

pub list_events-insert :
    (run k : String) (es : List EventRecord) (s : EventStore)
    → list_events run (insert k es s) ≡ (if run == k then es else list_events run s)
unfolding list_events
list_events-insert run k es s = ground (arith, lookup-insert run k es s)

get_or_list : (run : String) (s : EventStore) → list_events run s ≡ get_or [] run s
unfolding list_events
get_or_list run s = refl

append_lem :
    (run : String) (e : EventRecord) (s : EventStore)
    → IsNew e
    → list_events run (append e s).1 ≡ (
        if run == e.workflow_run_id
        then list_events run s ++ (with_number (suc (length (list_events run s))) e ∷ [])
        else list_events run s)
unfolding append
append_lem run e s new =
    let next = suc (length (list_events e.workflow_run_id s)) in
    rw
      (
        sym (get_or_list e.workflow_run_id s),
        number_or_next-zero e.sequence_no next new,
        list_events-insert,
      )
      (elim (Bool-cases (run == e.workflow_run_id)) [
        | inl same ↦
            rw (same, ap (λ k. list_events k s) (sym ((==_iff run e.workflow_run_id).0 same))) refl
        | inr other ↦ rw other refl
      ])

stored_then :
    (run : String) (b : Bool) (L : List EventRecord) (x : EventRecord) (es : List EventRecord)
    → x ≡ with_number (suc (length L)) x
    → (if b then L ++ (x ∷ []) else L) ++ numbered run (length (if b then L ++ (x ∷ []) else L)) es
      ≡ L ++ (if b then x ∷ numbered run (suc (length L)) es else numbered run (length L) es)
stored_then run true L x es h = rw (length-snoc, append_assoc) refl
stored_then run false L x es h = refl

list_events-append_all :
    (run : String) (es : List EventRecord) (s : EventStore)
    → All IsNew es
    → list_events run (append_all es s)
      ≡ list_events run s ++ numbered run (length (list_events run s)) es
list_events-append_all run [] s new = rw append-nil
list_events-append_all run (e ∷ es) s new =
    rw (list_events-append_all run es (append e s).1 new.1, append_lem run e s new.0)
      (stored_then run (run == e.workflow_run_id) (list_events run s)
        (with_number (suc (length (list_events run s))) e) es refl)

numbered-IsNumbered :
    (run : String) (n : ℕ) (es : List EventRecord) → IsNumbered run n (numbered run n es)
numbered-IsNumbered run n [] = tt
numbered-IsNumbered run n (e ∷ es) = ground (
  arith,
  ==_iff run e.workflow_run_id,
  numbered-IsNumbered run n es,
  numbered-IsNumbered run (suc n) es,
)

later_events :
    (run : String) (n m : ℕ) (es : List EventRecord)
    → IsNumbered run m es
    → n ≤ m
    → keep (λ (e : EventRecord). ltb n e.sequence_no) es ≡ es
later_events run n m [] h le = refl
later_events run n m (e ∷ es) h le = ground (arith, later_events run n (suc m) es h.2)

earlier_events :
    (run : String) (n m : ℕ) (es fs : List EventRecord)
    → IsNumbered run m es
    → m + length es ≤ n
    → keep (λ (e : EventRecord). ltb n e.sequence_no) (es ++ fs)
      ≡ keep (λ (e : EventRecord). ltb n e.sequence_no) fs
earlier_events run n m [] fs h le = refl
earlier_events run n m (e ∷ es) fs h le = ground (arith, earlier_events run n (suc m) es fs h.2)

-- The last of numbered events.
abbrev IsEnd : String → ℕ → List EventRecord → Option EventRecord → Type 0
IsEnd run n es none = es ≡ []
IsEnd run n es (some e) = (e.workflow_run_id ≡ run) × (e.sequence_no ≡ n + length es)

last_event-IsEnd :
    (run : String) (n : ℕ) (es : List EventRecord)
    → IsNumbered run n es
    → IsEnd run n es (last_event es)
unfolding last_event
last_event-IsEnd run n [] h = refl
last_event-IsEnd run n (e ∷ es) h = ground (arith, last_event-IsEnd run (suc n) es h.2)

resumed :
    (run : String) (before new : List EventRecord) (last : Option EventRecord)
    → IsNumbered run 0 before
    → IsNumbered run (length before) new
    → IsEnd run 0 before last
    → (s : EventStore) → list_events run s ≡ before ++ new
    → replay_from run (elim last [ none ↦ none | some e ↦ some (cursor_at e) ]) s ≡ ok new
unfolding replay_from cursor_at
resumed run before new none h k end s listed = rw (listed, end) refl
resumed run before new (some e) h k end s listed =
    rw
      (
        listed,
        end.0,
        ==_refl run,
        end.1,
        earlier_events run (0 + length before) 0 before new h (ground arith),
        later_events run (0 + length before) (length before) new k (ground arith),
      )
      refl

-- A replay from the latest cursor misses and repeats nothing. Take a store that has received any
-- events, of any runs and without numbers of their own, and the latest cursor of a run in it.
-- Once the store has received further such events, the replay from that cursor answers exactly
-- those of the further events that belong to the run, in order and numbered on from where the log
-- of the run stood.
pub replay_from-resumes :
    (run : String) (before further : List EventRecord)
    → All IsNew before
    → All IsNew further
    → let s = append_all before [] in
      replay_from run (latest_cursor run s) (append_all further s)
      ≡ ok (numbered run (length (list_events run s)) further)
unfolding latest_cursor
replay_from-resumes run before further old new =
    let s = append_all before [] in
    let listed = list_events-append_all run before [] old in
    let h = subst (IsNumbered run 0) (sym listed) (numbered-IsNumbered run 0 before) in
    resumed run (list_events run s) (numbered run (length (list_events run s)) further)
      (last_event (list_events run s)) h
      (numbered-IsNumbered run (length (list_events run s)) further)
      (last_event-IsEnd run 0 (list_events run s) h) (append_all further s)
      (list_events-append_all run further s new)
