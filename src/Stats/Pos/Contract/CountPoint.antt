-- ===== src/Stats/Pos/Contract/CountPoint.antt =====
-- The point "staker_event_counts" of stats/pos/event_processors.go.
use text.Mathlib.Text.{◌==◌}
use text.Mathlib.TextEquality.{eq_iff}
use mathlib.Core.List.{Perm}
use mathlib.Core.List.Perm
use thorflux.Base.{
  ℕ, ◌+◌, ◌≤◌, String, ◌≡◌, refl, sym, ap, ◌∙◌, subst, ◌≢◌, inl, inr, ◌&&◌, Option, none, some,
  List, [], ◌∷◌, ◌++◌, map, arith, leb, if◌then◌else◌, Option-cases, length, select, flatten,
}
use thorflux.Chain.{LogEvent}
use thorflux.Stats.Outcome.{Outcome, done, failed, panicked, >>=-eq-done, done-injective}
use thorflux.Stats.Pos.Contract.{number, name_text, ContractPoint, Staker, kind_of}
use thorflux.Stats.Pos.Contract.Topics.{event_name}
use thorflux.Stats.Pos.Contract.Processors.{process}
use thorflux.Stats.Pos.Contract.Events.{
  count_event, Processed, append_point, process_kind, process_named, process_log, process_logs,
  reset_count, initial_counts, put_value, add_counts, count_points, process_events,
}
use thorflux.Stats.Pos.Contract.Counted.{
  count_of, is_event, is_processed, count_of-initial_counts, count_of-Perm, process_logs-Adds,
}

-- Each key of the map once: its entries, counted by ones.
ones : List (String × ℕ) → List (String × ℕ)
ones counts = map (λ e. (e.0, 1)) counts

IsOnce : List (String × ℕ) → Type 0
IsOnce counts = (name : String) → count_of name (ones counts) ≤ 1

-- How many events the ABI names so.
abbrev pub named : String → List (ℕ × String) → ℕ
named name abis = length (select (λ (a : ℕ × String). a.1 == name) abis)

-- And the name `first` is among them, and each is a name of the ABI.
HasKeys : List (ℕ × String) → (first : String) → List (String × ℕ) → Type 0
unfolding IsOnce
HasKeys abis first counts =
    IsOnce counts
    × (1 ≤ count_of first (ones counts))
    × ((name : String) → 1 ≤ count_of name (ones counts) → 1 ≤ named name abis)

event_name-named :
    (topic : ℕ) (m : String) (abis : List (ℕ × String))
    → event_name topic abis ≡ some m
    → 1 ≤ named m abis
unfolding event_name
event_name-named topic m [] e = cc
event_name-named topic m ((t, k) ∷ abis) e =
    ground (arith, eq_iff k m, event_name-named topic m abis)

ones-count_event :
    (name m : String) (counts : List (String × ℕ))
    → count_of name (ones (count_event m counts))
      ≡ count_of name (ones counts)
        + (if (m == name) && leb (count_of m (ones counts)) 0 then 1 else 0)
unfolding count_event ones
ones-count_event name m [] = ground arith
ones-count_event name m ((k, n) ∷ counts) =
    ground (arith, eq_iff k m, eq_iff k name, eq_iff m name, ones-count_event name m counts)

ones-reset_count :
    (name m : String) (counts : List (String × ℕ))
    → count_of name (ones (reset_count m counts))
      ≡ count_of name (ones counts)
        + (if (m == name) && leb (count_of m (ones counts)) 0 then 1 else 0)
unfolding reset_count ones
ones-reset_count name m [] = ground arith
ones-reset_count name m ((k, n) ∷ counts) =
    ground (arith, eq_iff k m, eq_iff k name, eq_iff m name, ones-reset_count name m counts)

count_event-HasKeys :
    (abis : List (ℕ × String)) (first m : String) (counts : List (String × ℕ))
    → 1 ≤ named m abis
    → HasKeys abis first counts
    → HasKeys abis first (count_event m counts)
unfolding HasKeys IsOnce
count_event-HasKeys abis first m counts known (h, has, names) = (
  (λ name. ground (arith, eq_iff m name, ones-count_event name m counts, h name, h m)),
  omega (arith, ones-count_event first m counts, has),
  λ name. ground (arith, eq_iff m name, ones-count_event name m counts, names name, known),
)

initial_counts-IsOnce : (abis : List (ℕ × String)) → IsOnce (initial_counts abis)
unfolding IsOnce initial_counts ones
initial_counts-IsOnce [] name = omega arith
initial_counts-IsOnce ((t, m) ∷ abis) name =
    let h = initial_counts-IsOnce abis in
    ground (arith, eq_iff m name, ones-reset_count name m (initial_counts abis), h name, h m)

initial_counts-named :
    (abis : List (ℕ × String)) (name : String)
    → 1 ≤ count_of name (ones (initial_counts abis))
    → 1 ≤ named name abis
unfolding initial_counts ones
initial_counts-named [] name h = h
initial_counts-named ((t, m) ∷ abis) name h = ground (
  arith,
  eq_iff m name,
  ones-reset_count name m (initial_counts abis),
  initial_counts-named abis name,
)

initial_counts-HasKeys :
    (abis : List (ℕ × String))
    → abis ≢ []
    → (first : String) × HasKeys abis first (initial_counts abis)
unfolding HasKeys initial_counts
initial_counts-HasKeys [] some_abi = absurd (some_abi refl)
initial_counts-HasKeys ((t, m) ∷ abis) some_abi =
    let once : IsOnce (initial_counts ((t, m) ∷ abis)) = initial_counts-IsOnce ((t, m) ∷ abis) in
    (
      m,
      (
        once,
        ground (arith, eq_iff m m, ones-reset_count m m (initial_counts abis)),
        initial_counts-named ((t, m) ∷ abis),
      ),
    )

Perm-HasKeys :
    (abis : List (ℕ × String)) (first : String) (xs ys : List (String × ℕ))
    → Perm xs ys
    → HasKeys abis first ys
    → HasKeys abis first xs
unfolding HasKeys IsOnce ones
Perm-HasKeys abis first xs ys p (h, has, names) =
    let same : (name : String)
        → count_of name (map (λ (e : String × ℕ). (e.0, 1)) xs)
          ≡ count_of name (map (λ (e : String × ℕ). (e.0, 1)) ys) =
      λ name. count_of-Perm name _ _ (Perm.map (λ (e : String × ℕ). (e.0, 1)) p) in
    (
      (λ name. omega (arith, same name, h name)),
      omega (arith, same first, has),
      λ name known. names name (omega (arith, same name, known)),
    )

append_point-HasKeys :
    (abis : List (ℕ × String)) (first : String) (s next : Processed)
    (o : Outcome (Option ContractPoint))
    → append_point s o ≡ done next
    → HasKeys abis first s.event_counts
    → HasKeys abis first next.event_counts
unfolding append_point
append_point-HasKeys abis first s next (done p) e h =
    let counts : s.event_counts ≡ next.event_counts = cc in subst (HasKeys abis first) counts h
append_point-HasKeys abis first s next (failed x) e h =
    let counts : s.event_counts ≡ next.event_counts = cc in subst (HasKeys abis first) counts h
append_point-HasKeys abis first s next panicked e h = cc

module _ (staker : Staker) (abis : List (ℕ × String)) (rev time : ℕ) (first : String) where
  process_named-HasKeys :
      (s next : Processed) (log : LogEvent) (event : Option String)
      → ((m : String) → event ≡ some m → 1 ≤ named m abis)
      → process_named staker rev time s log event ≡ done next
      → HasKeys abis first s.event_counts
      → HasKeys abis first next.event_counts
  unfolding process_named process_kind
  process_named-HasKeys s next log none known e h =
      let counts : s.event_counts ≡ next.event_counts = cc in subst (HasKeys abis first) counts h
  process_named-HasKeys s next log (some m) known e h = elim (Option-cases (kind_of m)) [
    | inl k ↦
        let same = rw k at e in
        let counts : s.event_counts ≡ next.event_counts = cc in subst (HasKeys abis first) counts h
    | inr (kind, k) ↦
        let before : Processed = record s { event_counts = count_event m s.event_counts } in
        append_point-HasKeys abis first before next (process staker kind rev m log time) (rw k at e)
          (count_event-HasKeys abis first m s.event_counts (known m refl) h)
  ]

  process_logs-HasKeys :
      (s next : Processed) (logs : List LogEvent)
      → process_logs staker abis rev time s logs ≡ done next
      → HasKeys abis first s.event_counts
      → HasKeys abis first next.event_counts
  unfolding process_logs process_log
  process_logs-HasKeys s next [] e h =
      let counts : s.event_counts ≡ next.event_counts = cc in subst (HasKeys abis first) counts h
  process_logs-HasKeys s next (log ∷ logs) e h =
      let (mid, one, rest) = >>=-eq-done _ _ e in
      let (topic, found, reached) = >>=-eq-done _ _ one in
      process_logs-HasKeys mid next logs rest (
        process_named-HasKeys s mid log (event_name topic abis) (λ m. event_name-named topic m abis)
          reached h)

-- The point of one name and its count.
abbrev pub count_point : (time : ℕ) → String → ℕ → ContractPoint
count_point time name n = record {
  measurement = "staker_event_counts";
  tags = ("event", name_text name) ∷ [];
  fields = ("count", number n) ∷ [];
  time = time;
}

-- The loop leaves the last entry.
add_counts_last :
    (counts : List (String × ℕ)) (time : ℕ) (name : String) (n : ℕ)
    → (before : List (String × ℕ)) × (last : String) × (k : ℕ) × ((name, n) ∷ counts
        ≡ before ++ (last, k) ∷ [])
      × (add_counts (count_point time name n) counts ≡ count_point time last k)
unfolding add_counts put_value
add_counts_last [] time name n = ([], name, n, refl, refl)
add_counts_last ((m, k) ∷ counts) time name n =
    let (before, last, j, split, made) = add_counts_last counts time m k in
    ((name, n) ∷ before, last, j, ap (◌∷◌ (name, n)) split, made)

count_of_zero :
    (name : String) (counts : List (String × ℕ))
    → count_of name (ones counts) ≡ 0
    → count_of name counts ≡ 0
unfolding ones
count_of_zero name [] h = refl
count_of_zero name ((k, n) ∷ counts) h = ground (arith, eq_iff k name, count_of_zero name counts)

count_of-append :
    (name : String) (xs ys : List (String × ℕ))
    → count_of name (xs ++ ys) ≡ count_of name xs + count_of name ys
count_of-append name [] ys = omega arith
count_of-append name ((k, n) ∷ xs) ys = omega (arith, count_of-append name xs ys)

ones-append : (xs ys : List (String × ℕ)) → ones (xs ++ ys) ≡ ones xs ++ ones ys
unfolding ones
ones-append [] ys = refl
ones-append ((k, n) ∷ xs) ys = ap (◌∷◌ (k, 1)) (ones-append xs ys)

last_count :
    (abis : List (ℕ × String)) (first : String) (before : List (String × ℕ)) (last : String) (k : ℕ)
    → HasKeys abis first (before ++ (last, k) ∷ [])
    → (1 ≤ named last abis) × (k ≡ count_of last (before ++ (last, k) ∷ []))
unfolding HasKeys IsOnce
last_count abis first before last k (h, has, names) =
    let split : count_of last (ones (before ++ (last, k) ∷ []))
        ≡ count_of last (ones before) + count_of last (ones ((last, k) ∷ [])) =
      ap (count_of last) (ones-append before ((last, k) ∷ []))
      ∙ count_of-append last (ones before) (ones ((last, k) ∷ [])) in
    let one : count_of last (ones ((last, k) ∷ [])) ≡ 1 =
      unfold ones in ground (arith, eq_iff last last) in
    let alone = count_of_zero last before (omega (arith, h last)) in
    (
      names last (omega arith),
      ground (arith, eq_iff last last, count_of-append last before ((last, k) ∷ []), alone),
    )

count_points_lem :
    (abis : List (ℕ × String)) (first : String) (counts : List (String × ℕ)) (time : ℕ)
    → HasKeys abis first counts
    → (name : String) × (1 ≤ named name abis)
      × (count_points time counts ≡ some (count_point time name (count_of name counts)) ∷ [])
unfolding count_points add_counts put_value HasKeys ones
count_points_lem abis first [] time (h, has, names) = absurd (omega (arith, has))
count_points_lem abis first ((m, n) ∷ counts) time h =
    let (before, last, k, split, made) = add_counts_last counts time m n in
    let entries = subst (HasKeys abis first) split h in
    let (known, counted) = last_count abis first before last k entries in
    let value : k ≡ count_of last ((m, n) ∷ counts) = counted ∙ ap (count_of last) (sym split) in
    (last, known, ap (λ p. some p ∷ []) made ∙ ap (λ c. some (count_point time last c) ∷ []) value)

-- Where ProcessEvents returns and the ABI has events, and Go visits each entry of a map once, in any
-- order: behind the points of the processors, at most one for each log that the switch has a case for,
-- it returns one point of counts. That holds one event name of the ABI only, with the number of logs whose first
-- topic the ABI gives that name and for which the switch has a case, whether or not their processor
-- fails.
pub process_events-count_point :
    (staker : Staker) (range : List (String × ℕ) → List (String × ℕ)) (abis : List (ℕ × String))
    (rev time : ℕ) (events : List (ℕ × List LogEvent)) (points : List (Option ContractPoint))
    → ((m : List (String × ℕ)) → Perm (range m) m)
    → abis ≢ []
    → process_events staker range abis rev time events ≡ done points
    → let logs = flatten (map (λ (e : ℕ × List LogEvent). e.1) events) in
      (made : List (Option ContractPoint)) × (name : String) × (1 ≤ named name abis)
      × (length made ≤ length (select (is_processed abis) logs))
      × (points
          ≡ made ++ some (count_point time name (length (select (is_event abis name) logs))) ∷ [])
unfolding process_events
process_events-count_point staker range abis rev time events points visits some_abi e =
    let (s, logs, done_points) = >>=-eq-done _ _ e in
    let (first, start) = initial_counts-HasKeys abis some_abi in
    let keys = process_logs-HasKeys staker abis rev time first _ s _ logs start in
    let visited = range s.event_counts in
    let (name, known, counted) =
      count_points_lem abis first visited time
        (Perm-HasKeys abis first visited s.event_counts (visits s.event_counts) keys) in
    let (counts, few) = process_logs-Adds staker abis rev time name _ s _ logs in
    let logs_of = flatten (map (λ (e : ℕ × List LogEvent). e.1) events) in
    let total : count_of name visited ≡ length (select (is_event abis name) logs_of) =
      count_of-Perm name visited s.event_counts (visits s.event_counts)
      ∙ counts
      ∙ omega (arith, count_of-initial_counts name abis) in
    (
      s.points,
      name,
      known,
      omega (arith, few),
      sym (done-injective done_points)
          ∙ ap (λ l. s.points ++ l) (counted ∙ ap (λ c. some (count_point time name c) ∷ []) total),
    )
