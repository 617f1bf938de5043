-- ===== src/Stats/Pos/Contract/Counted.antt =====
-- The counts of `ProcessEvents` in stats/pos/event_processors.go.
use text.Mathlib.Text.{◌==◌}
use text.Mathlib.TextEquality.{eq_iff}
use mathlib.Core.List.{Perm, foldr}
use mathlib.Core.List.Perm
use native.Mathlib.Nat.{ℕ_set}
use thorflux.Base.{
  ℕ, ◌+◌, ◌≤◌, String, ◌≡◌, refl, sym, ap, ◌∙◌, subst, inl, inr, Bool, false, ◌&&◌, Option, none,
  some, List, [], ◌∷◌, ◌++◌, arith, if◌then◌else◌, Option-cases, length, select, length-append,
}
use thorflux.Chain.{LogEvent}
use thorflux.Stats.Outcome.{◌>>=◌, >>=-eq-done, Outcome, done, failed, panicked, at}
use thorflux.Stats.Pos.{is_some}
use thorflux.Stats.Pos.Contract.{ContractPoint, Staker, kind_of}
use thorflux.Stats.Pos.Contract.Topics.{event_name}
use thorflux.Stats.Pos.Contract.Processors.{process}
use thorflux.Stats.Pos.Contract.Events.{
  count_event, Processed, append_point, process_kind, process_named, process_log, process_logs,
  reset_count, initial_counts,
}

-- What the entries of a name add up to.
abbrev pub count_of : String → List (String × ℕ) → ℕ
count_of name [] = 0
count_of name ((k, n) ∷ counts) = (if k == name then n else 0) + count_of name counts

-- The event that the ABI names so, if the switch has a case for the name.
abbrev pub is_named : String → Option String → Bool
is_named name none = false
is_named name (some m) = (m == name) && is_some (kind_of m)

abbrev pub first_topic : (ℕ → Bool) → List ℕ → Bool
first_topic test [] = false
first_topic test (topic ∷ topics) = test topic

abbrev pub is_event : List (ℕ × String) → String → LogEvent → Bool
is_event abis name log = first_topic (λ topic. is_named name (event_name topic abis)) log.topics

-- The event that the ABI names and the switch has a case for.
abbrev pub has_processor : Option String → Bool
has_processor none = false
has_processor (some m) = is_some (kind_of m)

abbrev pub is_processed : List (ℕ × String) → LogEvent → Bool
is_processed abis log = first_topic (λ topic. has_processor (event_name topic abis)) log.topics

count_of-count_event :
    (name m : String) (counts : List (String × ℕ))
    → count_of name (count_event m counts) ≡ (if m == name then 1 else 0) + count_of name counts
unfolding count_event
count_of-count_event name m [] = refl
count_of-count_event name m ((k, n) ∷ counts) =
    ground (arith, eq_iff k m, eq_iff k name, eq_iff m name, count_of-count_event name m counts)

pub count_of-initial_counts :
    (name : String) (abis : List (ℕ × String)) → count_of name (initial_counts abis) ≡ 0
unfolding initial_counts
count_of-initial_counts name [] = refl
count_of-initial_counts name ((t, m) ∷ abis) =
    reset (initial_counts abis) (count_of-initial_counts name abis)
  where
    reset :
        (counts : List (String × ℕ))
        → count_of name counts ≡ 0
        → count_of name (reset_count m counts) ≡ 0
    reset [] h = ground arith
    reset ((k, n) ∷ counts) h = ground (arith, reset counts)

add_entry : String → String × ℕ → ℕ → ℕ
add_entry name (k, n) total = (if k == name then n else 0) + total

count_of-foldr :
    (name : String) (counts : List (String × ℕ))
    → count_of name counts ≡ foldr (add_entry name) 0 counts
unfolding add_entry
count_of-foldr name [] = refl
count_of-foldr name ((k, n) ∷ counts) =
    ap (λ t. (if k == name then n else 0) + t) (count_of-foldr name counts)

add_entry_comm :
    (name : String) (a b : String × ℕ) (t : ℕ)
    → add_entry name a (add_entry name b t) ≡ add_entry name b (add_entry name a t)
unfolding add_entry
add_entry_comm name (k, n) (j, m) t = ground arith

pub count_of-Perm :
    (name : String) (xs ys : List (String × ℕ)) → Perm xs ys → count_of name xs ≡ count_of name ys
count_of-Perm name xs ys p =
    count_of-foldr name xs
    ∙ Perm.foldr-eq ℕ_set (add_entry name) (add_entry_comm name) p 0
    ∙ sym (count_of-foldr name ys)

-- A step adds `k` to the count of the name, and at most `m` points.
abbrev pub Adds : String → (k m : ℕ) → (s next : Processed) → Type 0
Adds name k m s next =
    (count_of name next.event_counts ≡ count_of name s.event_counts + k)
    × (length next.points ≤ length s.points + m)

append_point-Adds :
    (name : String) (s next : Processed) (o : Outcome (Option ContractPoint))
    → append_point s o ≡ done next
    → Adds name 0 1 s next
unfolding append_point
append_point-Adds name s next (done p) e =
    let points : s.points ++ p ∷ [] ≡ next.points = cc in
    let counts : s.event_counts ≡ next.event_counts = cc in
    (
      ap (count_of name) (sym counts) ∙ omega arith,
      omega (arith, ap length points, length-append s.points (p ∷ [])),
    )
append_point-Adds name s next (failed x) e =
    let points : s.points ≡ next.points = cc in
    let counts : s.event_counts ≡ next.event_counts = cc in
    (ap (count_of name) (sym counts) ∙ omega arith, omega (arith, ap length points))
append_point-Adds name s next panicked e = cc

same-Adds : (name : String) (s next : Processed) → s ≡ next → Adds name 0 0 s next
same-Adds name s next e = subst (Adds name 0 0 s) e (omega arith, omega arith)

module _ (staker : Staker) (abis : List (ℕ × String)) (rev time : ℕ) (name : String) where
  process_named-Adds :
      (s next : Processed) (log : LogEvent) (event : Option String)
      → process_named staker rev time s log event ≡ done next
      → Adds name
          (if is_named name event then 1 else 0)
          (if has_processor event then 1 else 0)
          s
          next
  unfolding process_named process_kind
  process_named-Adds s next log none e = same-Adds name s next (cc)
  process_named-Adds s next log (some m) e = elim (Option-cases (kind_of m)) [
    | inl k ↦
        let (counts, points) = same-Adds name s next (cc (rw k at e)) in
        rw k (ground (arith, counts), omega (arith, points))
    | inr (kind, k) ↦
        let before : Processed = record s { event_counts = count_event m s.event_counts } in
        let (counts, points) =
          append_point-Adds name before next (process staker kind rev m log time) (rw k at e) in
        rw k (
          ground (arith, counts, count_of-count_event name m s.event_counts),
          omega (arith, points),
        )
  ]

  process_topics-Adds :
      (s next : Processed) (log : LogEvent) (topics : List ℕ)
      → (at topics 0 >>= (λ topic. process_named staker rev time s log (event_name topic abis)))
        ≡ done next
      → Adds name
          (if first_topic (λ topic. is_named name (event_name topic abis)) topics then 1 else 0)
          (if first_topic (λ topic. has_processor (event_name topic abis)) topics then 1 else 0)
          s
          next
  unfolding ◌>>=◌
  process_topics-Adds s next log [] e = cc
  process_topics-Adds s next log (topic ∷ topics) e =
      process_named-Adds s next log (event_name topic abis) e

  process_log-Adds :
      (s next : Processed) (log : LogEvent)
      → process_log staker abis rev time s log ≡ done next
      → Adds name
          (if is_event abis name log then 1 else 0)
          (if is_processed abis log then 1 else 0)
          s
          next
  unfolding process_log
  process_log-Adds s next log e = process_topics-Adds s next log log.topics e

  pub process_logs-Adds :
      (s next : Processed) (logs : List LogEvent)
      → process_logs staker abis rev time s logs ≡ done next
      → Adds name
          (length (select (is_event abis name) logs))
          (length (select (is_processed abis) logs))
          s
          next
  unfolding process_logs
  process_logs-Adds s next [] e = same-Adds name s next (cc)
  process_logs-Adds s next (log ∷ logs) e =
      let (mid, one, rest) = >>=-eq-done _ _ e in
      let (counts, points) = process_log-Adds s mid log one in
      let (counts', points') = process_logs-Adds mid next logs rest in
      (ground (arith, counts, counts'), ground (arith, points, points'))
