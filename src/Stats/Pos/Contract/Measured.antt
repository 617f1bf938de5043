-- ===== src/Stats/Pos/Contract/Measured.antt =====
-- Which measurements stats/pos/event_processors.go can write.
use text.Mathlib.TextEquality.{eq_iff}
use text.Mathlib.Text.{◌==◌}
use thorflux.Base.{
  ℕ, String, ◌≡◌, refl, sym, ap, ◌∙◌, subst, ◌≢◌, inl, inr, false, Option, none, some, List, [],
  ◌∷◌, ◌++◌, arith, Option-cases, All, All-append,
}
use thorflux.Chain.{LogEvent, ok, Result-cases}
use thorflux.Stats.Outcome.{done-injective, >>=-eq-done, Outcome, done, failed, panicked, ◌>>=◌, at}
use thorflux.Stats.Pos.Contract.{
  AbiValue, uint8_value, uint32_value, big_int, common_address, thor_address, other_value,
  ContractPoint, Staker, Kind, validation_queued, validation_withdrawn, validation_signaled_exit,
  stake_increased, stake_decreased, delegation_added, delegation_withdrawn,
  delegation_signaled_exit, beneficiary_set, kind_of, unpack_event, with_big_int, with_uint32,
  with_uint8, with_thor_address,
}
use thorflux.Stats.Pos.Contract.Processors.{
  process, process_validation_queued, process_validation_withdrawn,
  process_validation_signaled_exit, process_stake_increased, process_stake_decreased,
  process_delegation_added, process_delegation_withdrawn, process_delegation_signaled_exit,
  process_beneficiary_set,
}
use thorflux.Stats.Pos.Contract.Topics.{event_name}
use thorflux.Stats.Pos.Contract.Events.{
  Processed, append_point, process_kind, process_named, process_log, process_logs, add_counts,
  count_points, process_events,
}

-- A point that is there has the property.
abbrev pub OfPoint : (ContractPoint → Type 0) → Option ContractPoint → Type 0
OfPoint P none = Unit
OfPoint P (some p) = P p

-- So has the point that a processor returns, if it returns one.
abbrev HasYield : (ContractPoint → Type 0) → Outcome (Option ContractPoint) → Type 0
HasYield P (done o) = OfPoint P o
HasYield P (failed e) = Unit
HasYield P panicked = Unit

record Yields (P : ContractPoint → Type 0) (o : Outcome (Option ContractPoint)) : Type 0 where
  pub point : HasYield P o

module _ (P : ContractPoint → Type 0) where
  Yields-bind {ℓ} :
      {A : Type ℓ} (m : Outcome A) (f : A → Outcome (Option ContractPoint))
      → ((a : A) → m ≡ done a → Yields P (f a))
      → Yields P (m >>= f)
  unfolding ◌>>=◌
  Yields-bind (done a) f h = h a refl
  Yields-bind (failed e) f h = record { point = tt }
  Yields-bind panicked f h = record { point = tt }

  Yields-with_big_int :
      (v : AbiValue) (f : ℕ → Outcome (Option ContractPoint))
      → ((n : ℕ) → Yields P (f n))
      → Yields P (with_big_int v f)
  unfolding with_big_int
  Yields-with_big_int (big_int n) f h = h n
  Yields-with_big_int (uint8_value n) f h = record { point = tt }
  Yields-with_big_int (uint32_value n) f h = record { point = tt }
  Yields-with_big_int (common_address n) f h = record { point = tt }
  Yields-with_big_int (thor_address n) f h = record { point = tt }
  Yields-with_big_int other_value f h = record { point = tt }

  Yields-with_uint32 :
      (v : AbiValue) (f : ℕ → Outcome (Option ContractPoint))
      → ((n : ℕ) → Yields P (f n))
      → Yields P (with_uint32 v f)
  unfolding with_uint32
  Yields-with_uint32 (uint32_value n) f h = h n
  Yields-with_uint32 (uint8_value n) f h = record { point = tt }
  Yields-with_uint32 (big_int n) f h = record { point = tt }
  Yields-with_uint32 (common_address n) f h = record { point = tt }
  Yields-with_uint32 (thor_address n) f h = record { point = tt }
  Yields-with_uint32 other_value f h = record { point = tt }

  Yields-with_uint8 :
      (v : AbiValue) (f : ℕ → Outcome (Option ContractPoint))
      → ((n : ℕ) → Yields P (f n))
      → Yields P (with_uint8 v f)
  unfolding with_uint8
  Yields-with_uint8 (uint8_value n) f h = h n
  Yields-with_uint8 (uint32_value n) f h = record { point = tt }
  Yields-with_uint8 (big_int n) f h = record { point = tt }
  Yields-with_uint8 (common_address n) f h = record { point = tt }
  Yields-with_uint8 (thor_address n) f h = record { point = tt }
  Yields-with_uint8 other_value f h = record { point = tt }

  Yields-with_thor_address :
      (v : AbiValue) (f : ℕ → Outcome (Option ContractPoint))
      → ((a : ℕ) → v ≢ thor_address a)
      → Yields P (with_thor_address v f)
  unfolding with_thor_address
  Yields-with_thor_address (thor_address a) f h = absurd (h a refl)
  Yields-with_thor_address (uint8_value n) f h = record { point = tt }
  Yields-with_thor_address (uint32_value n) f h = record { point = tt }
  Yields-with_thor_address (big_int n) f h = record { point = tt }
  Yields-with_thor_address (common_address n) f h = record { point = tt }
  Yields-with_thor_address other_value f h = record { point = tt }

abbrev pub IsOther : ContractPoint → Type 0
IsOther p = p.measurement ≢ "beneficiary_set"

-- The ABI library of go-ethereum gives an address its own type, so never a value of type
-- `thor.Address`.
abbrev pub HasNoThorAddress : Staker → Type 0
HasNoThorAddress s =
    (name : String) (bytes : List ℕ) (i a : ℕ) (values : List AbiValue)
    → s.unpack_values name bytes ≡ ok values
    → at values i ≢ done (thor_address a)

differs : (m : String) → (m == "beneficiary_set") ≡ false → m ≢ "beneficiary_set"
differs m h e = ground (arith, eq_iff m "beneficiary_set")

unpack_event_lem :
    (s : Staker) (name : String) (log : LogEvent) (out : List AbiValue)
    → unpack_event s name log ≡ done out
    → (bytes : List ℕ) × (s.unpack_values name bytes ≡ ok out)
unfolding unpack_event ◌>>=◌
unpack_event_lem s name log out h = elim (Option-cases (s.must_decode log.payload)) [
  | inl e ↦ cc (rw e at h)
  | inr (bytes, e) ↦
      let unpacked = rw e at h in
      elim (Result-cases (s.unpack_values name bytes)) [
        | inl (values, r) ↦
            let same : values ≡ out = cc (rw r at unpacked) in (bytes, r ∙ ap ok same)
        | inr (x, r) ↦ cc (rw r at unpacked)
      ]
]

beneficiary_lem :
    (s : Staker) (name : String) (log : LogEvent) (time : ℕ)
    → HasNoThorAddress s
    → Yields IsOther (process_beneficiary_set s name log time)
unfolding process_beneficiary_set
beneficiary_lem s name log time none_of = Yields-bind _ _ _ (λ topic _.
    Yields-bind _ _ _ (λ out unpacked. Yields-bind _ _ _ (λ first found.
      let (bytes, values) = unpack_event_lem s name log out unpacked in
      Yields-with_thor_address _ _ _
        (λ a e. none_of name bytes 0 a out values (found ∙ ap done e)))))

process-IsOther :
    (s : Staker) (kind : Kind) (rev : ℕ) (name : String) (log : LogEvent) (time : ℕ)
    → HasNoThorAddress s
    → Yields IsOther (process s kind rev name log time)
unfolding process process_validation_queued process_validation_withdrawn
    process_validation_signaled_exit process_stake_increased process_stake_decreased
    process_delegation_added process_delegation_withdrawn process_delegation_signaled_exit
process-IsOther s validation_queued rev name log time h = Yields-bind _ _ _ (λ a _.
    Yields-bind _ _ _ (λ b _. Yields-bind _ _ _ (λ c _. Yields-bind _ _ _ (λ d _.
      Yields-with_uint32 _ _ _ (λ n.
        Yields-bind _ _ _
          (λ e _. Yields-with_big_int _ _ _ (λ m. record { point = differs _ refl })))))))
process-IsOther s validation_withdrawn rev name log time h = Yields-bind _ _ _ (λ a _.
    Yields-bind _ _ _ (λ b _.
      Yields-bind _ _ _
        (λ c _. Yields-with_big_int _ _ _ (λ m. record { point = differs _ refl }))))
process-IsOther s validation_signaled_exit rev name log time h =
    Yields-bind _ _ _ (λ a _. record { point = differs _ refl })
process-IsOther s stake_increased rev name log time h = Yields-bind _ _ _ (λ a _.
    Yields-bind _ _ _ (λ b _.
      Yields-bind _ _ _
        (λ c _. Yields-with_big_int _ _ _ (λ m. record { point = differs _ refl }))))
process-IsOther s stake_decreased rev name log time h = Yields-bind _ _ _ (λ a _.
    Yields-bind _ _ _ (λ b _.
      Yields-bind _ _ _
        (λ c _. Yields-with_big_int _ _ _ (λ m. record { point = differs _ refl }))))
process-IsOther s delegation_added rev name log time h = Yields-bind _ _ _ (λ a _.
    Yields-bind _ _ _ (λ b _. Yields-bind _ _ _ (λ c _. Yields-bind _ _ _ (λ d _.
      Yields-bind _ _ _ (λ e _. Yields-with_big_int _ _ _ (λ n.
        Yields-bind _ _ _
          (λ e _. Yields-with_uint8 _ _ _ (λ m. record { point = differs _ refl }))))))))
process-IsOther s delegation_withdrawn rev name log time h = Yields-bind _ _ _ (λ a _.
    Yields-bind _ _ _ (λ b _. Yields-bind _ _ _ (λ c _. Yields-bind _ _ _ (λ d _.
      Yields-bind _ _ _ (λ e _. Yields-bind _ _ _ (λ f _.
        Yields-bind _ _ _
          (λ g _. Yields-with_big_int _ _ _ (λ n. record { point = differs _ refl }))))))))
process-IsOther s delegation_signaled_exit rev name log time h = Yields-bind _ _ _ (λ a _.
    Yields-bind _ _ _ (λ b _.
      Yields-bind _ _ _ (λ c _. Yields-bind _ _ _ (λ d _. record { point = differs _ refl }))))
process-IsOther s beneficiary_set rev name log time h = beneficiary_lem s name log time h

append_point-OfPoint :
    (P : ContractPoint → Type 0) (s next : Processed) (o : Outcome (Option ContractPoint))
    → All (OfPoint P) s.points
    → Yields P o
    → append_point s o ≡ done next
    → All (OfPoint P) next.points
unfolding append_point
append_point-OfPoint P s next (done p) a y e =
    let points : s.points ++ p ∷ [] ≡ next.points = cc in
    subst (λ l. All (OfPoint P) l) points (All-append _ s.points (p ∷ []) a (y.point, tt))
append_point-OfPoint P s next (failed x) a y e =
    let points : s.points ≡ next.points = cc in subst (λ l. All (OfPoint P) l) points a
append_point-OfPoint P s next panicked a y e = cc

module _ (staker : Staker) (rev time : ℕ) (none_of : HasNoThorAddress staker) where
  process_named-IsOther :
      (s next : Processed) (log : LogEvent) (name : Option String)
      → All (OfPoint IsOther) s.points
      → process_named staker rev time s log name ≡ done next
      → All (OfPoint IsOther) next.points
  unfolding process_named process_kind
  process_named-IsOther s next log none a e =
      let points : s.points ≡ next.points = cc in subst (λ l. All (OfPoint IsOther) l) points a
  process_named-IsOther s next log (some name) a e = elim (Option-cases (kind_of name)) [
    | inl k ↦
        let kept = rw k at e in
        let points : s.points ≡ next.points = cc in subst (λ l. All (OfPoint IsOther) l) points a
    | inr (kind, k) ↦
        append_point-OfPoint IsOther _ next _ a
          (process-IsOther staker kind rev name log time none_of) (rw k at e)
  ]

  process_logs-IsOther :
      (abis : List (ℕ × String)) (s next : Processed) (logs : List LogEvent)
      → All (OfPoint IsOther) s.points
      → process_logs staker abis rev time s logs ≡ done next
      → All (OfPoint IsOther) next.points
  unfolding process_logs process_log
  process_logs-IsOther abis s next [] a e =
      let points : s.points ≡ next.points = cc in subst (λ l. All (OfPoint IsOther) l) points a
  process_logs-IsOther abis s next (log ∷ logs) a e =
      let (mid, one, rest) = >>=-eq-done _ _ e in
      let (topic, first, named) = >>=-eq-done _ _ one in
      process_logs-IsOther abis mid next logs
        (process_named-IsOther s mid log (event_name topic abis) a named) rest

add_counts-measurement :
    (counts : List (String × ℕ)) (p : ContractPoint)
    → (add_counts p counts).measurement ≡ p.measurement
unfolding add_counts
add_counts-measurement [] p = refl
add_counts-measurement ((name, n) ∷ counts) p = add_counts-measurement counts _

count_points-IsOther :
    (time : ℕ) (counts : List (String × ℕ)) → All (OfPoint IsOther) (count_points time counts)
unfolding count_points
count_points-IsOther time [] = tt
count_points-IsOther time (c ∷ counts) = (
  (λ e.
      let start : ContractPoint = record {
        measurement = "staker_event_counts";
        tags = [];
        fields = [];
        time = time;
      } in
      differs "staker_event_counts" refl (sym (add_counts-measurement (c ∷ counts) start) ∙ e)),
  tt,
)

-- If the ABI library never gives an address as a `thor.Address`, then no point that ProcessEvents
-- returns has the measurement "beneficiary_set", whatever the events are.
pub process_events-IsOther :
    (staker : Staker) (range : List (String × ℕ) → List (String × ℕ)) (abis : List (ℕ × String))
    (rev time : ℕ) (events : List (ℕ × List LogEvent)) (points : List (Option ContractPoint))
    → HasNoThorAddress staker
    → process_events staker range abis rev time events ≡ done points
    → All (OfPoint IsOther) points
unfolding process_events
process_events-IsOther staker range abis rev time events points none_of e =
    let (s, logs, made) = >>=-eq-done _ _ e in
    subst (λ l. All (OfPoint IsOther) l) (done-injective made)
      (All-append _ s.points (count_points time (range s.event_counts))
        (process_logs-IsOther staker rev time none_of abis _ s _ tt logs)
        (count_points-IsOther time (range s.event_counts)))
