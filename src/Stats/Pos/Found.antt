-- ===== src/Stats/Pos/Found.antt =====
-- No slot that the scheduler expects is left out by `MissedSlots` of stats/pos/staker.go.
use thorflux.Base.{
  ℕ, zero, suc, ◌+◌, ◌*◌, ◌≤◌, ◌<◌, ◌≡◌, sym, ap, ◌∙◌, subst, inl, inr, Bool, true, List, [], ◌∷◌,
  map, arith, ltb, lt→ltb, Bool-cases, flatten, Any, Any-append_left, Any-append_right, u64_mod,
  u64,
}
use native.Mathlib.Nat.{le-mul_of_pos_right}
use thorflux.Chain.{Block, ok, >>=-eq-ok, ok-injective}
use thorflux.Types.{Validation}
use thorflux.Stats.Pos.{
  Proposer, NewScheduler, MissedSlot, is_active, create_proposers, slot_times, scheduled_at,
  missed_online, missed_offline, missed_slots,
}
use thorflux.Stats.Pos.Missed.{IsActiveSigner}

slot_times_complete :
    (fuel interval i stop j : ℕ)
    → stop + interval < u64_mod
    → j < fuel
    → i + j * interval < stop
    → Any (λ t. t ≡ i + j * interval) (slot_times fuel interval i stop)
unfolding slot_times
slot_times_complete zero interval i stop j fits small early = absurd (omega arith)
slot_times_complete (suc fuel) interval i stop zero fits small early =
    let below : ltb i stop ≡ true = ground arith in rw below (inl (omega arith))
slot_times_complete (suc fuel) interval i stop (suc j) fits small early =
    let product : suc j * interval ≡ interval + j * interval = grind arith in
    let below : ltb i stop ≡ true = lt→ltb _ _ (omega arith) in
    let next : u64 (i + interval) ≡ i + interval = omega arith in
    let rest =
      slot_times_complete fuel interval (i + interval) stop j fits (omega arith) (omega arith) in
    let later = slot_times fuel interval (i + interval) stop in
    let same : i + interval + j * interval ≡ i + suc j * interval = omega arith in
    rw (below, next) (inr (subst (λ x. Any (λ t. t ≡ x) later) same rest))

create_proposers-found :
    (vs : List Validation) (a : ℕ)
    → IsActiveSigner vs a
    → Any (λ (p : Proposer). p.address ≡ a) (create_proposers vs)
unfolding create_proposers is_active
create_proposers-found [] a h = elim h [ ]
create_proposers-found (v ∷ vs) a (inl (named, active)) = rw active (inl named)
create_proposers-found (v ∷ vs) a (inr h) =
    let rest = create_proposers-found vs a h in
    elim (Bool-cases (is_active v.status)) [ inl e ↦ simp e (inr rest) | inr e ↦ simp e rest ]

scheduled_at-found :
    (s : ℕ → ℕ → Bool) (ps : List Proposer) (t a : ℕ)
    → s t a ≡ true
    → Any (λ (p : Proposer). p.address ≡ a) ps
    → Any (λ (m : MissedSlot). m.signer ≡ a) (scheduled_at s ps t)
unfolding scheduled_at
scheduled_at-found s [] t a expected h = elim h [ ]
scheduled_at-found s (p ∷ ps) t a expected (inl named) =
    let here : s t p.address ≡ true = ap (s t) named ∙ expected in simp here (inl named)
scheduled_at-found s (p ∷ ps) t a expected (inr h) =
    let rest = scheduled_at-found s ps t a expected h in
    elim (Bool-cases (s t p.address)) [ inl e ↦ simp e (inr rest) | inr e ↦ simp e rest ]

Any-flatten :
    (P : MissedSlot → Type 0) (f : ℕ → List MissedSlot) (ts : List ℕ) (t : ℕ)
    → Any (λ x. x ≡ t) ts
    → Any P (f t)
    → Any P (flatten (map f ts))
Any-flatten P f [] t h k = elim h [ ]
Any-flatten P f (x ∷ ts) t (inl same) k =
    Any-append_left P (f x) _ (subst (λ y. Any P (f y)) (sym same) k)
Any-flatten P f (x ∷ ts) t (inr h) k = Any-append_right P (f x) _ (Any-flatten P f ts t h k)

-- No missed slot of a validator that the contract counts as active is left out of the first list: where
-- the scheduler expects it at a time a positive whole number of intervals behind the parent and before
-- the block, it is named, if nothing wraps and the interval is positive.
pub missed_slots_complete :
    (sched : NewScheduler) (interval : ℕ) (parent block : Block) (vs : List Validation)
    (seed : List ℕ) (online offline : List MissedSlot) (s : ℕ → ℕ → Bool) (j a : ℕ)
    → 0 < interval
    → block.timestamp + interval < u64_mod
    → sched block.signer (create_proposers vs) parent.number parent.timestamp seed ≡ ok s
    → missed_slots sched interval parent block vs seed ≡ ok (online, offline)
    → IsActiveSigner vs a
    → parent.timestamp + interval + j * interval < block.timestamp
    → s (parent.timestamp + interval + j * interval) a ≡ true
    → Any (λ (m : MissedSlot). m.signer ≡ a) online
unfolding missed_slots missed_online
missed_slots_complete sched interval parent block vs seed online offline s j a pos fits made h
      active early expected =
    let ps = create_proposers vs in
    let t = parent.timestamp + interval + j * interval in
    let grows : j ≤ j * interval = le-mul_of_pos_right j pos in
    let exact : u64 (parent.timestamp + interval) ≡ parent.timestamp + interval = omega arith in
    let listed =
      slot_times_complete block.timestamp interval (parent.timestamp + interval) block.timestamp j
        fits (omega arith) early in
    let found =
      Any-flatten (λ (m : MissedSlot). m.signer ≡ a) (scheduled_at s ps) _ t listed
        (scheduled_at-found s ps t a expected (create_proposers-found vs a active)) in
    let (s', made', rest) =
      >>=-eq-ok (sched block.signer ps parent.number parent.timestamp seed) _ h in
    let (ms, passed, both) = >>=-eq-ok (missed_offline sched ps parent block seed vs) _ rest in
    let same : s' ≡ s = ok-injective (sym made' ∙ made) in
    let pair = ok-injective both in
    let first : missed_online s' ps interval parent block ≡ online =
      ap (λ (x : List MissedSlot × List MissedSlot). x.0) pair in
    subst (Any (λ (m : MissedSlot). m.signer ≡ a))
      (ap
          (λ i.
            flatten
              (map (scheduled_at s ps) (slot_times block.timestamp interval i block.timestamp)))
          (sym exact)
        ∙ ap (λ f. missed_online f ps interval parent block) (sym same)
        ∙ first)
      found
