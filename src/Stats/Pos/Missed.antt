-- ===== src/Stats/Pos/Missed.antt =====
-- Which slots stats/pos/staker.go counts as missed.
use thorflux.Base.{
  ℕ, zero, suc, ◌+◌, ◌*◌, ◌≤◌, ◌<◌, ◌≡◌, refl, sym, ap, ◌∙◌, subst, ◌≢◌, inl, inr, Bool, true, not,
  ◌&&◌, none, List, [], ◌∷◌, ◌++◌, arith, ltb, ◌==◌, ltb→lt, Bool-cases, Option-cases, select, All,
  All-append, Any, All-map, All-flatten, All-select, select-passes, All-mono, All-both, u64_mod,
  u64,
}
use thorflux.Chain.{Block, ok, >>=-eq-ok, ok-injective}
use thorflux.Types.{Status, Validation}
use thorflux.Stats.Pos.{
  Proposer, NewScheduler, MissedSlot, is_active, create_proposers, slot_times, scheduled_at,
  missed_online, missed_by, missed_offline, missed_slots,
}

-- A time that lies a whole number of intervals behind `start`, and before `stop`.
abbrev pub IsSlotTime : (interval start stop t : ℕ) → Type 0
IsSlotTime interval start stop t = ((j : ℕ) × (t ≡ start + j * interval)) × (t < stop)

slot_times_sound :
    (fuel interval start j stop : ℕ)
    → stop + interval < u64_mod
    → All (IsSlotTime interval start stop) (slot_times fuel interval (start + j * interval) stop)
unfolding slot_times
slot_times_sound zero interval start j stop h = tt
slot_times_sound (suc fuel) interval start j stop h =
    elim (Bool-cases (ltb (start + j * interval) stop)) [
      | inl below ↦
          let earlier : start + j * interval < stop = ltb→lt _ _ below in
          let product : (j + 1) * interval ≡ j * interval + interval = grind arith in
          let next : u64 (start + j * interval + interval) ≡ start + (j + 1) * interval =
            omega arith in
          simp below
            (((j, refl), earlier), rw next (slot_times_sound fuel interval start (j + 1) stop h))
      | inr above ↦ simp above tt
    ]

-- A validator that the staker contract counts as active.
abbrev pub IsActiveSigner : List Validation → ℕ → Type 0
IsActiveSigner vs a = Any (λ (v : Validation). (v.address ≡ a) × (v.status ≡ Status.active)) vs

is_active-true : (s : Status) → is_active s ≡ true → s ≡ Status.active
unfolding is_active
is_active-true Status.active h = refl
is_active-true Status.unknown h = cc
is_active-true Status.queued h = cc
is_active-true Status.exit h = cc

active_among :
    (vs : List Validation)
    → All
        (λ (v : Validation). IsActiveSigner vs v.address)
        (select (λ (v : Validation). is_active v.status) vs)
active_among [] = tt
active_among (v ∷ vs) =
    let rest = All-mono _ _ (λ (w : Validation) h. inr h) _ (active_among vs) in
    elim (Bool-cases (is_active v.status)) [
      | inl h ↦ simp h (inl (refl, is_active-true v.status h), rest)
      | inr h ↦ simp h rest
    ]

create_proposers-active :
    (vs : List Validation)
    → All (λ (p : Proposer). IsActiveSigner vs p.address) (create_proposers vs)
unfolding create_proposers
create_proposers-active vs = All-map _ _ _ (active_among vs)

-- An active validator without an offline block that is not the signer.
abbrev pub IsPassedOver : List Validation → Block → ℕ → Type 0
IsPassedOver vs block a =
    Any
      (λ (v : Validation).
        (v.address ≡ a)
        × (v.status ≡ Status.active)
        × (v.offline_block ≡ none)
        × (a ≢ block.signer))
      vs

missed_by-signer :
    (s : ℕ → ℕ → Bool) (block : Block) (v : Validation)
    → All
        (λ (m : MissedSlot). (v.address ≡ m.signer) × (m.signer ≢ block.signer))
        (missed_by s block v)
unfolding missed_by
missed_by-signer s block v =
    elim (Bool-cases (s block.timestamp v.address && not (block.signer == v.address))) [
      | inl h ↦ simp h ((refl, (λ e. ground arith)), tt)
      | inr h ↦ simp h tt
    ]

missed_offline-known :
    (sched : NewScheduler) (ps : List Proposer) (parent block : Block) (seed : List ℕ)
    (vs : List Validation) (ms : List MissedSlot)
    → missed_offline sched ps parent block seed vs ≡ ok ms
    → All (λ (m : MissedSlot). IsPassedOver vs block m.signer) ms
unfolding missed_offline
missed_offline-known sched ps parent block seed [] ms h =
    let nothing : ms ≡ [] = cc in rw nothing tt
missed_offline-known sched ps parent block seed (v ∷ vs) ms h =
    elim (Bool-cases (is_active v.status)) [
      | inl a ↦ elim (Option-cases v.offline_block) [
        | inl o ↦
            let added = simp (a, o) at h in
            let (s, scheduled, added') =
              >>=-eq-ok (sched v.address ps parent.number parent.timestamp seed) _ added in
            let (rest, later, listed) =
              >>=-eq-ok (missed_offline sched ps parent block seed vs) _ added' in
            let earlier = missed_offline-known sched ps parent block seed vs rest later in
            let parts : ms ≡ missed_by s block v ++ rest = sym (ok-injective listed) in
            rw parts (
              All-append _ (missed_by s block v) rest
                (All-mono _ _ (λ (m : MissedSlot) k. inl (k.0, is_active-true v.status a, o, k.1)) _
                  (missed_by-signer s block v))
                (All-mono _ _ (λ (m : MissedSlot) k. inr k) rest earlier))
        | inr (b, o) ↦
            All-mono _ _ (λ (m : MissedSlot) k. inr k) ms
              (missed_offline-known sched ps parent block seed vs ms (simp (a, o) at h))
      ]
      | inr a ↦
          All-mono _ _ (λ (m : MissedSlot) k. inr k) ms
            (missed_offline-known sched ps parent block seed vs ms (simp a at h))
    ]

-- A slot at a time, of an active validator that the scheduler expects then.
abbrev pub IsScheduledSlot :
    (ℕ → ℕ → Bool) → List Validation → (interval : ℕ) → (parent block : Block) → ℕ → Type 0
IsScheduledSlot s vs interval parent block a =
    IsActiveSigner vs a
    × ((t : ℕ) × IsSlotTime interval (parent.timestamp + interval) block.timestamp t
        × (s t a ≡ true))

scheduled_at_lem :
    (s : ℕ → ℕ → Bool) (vs : List Validation) (interval : ℕ) (parent block : Block) (t : ℕ)
    → IsSlotTime interval (parent.timestamp + interval) block.timestamp t
    → All
        (λ (m : MissedSlot). IsScheduledSlot s vs interval parent block m.signer)
        (scheduled_at s (create_proposers vs) t)
unfolding scheduled_at
scheduled_at_lem s vs interval parent block t is_time =
    let expected : Proposer → Bool = λ p. s t p.address in
    let active_ones = All-select _ expected (create_proposers vs) (create_proposers-active vs) in
    All-map _ _ _ (
      All-mono (λ (p : Proposer). IsActiveSigner vs p.address × (expected p ≡ true))
        (λ (p : Proposer). IsScheduledSlot s vs interval parent block p.address)
        (λ p k. (k.0, (t, is_time, k.1))) _
        (All-both _ _ _ active_ones (select-passes expected (create_proposers vs))))

missed_online-scheduled :
    (s : ℕ → ℕ → Bool) (vs : List Validation) (interval : ℕ) (parent block : Block)
    → parent.timestamp ≤ block.timestamp
    → block.timestamp + interval < u64_mod
    → All
        (λ (m : MissedSlot). IsScheduledSlot s vs interval parent block m.signer)
        (missed_online s (create_proposers vs) interval parent block)
unfolding missed_online
missed_online-scheduled s vs interval parent block order fits =
    let exact : u64 (parent.timestamp + interval) ≡ parent.timestamp + interval + 0 * interval =
      omega arith in
    let times : All (IsSlotTime interval (parent.timestamp + interval) block.timestamp)
        (slot_times block.timestamp interval (u64 (parent.timestamp + interval)) block.timestamp) =
      rw exact (
        slot_times_sound block.timestamp interval (parent.timestamp + interval) 0 block.timestamp
          fits) in
    All-flatten _ _
      (All-map _ _ _ (All-mono _ _ (scheduled_at_lem s vs interval parent block) _ times))

-- Where the scheduler can be made, the parent is not later than the block and nothing wraps: every
-- missed slot of the first list belongs to a validator that the contract counts as active, and to
-- a time a positive whole number of intervals behind the parent and before the block at which the
-- scheduler expects that validator. Every one of the second list, the offline validators, belongs
-- to an active validator other than the signer that has no offline block.
pub missed_slots-signers :
    (sched : NewScheduler) (interval : ℕ) (parent block : Block) (vs : List Validation)
    (seed : List ℕ) (online offline : List MissedSlot)
    → parent.timestamp ≤ block.timestamp
    → block.timestamp + interval < u64_mod
    → missed_slots sched interval parent block vs seed ≡ ok (online, offline)
    → ((s : ℕ → ℕ → Bool) × (sched block.signer
            (create_proposers vs)
            parent.number
            parent.timestamp
            seed
          ≡ ok s)
        × All (λ (m : MissedSlot). IsScheduledSlot s vs interval parent block m.signer) online)
      × All (λ (m : MissedSlot). IsPassedOver vs block m.signer) offline
unfolding missed_slots
missed_slots-signers sched interval parent block vs seed online offline order fits h =
    let ps = create_proposers vs in
    let (s, made, rest) =
      >>=-eq-ok (sched block.signer ps parent.number parent.timestamp seed) _ h in
    let (ms, passed, both) = >>=-eq-ok (missed_offline sched ps parent block seed vs) _ rest in
    let pair = ok-injective both in
    let first : online ≡ missed_online s ps interval parent block = cc in
    let second : ms ≡ offline = cc in
    (
      (
        s,
        made,
        subst (λ l. All (λ (m : MissedSlot). IsScheduledSlot s vs interval parent block m.signer) l)
            (sym first) (missed_online-scheduled s vs interval parent block order fits),
      ),
      missed_offline-known sched ps parent block seed vs offline (passed ∙ ap ok second),
    )
