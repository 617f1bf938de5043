-- ===== src/Command/Started.antt =====
-- When the program crashes at its start, and what the command that it runs is.
use thorflux.Base.{
  ℕ, ◌<◌, ◌≡◌, refl, subst, ◌≢◌, ◌↔◌, ◌⊎◌, inl, inr, false, Option, none, some, List, [], ◌∷◌, ltb,
  ltb→lt, lt→ltb, Bool-cases, Option-cases, u32,
}
use thorflux.Chain.{Error, Result, ok, err, wrap-eq-ok, Block}
use thorflux.Stats.Outcome.{
  Outcome, done, failed, panicked, ◌>>=◌, returned, deref, >>=-panicked, returned-panicked,
  returned-done, deref-panicked, deref-done,
}
use thorflux.Pubsub.Publisher.{Publisher, new_publisher, end_revision}
use thorflux.Database.{latest}
use thorflux.Command.{
  Options, Config, Genesis, Outside, same_text, set_genesis_config, start_publisher, max_uint32,
  with_subscriber, with_genesis, after_ping, new_cmd, Flags, crash, run_cmd, with_flags, main,
}

-- The genesis lacks one of the values that `NewPublisher` reads.
abbrev pub Lacks : Genesis → Type 0
Lacks g =
    (g.fork_config ≡ none)
    ⊎ ((g.config ≡ none) ⊎ ((c : Config) × (g.config ≡ some c) × (c.hayabusa_tp ≡ none)))

by_config :
    (config : Option Config) {f : Config → Outcome Publisher}
    → ((c : Config) → f c ≡ panicked → c.hayabusa_tp ≡ none)
    → (deref config >>= f) ≡ panicked
    → (config ≡ none) ⊎ ((c : Config) × (config ≡ some c) × (c.hayabusa_tp ≡ none))
by_config config {f} inner h = elim (>>=-panicked (deref config) f h) [
  | inl nil ↦ inl (deref-panicked config nil)
  | inr (c, e, h3) ↦ inr (c, deref-done config e, inner c h3)
]

start_publisher-panicked :
    (w : Outside) (g : Genesis) (blocks end_block : ℕ)
    → start_publisher w g blocks end_block ≡ panicked
    → Lacks g × ((b : Block) × (w.client.expanded_block (end_revision end_block) ≡ ok b))
unfolding start_publisher
start_publisher-panicked w g blocks end_block h = elim (>>=-panicked _ _ h) [
  | inl out ↦ absurd (returned-panicked _ out)
  | inr (b, e, h1) ↦ (
    (elim (>>=-panicked (deref g.fork_config) _ h1) [
      | inl nil ↦ inl (deref-panicked g.fork_config nil)
      | inr (fc, e', h2) ↦ inr (
          by_config g.config
            (λ c h3.
              elim (>>=-panicked (deref c.hayabusa_tp)
                (λ tp.
                  returned
                    (new_publisher w.client fc.hayabusa tp blocks end_block (latest w.stored)))
                h3) [
                  | inl nil ↦ deref-panicked c.hayabusa_tp nil
                  | inr (tp, e', h4) ↦ absurd (returned-panicked _ h4)
                ])
            h2)
    ]),
    (b, wrap-eq-ok _ _ (returned-done _ e)),
  )
]

start_publisher-Lacks :
    (w : Outside) (g : Genesis) (blocks end_block : ℕ) (b : Block)
    → Lacks g
    → w.client.expanded_block (end_revision end_block) ≡ ok b
    → start_publisher w g blocks end_block ≡ panicked
unfolding start_publisher ◌>>=◌
start_publisher-Lacks w g blocks end_block b (inl nil) found = simp (found, nil) refl
start_publisher-Lacks w g blocks end_block b (inr l) found = elim (Option-cases g.fork_config) [
  | inl nil ↦ simp (found, nil) refl
  | inr (fc, e) ↦ elim l [
    | inl nil ↦ simp (found, e, nil) refl
    | inr (c, e', nil) ↦ simp (found, e, e', nil) refl
  ]
]

-- What makes `New` give nil without an error, or crash.
abbrev pub Spoils : Outside → Options → Genesis → Type 0
Spoils w o g =
    (max_uint32 < o.blocks)
    ⊎ (Lacks g × ((b : Block) × (w.client.expanded_block (end_revision (u32 o.end_block)) ≡ ok b)))

panicked_before :
    (m : Outcome Publisher) (tag : Result ℕ)
    → run_cmd (m >>= with_subscriber tag) ≡ crash
    → m ≡ panicked
unfolding with_subscriber ◌>>=◌
panicked_before (done p) (ok t) h = cc
panicked_before (done p) (err e) h = cc
panicked_before (failed e) tag h = cc
panicked_before panicked tag h = refl

with_genesis-crash :
    (w : Outside) (o : Options) (g : Genesis)
    → (run_cmd (with_genesis w o g) ≡ crash) ↔ Spoils w o g
unfolding with_genesis ◌>>=◌
with_genesis-crash w o g = elim (Bool-cases (ltb max_uint32 o.blocks)) [
  | inl e ↦ rw e ((λ h. inl (ltb→lt _ _ e)), (λ s. refl))
  | inr e ↦ rw e (
    (λ h. inr (start_publisher-panicked w g _ _ (panicked_before _ _ h))),
    (λ s. elim s [
      | inl over ↦ absurd (let t = lt→ltb _ _ over in cc)
      | inr (lacks, (b, found)) ↦
          rw (start_publisher-Lacks w g (u32 o.blocks) (u32 o.end_block) b lacks found) refl
    ]),
  )
]

genesis-crash :
    (w : Outside) (o : Options) (r : Result Genesis)
    → (run_cmd (returned r >>= with_genesis w o) ≡ crash)
      ↔ ((g : Genesis) × (r ≡ ok g) × Spoils w o g)
unfolding ◌>>=◌
genesis-crash w o (err x) = ((λ h. cc), (λ h. let n = h.1 in cc))
genesis-crash w o (ok g) = (
  (λ h. (g, refl, (with_genesis-crash w o g).0 h)),
  (λ h. let (g', e, s) = h in (with_genesis-crash w o g).1 (subst (Spoils w o) (cc) s)),
)

after_ping-crash :
    (w : Outside) (o : Options) (ping : Option Error)
    → (run_cmd (after_ping w o ping) ≡ crash)
      ↔ ((ping ≡ none) × ((g : Genesis) × (set_genesis_config w o ≡ ok g) × Spoils w o g))
unfolding after_ping
after_ping-crash w o (some e) = ((λ h. cc), (λ h. let n = h.0 in cc))
after_ping-crash w o none =
    let (to, back) = genesis-crash w o (set_genesis_config w o) in
    ((λ h. (refl, to h)), (λ h. back h.1))

same_text-empty : (s : List ℕ) → (same_text s [] ≡ false) ↔ (s ≢ [])
same_text-empty [] = ((λ e. cc), (λ h. absurd (h refl)))
same_text-empty (c ∷ s) = ((λ e n. cc), (λ h. refl))

-- The database answers and there is a genesis, with which `New` comes to nothing.
abbrev pub IsSpoiled : Outside → Options → Type 0
IsSpoiled w o = (w.ping ≡ none) × ((g : Genesis) × (set_genesis_config w o ≡ ok g) × Spoils w o g)

with_flags-crash :
    (w : Outside) (f : Flags) (error : Option Error)
    → (with_flags w f error ≡ crash)
      ↔ ((error ≡ none) × (f.influx_token ≢ []) × IsSpoiled w f.options)
unfolding with_flags new_cmd
with_flags-crash w f (some x) = ((λ h. cc), (λ h. let n = h.0 in cc))
with_flags-crash w f none =
    let (to, back) = after_ping-crash w f.options w.ping in
    let (given, given_back) = same_text-empty f.influx_token in
    elim (Bool-cases (same_text f.influx_token [])) [
      | inl e ↦ rw e ((λ h. cc), (λ h. let n = given_back h.1 in cc))
      | inr e ↦ rw e ((λ h. (refl, given e, to h)), (λ h. back h.2))
    ]

-- The program crashes at its start exactly if its flags are in order and the database answers, there is
-- a genesis, and either more blocks are asked for than a uint32 holds, or the genesis lacks a value
-- that is needed and the node answers with the block to start from.
pub main-crash :
    (w : Outside) (f : Flags)
    → (main w f ≡ crash) ↔ ((f.error ≡ none) × (f.influx_token ≢ []) × IsSpoiled w f.options)
unfolding main
main-crash w f = with_flags-crash w f f.error
