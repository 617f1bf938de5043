-- ===== src/Command/Running.antt =====
-- What the publisher of a running command is.
use thorflux.Base.{
  ℕ, ◌≤◌, ◌≡◌, ap, subst, ◌≢◌, ◌↔◌, inl, inr, Option, none, some, [], arith, ltb, ◌==◌,
  if◌then◌else◌, Bool-cases, u32,
}
use thorflux.Chain.{>>=-eq-ok, ok-injective, Error, Result, ok, err, Client, Block}
use thorflux.Stats.Outcome.{
  Outcome, done, failed, panicked, returned, deref, >>=-eq-done, returned-done,
}
use thorflux.Pubsub.Publisher.{Publisher, new_publisher, starting_blocks}
use thorflux.Database.{latest}
use thorflux.Command.{
  Options, Genesis, Outside, same_text, set_genesis_config, start_publisher, Cmd, max_uint32,
  with_subscriber, with_genesis, after_ping, new_cmd, Flags, runs, run_cmd, with_flags, main,
}

-- The publisher is that of `NewPublisher` with these numbers.
abbrev pub IsStarted : Outside → (blocks end_block : ℕ) → Publisher → Type 0
IsStarted w blocks end_block p =
    (fork : ℕ) × (tp : ℕ) × (new_publisher w.client fork tp blocks end_block (latest w.stored)
      ≡ ok p)

start_publisher-IsStarted :
    (w : Outside) (g : Genesis) (blocks end_block : ℕ) {p : Publisher}
    → start_publisher w g blocks end_block ≡ done p
    → IsStarted w blocks end_block p
unfolding start_publisher
start_publisher-IsStarted w g blocks end_block h =
    let (b, e, h1) = >>=-eq-done _ _ h in
    let (fc, e1, h2) = >>=-eq-done (deref g.fork_config) _ h1 in
    let (c, e2, h3) = >>=-eq-done (deref g.config) _ h2 in
    let (tp, e3, h4) = >>=-eq-done (deref c.hayabusa_tp) _ h3 in
    (fc.hayabusa, tp, returned-done _ h4)

with_subscriber-publisher :
    (tag : Result ℕ) (p : Publisher) {c : Cmd}
    → with_subscriber tag p ≡ done (some c)
    → p ≡ c.publisher
unfolding with_subscriber
with_subscriber-publisher (err e) p h = cc
with_subscriber-publisher (ok t) p h = cc

runs-done : (m : Outcome (Option Cmd)) {c : Cmd} → run_cmd m ≡ runs c → m ≡ done (some c)
runs-done (done none) h = cc
runs-done (done (some d)) h = cc
runs-done (failed e) h = cc
runs-done panicked h = cc

with_genesis-IsStarted :
    (w : Outside) (o : Options) (g : Genesis) {c : Cmd}
    → with_genesis w o g ≡ done (some c)
    → (o.blocks ≤ max_uint32) × IsStarted w o.blocks (u32 o.end_block) c.publisher
unfolding with_genesis
with_genesis-IsStarted w o g h = elim (Bool-cases (ltb max_uint32 o.blocks)) [
  | inl e ↦ absurd (let k = rw e at h in cc)
  | inr e ↦
      let fits : o.blocks ≤ max_uint32 = ground arith in
      let (p, e1, h1) =
        >>=-eq-done (start_publisher w g (u32 o.blocks) (u32 o.end_block)) _ (rw e at h) in
      let same : u32 o.blocks ≡ o.blocks = omega arith in
      let started = start_publisher-IsStarted w g (u32 o.blocks) (u32 o.end_block) e1 in
      (
        fits,
        subst (IsStarted w o.blocks (u32 o.end_block)) (with_subscriber-publisher w.chain_tag p h1)
            (subst (λ n. IsStarted w n (u32 o.end_block) p) same started),
      )
]

with_flags-done :
    (w : Outside) (f : Flags) (error : Option Error) {c : Cmd}
    → with_flags w f error ≡ runs c
    → after_ping w f.options w.ping ≡ done (some c)
unfolding with_flags new_cmd
with_flags-done w f (some e) h = cc
with_flags-done w f none h = elim (Bool-cases (same_text f.influx_token [])) [
  | inl e ↦ absurd (let k = rw e at h in cc)
  | inr e ↦ runs-done _ (rw e at h)
]

after_ping-IsStarted :
    (w : Outside) (o : Options) (ping : Option Error) {c : Cmd}
    → after_ping w o ping ≡ done (some c)
    → (o.blocks ≤ max_uint32) × IsStarted w o.blocks (u32 o.end_block) c.publisher
unfolding after_ping
after_ping-IsStarted w o (some e) h = cc
after_ping-IsStarted w o none h =
    let (g, e, h1) = >>=-eq-done (returned (set_genesis_config w o)) _ h in
    with_genesis-IsStarted w o g h1

forward-if :
    (n : ℕ) (b : Block) (forward : Option Block)
    → (if n == 0 then some b else none) ≡ forward
    → (forward ≡ none) ↔ (n ≢ 0)
forward-if n b forward h = elim (Bool-cases (n == 0)) [
  | inl z ↦ let k = rw z at h in ((λ e. cc), (λ e. absurd (e (ground arith))))
  | inr z ↦ let k = rw z at h in ((λ e e0. ground arith), (λ e. cc))
]

new_publisher-forward :
    (c : Client) (fork tp blocks end_block : ℕ) (stored : Result ℕ) {p : Publisher}
    → new_publisher c fork tp blocks end_block stored ≡ ok p
    → (p.forward ≡ none) ↔ (end_block ≢ 0)
unfolding new_publisher
new_publisher-forward c fork tp blocks end_block stored {p} h =
    let (pair, e, rest) = >>=-eq-ok (starting_blocks c end_block) _ h in
    forward-if end_block pair.1 p.forward (ap (λ (q : Publisher). q.forward) (ok-injective rest))

-- A command that runs asks for as many blocks as its options say, which a uint32 holds. Its publisher is
-- that of `NewPublisher` with these blocks and with the end block modulo 2^32, and it follows the chain
-- forward exactly if that is zero.
pub main-runs :
    (w : Outside) (f : Flags) {c : Cmd}
    → main w f ≡ runs c
    → (f.options.blocks ≤ max_uint32)
      × IsStarted w f.options.blocks (u32 f.options.end_block) c.publisher
      × ((c.publisher.forward ≡ none) ↔ (u32 f.options.end_block ≢ 0))
unfolding main
main-runs w f h =
    let (fits, (fork, tp, e)) =
      after_ping-IsStarted w f.options w.ping (with_flags-done w f f.error h) in
    (
      fits,
      (fork, tp, e),
      new_publisher-forward w.client fork tp f.options.blocks (u32 f.options.end_block)
          (latest w.stored) e,
    )
