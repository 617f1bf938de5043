-- ===== src/Command.antt =====
-- cmd/main.go and `New` of cmd/thorflux/thorflux.go: from the flags to a running command. The
-- database, the server of the genesis file, the JSON decoder, the fork configurations of thor and the
-- node are parameters. A text is the list of its characters' codes.
pub mod Started
pub mod Running
use thorflux.Base.{
  ℕ, ◌-◌, ◌^◌, Bool, true, false, not, ◌&&◌, ◌||◌, Option, none, some, List, [], ◌∷◌, ltb, ◌==◌,
  if◌then◌else◌, u32,
}
use thorflux.Chain.{Error, failure, Result, ok, err, wrap, Block, Client}
use thorflux.Stats.Outcome.{Outcome, done, failed, panicked, ◌>>=◌, returned, deref}
use thorflux.Pubsub.Publisher.{Publisher, new_publisher, end_revision}
use thorflux.Database.{QueryResult, latest}

pub record Options : Type 0 where
  pub thor_url : List ℕ
  pub genesis_url : List ℕ
  pub blocks : ℕ
  pub end_block : ℕ

pub record ForkConfig : Type 0 where
  pub hayabusa : ℕ
  pub galactica : ℕ

-- The pointers of a genesis file may be nil.
pub record Config : Type 0 where
  pub hayabusa_tp : Option ℕ

pub record Genesis : Type 0 where
  pub config : Option Config
  pub fork_config : Option ForkConfig

pub record Response : Type 0 where
  pub status_code : ℕ
  pub body : Result (List ℕ)

pub record Outside : Type 0 where
  pub ping : Option Error
  pub get_genesis : List ℕ → Result Response
  pub unmarshal : List ℕ → Result Genesis
  pub get_fork_config : (genesis_id : ℕ) → Option ForkConfig
  pub hayabusa_tp : ℕ
  pub client : Client
  pub stored : Result QueryResult
  pub chain_tag : Result ℕ

abbrev pub decoded : Outside → Result (List ℕ) → Result Genesis
decoded w (err e) = err e
decoded w (ok body) = w.unmarshal body

unfoldable pub body_of : Outside → Response → Result Genesis
body_of w r =
    if r.status_code == 200
    then decoded w r.body
    else err (failure "failed to fetch genesis config")

unfoldable pub genesis_in : Outside → Result Response → Result Genesis
unfolding body_of
genesis_in w (err e) = err (failure "failed to fetch genesis config")
genesis_in w (ok r) = body_of w r

-- `getGenesisFromURL`.
unfoldable pub get_genesis_from_url : Outside → List ℕ → Result Genesis
unfolding genesis_in
get_genesis_from_url w url = genesis_in w (w.get_genesis url)

unfoldable pub has_prefix : (s prefix' : List ℕ) → Bool
has_prefix s [] = true
has_prefix [] (c ∷ cs) = false
has_prefix (d ∷ s) (c ∷ cs) = (d == c) && has_prefix s cs

-- `strings.Contains`.
unfoldable pub contains : (s sub : List ℕ) → Bool
unfolding has_prefix
contains [] sub = has_prefix [] sub
contains (c ∷ s) sub = has_prefix (c ∷ s) sub || contains s sub

abbrev pub same_text : List ℕ → List ℕ → Bool
same_text [] [] = true
same_text [] (d ∷ ds) = false
same_text (c ∷ cs) [] = false
same_text (c ∷ cs) (d ∷ ds) = (c == d) && same_text cs ds

abbrev pub testnet : List ℕ
testnet = b't' ∷ b'e' ∷ b's' ∷ b't' ∷ b'n' ∷ b'e' ∷ b't' ∷ []

abbrev pub mainnet : List ℕ
mainnet = b'm' ∷ b'a' ∷ b'i' ∷ b'n' ∷ b'n' ∷ b'e' ∷ b't' ∷ []

-- The address of the development network that is treated as the main network.
abbrev pub hayabusa_url : List ℕ
hayabusa_url =
    b'h' ∷ b't' ∷ b't' ∷ b'p' ∷ b's' ∷ b':' ∷ b'/' ∷ b'/' ∷ b'h' ∷ b'a' ∷ b'y' ∷ b'a' ∷ b'b' ∷ b'u'
    ∷ b's' ∷ b'a' ∷ b'.' ∷ b'l' ∷ b'i' ∷ b'v' ∷ b'e' ∷ b'.' ∷ b'd' ∷ b'e' ∷ b'v' ∷ b'.' ∷ b'n'
    ∷ b'o' ∷ b'd' ∷ b'e' ∷ b'.' ∷ b'v' ∷ b'e' ∷ b'c' ∷ b'h' ∷ b'a' ∷ b'i' ∷ b'n' ∷ b'.' ∷ b'o'
    ∷ b'r' ∷ b'g' ∷ []

abbrev pub testnet_id : ℕ
testnet_id = 1176455790972829965191905223412607679856028701100105089447013101863

abbrev pub mainnet_id : ℕ
mainnet_id = 14018334920824264832118464179726739019961432051877733167310318607178

unfoldable pub network_id : List ℕ → Option ℕ
network_id url =
    if contains url testnet
    then some testnet_id
    else if contains url mainnet || same_text url hayabusa_url
    then some mainnet_id
    else none

abbrev pub genesis_with : Outside → Option ForkConfig → Result Genesis
genesis_with w none = err (failure "failed to get fork config")
genesis_with w (some fc) =
    ok (record {
      config = some (record { hayabusa_tp = some w.hayabusa_tp });
      fork_config = some fc;
    })

abbrev pub genesis_of_network : Outside → Option ℕ → Result Genesis
genesis_of_network w none =
    err (failure "network is not mainnet/testnet, please provide a genesis URL")
genesis_of_network w (some id) = genesis_with w (w.get_fork_config id)

-- `getGenesisFromNetwork`; of the configuration, what the program uses.
unfoldable pub get_genesis_from_network : Outside → List ℕ → Result Genesis
unfolding network_id
get_genesis_from_network w url = genesis_of_network w (network_id url)

-- `setGenesisConfig`, without the point that it writes for a known network.
unfoldable pub set_genesis_config : Outside → Options → Result Genesis
set_genesis_config w o =
    if same_text o.genesis_url []
    then get_genesis_from_network w o.thor_url
    else get_genesis_from_url w o.genesis_url

-- `NewPublisher`, with what it takes from the genesis. It asks the node for the end block or the
-- finalized one before it reads the genesis.
unfoldable pub start_publisher : Outside → Genesis → (blocks end_block : ℕ) → Outcome Publisher
start_publisher w g blocks end_block = do
  first ←
      returned (
        wrap "failed to get end/finalized block" (w.client.expanded_block (end_revision end_block)))
  fork_config ← deref g.fork_config
  config ← deref g.config
  tp ← deref config.hayabusa_tp
  returned (new_publisher w.client fork_config.hayabusa tp blocks end_block (latest w.stored))

-- `Cmd`, of which the publisher matters here.
pub record Cmd : Type 0 where
  pub publisher : Publisher
  pub chain_tag : ℕ

abbrev pub max_uint32 : ℕ
max_uint32 = 2 ^ 32 - 1

-- `NewSubscriber` asks for the chain tag.
unfoldable pub with_subscriber : Result ℕ → Publisher → Outcome (Option Cmd)
with_subscriber (err e) publisher = failed e
with_subscriber (ok tag) publisher = done (some (record { publisher = publisher; chain_tag = tag }))

-- `New` once the database has answered and the genesis is known; nil is `none`. Too many blocks give
-- nil with the error of before, which is nil too.
unfoldable pub with_genesis : Outside → Options → Genesis → Outcome (Option Cmd)
unfolding start_publisher with_subscriber
with_genesis w o g = if ltb max_uint32 o.blocks then done none else do
  publisher ← start_publisher w g (u32 o.blocks) (u32 o.end_block)
  with_subscriber w.chain_tag publisher

unfoldable pub after_ping : Outside → Options → Option Error → Outcome (Option Cmd)
unfolding with_genesis
after_ping w o (some e) = failed e
after_ping w o none = do g ← returned (set_genesis_config w o); with_genesis w o g

-- `New`.
unfoldable pub new_cmd : Outside → Options → Outcome (Option Cmd)
unfolding after_ping
new_cmd w o = after_ping w o w.ping

-- What `envflag.Parse` leaves.
pub record Flags : Type 0 where
  pub error : Option Error
  pub influx_token : List ℕ
  pub options : Options

-- The program ends with exit code 1, crashes, or runs a command.
pub data Exit : Type 0 where
  exit_1 crash : Exit
  runs : Cmd → Exit

-- `cmd.Run()`, on nil as well.
abbrev pub run_cmd : Outcome (Option Cmd) → Exit
run_cmd (failed e) = exit_1
run_cmd panicked = crash
run_cmd (done none) = crash
run_cmd (done (some c)) = runs c

unfoldable pub with_flags : Outside → Flags → Option Error → Exit
unfolding new_cmd
with_flags w f (some e) = exit_1
with_flags w f none = if same_text f.influx_token [] then exit_1 else run_cmd (new_cmd w f.options)

-- `main`.
unfoldable pub main : Outside → Flags → Exit
unfolding with_flags
main w f = with_flags w f f.error
