-- ===== src/Examples/Starting.antt =====
-- The theorems on the start of the program, on the prices and on the owners' file.
use thorflux.Base.{
  ℕ, ◌+◌, ◌^◌, ◌≤◌, String, ◌≡◌, refl, ◌≢◌, ◌↔◌, true, Option, none, some, List, [], ◌∷◌, arith,
  All, u32,
}
use thorflux.Chain.{failure, Result, ok, err}
use thorflux.Pubsub.Publisher.{new_publisher, starting_blocks, adjust_back_sync, latest_or_zero}
use thorflux.Pubsub.Backward.{new_backward_syncer}
use thorflux.Database.{latest, unless_error, first_number}
use thorflux.Stats.Outcome.{◌>>=◌}
use thorflux.Command.{
  ForkConfig, Genesis, Outside, testnet, contains, has_prefix, network_id, get_genesis_from_network,
  set_genesis_config, start_publisher, Cmd, max_uint32, with_subscriber, with_genesis, after_ping,
  new_cmd, Flags, crash, runs, with_flags, main,
}
use thorflux.Command.Started.{IsSpoiled, main-crash}
use thorflux.Command.Running.{IsStarted, main-runs}
use thorflux.Stats.Prices.{
  new_price_api, minutes, Readings, PricePoint, since, with_prices, with_vtho, with_vet,
  write_prices, write_all,
}
use thorflux.Stats.Prices.Spacing.{ClockRuns, IsSpaced, IsRead, Spares, write_all-IsSpaced}
use thorflux.Stats.Authority.{CandidateList, refresh_owners_list}
use thorflux.Stats.Authority.Points.{find_owner, name_and_contact, owner_and_contact}
use thorflux.Stats.Authority.Registry.{owner_in_row, parse_owners}
use thorflux.Stats.Authority.Registry.Shown.{or_else, last_for, refresh_owners_list-last}
use thorflux.Examples.Syncing.{late_client, late_publisher}

abbrev some_fork : ℕ → Option ForkConfig
some_fork id = some (record { hayabusa = 5; galactica = 3 })

abbrev outside : Outside
outside = record {
  ping = none;
  get_genesis = λ url. err (failure "unreachable");
  unmarshal = λ body. err (failure "no JSON");
  get_fork_config = some_fork;
  hayabusa_tp = 2;
  client = late_client;
  stored = ok (record { error = none; records = [] });
  chain_tag = ok 39;
}

abbrev flags : ℕ → ℕ → Flags
flags blocks end_block = record {
  error = none;
  influx_token = b'x' ∷ [];
  options = record { thor_url = testnet; genesis_url = []; blocks = blocks; end_block = end_block };
}

abbrev testnet_genesis : Genesis
testnet_genesis = record {
  config = some (record { hayabusa_tp = some 2 });
  fork_config = some_fork 0;
}

test-set_genesis_config : set_genesis_config outside (flags 2 0).options ≡ ok testnet_genesis
unfolding set_genesis_config get_genesis_from_network network_id contains has_prefix
test-set_genesis_config = refl

main-crash_example : (main outside (flags (2 ^ 32) 0) ≡ crash) ↔ (
    ((flags (2 ^ 32) 0).error ≡ none)
    × ((flags (2 ^ 32) 0).influx_token ≢ [])
    × IsSpoiled outside (flags (2 ^ 32) 0).options)
main-crash_example = main-crash outside (flags (2 ^ 32) 0)

abbrev late_cmd : Cmd
late_cmd = record { publisher = late_publisher; chain_tag = 39 }

-- An end block of 2^32 is none.
test-main : main outside (flags 2 (2 ^ 32)) ≡ runs late_cmd
unfolding main with_flags new_cmd after_ping with_genesis start_publisher with_subscriber ◌>>=◌
    set_genesis_config get_genesis_from_network network_id contains has_prefix new_publisher
    starting_blocks new_backward_syncer adjust_back_sync latest_or_zero latest unless_error
    first_number
test-main = refl

main-runs_example :
    (2 ≤ max_uint32)
    × IsStarted outside 2 0 late_publisher
    × ((late_publisher.forward ≡ none) ↔ (u32 (2 ^ 32) ≢ 0))
main-runs_example = main-runs outside (flags 2 (2 ^ 32)) test-main

abbrev readings : ℕ → Result ℕ → Readings
readings time vet = record {
  asked = minutes time;
  vet_value = vet;
  vtho_value = ok 4;
  stop_read = minutes time;
  start_read = minutes time;
  updated = minutes time + 1;
}

-- The second call comes too early, and at the third the price is not known.
abbrev four_calls : List Readings
four_calls =
    readings 600_000 (ok 20)
    ∷ readings 600_004 (ok 21)
    ∷ readings 600_006 (err (failure "no answer"))
    ∷ readings 600_008 (ok 23)
    ∷ []

abbrev two_points : List PricePoint
two_points =
    record { vet_price = 20; vtho_price = 4; time = minutes 600_000 + 1 }
    ∷ record { vet_price = 23; vtho_price = 4; time = minutes 600_008 + 1 }
    ∷ []

test-write_all : (write_all new_price_api four_calls).points ≡ two_points
unfolding write_all write_prices since with_vet with_vtho with_prices
test-write_all = refl

readings-ClockRuns : (time : ℕ) (vet : Result ℕ) → ClockRuns (readings time vet)
readings-ClockRuns time vet = record {
  to_stop = omega arith;
  to_start = omega arith;
  to_update = omega arith;
}

write_all-IsSpaced_example :
    let w = write_all new_price_api four_calls in
    IsSpaced 0 w.points × All (IsRead four_calls) w.points × Spares w.deletions w.points
write_all-IsSpaced_example = write_all-IsSpaced new_price_api four_calls (
  readings-ClockRuns 600_000 _,
  (
    readings-ClockRuns 600_004 _,
    (readings-ClockRuns 600_006 _, (readings-ClockRuns 600_008 _, tt)),
  ),
)

abbrev parse_known : String → Result ℕ
parse_known text = ok 7

-- A row that is too short, and two rows for one address.
abbrev owner_rows : List (List String)
owner_rows =
    ("1" ∷ "main" ∷ [])
    ∷ ("2" ∷ "main" ∷ "0x07" ∷ "old" ∷ "old@example.org" ∷ [])
    ∷ ("3" ∷ "main" ∷ "0x07" ∷ "new" ∷ "new@example.org" ∷ [])
    ∷ []

abbrev file_name : String
file_name = "Validators.xlsx"

abbrev no_owners : CandidateList
no_owners = record { candidates = []; update_block = 0; owners = []; owners_repo = "owners" }

refresh_owners_list-last_example :
    owner_and_contact 7 (
      refresh_owners_list true
        (parse_owners parse_known (ok file_name) (λ path. ok path) (λ file. ok ([] ∷ owner_rows)))
        no_owners)
    ≡ name_and_contact (or_else (last_for parse_known 7 owner_rows) (find_owner 7 []))
refresh_owners_list-last_example =
    refresh_owners_list-last parse_known file_name file_name (λ path. ok path)
      (λ file. ok ([] ∷ owner_rows)) [] owner_rows no_owners 7 refl refl

test-last_for : name_and_contact (last_for parse_known 7 owner_rows) ≡ ("new", "new@example.org")
unfolding owner_in_row
test-last_for = refl
