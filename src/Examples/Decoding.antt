-- ===== src/Examples/Decoding.antt =====
-- The theorems on the contracts' answers, at two validators and one candidate.
use text.Mathlib.Text.{◌==◌}
use thorflux.Base.{
  ℕ, ◌+◌, ◌-◌, ◌^◌, String, ◌≡◌, refl, true, List, [], ◌∷◌, ◌++◌, map, arith, if◌then◌else◌,
}
use thorflux.Chain.{Result, ok, err, not_found}
use thorflux.Types.{StakerInformation}
use thorflux.Stats.Outcome.{done}
use thorflux.Stats.Pos.Unpack.{Row, Abi, fetch_validations}
use thorflux.Stats.Pos.Unpack.RoundTrip.{arrays, columns}
use thorflux.Stats.Pos.Unpack.Words.{Answers, word, Holds, result_of, fetch_validations-Holds}
use thorflux.Stats.Authority.{Candidate}
use thorflux.Stats.Authority.Decode.{digits_from, list_all_candidates}
use thorflux.Stats.Authority.Decode.Digits.{digits_from-hex}
use thorflux.Stats.Authority.Decode.RoundTrip.{encode_list, Parses, list_all_candidates-encode_list}

abbrev row_at_address : (master status exit_block : ℕ) → Row
row_at_address master status exit_block = record {
  master = master;
  endorsor = master + 50;
  status = status;
  online = true;
  offline_block = 2 ^ 32 - 1;
  staking_period_length = 180;
  start_block = 4;
  exit_block = exit_block;
  completed_periods = 1;
  validator_locked_vet = 25;
  validator_locked_weight = 50;
  delegators_stake = 7;
  validator_queued_stake = 3;
  total_queued_stake = 2;
  exiting_stake = 0;
  next_period_weight = 10;
}

abbrev held : Answers
held = record {
  rows = row_at_address 1 2 360 ∷ row_at_address 2 1 (2 ^ 32 - 1) ∷ [];
  balance = 900;
  total_vet = 64;
  total_weight = 128;
  queued_vet = 5;
  queued_weight = 10;
  supply = 10 ^ 20;
  burned = 10 ^ 19;
  withdrawable = 2 ^ 64 + 1;
  cooldown = 8;
}

-- The results are named by the words that they hold.
abbrev decode : String → Result (List ℕ)
decode s =
    if s == "validators"
    then ok (1 ∷ [])
    else if s == "balance"
    then ok (word 900)
    else if s == "total"
    then ok (word 64 ++ word 128)
    else if s == "queued"
    then ok (word 5 ++ word 10)
    else if s == "supply"
    then ok (word (10 ^ 20))
    else if s == "burned"
    then ok (word (10 ^ 19))
    else if s == "withdrawable"
    then ok (word (2 ^ 64 + 1))
    else if s == "cooldown"
    then ok (word 8)
    else err not_found

abbrev abi : Abi
abi = record { decode = decode; unpack_values = λ bytes. ok (arrays (columns held.rows)) }

fetch_validations-Holds_example :
    (s : StakerInformation) × (fetch_validations abi (
        ok (
          map result_of (
            "creation" ∷ "validators" ∷ "balance" ∷ "total" ∷ "queued" ∷ "supply" ∷ "burned"
            ∷ "withdrawable" ∷ "cooldown" ∷ [])))
      ≡ done s)
    × Holds held s
fetch_validations-Holds_example =
    fetch_validations-Holds abi held "creation" "validators" "balance" "total" "queued" "supply"
      "burned" "withdrawable" "cooldown" (omega arith)
      ((1 ∷ [], refl, refl), refl, refl, refl, refl, refl, refl, refl)

parse_digits : Parses (digits_from 0)
parse_digits a h = digits_from-hex 40 a (omega arith)

abbrev one_candidate : List Candidate
one_candidate =
    record { master = 2 ^ 159 + 7; endorsor = 12; identity = 2 ^ 255 + 1; active = true } ∷ []

list_all_candidates-encode_list_example :
    list_all_candidates (digits_from 0) (ok ([] ∷ encode_list one_candidate (9 ∷ []) ∷ []))
    ≡ done one_candidate
list_all_candidates-encode_list_example =
    list_all_candidates-encode_list (digits_from 0) one_candidate [] (9 ∷ []) [] parse_digits
      (omega arith) (omega arith)
