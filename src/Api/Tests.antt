-- ===== src/Api/Tests.antt =====
-- The API's checks at concrete requests, accounts and events.
use sol_gateway_dcc.Base.{
  ℕ, ◌<◌, ◌*◌, ◌^◌, ◌≤◌, ◌≡◌, ◌↔◌, refl, Bool, true, false, some, none, [], ◌∷◌, arith, JsString,
  codes, str_eq, leb, replicate,
}
use native.Mathlib.Nat.{mul-le-mul_right}
use sol_gateway_dcc.Base.Int.{pos}
use sol_gateway_dcc.Js.Bytes.{Bytes, hex_encode, of_le, utf8, copy_into, to_number}
use sol_gateway_dcc.Js.Map.{includes}
use sol_gateway_dcc.Js.Text.{starts_with}
use sol_gateway_dcc.Events.{SolanaDepositEvent}
use sol_gateway_dcc.Consensus.Message.{mint}
use sol_gateway_dcc.Consensus.Engine.{ConsensusResult}
use sol_gateway_dcc.Submission.Mint.{MintCall, submit_mint_to_dcc}
use sol_gateway_dcc.SolanaWatcher.Decode.{decode_bridge_deposit}
use sol_gateway_dcc.ConfigAccount.{BridgeConfig, HasConfigWidths, serialize_config, config_counts}
use sol_gateway_dcc.Api.Addresses.{
  is_base58, is_valid_dcc_address, sol_to_dcc, validate_destination,
  validate_destination-is_valid_dcc_address,
}
use sol_gateway_dcc.Api.Limits.{account, deposit_limits, deposit_limits-serialize_config}
use sol_gateway_dcc.Api.Requests.{
  Amounts, Web3, Settings, ok, DepositRequest, DepositInstruction, deposit,
}
use sol_gateway_dcc.Api.Accepted.{IsAccepted, deposit-IsAccepted}
use sol_gateway_dcc.Api.Minted.{decoded-unmintable}

abbrev alice : JsString
alice = codes "3DPgzRmXjwVh1bFtTJ8s4dYQ6uGqKxWcZ9N"

validate_destination-is_valid_dcc_address_example :
    (validate_destination sol_to_dcc alice ≡ none) ↔ (is_valid_dcc_address alice ≡ true)
validate_destination-is_valid_dcc_address_example = validate_destination-is_valid_dcc_address alice

-- Whole amounts of SOL.
whole_floor_bound :
    (a max factor : ℕ) → max * factor < 2 ^ 53 → leb a max ≡ true → a * factor ≤ max * factor
whole_floor_bound a max factor small h =
    let bound : a ≤ max = ground (arith, h) in mul-le-mul_right factor bound

abbrev whole : Amounts
whole = record {
  Amount = ℕ;
  is_positive = leb 1;
  at_most = leb;
  floor_times = λ a factor. a * factor;
  floor_bound = whole_floor_bound;
}

abbrev web3 : Web3
web3 = record {
  public_key = λ s. some s;
  find_address = λ seeds program. program;
  show = λ b. b;
  associated = λ mint owner. owner;
}

abbrev env : Settings
env = record {
  program_id = codes "9yJDb6Vy";
  bridge_contract = codes "3Dcw";
  wsol_asset_id = codes "asset";
  chain_id_char = codes "?";
}

abbrev request : DepositRequest ℕ
request = record { sender = replicate 40 65; recipient_dcc = alice; amount = 2 }

abbrev instruction : DepositInstruction
unfolding hex_encode copy_into utf8
instruction = record {
  program_id = codes "9yJDb6Vy";
  bridge_config = codes "9yJDb6Vy";
  user_state = codes "9yJDb6Vy";
  vault = codes "9yJDb6Vy";
  sender = replicate 40 65;
  recipient_dcc = hex_encode (copy_into 32 (utf8 alice));
  amount = 2000000000;
  current_slot = 77;
}

request_accepted : deposit whole web3 env (some false) (some 77) request ≡ ok instruction
unfolding deposit is_base58 is_valid_dcc_address includes starts_with hex_encode copy_into utf8
request_accepted = refl

deposit-IsAccepted_example : IsAccepted whole env (some false) request instruction
deposit-IsAccepted_example =
    deposit-IsAccepted whole web3 env (some false) (some 77) request instruction request_accepted

abbrev config : Bool → ℕ → BridgeConfig
config paused min_deposit = record {
  authority = replicate 32 1;
  guardian = replicate 32 2;
  paused = paused;
  global_nonce = 5;
  total_locked = 900;
  total_unlocked = 100;
  validator_count = 3;
  min_validators = 2;
  max_validators = 9;
  min_deposit = min_deposit;
  max_deposit = 100000000000;
  max_daily_outflow = 0;
  current_daily_outflow = 0;
  last_daily_reset = 0;
  max_unlock_amount = 0;
  required_confirmations = 32;
  large_withdrawal_delay = 0;
  large_withdrawal_threshold = 0;
  dcc_chain_id = 2;
  solana_chain_id = 1;
  rest = [];
}

abbrev eight : Bytes
eight = replicate 8 0

config_widths : (paused : Bool) (min : ℕ) → HasConfigWidths eight (config paused min)
config_widths paused min = record {
  discriminator_width = refl;
  authority_width = refl;
  guardian_width = refl;
}

deposit_limits-serialize_config_example :
    deposit_limits (λ n. n ∷ []) (account (serialize_config eight (config false 1000000)))
    ≡ deposit_limits (λ n. n ∷ []) (account (serialize_config eight (config true 7)))
unfolding config_counts
deposit_limits-serialize_config_example =
    deposit_limits-serialize_config (λ n. n ∷ []) eight (config false 1000000) (config true 7)
      (config_widths false 1000000) (config_widths true 7) refl

-- An event whose bytes are all 1.
abbrev ones : Bytes
ones = replicate 132 1

abbrev event : SolanaDepositEvent
unfolding hex_encode to_number
event = record {
  transfer_id = hex_encode (replicate 32 1);
  sender = codes "S";
  recipient_dcc = hex_encode (replicate 32 1);
  amount = 72340172838076673;
  nonce = 72340172838076673;
  slot = to_number 72340172838076673;
  timestamp = pos (to_number 72340172838076673);
  chain_id = 16843009;
  signature = codes "t";
  confirmations = pos 0;
}

abbrev result : ConsensusResult
result = record {
  transfer_id = event.transfer_id;
  kind = mint;
  attestations = [];
  achieved = true;
  required_signatures = 2;
  received_signatures = 2;
  event = none;
}

abbrev minted : MintCall
unfolding hex_encode to_number
minted = record {
  transfer_id = event.transfer_id;
  recipient = event.recipient_dcc;
  amount = to_number 72340172838076673;
  sol_slot = event.slot;
  signatures = [];
  pubkeys = [];
}

decoded-unmintable_example : is_valid_dcc_address minted.recipient ≡ false
unfolding decode_bridge_deposit submit_mint_to_dcc hex_encode to_number of_le
decoded-unmintable_example =
    decoded-unmintable (λ b. codes "S") ones (codes "t") event result minted refl refl
