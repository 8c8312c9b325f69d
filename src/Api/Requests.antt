-- ===== src/Api/Requests.antt =====
-- POST /deposit of api/src/routes/deposit.ts and POST /redeem of api/src/routes/redeem.ts, with
-- buildBurnInstruction of api/src/utils/dcc-helpers.ts. A request's fields are taken to have the schema's types.
-- What the Solana library computes and what a number's arithmetic gives are arguments; so are the node's
-- answers, `none` where a call throws. The constants of an answer are left out.
use sol_gateway_dcc.Base.{
  ℕ, ◌<◌, ◌≤◌, ◌*◌, ◌^◌, ◌≡◌, Bool, true, false, not, ◌&&◌, ◌||◌, Option, none, some, List, [], ◌∷◌,
  JsString, codes, str_eq, ◌==◌, leb, if◌then◌else◌, length,
}
use sol_gateway_dcc.Js.Bytes.{Bytes, utf8, hex_encode, copy_into}
use sol_gateway_dcc.Api.Addresses.{is_valid_dcc_address}

-- JavaScript's numbers as amounts: `amount > 0`, `amount <= max`, and Math.floor(amount * factor) of a positive
-- amount. IEEE 754 rounds a product monotonically, and an integer below 2^53 to itself.
pub record Amounts : Type 1 where
  pub Amount : Type 0
  pub is_positive : Amount → Bool
  pub at_most : Amount → ℕ → Bool
  pub floor_times : Amount → ℕ → ℕ
  pub floor_bound :
      (a : Amount) (max factor : ℕ)
      → max * factor < 2 ^ 53
      → at_most a max ≡ true
      → floor_times a factor ≤ max * factor

-- @solana/web3.js and spl-token: `new PublicKey`, which throws on other texts; findProgramAddressSync;
-- toString; and getAssociatedTokenAddressSync.
pub record Web3 : Type 0 where
  pub public_key : JsString → Option Bytes
  pub find_address : List Bytes → Bytes → Bytes
  pub show : Bytes → JsString
  pub associated : Bytes → Bytes → Bytes

-- The environment: SOLANA_PROGRAM_ID, DCC_BRIDGE_CONTRACT, the asset's id and the chain's id, empty where absent.
pub record Settings : Type 0 where
  pub program_id : JsString
  pub bridge_contract : JsString
  pub wsol_asset_id : JsString
  pub chain_id_char : JsString

-- 400 with its reason, 503 with its reason, what `next(err)` handles, or the answer.
pub data Answer (A : Type 0) : Type 0 where
  invalid_request invalid_solana invalid_dcc invalid_recipient : Answer A
  bridge_paused not_configured thrown : Answer A
  ok : A → Answer A

-- `z.string().min(low).max(high)`
abbrev pub has_length : ℕ → ℕ → JsString → Bool
has_length low high s = leb low (length s) && leb (length s) high

-- The bridge is known to be paused: getBridgeStats answers, and says so.
unfoldable pub is_paused : JsString → Option Bool → Bool
is_paused contract none = false
is_paused contract (some paused) = not (contract == []) && paused

-- `Buffer.alloc(32)` with the text's first bytes, in hexadecimal.
unfoldable pub encode_recipient : JsString → JsString
encode_recipient recipient = hex_encode (copy_into 32 (utf8 recipient))

pub record DepositRequest (A : Type 0) : Type 0 where
  pub sender : JsString
  pub recipient_dcc : JsString
  pub amount : A

pub record DepositInstruction : Type 0 where
  pub program_id : JsString
  pub bridge_config : JsString
  pub user_state : JsString
  pub vault : JsString
  pub sender : JsString
  pub recipient_dcc : JsString
  pub amount : ℕ
  pub current_slot : ℕ

unfoldable pub is_deposit_request : (n : Amounts) → DepositRequest n.Amount → Bool
is_deposit_request n r =
    has_length 32 44 r.sender
    && (has_length 20 64 r.recipient_dcc && (n.is_positive r.amount && n.at_most r.amount 1000))

-- The program's address, the user's account and the slot, where none of them throws.
unfoldable pub build_deposit :
    (n : Amounts)
    → Web3
    → DepositRequest n.Amount
    → Bytes
    → Option Bytes
    → Option ℕ
    → Answer DepositInstruction
unfolding encode_recipient
build_deposit n web3 r sender none slot = thrown
build_deposit n web3 r sender (some program) none = thrown
build_deposit n web3 r sender (some program) (some slot) = ok (record {
  program_id = web3.show program;
  bridge_config = web3.show (web3.find_address (codes "bridge_config" ∷ []) program);
  user_state = web3.show (web3.find_address (codes "user_state" ∷ sender ∷ []) program);
  vault = web3.show (web3.find_address (codes "vault" ∷ []) program);
  sender = r.sender;
  recipient_dcc = encode_recipient r.recipient_dcc;
  amount = n.floor_times r.amount (10 ^ 9);
  current_slot = slot;
})

unfoldable pub deposit_from :
    (n : Amounts)
    → Web3
    → Settings
    → Option Bool
    → Option ℕ
    → DepositRequest n.Amount
    → Option Bytes
    → Answer DepositInstruction
unfolding build_deposit is_paused
deposit_from n web3 env paused slot r none = invalid_solana
deposit_from n web3 env paused slot r (some sender) =
    if not (is_valid_dcc_address r.recipient_dcc)
    then invalid_dcc
    else if is_paused env.bridge_contract paused
    then bridge_paused
    else build_deposit n web3 r sender (web3.public_key env.program_id) slot

unfoldable pub deposit :
    (n : Amounts)
    → Web3
    → Settings
    → Option Bool
    → Option ℕ
    → DepositRequest n.Amount
    → Answer DepositInstruction
unfolding deposit_from is_deposit_request
deposit n web3 env paused slot r =
    if not (is_deposit_request n r)
    then invalid_request
    else deposit_from n web3 env paused slot r (web3.public_key r.sender)

pub record RedeemRequest (A : Type 0) : Type 0 where
  pub sender : JsString
  pub sol_recipient : JsString
  pub amount : A

-- buildBurnInstruction's result: an invocation of `burn` with one payment.
pub record BurnInstruction : Type 0 where
  pub d_app : JsString
  pub function : JsString
  pub sol_recipient : JsString
  pub asset_id : JsString
  pub amount : ℕ
  pub fee : ℕ
  pub chain_id : JsString

unfoldable pub build_burn_instruction :
    JsString → JsString → JsString → ℕ → JsString → BurnInstruction
build_burn_instruction d_app sol_recipient asset_id amount chain_id = record {
  d_app = d_app;
  function = codes "burn";
  sol_recipient = sol_recipient;
  asset_id = asset_id;
  amount = amount;
  fee = 500000;
  chain_id = chain_id;
}

unfoldable pub is_redeem_request : (n : Amounts) → RedeemRequest n.Amount → Bool
is_redeem_request n r =
    has_length 20 64 r.sender
    && (has_length 32 44 r.sol_recipient && (n.is_positive r.amount && n.at_most r.amount 1000))

unfoldable pub redeem_to :
    (n : Amounts) → Settings → RedeemRequest n.Amount → Option Bytes → Answer BurnInstruction
unfolding build_burn_instruction
redeem_to n env r none = invalid_recipient
redeem_to n env r (some recipient) =
    if (env.bridge_contract == []) || (env.wsol_asset_id == [])
    then not_configured
    else ok (
        build_burn_instruction env.bridge_contract r.sol_recipient env.wsol_asset_id
          (n.floor_times r.amount (10 ^ 9)) env.chain_id_char)

unfoldable pub redeem :
    (n : Amounts) → Web3 → Settings → RedeemRequest n.Amount → Answer BurnInstruction
unfolding redeem_to is_redeem_request
redeem n web3 env r =
    if not (is_redeem_request n r)
    then invalid_request
    else if not (is_valid_dcc_address r.sender)
    then invalid_dcc
    else redeem_to n env r (web3.public_key r.sol_recipient)
