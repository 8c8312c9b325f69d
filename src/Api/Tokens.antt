-- ===== src/Api/Tokens.antt =====
-- POST /deposit/spl of api/src/routes/deposit.ts and GET /redeem/limits of api/src/routes/redeem.ts. The metadata,
-- which repeats the instruction, and the constants are left out.
use sol_gateway_dcc.Base.{
  ◌≡◌, Bool, true, false, not, ◌&&◌, Option, none, some, [], ◌∷◌, arith, JsString, codes,
  if◌then◌else◌, if_cases,
}
use sol_gateway_dcc.Js.Bytes.{Bytes}
use sol_gateway_dcc.Api.Addresses.{is_valid_dcc_address}
use sol_gateway_dcc.Api.Requests.{
  Amounts, Web3, Settings, Answer, invalid_request, invalid_solana, invalid_dcc, bridge_paused,
  thrown, ok, has_length, is_paused, encode_recipient,
}

pub record SplDepositRequest (A : Type 0) : Type 0 where
  pub sender : JsString
  pub recipient_dcc : JsString
  pub amount : A
  pub spl_mint : JsString

-- The amount is the request's, not scaled by the token's decimals.
pub record SplDepositInstruction (A : Type 0) : Type 0 where
  pub program_id : JsString
  pub bridge_config : JsString
  pub user_state : JsString
  pub spl_vault : JsString
  pub sender_ata : JsString
  pub mint : JsString
  pub sender : JsString
  pub recipient_dcc : JsString
  pub amount : A
  pub spl_mint : JsString

unfoldable pub is_spl_deposit_request : (n : Amounts) → SplDepositRequest n.Amount → Bool
is_spl_deposit_request n r =
    has_length 32 44 r.sender
    && (has_length 20 64 r.recipient_dcc && (n.is_positive r.amount && has_length 32 44 r.spl_mint))

unfoldable pub build_spl_deposit :
    (n : Amounts)
    → Web3
    → SplDepositRequest n.Amount
    → Bytes
    → Bytes
    → Option Bytes
    → Answer (SplDepositInstruction n.Amount)
unfolding encode_recipient
build_spl_deposit n web3 r sender mint none = thrown
build_spl_deposit n web3 r sender mint (some program) = ok (record {
  program_id = web3.show program;
  bridge_config = web3.show (web3.find_address (codes "bridge_config" ∷ []) program);
  user_state = web3.show (web3.find_address (codes "user_state" ∷ sender ∷ []) program);
  spl_vault = web3.show (web3.find_address (codes "spl_vault" ∷ mint ∷ []) program);
  sender_ata = web3.show (web3.associated mint sender);
  mint = web3.show mint;
  sender = r.sender;
  recipient_dcc = encode_recipient r.recipient_dcc;
  amount = r.amount;
  spl_mint = r.spl_mint;
})

-- The keys of the sender and of the mint.
unfoldable pub spl_deposit_from :
    (n : Amounts)
    → Web3
    → Settings
    → Option Bool
    → SplDepositRequest n.Amount
    → Option Bytes
    → Option Bytes
    → Answer (SplDepositInstruction n.Amount)
unfolding build_spl_deposit is_paused
spl_deposit_from n web3 env paused r none mint = invalid_solana
spl_deposit_from n web3 env paused r (some sender) none = invalid_solana
spl_deposit_from n web3 env paused r (some sender) (some mint) =
    if not (is_valid_dcc_address r.recipient_dcc)
    then invalid_dcc
    else if is_paused env.bridge_contract paused
    then bridge_paused
    else build_spl_deposit n web3 r sender mint (web3.public_key env.program_id)

unfoldable pub spl_deposit :
    (n : Amounts)
    → Web3
    → Settings
    → Option Bool
    → SplDepositRequest n.Amount
    → Answer (SplDepositInstruction n.Amount)
unfolding spl_deposit_from is_spl_deposit_request
spl_deposit n web3 env paused r =
    if not (is_spl_deposit_request n r)
    then invalid_request
    else spl_deposit_from n web3 env paused r (web3.public_key r.sender)
        (web3.public_key r.spl_mint)

-- What is known of an accepted request and its instruction.
pub record IsAcceptedSpl (n : Amounts) (env : Settings) (paused : Option Bool)
    (r : SplDepositRequest n.Amount) (i : SplDepositInstruction n.Amount) : Type 0 where
  pub address_ok : is_valid_dcc_address r.recipient_dcc ≡ true
  pub not_paused : is_paused env.bridge_contract paused ≡ false
  pub positive : n.is_positive r.amount ≡ true
  pub same_amount : i.amount ≡ r.amount
  pub same_mint : i.spl_mint ≡ r.spl_mint
  pub field : i.recipient_dcc ≡ encode_recipient r.recipient_dcc

module _ (n : Amounts) (web3 : Web3) (env : Settings) (paused : Option Bool)
    (r : SplDepositRequest n.Amount) (i : SplDepositInstruction n.Amount) where
  -- Whatever the answer is, where it is `ok i`, the request is accepted.
  OnlyAccepted : Answer (SplDepositInstruction n.Amount) → Type 0
  OnlyAccepted a = a ≡ ok i → IsAcceptedSpl n env paused r i

  build-OnlyAccepted :
      (sender mint : Bytes) (program : Option Bytes)
      → is_valid_dcc_address r.recipient_dcc ≡ true
      → is_paused env.bridge_contract paused ≡ false
      → n.is_positive r.amount ≡ true
      → OnlyAccepted (build_spl_deposit n web3 r sender mint program)
  unfolding build_spl_deposit OnlyAccepted
  build-OnlyAccepted sender mint none v p a h = cc
  build-OnlyAccepted sender mint (some program) v p a h = record {
    address_ok = v;
    not_paused = p;
    positive = a;
    same_amount = ground (arith, h);
    same_mint = ground (arith, h);
    field = ground (arith, h);
  }

  from-OnlyAccepted :
      (sender mint : Option Bytes)
      → n.is_positive r.amount ≡ true
      → OnlyAccepted (spl_deposit_from n web3 env paused r sender mint)
  unfolding spl_deposit_from OnlyAccepted
  from-OnlyAccepted none mint a h = cc
  from-OnlyAccepted (some sender) none a h = cc
  from-OnlyAccepted (some sender) (some mint) a h =
      if_cases OnlyAccepted (not (is_valid_dcc_address r.recipient_dcc)) _ _ (λ v h. cc)
        (λ v.
          if_cases OnlyAccepted (is_paused env.bridge_contract paused) _ _ (λ p h. cc)
            (λ p. build-OnlyAccepted sender mint _ (ground (arith, v)) p a))
        h

  -- An SPL deposit request that the API accepts has a valid DCC address for its recipient and a positive amount, and
  -- was not known to meet a paused bridge. Its instruction has the request's own amount and mint, and for its recipient
  -- the first 32 bytes of the address in hexadecimal.
  pub spl_deposit-IsAcceptedSpl :
      spl_deposit n web3 env paused r ≡ ok i → IsAcceptedSpl n env paused r i
  unfolding spl_deposit is_spl_deposit_request OnlyAccepted
  spl_deposit-IsAcceptedSpl =
      if_cases OnlyAccepted (not (is_spl_deposit_request n r)) _ _ (λ q h. cc)
        (λ q.
          from-OnlyAccepted (web3.public_key r.sender) (web3.public_key r.spl_mint)
            (ground (arith, q)))

pub record RedeemLimits : Type 0 where
  pub bridge_status : JsString

-- getBridgeStats' answer, `none` where it throws.
unfoldable pub redeem_limits : Settings → Option Bool → RedeemLimits
unfolding is_paused
redeem_limits env paused = record {
  bridge_status = if is_paused env.bridge_contract paused then codes "paused" else codes "active";
}
