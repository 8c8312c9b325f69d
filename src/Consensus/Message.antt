-- ===== src/Consensus/Message.antt =====
-- validator/src/consensus/engine.ts: the attestation request and its canonical message. `none` stands
-- for an exception: a value out of a word's range, NaN, or an event of the other kind, whose fields
-- are undefined.
use sol_gateway_dcc.Base.{◌>>=◌, ℕ, ◌++◌, Option, none, some, JsString, codes}
use sol_gateway_dcc.Base.Int.{ℤ, pos}
use sol_gateway_dcc.Js.Bytes.{Bytes, write_u64, write_u32, hex_decode, utf8}
use sol_gateway_dcc.Events.{
  JsNumber, nan, int, SolanaDepositEvent, DccBurnEvent, BridgeEvent, deposit, burn,
}

pub data TransferKind : Type 0 where
  mint unlock : TransferKind

pub record AttestationRequest : Type 0 where
  pub kind : TransferKind
  pub transfer_id : JsString
  pub event : BridgeEvent
  pub timestamp : ℕ

-- What validator/src/main.ts proposes on `deposit_finalized` and on `burn_finalized`, at time `now`.
unfoldable pub deposit_request : SolanaDepositEvent → ℕ → AttestationRequest
deposit_request e now = record {
  kind = mint;
  transfer_id = e.transfer_id;
  event = deposit e;
  timestamp = now;
}

unfoldable pub burn_request : DccBurnEvent → ℕ → AttestationRequest
burn_request e now = record {
  kind = unlock;
  transfer_id = e.burn_id;
  event = burn e;
  timestamp = now;
}

unfoldable pub bigint_to_buffer : ℤ → Option Bytes
bigint_to_buffer value = write_u64 value

-- `BigInt(NaN)` throws.
unfoldable pub uint64_to_buffer : JsNumber → Option Bytes
uint64_to_buffer nan = none
uint64_to_buffer (int value) = write_u64 value

unfoldable pub uint32_to_buffer : ℕ → Option Bytes
uint32_to_buffer value = write_u32 value

abbrev pub domain_separator : JsString
domain_separator = codes "SOL_DCC_BRIDGE_V1"

abbrev pub kind_prefix : TransferKind → JsString
kind_prefix mint = codes "MINT"
kind_prefix unlock = codes "UNLOCK"

unfoldable pub mint_fields : SolanaDepositEvent → Option Bytes
unfolding bigint_to_buffer uint64_to_buffer uint32_to_buffer
mint_fields e = do
  amount ← bigint_to_buffer (pos e.amount)
  nonce ← bigint_to_buffer (pos e.nonce)
  slot ← uint64_to_buffer (int (pos e.slot))
  chain ← uint32_to_buffer e.chain_id
  some (utf8 e.sender ++ (hex_decode e.recipient_dcc ++ (amount ++ (nonce ++ (slot ++ chain)))))

unfoldable pub unlock_fields : DccBurnEvent → Option Bytes
unfolding bigint_to_buffer uint64_to_buffer
unlock_fields e = do
  amount ← bigint_to_buffer e.amount
  height ← uint64_to_buffer e.height
  some (utf8 e.sender ++ (utf8 e.sol_recipient ++ (amount ++ (height ++ utf8 e.tx_id))))

-- The cast of `request.event` by the request's type.
unfoldable pub event_fields : TransferKind → BridgeEvent → Option Bytes
event_fields mint (deposit e) = mint_fields e
event_fields unlock (burn e) = unlock_fields e
event_fields mint (burn e) = none
event_fields unlock (deposit e) = none

unfoldable pub construct_canonical_message : AttestationRequest → Option Bytes
construct_canonical_message request = do
  fields ← event_fields request.kind request.event
  expiry ← uint64_to_buffer (int (pos request.timestamp))
  some (
      utf8 domain_separator
      ++ (utf8 (kind_prefix request.kind)
          ++ (hex_decode request.transfer_id ++ (fields ++ expiry))))
