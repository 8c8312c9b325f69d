-- ===== src/TransferStatus/Route.antt =====
-- GET /transfer/:id of api/src/routes/transfer.ts. The required counts, which are constants, and the clock's
-- values for a transfer that is not stored are left out.
use sol_gateway_dcc.Base.{
  ℕ, Bool, ◌||◌, Option, none, some, [], ◌∷◌, JsString, codes, str_eq, ◌==◌, length, if◌then◌else◌,
  ltb, true, false,
}
use sol_gateway_dcc.TransferStore.Store.{
  Chain, solana, dcc, Transfer, Transfers, or_null, get_transfer_by_id,
}
use sol_gateway_dcc.TransferStatus.Chain.{NodeData, is_transfer_processed, get_burn_record}

pub record TransferDetails : Type 0 where
  pub transfer_id : JsString
  pub status : JsString
  pub source_chain : Chain
  pub destination_chain : Chain
  pub sender : JsString
  pub recipient : JsString
  pub amount : JsString
  pub amount_formatted : JsString
  pub source_tx_hash : Option JsString
  pub destination_tx_hash : Option JsString
  pub confirmations : ℕ
  pub validator_signatures : ℕ
  pub error : Option JsString

-- 400 or the details.
pub data StatusAnswer : Type 0 where
  invalid_transfer_id : StatusAnswer
  details : TransferDetails → StatusAnswer

-- `text || default`
unfoldable pub or_default : JsString → JsString → JsString
or_default d [] = d
or_default d (c ∷ s) = c ∷ s

-- `text || default`, of a column that may be null.
unfoldable pub text_or : JsString → Option JsString → JsString
unfolding or_default
text_or d none = d
text_or d (some s) = or_default d s

unfoldable pub is_found {ℓ} : {A : Type ℓ} → Option A → Bool
is_found none = false
is_found (some a) = true

unfoldable pub stored_status : Option Transfer → JsString
unfolding or_default
stored_status none = codes "pending_confirmation"
stored_status (some t) = or_default (codes "pending_confirmation") t.status

-- `contract` is the configured contract, empty where none is.
unfoldable pub status_now : JsString → NodeData → JsString → JsString → JsString
unfolding is_found is_transfer_processed get_burn_record
status_now contract node id status =
    if status == codes "completed" || contract == []
    then status
    else if is_transfer_processed node id || is_found (get_burn_record node id)
    then codes "completed"
    else status

unfoldable pub details_of : JsString → JsString → Option Transfer → TransferDetails
unfolding or_default text_or
details_of id status none = record {
  transfer_id = id;
  status = status;
  source_chain = solana;
  destination_chain = dcc;
  sender = [];
  recipient = [];
  amount = codes "0";
  amount_formatted = codes "0 SOL";
  source_tx_hash = none;
  destination_tx_hash = none;
  confirmations = 0;
  validator_signatures = 0;
  error = none;
}
details_of id status (some t) = record {
  transfer_id = id;
  status = status;
  source_chain = t.source_chain;
  destination_chain = t.dest_chain;
  sender = t.sender;
  recipient = t.recipient;
  amount = or_default (codes "0") t.amount;
  amount_formatted = text_or (codes "0 SOL") t.amount_formatted;
  source_tx_hash = or_null t.source_tx_hash;
  destination_tx_hash = or_null t.dest_tx_hash;
  confirmations = t.confirmations;
  validator_signatures = t.validator_sigs;
  error = or_null t.error;
}

-- `!id || id.length < 16`
unfoldable pub is_short : JsString → Bool
is_short id = ltb (length id) 16

unfoldable pub transfer_status : JsString → NodeData → JsString → Transfers → StatusAnswer
unfolding is_short stored_status status_now details_of
transfer_status contract node id s =
    if is_short id
    then invalid_transfer_id
    else let stored = get_transfer_by_id id s in
      details (details_of id (status_now contract node id (stored_status stored)) stored)
