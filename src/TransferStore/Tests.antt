-- ===== src/TransferStore/Tests.antt =====
-- The store of transfers at concrete calls.
use sol_gateway_dcc.Base.{str_eq, ◌≡◌, none, some, [], ◌∷◌, List, JsString, codes, str_eq}
use sol_gateway_dcc.TransferStore.Store.{solana, dcc, CreateParams, Extra, get_transfer_by_id}
use sol_gateway_dcc.TransferStore.Histories.{
  StoreCall, creates, updates, perform_all, track_all, get_transfer_by_id-perform_all,
}

abbrev first : JsString
first = codes "a1"

abbrev second : JsString
second = codes "b2"

abbrev params : JsString → CreateParams
params id = record {
  transfer_id = id;
  source_chain = solana;
  dest_chain = dcc;
  sender = codes "s";
  recipient = codes "r";
  amount = codes "5";
  amount_formatted = some [];
  spl_mint = none;
  source_tx_hash = some (codes "h");
}

abbrev minted : Extra
minted = record {
  dest_tx_hash = some (codes "d");
  confirmations = some 32;
  validator_sigs = none;
  error = some [];
}

abbrev calls : List StoreCall
calls =
    creates (params first) 10
    ∷ creates (params second) 11
    ∷ updates first (codes "completed") minted 12
    ∷ creates (params first) 13
    ∷ updates second (codes "failed") minted 14
    ∷ []

get_transfer_by_id-perform_all_example :
    get_transfer_by_id first (perform_all calls [])
    ≡ track_all first calls (get_transfer_by_id first [])
get_transfer_by_id-perform_all_example = get_transfer_by_id-perform_all first calls []
