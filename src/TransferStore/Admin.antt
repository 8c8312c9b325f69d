-- ===== src/TransferStore/Admin.antt =====
-- The status update of api/src/routes/admin.ts, over the store of api/src/utils/transfer-store.ts.
-- The fields of the body are taken to be texts; the operator's authentication, the logging and the
-- broadcast to listeners are left out.
use sol_gateway_dcc.Base.{
  ℕ, not, Option, none, some, List, [], ◌∷◌, JsString, codes, str_eq, if◌then◌else◌, nat_eqb,
}
use sol_gateway_dcc.Js.Map.{includes}
use sol_gateway_dcc.TransferStore.Store.{Transfers, Extra, or_null, update_transfer_status}

pub record PatchBody : Type 0 where
  pub status : Option JsString
  pub error : Option JsString
  pub dest_tx_hash : Option JsString

-- The answers 400, 400, 404 and 200.
pub data PatchAnswer : Type 0 where
  status_required invalid_status transfer_not_found status_updated : PatchAnswer

abbrev pub valid_statuses : List JsString
valid_statuses =
    codes "pending_confirmation"
    ∷ codes "awaiting_consensus"
    ∷ codes "consensus_reached"
    ∷ codes "minting"
    ∷ codes "completed"
    ∷ codes "failed"
    ∷ codes "expired"
    ∷ codes "paused"
    ∷ []

-- What follows the update: `if (result.changes === 0)`.
unfoldable pub patch_answer : Transfers × ℕ → Transfers × PatchAnswer
patch_answer (s, changes) = (s, if nat_eqb changes 0 then transfer_not_found else status_updated)

abbrev pub patch_extra : PatchBody → Extra
patch_extra body = record {
  dest_tx_hash = body.dest_tx_hash;
  confirmations = none;
  validator_sigs = none;
  error = body.error;
}

unfoldable pub patch_valid :
    JsString → JsString → PatchBody → ℕ → Transfers → Transfers × PatchAnswer
patch_valid id status body now s =
    if not (includes status valid_statuses)
    then (s, invalid_status)
    else patch_answer (update_transfer_status id status (patch_extra body) now s)

-- `if (!status)`
unfoldable pub patch_given :
    JsString → Option JsString → PatchBody → ℕ → Transfers → Transfers × PatchAnswer
patch_given id none body now s = (s, status_required)
patch_given id (some status) body now s = patch_valid id status body now s

unfoldable pub patch_status : JsString → PatchBody → ℕ → Transfers → Transfers × PatchAnswer
patch_status id body now s = patch_given id (or_null body.status) body now s
