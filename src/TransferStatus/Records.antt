-- ===== src/TransferStatus/Records.antt =====
-- The burn records of dcc-contracts/bridge-controller/bridge_controller.ride, as api/src/utils/dcc-helpers.ts reads
-- them, and the status that api/src/routes/transfer.ts then reports.
use sol_gateway_dcc.Base.{
  ℕ, ◌<◌, ◌^◌, ◌≡◌, ◌≢◌, refl, ap, ◌∙◌, false, Option, none, some, [], ◌∷◌, arith, JsString, codes,
  str_eq, ◌==◌, Bool-cases, inl, inr, ne→==,
}
use sol_gateway_dcc.Base.Int.{pos}
use sol_gateway_dcc.Js.Bytes.{to_number_exact}
use sol_gateway_dcc.Js.Numerals.{int}
use sol_gateway_dcc.Js.Decimal.{decimal, decimal-IsNumeral, parse_int-IsNumeral}
use sol_gateway_dcc.Js.Splits.{BarFree, split-join}
use sol_gateway_dcc.DccWatcher.Records.{burn_key, contract_record, decimal-BarFree}
use sol_gateway_dcc.TransferStore.Store.{Transfers, Transfer, get_transfer_by_id}
use sol_gateway_dcc.TransferStatus.Chain.{
  text, NodeData, BurnRecord, record_of_parts, burn_record_of, get_burn_record,
}
use sol_gateway_dcc.TransferStatus.Route.{
  StatusAnswer, details, invalid_transfer_id, is_found, stored_status, status_now, details_of,
  is_short, transfer_status,
}

-- What the contract wrote.
abbrev pub burn_record : JsString → JsString → JsString → ℕ → ℕ → ℕ → BurnRecord
burn_record caller recipient mint amount height timestamp = record {
  sender = caller;
  sol_recipient = recipient;
  spl_mint = mint;
  amount = int (pos amount);
  height = int (pos height);
  timestamp = int (pos timestamp);
}

record_of_parts-decimal :
    (caller recipient mint : JsString) (amount height timestamp : ℕ)
    → amount < 2 ^ 53
    → height < 2 ^ 53
    → timestamp < 2 ^ 53
    → record_of_parts
        (caller ∷ recipient ∷ mint ∷ decimal amount ∷ decimal height ∷ decimal timestamp ∷ [])
      ≡ some (burn_record caller recipient mint amount height timestamp)
unfolding record_of_parts
record_of_parts-decimal caller recipient mint amount height timestamp ha hh ht =
    rw
      (
        parse_int-IsNumeral (decimal amount) amount (decimal-IsNumeral amount),
        parse_int-IsNumeral (decimal height) height (decimal-IsNumeral height),
        parse_int-IsNumeral (decimal timestamp) timestamp (decimal-IsNumeral timestamp),
        to_number_exact amount ha,
        to_number_exact height hh,
        to_number_exact timestamp ht,
      )
      refl

burn_record_of-contract_record :
    (caller recipient mint : JsString) (amount height timestamp : ℕ)
    → BarFree caller
    → BarFree recipient
    → BarFree mint
    → amount < 2 ^ 53
    → height < 2 ^ 53
    → timestamp < 2 ^ 53
    → burn_record_of (some (text (contract_record caller recipient mint amount height timestamp)))
      ≡ some (burn_record caller recipient mint amount height timestamp)
unfolding burn_record_of contract_record
burn_record_of-contract_record caller recipient mint amount height timestamp hc hr hm ha hh ht =
    ap record_of_parts (
      split-join caller
        (recipient ∷ mint ∷ decimal amount ∷ decimal height ∷ decimal timestamp ∷ []) hc
        (
          hr,
          (hm, (decimal-BarFree amount, (decimal-BarFree height, (decimal-BarFree timestamp, tt)))),
        ))
    ∙ record_of_parts-decimal caller recipient mint amount height timestamp ha hh ht

status_now-burned :
    (contract : JsString) (node : NodeData) (id status : JsString) {r : BurnRecord}
    → contract ≢ []
    → get_burn_record node id ≡ some r
    → status_now contract node id status ≡ codes "completed"
unfolding status_now is_found
status_now-burned contract node id status h q = elim (Bool-cases (status == codes "completed")) [
  | inl done ↦ rw done ((str_eq.eqb_iff status (codes "completed")).0 done)
  | inr other ↦ rw (other, ne→== contract [] h, q) (ground arith)
]

-- What the route reports of a transfer.
abbrev pub reported : StatusAnswer → Option JsString
reported invalid_transfer_id = none
reported (details d) = some d.status

reported_details :
    (id status : JsString) (t : Option Transfer)
    → reported (details (details_of id status t)) ≡ some status
unfolding details_of
reported_details id status none = refl
reported_details id status (some t) = refl

-- What the contract records of a burn is read back: the caller, the recipient and the mint (without bars), and
-- the amount, the height and the timestamp below 2^53. The route then reports the burn, under an id of 16
-- characters or more, as completed, whatever is stored of it: also before anything is unlocked on Solana.
pub get_burn_record-contract_record :
    (contract : JsString) (node : NodeData) (s : Transfers) (id caller recipient mint : JsString)
    (amount height timestamp : ℕ)
    → node (burn_key id)
      ≡ some (text (contract_record caller recipient mint amount height timestamp))
    → BarFree caller
    → BarFree recipient
    → BarFree mint
    → amount < 2 ^ 53
    → height < 2 ^ 53
    → timestamp < 2 ^ 53
    → contract ≢ []
    → is_short id ≡ false
    → (get_burn_record node id ≡ some (burn_record caller recipient mint amount height timestamp))
      × (reported (transfer_status contract node id s) ≡ some (codes "completed"))
unfolding get_burn_record transfer_status
get_burn_record-contract_record contract node s id caller recipient mint amount height timestamp q
      hc hr hm ha hh ht hn hs =
    let read =
      burn_record_of-contract_record caller recipient mint amount height timestamp hc hr hm ha hh
        ht in
    let found = ap burn_record_of q ∙ read in
    (
      found,
      rw hs (
          reported_details id _ (get_transfer_by_id id s)
          ∙ ap some (
              status_now-burned contract node id (stored_status (get_transfer_by_id id s)) hn
                found)),
    )
