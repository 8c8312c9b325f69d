-- ===== src/TransferStatus/Tests.antt =====
-- The routes of transfers at a concrete burn and concrete streams.
use sol_gateway_dcc.Base.{
  ◌≡◌, refl, true, none, some, List, [], ◌∷◌, arith, JsString, codes, str_eq, nat_eq, ◌==◌,
  if◌then◌else◌,
}
use sol_gateway_dcc.Js.Map.{set, has, includes}
use sol_gateway_dcc.DccWatcher.Records.{burn_key, contract_record}
use sol_gateway_dcc.TransferStore.Store.{Transfers, solana, dcc, create_transfer}
use sol_gateway_dcc.TransferStore.Admin.{PatchBody}
use sol_gateway_dcc.TransferStatus.Chain.{NodeData, text, get_burn_record}
use sol_gateway_dcc.TransferStatus.Route.{transfer_status, is_short}
use sol_gateway_dcc.TransferStatus.Records.{burn_record, reported, get_burn_record-contract_record}
use sol_gateway_dcc.TransferStatus.Stream.{
  new_streams, update_of, StreamEvent, opens, closes, ticks, run_streams, patch_and_push,
}
use sol_gateway_dcc.TransferStatus.Pushes.{updates_to, patch_and_push-listens}

abbrev burn_id : JsString
burn_id = codes "8c1f5b2e9d7a4c60"

abbrev burned : JsString
burned = contract_record (codes "3Da") (codes "Sr") (codes "EPj") 500 7000 1700000000

abbrev node : NodeData
node key = if key == burn_key burn_id then some (text burned) else none

get_burn_record-contract_record_example :
    (get_burn_record node burn_id
      ≡ some (burn_record (codes "3Da") (codes "Sr") (codes "EPj") 500 7000 1700000000))
    × (reported (transfer_status (codes "3Dbridge") node burn_id []) ≡ some (codes "completed"))
unfolding is_short
get_burn_record-contract_record_example =
    get_burn_record-contract_record (codes "3Dbridge") node [] burn_id (codes "3Da") (codes "Sr")
      (codes "EPj") 500 7000 1700000000 refl (ground arith) (ground arith) (ground arith)
      (omega arith) (omega arith) (omega arith) (ground arith) refl

abbrev store : Transfers
store =
    (create_transfer
      (record {
        transfer_id = burn_id;
        source_chain = dcc;
        dest_chain = solana;
        sender = codes "3Da";
        recipient = codes "Sr";
        amount = codes "500";
        amount_formatted = none;
        spl_mint = none;
        source_tx_hash = none;
      })
      100 []).0

abbrev failed : PatchBody
failed = record {
  status = some (codes "failed");
  error = some (codes "reorg");
  dest_tx_hash = none;
}

-- Two responses listen, of which the second is closed.
abbrev two_streams : List StreamEvent
two_streams =
    opens burn_id 1 none ∷ opens burn_id 2 none ∷ ticks 1 (λ c. true) ∷ closes burn_id 2 ∷ []

patch_and_push-listens_example :
    updates_to 1
      (patch_and_push burn_id failed 200
        (λ c. true)
        store
        (run_streams two_streams new_streams)).1.1
    ≡ (burn_id, update_of failed (codes "failed")) ∷ []
unfolding is_short includes has create_transfer set
patch_and_push-listens_example =
    patch_and_push-listens burn_id (codes "failed") 1 failed 200 (λ c. true) store two_streams refl
