-- ===== src/DccWatcher/Tests.antt =====
-- The theorems on the DCC watcher at concrete burns.
use sol_gateway_dcc.Base.{
  ℕ, ◌≡◌, ◌↔◌, ◌||◌, refl, none, some, Option, List, [], ◌∷◌, arith, JsString, codes, any, nat_eqb,
  if◌then◌else◌, false, true, str_eq,
}
use sol_gateway_dcc.Base.Int.{ℤ, pos, ◌-ℤ◌}
use sol_gateway_dcc.Js.Map.{get, has, set}
use sol_gateway_dcc.Js.Numerals.{int, to_bigint, parse_int}
use sol_gateway_dcc.Js.Text.{split}
use sol_gateway_dcc.Events.{DccBurnEvent}
use sol_gateway_dcc.DccWatcher.Scan.{
  DccWatcher, DataEntry, DccTx, check_for_burn_event, poll, find_burn_entry, burn_event_of,
}
use sol_gateway_dcc.DccWatcher.Records.{burn_key, contract_record, check-contract_record}
use sol_gateway_dcc.DccWatcher.Polling.{heights, block_shows, has-poll}
use sol_gateway_dcc.DccWatcher.Finality.{burn_finalized, confirmed_burn, DataResponse, visit_burn}
use sol_gateway_dcc.DccWatcher.Finalized.{IsSettled, visit_burn-finalized_iff}

-- The mint that stands for native SOL.
abbrev native_mint : JsString
native_mint = codes "So11111111111111111111111111111111111111112"

abbrev contract_entry : DataEntry
contract_entry = record {
  key = burn_key (codes "ab12");
  value = some (contract_record (codes "3Dx") (codes "9abc") native_mint 5_000 90 1_700);
}

abbrev contract_burn : DccTx
contract_burn = record {
  id = codes "tx";
  type = 16;
  d_app = codes "3Db";
  call = some (codes "burn");
  entries = some (contract_entry ∷ []);
}

abbrev described_burn : DccTx
described_burn = record {
  id = codes "tx";
  type = 16;
  d_app = codes "3Db";
  call = some (codes "burn");
  entries =
      some (record { key = codes "burn_ab12"; value = some (codes "3Dx|9abc|5000|90|1700") } ∷ []);
}

abbrev watching : DccWatcher
watching = record {
  bridge_contract = codes "3Db";
  required_confirmations = 10;
  last_processed_height = 89;
  pending_burns = [];
}

check-contract_record_example : check_for_burn_event watching contract_burn ≡ watching
unfolding find_burn_entry
check-contract_record_example =
    check-contract_record watching contract_burn (contract_entry ∷ []) (codes "ab12") (codes "3Dx")
      (codes "9abc") native_mint 5_000 90 1_700 (ground arith) (ground arith)
      (record { plain = ground arith; lettered = refl }) refl refl

-- The node does not answer block 91.
abbrev blocks : ℕ → Option (List DccTx)
blocks h = if nat_eqb h 90 then some (described_burn ∷ []) else none

poll_test : has (codes "ab12") (poll blocks 92 watching).pending_burns ≡ true
unfolding poll has set burn_event_of to_bigint parse_int split
poll_test = refl

has-poll_example :
    (has (codes "ab12") (poll blocks 92 watching).pending_burns
      ≡ (false || any (λ h. block_shows (codes "3Db") (codes "ab12") (blocks h)) (heights 90 3)))
    × ((poll blocks 92 watching).last_processed_height ≡ 92)
unfolding has
has-poll_example = has-poll blocks 92 watching (codes "ab12")

abbrev seen : DccBurnEvent
seen = record {
  burn_id = codes "ab12";
  sender = codes "3Dx";
  sol_recipient = codes "9abc";
  amount = pos 5_000;
  height = int (pos 90);
  timestamp = int (pos 1_700);
  tx_id = codes "tx";
  confirmations = pos 0;
}

abbrev waiting : DccWatcher
waiting = record watching { pending_burns = (codes "ab12", seen) ∷ [] }

abbrev answer : DataResponse
answer = record { status = 200; value = some (codes "3Dx") }

visit_burn-finalized_iff_example :
    ((visit_burn waiting (codes "ab12") 101 (some answer)).1
      ≡ burn_finalized (confirmed_burn seen (pos 11)) ∷ [])
    ↔ ((r : DataResponse) × (h : ℤ) × (some answer ≡ some r)
        × IsSettled waiting (int (pos 90)) 101 r h
        × (confirmed_burn seen (pos 11) ≡ confirmed_burn seen (pos 101 -ℤ h)))
unfolding get
visit_burn-finalized_iff_example =
    visit_burn-finalized_iff waiting (codes "ab12") seen (confirmed_burn seen (pos 11)) 101
      (some answer) refl
