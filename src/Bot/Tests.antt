-- ===== src/Bot/Tests.antt =====
-- The bot's store and monitor at concrete deposits and burns.
use sol_gateway_dcc.Base.{
  ℕ, ◌≤◌, ◌≡◌, refl, true, none, some, List, [], ◌∷◌, ◌++◌, arith, JsString, codes, str_eq,
  if◌then◌else◌, All,
}
use sol_gateway_dcc.Js.Map.{JsMap, get, set, includes}
use sol_gateway_dcc.Bot.Store.{
  solana, User, Store, text, update_transfer, create_transfer, insert_transfer, record_deposit,
  or_zero, chain_key_eq,
}
use sol_gateway_dcc.Bot.Scan.{SplTransfer, Burn, NodeTx, scan_burn_records}
use sol_gateway_dcc.Bot.Columns.{column, update_transfer-column}
use sol_gateway_dcc.Bot.Turns.{Monitor, Draws, dcc_to_sol, begin_burn, begin_turn}
use sol_gateway_dcc.Bot.Monitor.{complete, poll_dcc, user_by_dcc, load_cursors}
use sol_gateway_dcc.Bot.Monitor.Schedule.{Turn, begins_spl, begins_burn, finishes, run}
use sol_gateway_dcc.Bot.Monitor.Once.{was_recorded, relays_of, idle, run-relayed_once}
use sol_gateway_dcc.Bot.Monitor.Passed.{height_of, IsAbove, run-passed_burn}
use sol_gateway_dcc.Bot.Monitor.Handled.{calls, burned, begin, is_due, call_for, complete-calls}
use sol_gateway_dcc.Bot.Monitor.Restart.{slot_of, start, run-start}

abbrev usdc : JsString
usdc = codes "EPjFWdd5AufqSSqeM2qN1xzybapC8G4wEGGkZwyTDt1v"

abbrev alice : User
alice = record {
  user_id = 7;
  username = none;
  first_name = none;
  sol_address = codes "Sa";
  dcc_address = codes "3Da";
}

abbrev empty : Store
empty = record { users = (7, alice) ∷ []; transfers = []; deposits = []; cursors = [] }

abbrev draws : ℕ → Draws
draws n = record { deposit_id = n ∷ []; transfer_id = n ∷ []; now = 100 }

abbrev hash : JsString → JsString
hash s = codes "h" ++ s

abbrev deposit : SplTransfer
deposit = record {
  mint = usdc;
  amount_units = 500;
  from_address = codes "Sb";
  sig = codes "t1";
  slot = 40;
}

abbrev burn_at : JsString → ℕ → Burn
burn_at id height = record {
  dcc_tx_id = id;
  sender = codes "3Da";
  sol_recipient = some (codes "Sr");
  spl_mint = some usdc;
  amount_units = 30;
  height = height;
}

abbrev users : JsMap JsString User
users = (codes "3Da", alice) ∷ []

-- Two polls see one deposit, and both turns wait before either is finished.
abbrev overlap : List Turn
overlap =
    begins_spl (draws 1) alice deposit
    ∷ begins_spl (draws 2) alice deposit
    ∷ finishes 0
    ∷ finishes 0
    ∷ begins_burn (draws 3) users (burn_at (codes "b1") 9)
    ∷ finishes 0
    ∷ []

run-relayed_once_example :
    relays_of (solana, codes "t1") (run hash overlap (idle (start empty))).started
    ≤ (if was_recorded (solana, codes "t1") (start empty).store then 0 else 1)
run-relayed_once_example = run-relayed_once (solana, codes "t1") hash overlap (start empty)

abbrev seen_nine : Monitor
seen_nine = record { sol_slots = []; dcc_heights = (codes "3Da", 9) ∷ []; store = empty }

run-passed_burn_example :
    All
      (IsAbove (codes "3Da") 9)
      (run hash
        (begins_burn (draws 4) users (burn_at (codes "b2") 9) ∷ finishes 0 ∷ [])
        (idle seen_nine)).started
unfolding get or_zero
run-passed_burn_example =
    run-passed_burn (codes "3Da") 9 hash
      (begins_burn (draws 4) users (burn_at (codes "b2") 9) ∷ finishes 0 ∷ []) seen_nine
      (omega arith)

complete-calls_example :
    calls (complete (begin hash (draws 5) (burned users (burn_at (codes "b3") 12)) seen_nine)) ≡ (
      if is_due seen_nine (burned users (burn_at (codes "b3") 12))
      then call_for hash (draws 5) (burned users (burn_at (codes "b3") 12)) ∷ []
      else [])
unfolding get
complete-calls_example =
    complete-calls hash (draws 5) (burned users (burn_at (codes "b3") 12)) seen_nine (refl, refl)

run-start_example :
    let m = (run hash overlap (idle (start empty))).monitor in
    (slot_of (codes "Sa") (start m.store) ≡ slot_of (codes "Sa") m)
    × (height_of (codes "Sa") (start m.store) ≡ height_of (codes "Sa") m)
run-start_example = run-start hash overlap empty (codes "Sa") tt

update_transfer-column_example :
    column
      (codes "amount_units")
      (codes "x")
      (update_transfer (codes "x") ((codes "amount_units", text (codes "9")) ∷ []) 3 empty)
    ≡ column (codes "amount_units") (codes "x") empty
unfolding includes
update_transfer-column_example =
    update_transfer-column (codes "amount_units") (codes "x") (codes "x")
      ((codes "amount_units", text (codes "9")) ∷ []) 3 empty refl refl

burn_tx : JsString → ℕ → NodeTx
burn_tx id height = record {
  id = id;
  sender = codes "3Da";
  height = height;
  kind = 16;
  d_app = codes "bridge";
  called = some (codes "burnToken");
  first_arg = some (codes "Sr");
  second_arg = some usdc;
  payment = some 30;
}

-- The node lists the newest transaction first: only the later of two burns is relayed.
two_burns_test :
    calls (
      (poll_dcc draws
          (codes "bridge")
          (burn_tx (codes "b2") 10 ∷ burn_tx (codes "b1") 9 ∷ [])
          (alice ∷ [])
          (start empty)).0,
      (poll_dcc draws
          (codes "bridge")
          (burn_tx (codes "b2") 10 ∷ burn_tx (codes "b1") 9 ∷ [])
          (alice ∷ [])
          (start empty)).1,
      true,
    )
    ≡ dcc_to_sol (codes "b2") (codes "Sr") 30 (some usdc) (codes "3Da") (0 ∷ []) ∷ []
unfolding poll_dcc burn_tx scan_burn_records begin_burn load_cursors begin_turn record_deposit
    create_transfer insert_transfer get set user_by_dcc or_zero
two_burns_test = refl
