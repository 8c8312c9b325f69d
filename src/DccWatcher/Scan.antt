-- ===== src/DccWatcher/Scan.antt =====
-- validator/src/watchers/dcc-watcher.ts: parseBurnEvent, checkForBurnEvent, scanBlock and the turn of
-- runPollLoop. `none` stands for null, undefined and a caught exception.
use sol_gateway_dcc.Base.{
  ◌>>=◌, ℕ, zero, suc, ◌+◌, ◌-◌, Bool, false, Option, none, some, List, [], ◌∷◌, ◌&&◌, ◌||◌,
  JsString, codes, ◌==◌, str_eq, nat_eqb, ltb, if◌then◌else◌, drop,
}
use sol_gateway_dcc.Base.Int.{pos}
use sol_gateway_dcc.Js.Map.{JsMap, has, set}
use sol_gateway_dcc.Js.Text.{starts_with, split}
use sol_gateway_dcc.Js.Numerals.{to_bigint, parse_int}
use sol_gateway_dcc.Events.{DccBurnEvent}

pub record DccWatcher : Type 0 where
  pub bridge_contract : JsString
  pub required_confirmations : ℕ
  pub last_processed_height : ℕ
  pub pending_burns : JsMap JsString DccBurnEvent

-- An entry of `stateChanges.data`; a value that is not a string is `none`.
pub record DataEntry : Type 0 where
  pub key : JsString
  pub value : Option JsString

-- A transaction as the node answers it; `entries` is `stateChanges?.data`, `call` is `call?.function`.
pub record DccTx : Type 0 where
  pub id : JsString
  pub type : ℕ
  pub d_app : JsString
  pub call : Option JsString
  pub entries : Option (List DataEntry)

unfoldable pub find_burn_entry : List DataEntry → Option DataEntry
unfolding starts_with
find_burn_entry [] = none
find_burn_entry (e ∷ es) = if starts_with (codes "burn_") e.key then some e else find_burn_entry es

-- What a burn record's parts stand for. BigInt throws on a text that is not a number.
unfoldable pub burn_of_parts : JsString → JsString → List JsString → Option DccBurnEvent
burn_of_parts burn_id tx_id (sender ∷ recipient ∷ amount ∷ height ∷ timestamp ∷ _) = do
  amount ← to_bigint amount
  some (record {
    burn_id = burn_id;
    sender = sender;
    sol_recipient = recipient;
    amount = amount;
    height = parse_int height;
    timestamp = parse_int timestamp;
    tx_id = tx_id;
    confirmations = pos 0;
  })
burn_of_parts burn_id tx_id _ = none

-- The key starts with the prefix that `replace` takes away.
unfoldable pub parse_entry : JsString → DataEntry → Option DccBurnEvent
unfolding burn_of_parts
parse_entry tx_id e =
    e.value >>= λ value. burn_of_parts (drop 5 e.key) tx_id (split (codes "|") value)

unfoldable pub parse_burn_event : DccTx → Option DccBurnEvent
unfolding find_burn_entry parse_entry
parse_burn_event tx = do
  entries ← tx.entries
  entry ← find_burn_entry entries
  parse_entry tx.id entry

unfoldable pub is_burn_call : Option JsString → Bool
is_burn_call none = false
is_burn_call (some f) = f == codes "burn" || f == codes "burnToken"

-- The burn that a transaction shows, where it passes the guards.
unfoldable pub burn_event_of : JsString → DccTx → Option DccBurnEvent
unfolding is_burn_call parse_burn_event
burn_event_of contract tx =
    if nat_eqb tx.type 16 && (tx.d_app == contract && is_burn_call tx.call)
    then parse_burn_event tx
    else none

unfoldable pub add_burn : DccWatcher → DccBurnEvent → DccWatcher
add_burn w e =
    if has e.burn_id w.pending_burns
    then w
    else record w { pending_burns = set e.burn_id e w.pending_burns }

unfoldable pub check_for_burn_event : DccWatcher → DccTx → DccWatcher
unfolding burn_event_of add_burn
check_for_burn_event w tx = elim (burn_event_of w.bridge_contract tx) [
  | none ↦ w
  | some e ↦ add_burn w e
]

unfoldable pub scan_transactions : DccWatcher → List DccTx → DccWatcher
unfolding check_for_burn_event
scan_transactions w [] = w
scan_transactions w (tx ∷ txs) = scan_transactions (check_for_burn_event w tx) txs

-- `none` where the request fails, or the answer has no block or no transactions.
unfoldable pub scan_block : DccWatcher → Option (List DccTx) → DccWatcher
unfolding scan_transactions
scan_block w none = w
scan_block w (some txs) = scan_transactions w txs

-- The blocks of `n` heights from `h` on, each as the node answers it.
unfoldable pub scan_blocks : (ℕ → Option (List DccTx)) → ℕ → ℕ → DccWatcher → DccWatcher
unfolding scan_block
scan_blocks fetch h zero w = w
scan_blocks fetch h (suc n) w = scan_blocks fetch (h + 1) n (scan_block w (fetch h))

-- One turn of the poll loop at a current height.
unfoldable pub poll : (ℕ → Option (List DccTx)) → ℕ → DccWatcher → DccWatcher
unfolding scan_blocks
poll fetch current w =
    if ltb w.last_processed_height current
    then record (scan_blocks fetch (w.last_processed_height + 1) (current - w.last_processed_height)
        w) { last_processed_height = current }
    else w
