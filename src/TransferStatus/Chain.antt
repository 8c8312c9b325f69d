-- ===== src/TransferStatus/Chain.antt =====
-- isTransferProcessed and getBurnRecord of api/src/utils/dcc-helpers.ts, over the node's answers: the value of
-- each of the contract's data entries, `none` where the node has no such entry or the request fails, which the two
-- functions do not tell apart.
use sol_gateway_dcc.Base.{ℕ, Bool, false, Option, none, some, List, ◌∷◌, ◌++◌, JsString, codes}
use sol_gateway_dcc.Js.Text.{split}
use sol_gateway_dcc.Js.Numerals.{JsNumber, parse_int}

pub data EntryValue : Type 0 where
  text : JsString → EntryValue
  flag : Bool → EntryValue
  number : ℕ → EntryValue

abbrev pub NodeData : Type 0
NodeData = JsString → Option EntryValue

-- `entry?.value === true`
unfoldable pub is_true : Option EntryValue → Bool
is_true none = false
is_true (some (text s)) = false
is_true (some (flag b)) = b
is_true (some (number n)) = false

unfoldable pub is_transfer_processed : NodeData → JsString → Bool
unfolding is_true
is_transfer_processed node transfer_id = is_true (node (codes "processed_" ++ transfer_id))

pub record BurnRecord : Type 0 where
  pub sender : JsString
  pub sol_recipient : JsString
  pub spl_mint : JsString
  pub amount : JsNumber
  pub height : JsNumber
  pub timestamp : JsNumber

-- `parts.length < 6`
unfoldable pub record_of_parts : List JsString → Option BurnRecord
record_of_parts (sender ∷ sol_recipient ∷ spl_mint ∷ amount ∷ height ∷ timestamp ∷ _) =
    some (record {
      sender = sender;
      sol_recipient = sol_recipient;
      spl_mint = spl_mint;
      amount = parse_int amount;
      height = parse_int height;
      timestamp = parse_int timestamp;
    })
record_of_parts _ = none

unfoldable pub burn_record_of : Option EntryValue → Option BurnRecord
unfolding record_of_parts
burn_record_of none = none
burn_record_of (some (text s)) = record_of_parts (split (codes "|") s)
burn_record_of (some (flag b)) = none
burn_record_of (some (number n)) = none

unfoldable pub get_burn_record : NodeData → JsString → Option BurnRecord
unfolding burn_record_of
get_burn_record node burn_id = burn_record_of (node (codes "burn_" ++ burn_id))
