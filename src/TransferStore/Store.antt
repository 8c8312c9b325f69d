-- ===== src/TransferStore/Store.antt =====
-- api/src/utils/transfer-store.ts over its table `transfers`, as the rows in the order of their ids,
-- each under its transfer_id, which the table keeps unique. A row's id is its place in that order, as no
-- row is deleted; unixepoch() is the argument `now`. A call's `changes` is the number of changed rows.
use sol_gateway_dcc.Base.{
  ℕ, suc, Bool, ◌||◌, not, Option, none, some, [], ◌∷◌, JsString, codes, str_eq, ◌==◌, length,
  if◌then◌else◌,
}
use sol_gateway_dcc.Js.Map.{JsMap, get, has, set}

pub data Chain : Type 0 where
  solana dcc : Chain

pub record CreateParams : Type 0 where
  pub transfer_id : JsString
  pub source_chain : Chain
  pub dest_chain : Chain
  pub sender : JsString
  pub recipient : JsString
  pub amount : JsString
  pub amount_formatted : Option JsString
  pub spl_mint : Option JsString
  pub source_tx_hash : Option JsString

pub record Transfer : Type 0 where
  pub status : JsString
  pub source_chain : Chain
  pub dest_chain : Chain
  pub sender : JsString
  pub recipient : JsString
  pub amount : JsString
  pub amount_formatted : Option JsString
  pub spl_mint : Option JsString
  pub source_tx_hash : Option JsString
  pub dest_tx_hash : Option JsString
  pub confirmations : ℕ
  pub validator_sigs : ℕ
  pub error : Option JsString
  pub created_at : ℕ
  pub updated_at : ℕ

-- The argument `extra`; the fields of an absent one are all absent.
pub record Extra : Type 0 where
  pub dest_tx_hash : Option JsString
  pub confirmations : Option ℕ
  pub validator_sigs : Option ℕ
  pub error : Option JsString

abbrev pub Transfers : Type 0
Transfers = JsMap JsString Transfer

-- `text || null`
unfoldable pub or_null : Option JsString → Option JsString
or_null none = none
or_null (some []) = none
or_null (some (c ∷ s)) = some (c ∷ s)

-- The inserted row, with the defaults of the schema.
abbrev pub new_transfer : CreateParams → ℕ → Transfer
new_transfer p now = record {
  status = codes "pending_confirmation";
  source_chain = p.source_chain;
  dest_chain = p.dest_chain;
  sender = p.sender;
  recipient = p.recipient;
  amount = p.amount;
  amount_formatted = or_null p.amount_formatted;
  spl_mint = or_null p.spl_mint;
  source_tx_hash = or_null p.source_tx_hash;
  dest_tx_hash = none;
  confirmations = 0;
  validator_sigs = 0;
  error = none;
  created_at = now;
  updated_at = now;
}

-- INSERT OR IGNORE
unfoldable pub create_transfer : CreateParams → ℕ → Transfers → Transfers × ℕ
create_transfer p now s =
    if has p.transfer_id s then (s, 0) else (set p.transfer_id (new_transfer p now) s, 1)

-- `if (text) sets.push(...)`
unfoldable pub if_text : Option JsString → Option JsString → Option JsString
if_text none old = old
if_text (some []) old = old
if_text (some (c ∷ s)) old = some (c ∷ s)

-- `if (number !== undefined) sets.push(...)`
unfoldable pub if_defined : Option ℕ → ℕ → ℕ
if_defined none old = old
if_defined (some n) old = n

abbrev pub updated_transfer : JsString → Extra → ℕ → Transfer → Transfer
updated_transfer status x now t = record {
  status = status;
  source_chain = t.source_chain;
  dest_chain = t.dest_chain;
  sender = t.sender;
  recipient = t.recipient;
  amount = t.amount;
  amount_formatted = t.amount_formatted;
  spl_mint = t.spl_mint;
  source_tx_hash = t.source_tx_hash;
  dest_tx_hash = if_text x.dest_tx_hash t.dest_tx_hash;
  confirmations = if_defined x.confirmations t.confirmations;
  validator_sigs = if_defined x.validator_sigs t.validator_sigs;
  error = if_text x.error t.error;
  created_at = t.created_at;
  updated_at = now;
}

-- UPDATE ... WHERE transfer_id = id, on the row that is found.
unfoldable pub update_row :
    JsString → JsString → Extra → ℕ → Transfers → Option Transfer → Transfers × ℕ
update_row id status x now s none = (s, 0)
update_row id status x now s (some t) = (set id (updated_transfer status x now t) s, 1)

unfoldable pub update_transfer_status : JsString → JsString → Extra → ℕ → Transfers → Transfers × ℕ
update_transfer_status id status x now s = update_row id status x now s (get id s)

unfoldable pub get_transfer_by_id : JsString → Transfers → Option Transfer
get_transfer_by_id id s = get id s

pub record TransferStats : Type 0 where
  pub total_transfers : ℕ
  pub completed : ℕ
  pub failed : ℕ
  pub pending : ℕ

-- COUNT over the rows whose status passes a test
unfoldable pub count_status : (JsString → Bool) → Transfers → ℕ
count_status test [] = 0
count_status test ((id, t) ∷ s) =
    let rest = count_status test s in if test t.status then suc rest else rest

unfoldable pub get_transfer_stats : Transfers → TransferStats
get_transfer_stats s = record {
  total_transfers = length s;
  completed = count_status (λ c. c == codes "completed") s;
  failed = count_status (λ c. c == codes "failed") s;
  pending = count_status (λ c. not ((c == codes "completed") || (c == codes "failed"))) s;
}
