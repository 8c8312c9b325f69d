-- ===== src/Bot/Store.antt =====
-- telegram-bot/src/store.cjs, over its tables as lists of rows in the order of insertion. A uuid that
-- uuidv4() draws and the time strftime('%s','now') are arguments. What is inserted is taken to satisfy
-- the NOT NULL constraints, so that an insertion fails only on a key that is there.
use sol_gateway_dcc.Base.{
  ℕ, Bool, true, false, ◌&&◌, ◌||◌, Option, none, some, List, [], ◌∷◌, ◌++◌, JsString, codes, Key,
  str_eq, ◌==◌, nat_eq, if◌then◌else◌, any, filterb, ◌≡◌, ◌↔◌, arith, str_eqb_iff, str_eqb,
}
use sol_gateway_dcc.Js.Map.{JsMap, get, set, includes}
use sol_gateway_dcc.Js.Decimal.{decimal}

pub data Chain : Type 0 where
  solana dcc : Chain

abbrev pub chain_eqb : Chain → Chain → Bool
chain_eqb solana solana = true
chain_eqb solana dcc = false
chain_eqb dcc solana = false
chain_eqb dcc dcc = true

chain_eqb_iff : (c d : Chain) → (chain_eqb c d ≡ true) ↔ (c ≡ d)
chain_eqb_iff solana solana = ground arith
chain_eqb_iff solana dcc = ground arith
chain_eqb_iff dcc solana = ground arith
chain_eqb_iff dcc dcc = ground arith

-- A pair of a chain and a text: the keys of deposits, (chain, tx_sig), and of cursors, (chain, address).
abbrev pub ChainKey : Type 0
ChainKey = Chain × JsString

abbrev pub chain_key_eqb : ChainKey → ChainKey → Bool
chain_key_eqb (c, s) (d, t) = chain_eqb c d && str_eqb s t

pub chain_key_eqb_iff : (j k : ChainKey) → (chain_key_eqb j k ≡ true) ↔ (j ≡ k)
chain_key_eqb_iff (c, s) (d, t) = ground (arith, chain_eqb_iff c d, str_eqb_iff s t)

instance abbrev pub chain_key_eq : Key ChainKey
chain_key_eq = record { eqb = chain_key_eqb; eqb_iff = chain_key_eqb_iff }

-- A value of a column.
pub data Cell : Type 0 where
  null : Cell
  text : JsString → Cell
  integer : ℕ → Cell

abbrev pub Row : Type 0
Row = JsMap JsString Cell

pub record User : Type 0 where
  pub user_id : ℕ
  pub username : Option JsString
  pub first_name : Option JsString
  pub sol_address : JsString
  pub dcc_address : JsString

-- A row of the table `deposits`.
pub record Deposit : Type 0 where
  pub id : JsString
  pub user_id : ℕ
  pub chain : Chain
  pub address : JsString
  pub token : JsString
  pub spl_mint : Option JsString
  pub amount_units : JsString
  pub tx_sig : JsString
  pub slot_or_height : ℕ
  pub processed : Bool

pub record Store : Type 0 where
  pub users : JsMap ℕ User
  pub transfers : JsMap JsString Row
  pub deposits : List Deposit
  pub cursors : JsMap ChainKey ℕ

-- `text || null`
unfoldable pub or_null : Option JsString → Option JsString
or_null none = none
or_null (some []) = none
or_null (some (c ∷ s)) = some (c ∷ s)

abbrev pub cell_of : Option JsString → Cell
cell_of none = null
cell_of (some s) = text s

unfoldable pub get_user : ℕ → Store → Option User
get_user user_id s = get user_id s.users

-- The names of a user that is there are replaced, its addresses are kept.
unfoldable pub merge_user : Option User → User → User
merge_user none new = new
merge_user (some old) new = record old { username = new.username; first_name = new.first_name }

unfoldable pub upsert_user :
    ℕ → Option JsString → Option JsString → JsString → JsString → Store → Store
unfolding merge_user or_null
upsert_user user_id username first_name sol_address dcc_address s =
    let new : User = record {
      user_id = user_id;
      username = or_null username;
      first_name = or_null first_name;
      sol_address = sol_address;
      dcc_address = dcc_address;
    } in
    record s { users = set user_id (merge_user (get user_id s.users) new) s.users }

pub record NewTransfer : Type 0 where
  pub user_id : ℕ
  pub direction : JsString
  pub token : JsString
  pub spl_mint : Option JsString
  pub amount_units : ℕ
  pub decimals : ℕ
  pub src_address : JsString
  pub dst_address : JsString

-- The inserted row, with the schema's defaults.
unfoldable pub transfer_row : JsString → NewTransfer → ℕ → Row
unfolding or_null
transfer_row id t now =
    (codes "id", text id)
    ∷ (codes "user_id", integer t.user_id)
    ∷ (codes "direction", text t.direction)
    ∷ (codes "token", text t.token)
    ∷ (codes "spl_mint", cell_of (or_null t.spl_mint))
    ∷ (codes "amount_units", text (decimal t.amount_units))
    ∷ (codes "decimals", integer t.decimals)
    ∷ (codes "src_address", text t.src_address)
    ∷ (codes "dst_address", text t.dst_address)
    ∷ (codes "transfer_id", null)
    ∷ (codes "sol_tx_sig", null)
    ∷ (codes "dcc_tx_id", null)
    ∷ (codes "status", text (codes "pending"))
    ∷ (codes "error", null)
    ∷ (codes "notify_msg_id", null)
    ∷ (codes "created_at", integer now)
    ∷ (codes "updated_at", integer now)
    ∷ []

-- The insertion throws, here `none`, where the id is that of another row.
unfoldable pub insert_transfer : Option Row → JsString → Row → Store → Option Store
insert_transfer (some old) id row s = none
insert_transfer none id row s = some (record s { transfers = set id row s.transfers })

unfoldable pub create_transfer : JsString → NewTransfer → ℕ → Store → Option Store
unfolding insert_transfer
create_transfer id t now s = insert_transfer (get id s.transfers) id (transfer_row id t now) s

unfoldable pub get_transfer : JsString → Store → Option Row
get_transfer id s = get id s.transfers

abbrev pub updatable_cols : List JsString
updatable_cols =
    codes "status"
    ∷ codes "error"
    ∷ codes "transfer_id"
    ∷ codes "sol_tx_sig"
    ∷ codes "dcc_tx_id"
    ∷ codes "notify_msg_id"
    ∷ []

-- The fields whose columns may be updated.
unfoldable pub updatable : List (JsString × Cell) → List (JsString × Cell)
updatable [] = []
updatable ((k, v) ∷ fields) =
    if includes k updatable_cols then (k, v) ∷ updatable fields else updatable fields

unfoldable pub set_columns : List (JsString × Cell) → Row → Row
set_columns [] row = row
set_columns ((k, v) ∷ fields) row = set_columns fields (set k v row)

unfoldable pub update_row : Option Row → JsString → List (JsString × Cell) → ℕ → Store → Store
unfolding set_columns
update_row none id fields now s = s
update_row (some row) id fields now s = record s {
  transfers = set id (set (codes "updated_at") (integer now) (set_columns fields row)) s.transfers;
}

unfoldable pub update_entries : JsString → List (JsString × Cell) → ℕ → Store → Store
unfolding update_row
update_entries id [] now s = s
update_entries id (f ∷ fields) now s = update_row (get id s.transfers) id (f ∷ fields) now s

unfoldable pub update_transfer : JsString → List (JsString × Cell) → ℕ → Store → Store
unfolding update_entries updatable
update_transfer id fields now s = update_entries id (updatable fields) now s

pub record NewDeposit : Type 0 where
  pub chain : Chain
  pub user_id : ℕ
  pub address : JsString
  pub token : JsString
  pub spl_mint : Option JsString
  pub amount_units : ℕ
  pub tx_sig : JsString
  pub slot_or_height : ℕ

-- The row has the id, or the chain and the signature.
abbrev pub same_key : JsString → ChainKey → Deposit → Bool
same_key id k d = (d.id == id) || ((d.chain, d.tx_sig) == k)

unfoldable pub deposit_row : JsString → NewDeposit → Deposit
unfolding or_null
deposit_row id d = record {
  id = id;
  user_id = d.user_id;
  chain = d.chain;
  address = d.address;
  token = d.token;
  spl_mint = or_null d.spl_mint;
  amount_units = decimal d.amount_units;
  tx_sig = d.tx_sig;
  slot_or_height = d.slot_or_height;
  processed = false;
}

-- The store, and `isNew`: an insertion against one of the two unique keys changes nothing.
unfoldable pub record_deposit : JsString → NewDeposit → Store → Store × Bool
unfolding deposit_row
record_deposit id d s =
    if any (same_key id (d.chain, d.tx_sig)) s.deposits
    then (s, false)
    else (record s { deposits = s.deposits ++ deposit_row id d ∷ [] }, true)

unfoldable pub mark_rows : JsString → Chain → List Deposit → List Deposit
mark_rows tx_sig chain [] = []
mark_rows tx_sig chain (d ∷ ds) =
    (if chain_key_eqb (d.chain, d.tx_sig) (chain, tx_sig) then record d { processed = true } else d)
    ∷ mark_rows tx_sig chain ds

unfoldable pub mark_deposit_processed : JsString → Chain → Store → Store
unfolding mark_rows
mark_deposit_processed tx_sig chain s = record s { deposits = mark_rows tx_sig chain s.deposits }

is_unprocessed : Deposit → Bool
is_unprocessed d = if d.processed then false else true

unfoldable pub get_unprocessed_deposits : Store → List Deposit
unfolding is_unprocessed
get_unprocessed_deposits s = filterb is_unprocessed s.deposits

unfoldable pub or_zero : Option ℕ → ℕ
or_zero none = 0
or_zero (some n) = n

unfoldable pub get_scan_cursor : Chain → JsString → Store → ℕ
unfolding or_zero
get_scan_cursor chain address s = or_zero (get (chain, address) s.cursors)

unfoldable pub set_scan_cursor : Chain → JsString → ℕ → Store → Store
set_scan_cursor chain address last_slot s = record s {
  cursors = set (chain, address) last_slot s.cursors;
}
