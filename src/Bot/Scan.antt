-- ===== src/Bot/Scan.antt =====
-- What the bot sees on the chains: scanIncomingSpl and scanIncomingSol of
-- telegram-bot/src/chains/solana.cjs, and scanBurnRecords of telegram-bot/src/chains/dcc.cjs, over the
-- answers of the nodes: getParsedTransaction by signature, and the list of a contract's transactions.
use sol_gateway_dcc.Base.{
  ℕ, suc, zero, ◌-◌, Bool, false, ◌||◌, not, Option, none, some, List, [], ◌∷◌, ◌++◌, JsString,
  codes, str_eq, ◌==◌, nat_eqb, leb, ltb, if◌then◌else◌, get_elem?,
}
use sol_gateway_dcc.Base.Int.{ℤ, pos, negsuc, ◌-ℤ◌}
use sol_gateway_dcc.Js.Numerals.{to_bigint}
use sol_gateway_dcc.Js.Bytes.{to_number}

pub record SigInfo : Type 0 where
  pub signature : JsString
  pub slot : ℕ

pub record TokenBalance : Type 0 where
  pub account_index : ℕ
  pub mint : JsString
  pub owner : JsString
  pub amount : JsString

-- A parsed transaction with its `meta`.
pub record ParsedTx : Type 0 where
  pub account_keys : List JsString
  pub pre_balances : List ℕ
  pub post_balances : List ℕ
  pub pre_token_balances : List TokenBalance
  pub post_token_balances : Option (List TokenBalance)

-- The call fails, or answers with null or a transaction without `meta`, or with one that has it.
pub data Fetched : Type 0 where
  failed absent : Fetched
  found : ParsedTx → Fetched

pub record SplTransfer : Type 0 where
  pub mint : JsString
  pub amount_units : ℕ
  pub from_address : JsString
  pub sig : JsString
  pub slot : ℕ

pub record SolTransfer : Type 0 where
  pub amount_lamports : ℕ
  pub from_address : JsString
  pub sig : JsString
  pub slot : ℕ

-- `pre?.uiTokenAmount?.amount || '0'`
amount_before : ℕ → List TokenBalance → JsString
amount_before index [] = codes "0"
amount_before index (b ∷ bs) =
    if nat_eqb b.account_index index
    then (if b.amount == [] then codes "0" else b.amount)
    else amount_before index bs

-- What one balance adds; `none` where BigInt or an access of the payer throws.
unfoldable pub gain :
    Option ℤ → Option ℤ → List JsString → TokenBalance → SigInfo → Option (List SplTransfer)
gain none post keys b i = none
gain (some pre) none keys b i = none
gain (some pre) (some post) keys b i = elim (post -ℤ pre) [
  | negsuc n ↦ some []
  | pos zero ↦ some []
  | pos (suc n) ↦ elim keys [
    | [] ↦ none
    | payer ∷ _ ↦ some (
        record {
          mint = b.mint;
          amount_units = to_number (suc n);
          from_address = payer;
          sig = i.signature;
          slot = i.slot;
        }
        ∷ [])
  ]
]

-- A balance that throws ends its transaction, and keeps what was pushed before it.
unfoldable pub and_more : Option (List SplTransfer) → List SplTransfer → List SplTransfer
and_more none more = []
and_more (some ts) more = ts ++ more

unfoldable pub spl_gains : JsString → ParsedTx → SigInfo → List TokenBalance → List SplTransfer
unfolding gain and_more amount_before
spl_gains owner tx i [] = []
spl_gains owner tx i (b ∷ bs) =
    let more = spl_gains owner tx i bs in
    if b.owner == owner
    then and_more
        (gain (to_bigint (amount_before b.account_index tx.pre_token_balances)) (to_bigint b.amount)
          tx.account_keys b i)
        more
    else more

unfoldable pub spl_of : JsString → SigInfo → Fetched → List SplTransfer
unfolding spl_gains
spl_of owner i failed = []
spl_of owner i absent = []
spl_of owner i (found tx) = elim tx.post_token_balances [
  | none ↦ []
  | some bs ↦ spl_gains owner tx i bs
]

unfoldable pub scan_incoming_spl :
    (JsString → Fetched) → JsString → ℕ → List SigInfo → List SplTransfer
unfolding spl_of
scan_incoming_spl fetch owner since [] = []
scan_incoming_spl fetch owner since (i ∷ sigs) =
    let more = scan_incoming_spl fetch owner since sigs in
    if leb i.slot since then more else spl_of owner i (fetch i.signature) ++ more

find_index : JsString → List JsString → Option ℕ
find_index a [] = none
find_index a (k ∷ ks) =
    if k == a then some 0 else elim (find_index a ks) [ none ↦ none | some n ↦ some (suc n) ]

-- `postLamports - preLamports` where it is above 0. Each account has its two balances.
unfoldable pub sol_gain : Option ℕ → Option ℕ → List JsString → SigInfo → List SolTransfer
sol_gain none post keys i = []
sol_gain (some pre) none keys i = []
sol_gain (some pre) (some post) [] i = []
sol_gain (some pre) (some post) (payer ∷ keys) i =
    if ltb pre post
    then record {
      amount_lamports = post - pre;
      from_address = payer;
      sig = i.signature;
      slot = i.slot;
    }
      ∷ []
    else []

unfoldable pub sol_of : JsString → SigInfo → Fetched → List SolTransfer
unfolding find_index sol_gain
sol_of owner i failed = []
sol_of owner i absent = []
sol_of owner i (found tx) = elim (find_index owner tx.account_keys) [
  | none ↦ []
  | some n ↦ sol_gain (get_elem? tx.pre_balances n) (get_elem? tx.post_balances n) tx.account_keys i
]

unfoldable pub scan_incoming_sol :
    (JsString → Fetched) → JsString → ℕ → List SigInfo → List SolTransfer
unfolding sol_of
scan_incoming_sol fetch owner since [] = []
scan_incoming_sol fetch owner since (i ∷ sigs) =
    let more = scan_incoming_sol fetch owner since sigs in
    if leb i.slot since then more else sol_of owner i (fetch i.signature) ++ more

-- A transaction of the DCC node's list, with the first two arguments and the first payment of its call.
pub record NodeTx : Type 0 where
  pub id : JsString
  pub sender : JsString
  pub height : ℕ
  pub kind : ℕ
  pub d_app : JsString
  pub called : Option JsString
  pub first_arg : Option JsString
  pub second_arg : Option JsString
  pub payment : Option ℕ

pub record Burn : Type 0 where
  pub dcc_tx_id : JsString
  pub sender : JsString
  pub sol_recipient : Option JsString
  pub spl_mint : Option JsString
  pub amount_units : ℕ
  pub height : ℕ

is_burn_token : Option JsString → Bool
is_burn_token none = false
is_burn_token (some f) = f == codes "burnToken"

-- `tx.payment?.[0]?.amount || 0`
paid : Option ℕ → ℕ
paid none = 0
paid (some n) = n

unfoldable pub scan_burn_records : JsString → ℕ → List NodeTx → List Burn
unfolding is_burn_token paid
scan_burn_records bridge since [] = []
scan_burn_records bridge since (tx ∷ txs) =
    let more = scan_burn_records bridge since txs in
    if leb tx.height since
      || not (nat_eqb tx.kind 16)
      || not (tx.d_app == bridge)
      || not (is_burn_token tx.called)
    then more
    else record {
      dcc_tx_id = tx.id;
      sender = tx.sender;
      sol_recipient = tx.first_arg;
      spl_mint = tx.second_arg;
      amount_units = paid tx.payment;
      height = tx.height;
    }
      ∷ more
