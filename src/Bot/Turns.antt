-- ===== src/Bot/Turns.antt =====
-- A deposit's turn of telegram-bot/src/bridge/monitor.cjs has two parts, before and after the await of its
-- notification. The first parts: begin_spl, begin_sol and begin_burn write the deposit and its transfer. `sha256` is
-- createHash('sha256') to hexadecimal. What the messages say is left out. Amounts are those that the scans return.
use sol_gateway_dcc.Base.{
  ℕ, Bool, true, false, Option, none, some, [], ◌∷◌, JsString, codes, str_eq, leb, ltb,
  if◌then◌else◌,
}
use sol_gateway_dcc.Js.Map.{JsMap, get}
use sol_gateway_dcc.Bot.Store.{
  solana, dcc, ChainKey, User, NewTransfer, NewDeposit, Store, create_transfer, record_deposit,
  or_zero,
}
use sol_gateway_dcc.Bot.Scan.{SplTransfer, SolTransfer, Burn}

pub record TokenInfo : Type 0 where
  pub symbol : JsString
  pub decimals : ℕ

pub record Monitor : Type 0 where
  pub sol_slots : JsMap JsString ℕ
  pub dcc_heights : JsMap JsString ℕ
  pub store : Store

abbrev pub native_sol_mint : JsString
native_sol_mint = codes "So11111111111111111111111111111111111111112"

abbrev token : JsString → JsString → ℕ → JsString × TokenInfo
token symbol mint decimals = (mint, record { symbol = symbol; decimals = decimals })

-- buildTokenIndex over KNOWN_TOKENS of chains/solana.cjs.
abbrev pub token_by_mint : JsMap JsString TokenInfo
token_by_mint =
    token (codes "SOL") (codes "So11111111111111111111111111111111111111112") 9
    ∷ token (codes "USDC") (codes "EPjFWdd5AufqSSqeM2qN1xzybapC8G4wEGGkZwyTDt1v") 6
    ∷ token (codes "USDT") (codes "Es9vMFrzaCERmJfrF4H2FYD4KCoNkY11McCe8BenwNYB") 6
    ∷ token (codes "PYUSD") (codes "2b1kV6DkPAnxd5ixfnxCpjxmKwqjjaYmCZfHsFu24GXo") 6
    ∷ token (codes "JUP") (codes "JUPyiwrYJFskUPiHa7hkeR8VUtAeFoSYbKedZNsDvCN") 6
    ∷ token (codes "BONK") (codes "DezXAZ8z7PnrnRJjz3wXBoRgixCa6xjnB7YaB1pPB263") 5
    ∷ []

-- The arguments of relaySolToDcc and of relayDccToSol.
pub data RelayCall : Type 0 where
  sol_to_dcc :
      (transfer_id dcc_recipient : JsString) (amount_units : ℕ) (spl_mint : JsString) (sol_slot : ℕ)
      (db_transfer_id : JsString)
      → RelayCall
  dcc_to_sol :
      (burn_tx_id sol_recipient : JsString) (amount_units : ℕ) (spl_mint : Option JsString)
      (dcc_sender db_transfer_id : JsString)
      → RelayCall

pub data Kind : Type 0 where
  spl sol burn : Kind

-- A relay that waits for its notification: the call, the transaction that it is for, and the cursor that
-- is moved after the call.
pub record Waiting : Type 0 where
  pub call : RelayCall
  pub source : ChainKey
  pub kind : Kind
  pub address : JsString
  pub slot : ℕ

-- Two uuids and the time.
pub record Draws : Type 0 where
  pub deposit_id : JsString
  pub transfer_id : JsString
  pub now : ℕ

-- A turn is passed over by `continue`, or an exception ends the poll, or its relay waits.
pub data Begun : Type 0 where
  skipped raised : Begun
  waits : Waiting → Begun

unfoldable pub created : Option Store → Waiting → Monitor → Monitor × Begun
created none w m = (m, raised)
created (some s) w m = (record m { store = s }, waits w)

-- `if (!isNew) continue`, and the transfer's creation.
unfoldable pub recorded : Draws → NewTransfer → Waiting → Monitor → Store × Bool → Monitor × Begun
unfolding created
recorded draws t w m (s, false) = (record m { store = s }, skipped)
recorded draws t w m (s, true) =
    created (create_transfer draws.transfer_id t draws.now s) w (record m { store = s })

unfoldable pub begin_turn : Draws → NewDeposit → NewTransfer → Waiting → Monitor → Monitor × Begun
unfolding recorded
begin_turn draws d t w m = recorded draws t w m (record_deposit draws.deposit_id d m.store)

unfoldable pub begin_known :
    (JsString → JsString)
    → Draws
    → User
    → SplTransfer
    → Option TokenInfo
    → Monitor
    → Monitor × Begun
begin_known sha256 draws user t none m = (m, skipped)
begin_known sha256 draws user t (some info) m =
    begin_turn draws
      (record {
        chain = solana;
        user_id = user.user_id;
        address = user.sol_address;
        token = info.symbol;
        spl_mint = some t.mint;
        amount_units = t.amount_units;
        tx_sig = t.sig;
        slot_or_height = t.slot;
      })
      (record {
        user_id = user.user_id;
        direction = codes "sol_to_dcc";
        token = info.symbol;
        spl_mint = some t.mint;
        amount_units = t.amount_units;
        decimals = info.decimals;
        src_address = user.sol_address;
        dst_address = user.dcc_address;
      })
      (record {
        call =
            sol_to_dcc (sha256 t.sig) user.dcc_address t.amount_units t.mint t.slot
              draws.transfer_id;
        source = (solana, t.sig);
        kind = spl;
        address = user.sol_address;
        slot = t.slot;
      })
      m

unfoldable pub begin_spl :
    (JsString → JsString) → Draws → User → SplTransfer → Monitor → Monitor × Begun
unfolding begin_known
begin_spl sha256 draws user t m = begin_known sha256 draws user t (get t.mint token_by_mint) m

unfoldable pub begin_sol :
    (JsString → JsString) → Draws → User → SolTransfer → Monitor → Monitor × Begun
begin_sol sha256 draws user t m =
    if ltb t.amount_lamports 5000000
    then (m, skipped)
    else begin_turn draws
        (record {
          chain = solana;
          user_id = user.user_id;
          address = user.sol_address;
          token = codes "SOL";
          spl_mint = some native_sol_mint;
          amount_units = t.amount_lamports;
          tx_sig = t.sig;
          slot_or_height = t.slot;
        })
        (record {
          user_id = user.user_id;
          direction = codes "sol_to_dcc";
          token = codes "SOL";
          spl_mint = some native_sol_mint;
          amount_units = t.amount_lamports;
          decimals = 9;
          src_address = user.sol_address;
          dst_address = user.dcc_address;
        })
        (record {
          call =
              sol_to_dcc (sha256 t.sig) user.dcc_address t.amount_lamports native_sol_mint t.slot
                draws.transfer_id;
          source = (solana, t.sig);
          kind = sol;
          address = user.sol_address;
          slot = t.slot;
        })
        m

-- `text || other`
unfoldable pub or_text : Option JsString → JsString → JsString
or_text none other = other
or_text (some []) other = other
or_text (some (c ∷ s)) other = c ∷ s

unfoldable pub begin_of : Draws → Burn → Option User → Monitor → Monitor × Begun
unfolding or_text
begin_of draws b none m = (m, skipped)
begin_of draws b (some user) m =
    if leb b.height (or_zero (get b.sender m.dcc_heights))
    then (m, skipped)
    else begin_turn draws
        (record {
          chain = dcc;
          user_id = user.user_id;
          address = b.sender;
          token = or_text b.spl_mint (codes "UNKNOWN");
          spl_mint = b.spl_mint;
          amount_units = b.amount_units;
          tx_sig = b.dcc_tx_id;
          slot_or_height = b.height;
        })
        (record {
          user_id = user.user_id;
          direction = codes "dcc_to_sol";
          token = or_text b.spl_mint (codes "UNKNOWN");
          spl_mint = b.spl_mint;
          amount_units = b.amount_units;
          decimals = 6;
          src_address = b.sender;
          dst_address = or_text b.sol_recipient [];
        })
        (record {
          call =
              dcc_to_sol b.dcc_tx_id (or_text b.sol_recipient []) b.amount_units b.spl_mint b.sender
                draws.transfer_id;
          source = (dcc, b.dcc_tx_id);
          kind = burn;
          address = b.sender;
          slot = b.height;
        })
        m

-- The burns of senders that are no user's DCC address are passed over.
unfoldable pub begin_burn : Draws → JsMap JsString User → Burn → Monitor → Monitor × Begun
unfolding begin_of
begin_burn draws users b m = begin_of draws b (get b.sender users) m
