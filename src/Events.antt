-- ===== src/Events.antt =====
-- The bridge events that the watchers emit and the consensus engine attests to:
-- validator/src/watchers/solana-watcher.ts (SolanaDepositEvent) and
-- validator/src/watchers/dcc-watcher.ts (DccBurnEvent).
use sol_gateway_dcc.Base.{ℕ, JsString}
use sol_gateway_dcc.Base.Int.{ℤ}
pub use sol_gateway_dcc.Js.Numerals.{JsNumber, nan, int}

pub record SolanaDepositEvent : Type 0 where
  pub transfer_id : JsString
  pub sender : JsString
  pub recipient_dcc : JsString
  pub amount : ℕ
  pub nonce : ℕ
  pub slot : ℕ
  pub timestamp : ℤ
  pub chain_id : ℕ
  pub signature : JsString
  pub confirmations : ℤ

pub record DccBurnEvent : Type 0 where
  pub burn_id : JsString
  pub sender : JsString
  pub sol_recipient : JsString
  pub amount : ℤ
  pub height : JsNumber
  pub timestamp : JsNumber
  pub tx_id : JsString
  pub confirmations : ℤ

pub data BridgeEvent : Type 0 where
  deposit : SolanaDepositEvent → BridgeEvent
  burn : DccBurnEvent → BridgeEvent
