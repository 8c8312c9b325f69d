-- ===== src/Relay/Transfers.antt =====
-- telegram-bot/src/bridge/relay.cjs: relaySolToDcc and relayDccToSol, as what they write to the store, what
-- they notify, and whether they throw. A notification is taken to return, and what the calls of other
-- services do is an argument: each attempt at a mint or an unlock, and the wait for a transaction.
use sol_gateway_dcc.Base.{
  ℕ, Bool, ◌&&◌, not, Option, none, some, List, [], ◌∷◌, ◌++◌, JsString, codes, if◌then◌else◌,
}
use sol_gateway_dcc.Relay.Retry.{Attempt, succeeded, raised, with_retry}

-- A status, with the error, the transaction or the transfer that is written with it.
pub data Status : Type 0 where
  sol_confirmed complete pending_confirmation : Status
  dcc_confirmed pending_unlock : JsString → Status
  failed : JsString → Status
  dcc_minted : Option JsString → JsString → Status

pub data RelayOutput : Type 0 where
  update : Status → RelayOutput
  notify_failed : JsString → RelayOutput
  notify_complete notify_submitted notify_pending : RelayOutput

pub record RelayConfig : Type 0 where
  pub use_consensus : Bool
  pub has_validator_key : Bool

-- `if (onNotify)`
abbrev pub notify_if : Bool → RelayOutput → List RelayOutput
notify_if listening o = if listening then o ∷ [] else []

unfoldable pub finish_mint :
    Bool → Option JsString → (JsString → Attempt (Unit {0})) → List RelayOutput
finish_mint listening none wait = update pending_confirmation ∷ notify_if listening notify_complete
finish_mint listening (some id) wait = elim (wait id) [
  | succeeded _ ↦ update complete ∷ notify_if listening notify_complete
  | raised _ ↦ update pending_confirmation ∷ notify_if listening notify_complete
]

unfoldable pub settle_mint :
    Bool
    → JsString
    → (JsString → Attempt (Unit {0}))
    → Attempt (Option JsString)
    → List RelayOutput × Attempt (Option JsString)
unfolding finish_mint
settle_mint listening transfer_id wait (raised e) =
    (update (failed e) ∷ notify_if listening (notify_failed e), raised e)
settle_mint listening transfer_id wait (succeeded id) =
    (update (dcc_minted id transfer_id) ∷ finish_mint listening id wait, succeeded id)

-- A minted transaction is `none` where the answer holds no id, or an empty one.
unfoldable pub relay_sol_to_dcc :
    RelayConfig
    → Bool
    → JsString
    → (ℕ → Attempt (Option JsString))
    → (JsString → Attempt (Unit {0}))
    → List RelayOutput × Attempt (Option JsString)
unfolding settle_mint with_retry
relay_sol_to_dcc config listening transfer_id mint wait =
    if not config.use_consensus && not config.has_validator_key
    then ([], raised (codes "DCC_VALIDATOR_SEED not configured and consensus mode not enabled"))
    else let (os, r) = settle_mint listening transfer_id wait (with_retry mint).0 in
      (update sol_confirmed ∷ os, r)

unfoldable pub settle_unlock :
    Bool → JsString → Attempt (Unit {0}) → List RelayOutput × Attempt (Unit {0})
settle_unlock listening burn_tx_id (raised e) =
    (update (failed e) ∷ notify_if listening (notify_failed e), raised e)
settle_unlock listening burn_tx_id (succeeded _) =
    (update (pending_unlock burn_tx_id) ∷ notify_if listening notify_submitted, succeeded tt)

unfoldable pub relay_dcc_to_sol :
    RelayConfig → Bool → JsString → (ℕ → Attempt (Unit {0})) → List RelayOutput × Attempt (Unit {0})
unfolding settle_unlock with_retry
relay_dcc_to_sol config listening burn_tx_id unlock =
    let (os, r) =
      if config.use_consensus then settle_unlock listening burn_tx_id (with_retry unlock).0 else (
        notify_if listening notify_pending ++ update (pending_unlock burn_tx_id) ∷ [],
        succeeded tt,
      ) in
    (update (dcc_confirmed burn_tx_id) ∷ os, r)
